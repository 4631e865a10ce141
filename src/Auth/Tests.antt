-- ===== src/Auth/Tests.antt =====
-- Runs of the second factor and of the lockout on the bank of the banking tests.
use sitbank.Bank.Tests.{bank, request, ann}
use sitbank.Base.{
  ◌∷◌, List, none, refl, ℕ, true, [], ◌≡◌, some, ◌≢◌, arith, false, leb, any, codes_eq,
}
use sitbank.Bank.Store.{calls, ok, commit, rollback, ledger_fits, balance_fits, find_user}
use sitbank.Auth.Totp.Replay.{verify_run}
use sitbank.Bank.Rules.{Keeps}
use sitbank.Auth.Totp.Steps.{Accepted, accepted_totp_step-Accepted}
use sitbank.Auth.Totp.{
  accepted_totp_step, verify_totp_secret_for_user_outcome, invalid, valid, has_six_digits, is_digit,
  verify_totp_code_for_user, accepted_from, compare_digest, totp_valid_window, settle_step,
  store_replay, insert_replay, replay_record, totp_replay_scope, answer_stored, answer_invalid,
}
use sitbank.Bank.TopUp.{topup_view}
use sitbank.Bank.Money.{money}
use sitbank.Auth.Totp.SecondFactor.{verify_totp_code_for_user-Keeps}
use sitbank.Auth.Throttle.{
  enforce_auth_backoff, load_counter_row, answer_backoff, clear_user_failures, record_user_failure,
  on_attempts, is_expired, is_login,
}
use sitbank.Security.RateLimits.{
  apply_exponential_backoff, load_counter, backoff_start_attempts, record_failure,
  load_or_create_counter, new_counter,
}
use sitbank.Auth.Rows.{same_replay, counter_for, ServerSideSession}
use sitbank.Auth.Lockout.{
  clear_user_security_failures, is_active_session, revoke_all_sessions,
  user_security_lock_threshold,
}
use sitbank.Bank.Types.{User, customer}
use sitbank.Auth.Totp.Once.{verify_totp_secret_for_user_outcome-once}
use sitbank.Auth.Totp.Waits.{verify_totp_secret_for_user_outcome-waits}
use sitbank.Auth.Lockout.Sessions.{spared, revoke_all_sessions_exact}
use sitbank.Auth.Lockout.Threshold.{record_failures, record_user_security_failure-locks}
use sitbank.Bank.Request.{is_blocked}

abbrev good_code : List ℕ
good_code = 49 ∷ 49 ∷ 49 ∷ 49 ∷ 49 ∷ 49 ∷ []

abbrev wrong_code : List ℕ
wrong_code = 50 ∷ 50 ∷ 50 ∷ 50 ∷ 50 ∷ 50 ∷ []

accepted_totp_step-Accepted_example :
    Accepted request "secret" good_code 1_000_000 1
      (accepted_totp_step request "secret" good_code 1_000_000 1)
accepted_totp_step-Accepted_example =
    accepted_totp_step-Accepted request "secret" good_code 1_000_000 1

verify_totp_code_for_user-Keeps_example :
    Keeps topup_view
      (λ x. money x.0 ≡ money bank.ledger)
      (topup_view bank)
      (topup_view bank)
      (λ _. Unit {0})
      (verify_totp_code_for_user request ann good_code "account_topup_approval")
verify_totp_code_for_user-Keeps_example =
    verify_totp_code_for_user-Keeps request good_code "account_topup_approval" ann
      (money bank.ledger) (topup_view bank)

-- What a verification runs through.
unfoldable verifying : Unit {0}
unfolding calls verify_totp_secret_for_user_outcome has_six_digits is_digit enforce_auth_backoff
    load_counter_row apply_exponential_backoff load_counter backoff_start_attempts answer_backoff
    accepted_totp_step accepted_from compare_digest totp_valid_window settle_step store_replay
    insert_replay same_replay replay_record totp_replay_scope answer_stored clear_user_failures
    clear_user_security_failures counter_for commit rollback ledger_fits answer_invalid
    record_user_failure record_failure on_attempts is_expired balance_fits codes_eq
    load_or_create_counter new_counter
verifying = tt

accepted_run : (verify_run request ann "secret" good_code "transfer" none true bank).0 ≡ ok valid
unfolding verifying
accepted_run = refl

wrong_run : (verify_run request ann "secret" wrong_code "transfer" none true bank).0 ≡ ok invalid
unfolding verifying
wrong_run = refl

verify_totp_secret_for_user_outcome-once_example :
    (verify_run request ann "secret" good_code "payup_transfer" none true
      (verify_run request ann "secret" good_code "transfer" none true bank).1.committed).0
    ≢ ok valid
unfolding verifying
verify_totp_secret_for_user_outcome-once_example =
    verify_totp_secret_for_user_outcome-once request request ann "secret" good_code "transfer"
      "payup_transfer" none none true true bank
      (verify_run request ann "secret" good_code "transfer" none true bank).1.committed accepted_run
      (λ r h. h) refl refl (λ k scope. refl)

verify_totp_secret_for_user_outcome-waits_example :
    (verify_run request ann "secret" good_code "transfer" none true
      (verify_run request ann "secret" wrong_code "transfer" none true bank).1.committed).0
    ≢ ok valid
unfolding is_login
verify_totp_secret_for_user_outcome-waits_example =
    verify_totp_secret_for_user_outcome-waits request request ann "secret" "secret" wrong_code
      good_code "transfer" none none bank refl wrong_run (ground arith)

record_user_security_failure-locks_example :
    (after : User) × (find_user 1
        (record_failures request ann "password" "too many" (5 ∷ 6 ∷ 7 ∷ []) bank).ledger.users
      ≡ some after)
    × (is_blocked after ≡ leb (user_security_lock_threshold request customer "password") 3)
unfolding verifying is_blocked
record_user_security_failure-locks_example =
    record_user_security_failure-locks request ann "password" "too many" 5 (6 ∷ 7 ∷ []) bank ann
      (λ a. refl) refl refl refl refl (ground arith)

abbrev session_of : ℕ → ServerSideSession
session_of user = record {
  user_id = user;
  component = "customer";
  expires_at = 900;
  payload = some "sealed";
  revoked_at = none;
  ended_at = none;
  ended_reason = none;
}

-- A customer's sessions ended from the admin app: the stale row of the admin component goes too.
abbrev session_rows : List ServerSideSession
session_rows =
    session_of 1
    ∷ session_of 2
    ∷ record (session_of 1) { component = "admin"; expires_at = 400 }
    ∷ []

revoke_all_sessions_exact_example :
    (any
        (is_active_session "customer" 1 500)
        (revoke_all_sessions "admin" (some "customer") "revoked" 1 500 session_rows)
      ≡ false)
    × (spared "admin" "customer" 1 500
          (revoke_all_sessions "admin" (some "customer") "revoked" 1 500 session_rows)
        ≡ session_of 2 ∷ [])
revoke_all_sessions_exact_example =
    revoke_all_sessions_exact "admin" (some "customer") "revoked" 1 500 session_rows
