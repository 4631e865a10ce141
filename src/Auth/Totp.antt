-- ===== src/Auth/Totp.antt =====
-- Verification of one-time codes: `_verify_totp_secret_for_user_outcome` of app/auth/services.py
-- and what it calls.
pub mod SecondFactor
pub mod Steps
pub mod Replay
pub mod Waits
pub mod Once
use sitbank.Base.{
  ℕ, zero, suc, ◌+◌, ◌-◌, ◌*◌, ◌/◌, max, String, Bool, true, false, ◌&&◌, Option, none, some, List,
  [], ◌∷◌, all, any, length, ltb, leb, ◌==◌, str_eq, codes_eq, if◌then◌else◌,
}
use sitbank.Bank.Types.{
  User, Error, auth, frozen_account, account_frozen_topup, integrity_error, invalid_tag, type_error,
  mfa_not_configured,
}
use sitbank.Bank.Store.{
  Action, ok, err, begin, pure, raise, when, or_else, catch, commit, rollback, ◌>>=◌, ◌>>◌,
}
use sitbank.Bank.Request.{Request}
use sitbank.Auth.Rows.{TotpReplayRecord, same_replay}
use sitbank.Auth.Throttle.{enforce_auth_backoff, record_user_failure, clear_user_failures}
use sitbank.Auth.Lockout.{record_user_security_failure, clear_user_security_failures}

pub data TotpVerificationOutcome : Type 0 where
  valid invalid replay : TotpVerificationOutcome

pub is_ascii : List ℕ → Bool
is_ascii = all (λ c. ltb c 128)

-- `hmac.compare_digest` of an ASCII text with another text; none is its `TypeError`.
unfoldable pub compare_digest : List ℕ → List ℕ → Option Bool
unfolding is_ascii
compare_digest expected code = if is_ascii code then some (codes_eq expected code) else none

-- `CUSTOMER_HIGH_RISK_TOTP_REPLAY_SCOPES`
abbrev pub customer_high_risk_totp_replay_scopes : List String
customer_high_risk_totp_replay_scopes =
    "account_freeze" ∷ "account_topup_approval" ∷ "mfa_replace_start" ∷ "password_change"
    ∷ "payee_add" ∷ "payee_remove" ∷ "payup_transfer" ∷ "profile_email_change_commit"
    ∷ "profile_email_change_request" ∷ "profile_update" ∷ "recovery_codes_regenerate"
    ∷ "session_revoke_others" ∷ "transaction_authorization" ∷ "transfer" ∷ "transfer_limits_change"
    ∷ []

-- `_totp_replay_scope`, of a scope without blanks around it.
unfoldable pub totp_replay_scope : String → String
totp_replay_scope scope =
    if any (str_eq scope) customer_high_risk_totp_replay_scopes
    then "customer_high_risk_action"
    else scope

-- `except AuthError`, with its subclasses.
is_auth_error : Error → Bool
is_auth_error (auth code reason) = true
is_auth_error (frozen_account a) = true
is_auth_error account_frozen_topup = true
is_auth_error _ = false

-- Adding a replay record and flushing it: a second row with the same columns breaks the unique
-- constraint, and rolls the transaction back.
unfoldable pub insert_replay : TotpReplayRecord → Action (Unit {0})
unfolding same_replay
insert_replay r s =
    if any (same_replay r) s.working.totp_replays
    then (err integrity_error, begin s.committed)
    else (
      ok tt,
      record s { working = record s.working { totp_replays = r ∷ s.working.totp_replays } },
    )

-- `except IntegrityError` of the replay record's commit.
unfoldable pub on_replay_error : Error → Action Bool
on_replay_error integrity_error = do rollback; pure false
on_replay_error e = raise e

-- Storing the replay record; a record that is there already, or a failing commit, is a replay.
unfoldable pub store_replay : TotpReplayRecord → Action Bool
unfolding insert_replay on_replay_error
store_replay r = catch (do insert_replay r; commit; pure true) on_replay_error

module _ (q : Request) where
  -- `re.fullmatch(r"\d{6}", code)`
  unfoldable pub is_digit : ℕ → Bool
  is_digit c = if ltb c 128 then leb 48 c && leb c 57 else q.is_wide_digit c

  unfoldable pub has_six_digits : List ℕ → Bool
  unfolding is_digit
  has_six_digits code = length code == 6 && all is_digit code

  -- `_totp_valid_window`
  unfoldable pub totp_valid_window : String → Option ℕ → ℕ
  totp_valid_window scope (some w) = w
  totp_valid_window scope none =
      if str_eq scope "mfa_login" then q.totp_login_valid_window else q.totp_high_risk_valid_window

  -- The loop of `_accepted_totp_step` over the `n` offsets from `i - valid_window` on; none is the
  -- comparison's error, some none no accepted step.
  unfoldable pub accepted_from : String → List ℕ → ℕ → ℕ → ℕ → ℕ → Option (Option ℕ)
  unfolding compare_digest
  accepted_from secret code current window i zero = some none
  accepted_from secret code current window i (suc n) =
      let rest = accepted_from secret code current window (suc i) n in
      if ltb (current + i) window
      then rest
      else elim (compare_digest (q.totp_at secret ((current + i - window) * 30)) code) [
        | none ↦ none
        | some equal ↦ if equal then some (some (current + i - window)) else rest
      ]

  -- `_accepted_totp_step`
  unfoldable pub accepted_totp_step : String → List ℕ → ℕ → ℕ → Option (Option ℕ)
  unfolding accepted_from
  accepted_totp_step secret code now window =
      accepted_from secret code (now / 30) window 0 (2 * window + 1)

  unfoldable pub replay_record : ℕ → String → ℕ → List ℕ → ℕ → TotpReplayRecord
  unfolding totp_replay_scope
  replay_record user scope step code window = record {
    user_id = user;
    scope = totp_replay_scope scope;
    time_step = step;
    code_digest = q.replay_digest user (totp_replay_scope scope) step code;
    expires_at = q.now + max 30 ((window * 2 + 2) * 30) * 1_000_000;
  }

  -- What a code that is not accepted costs.
  unfoldable pub answer_invalid : ℕ → String → Bool → Action TotpVerificationOutcome
  answer_invalid user scope track_failures = do
    when track_failures (do record_user_failure q scope user; pure tt)
    pure invalid

  -- `except AuthError` of the backoff.
  unfoldable pub on_backoff_error : User → Error → Action (Unit {0})
  unfolding is_auth_error
  on_backoff_error u e = do
    when (is_auth_error e) (record_user_security_failure q u "mfa" "mfa_failed_attempts")
    raise e

  -- After the attempt to store the replay record.
  unfoldable pub answer_stored : ℕ → String → Bool → Bool → Action TotpVerificationOutcome
  answer_stored user scope track_failures false = pure replay
  answer_stored user scope track_failures true = do
    when track_failures (clear_user_failures q scope user)
    clear_user_security_failures q user "mfa"
    pure valid

  unfoldable pub settle_step :
      ℕ → String → List ℕ → ℕ → Bool → Option ℕ → Action TotpVerificationOutcome
  unfolding answer_invalid replay_record store_replay answer_stored
  settle_step user scope code window track_failures none = answer_invalid user scope track_failures
  settle_step user scope code window track_failures (some step) = do
    stored ← store_replay (replay_record user scope step code window)
    answer_stored user scope track_failures stored

  -- `_verify_totp_secret_for_user_outcome`; `mark_fresh_mfa` writes the cookie's session only.
  unfoldable pub verify_totp_secret_for_user_outcome :
      User → String → List ℕ → String → Option ℕ → Bool → Action TotpVerificationOutcome
  unfolding has_six_digits totp_valid_window accepted_totp_step answer_invalid on_backoff_error
      settle_step
  verify_totp_secret_for_user_outcome u secret code scope valid_window track_failures =
      let window = totp_valid_window scope valid_window in
      if has_six_digits code
      then (do
        when track_failures (catch (enforce_auth_backoff q scope u.id) (on_backoff_error u))
        step ← or_else (accepted_totp_step secret code q.unix_now window) (raise type_error)
        settle_step u.id scope code window track_failures step)
      else answer_invalid u.id scope track_failures

  -- `_mfa_secret_for_user`
  unfoldable pub mfa_secret_for_user : User → Action String
  mfa_secret_for_user u = do
    sealed ← or_else u.mfa_secret (raise (auth 403 mfa_not_configured))
    or_else (q.decrypt_mfa_secret u.id sealed) (raise invalid_tag)

  -- `_verify_totp_for_user_outcome`
  unfoldable pub verify_totp_for_user_outcome :
      User → List ℕ → String → Option ℕ → Bool → Action TotpVerificationOutcome
  unfolding verify_totp_secret_for_user_outcome mfa_secret_for_user
  verify_totp_for_user_outcome u code scope valid_window track_failures = do
    secret ← mfa_secret_for_user u
    verify_totp_secret_for_user_outcome u secret code scope valid_window track_failures

  abbrev is_valid : TotpVerificationOutcome → Bool
  is_valid valid = true
  is_valid _ = false

  -- `verify_totp_code_for_user`
  unfoldable pub verify_totp_code_for_user : User → List ℕ → String → Action Bool
  unfolding verify_totp_for_user_outcome
  verify_totp_code_for_user u code scope = do
    outcome ← verify_totp_for_user_outcome u code scope none true
    pure (is_valid outcome)
