-- ===== src/Auth/Totp/SecondFactor.antt =====
-- The verification of a one-time code is a second factor for the approval of top-ups.
use sitbank.Base.{
  ◌≡◌, ℕ, String, arith, subst, Bool, true, [], none, inl, some, refl, inr, ◌∙◌, ◌∷◌, Option, false,
  sym, List, Bool-cases, any,
}
use sitbank.Auth.Totp.{
  verify_totp_code_for_user, insert_replay, on_replay_error, answer_stored, settle_step,
  verify_totp_for_user_outcome, on_backoff_error, answer_invalid,
  verify_totp_secret_for_user_outcome, mfa_secret_for_user, has_six_digits, store_replay,
}
use sitbank.Bank.Types.{
  auth, Error, User, frozen_account, responded, integrity_error, account_frozen_topup,
  audit_write_error, no_such_row, signing_error, invalid_tag, type_error, TopUpApprovalRequest,
  value_error, invalid_operation,
}
use sitbank.Auth.Rows.{TotpReplayRecord, same_replay}
use sitbank.Bank.Request.{Request}
use sitbank.Bank.Store.{Db, rollback, update_user, calls, Session, Ledger}
use sitbank.Auth.Lockout.{lock_user, apply_lock}
use sitbank.Auth.Throttle.{on_attempts}
use sitbank.Auth.Keeps.{
  IsAuthView, add_replay, record_user_failure-Keeps, clear_user_failures-Keeps,
  clear_user_security_failures-Keeps, enforce_auth_backoff-Keeps,
  record_user_security_failure-Stays, enforce_auth_backoff-Stays,
}
use sitbank.Bank.TopUp.{SecondFactor, topup_view}
use sitbank.Bank.Rules.{Keeps, Keeps-bind, Refuses, Refuses-bind, Ends}
use sitbank.Bank.Money.{Money, accounts, money}
use sitbank.Bank.Rules.Steps.{pure-Keeps, or_else-Keeps, raise-Refuses, Keeps-map}
use sitbank.Bank.Rules.Open.{
  catch-Keeps_from, when-Keeps_open, commit-Keeps, catch-Keeps_refuse, when-Stays,
}
use sitbank.Bank.TopUp.Steps.{topup_view-IsView}

insert_replay-Keeps :
    {V : Type 0} {view : Db → V} {Safe : V → Type 0} {v w : V} (r : TotpReplayRecord)
    → ((d : Db) → view (add_replay r d) ≡ view d)
    → Keeps view Safe v w (λ _. Unit {0}) (insert_replay r)
unfolding insert_replay
insert_replay-Keeps {Safe} r e = record {
  keep = λ sv sw s h. elim (Bool-cases (any (same_replay r) s.working.totp_replays)) [
    | inl known ↦ rw known (subst Safe (sym h.0) sv)
    | inr fresh ↦ rw fresh (tt, (h.0, e s.working ∙ h.1))
  ];
}

module _ {V : Type 0} (view : Db → V) (Safe : V → Type 0) (v : V) where
  on_replay_error-Ends :
      (e : Error) (t : Session)
      → Safe v
      → view t.committed ≡ v
      → Ends view Safe v v (λ _. Unit {0}) (on_replay_error e t).0 (on_replay_error e t).1
  unfolding on_replay_error rollback calls
  on_replay_error-Ends integrity_error t sv h = (tt, (h, h))
  on_replay_error-Ends (frozen_account a) t sv h = subst Safe (sym h) sv
  on_replay_error-Ends account_frozen_topup t sv h = subst Safe (sym h) sv
  on_replay_error-Ends (auth code reason) t sv h = subst Safe (sym h) sv
  on_replay_error-Ends (responded code) t sv h = subst Safe (sym h) sv
  on_replay_error-Ends audit_write_error t sv h = subst Safe (sym h) sv
  on_replay_error-Ends no_such_row t sv h = subst Safe (sym h) sv
  on_replay_error-Ends signing_error t sv h = subst Safe (sym h) sv
  on_replay_error-Ends invalid_tag t sv h = subst Safe (sym h) sv
  on_replay_error-Ends type_error t sv h = subst Safe (sym h) sv
  on_replay_error-Ends value_error t sv h = subst Safe (sym h) sv
  on_replay_error-Ends invalid_operation t sv h = subst Safe (sym h) sv

module _ (q : Request) {V : Type 0} {view : Db → V} {Safe : V → Type 0}
    (i : IsAuthView view Safe) where
  pub on_backoff_error-Refuses : (u : User) (e : Error) → Refuses view Safe (on_backoff_error q u e)
  unfolding on_backoff_error
  on_backoff_error-Refuses u e =
      Refuses-bind (when-Stays _ (record_user_security_failure-Stays q i _ _ _))
        λ _. raise-Refuses e

module _ (q : Request) {V : Type 0} {view : Db → V} {Safe : V → Type 0} (i : IsAuthView view Safe)
    {v : V} (sv : Safe v) where
  answer_invalid-Keeps :
      (user : ℕ) (scope : String) (b : Bool)
      → Keeps view Safe v v (λ _. Unit {0}) (answer_invalid q user scope b)
  unfolding answer_invalid
  answer_invalid-Keeps user scope b =
      Keeps-bind
        (when-Keeps_open b (Keeps-bind (record_user_failure-Keeps q i _ _) λ _ _. pure-Keeps tt tt))
        λ _ _. pure-Keeps _ tt

  answer_stored-Keeps :
      (user : ℕ) (scope : String) (b stored : Bool)
      → Keeps view Safe v v (λ _. Unit {0}) (answer_stored q user scope b stored)
  unfolding answer_stored
  answer_stored-Keeps user scope b false = pure-Keeps _ tt
  answer_stored-Keeps user scope b true =
      Keeps-bind (when-Keeps_open b (clear_user_failures-Keeps q i _ _))
        λ _ _. Keeps-bind (clear_user_security_failures-Keeps q i _ _) λ _ _. pure-Keeps _ tt

  module _ (hides_replays : (r : TotpReplayRecord) (d : Db) → view (add_replay r d) ≡ view d) where
    settle_step-Keeps :
        (user : ℕ) (scope : String) (code : List ℕ) (window : ℕ) (b : Bool) (step : Option ℕ)
        → Keeps view Safe v v (λ _. Unit {0}) (settle_step q user scope code window b step)
    unfolding settle_step store_replay
    settle_step-Keeps user scope code window b none = answer_invalid-Keeps user scope b
    settle_step-Keeps user scope code window b (some step) =
        Keeps-bind
          (catch-Keeps_from _
            (Keeps-bind (insert_replay-Keeps _ (hides_replays _))
              λ _ _. Keeps-bind commit-Keeps λ _ _. pure-Keeps true tt)
            (λ e t. on_replay_error-Ends view Safe v e t sv))
          λ stored _. answer_stored-Keeps user scope b stored

    verify_totp_secret_for_user_outcome-Keeps :
        (u : User) (secret : String) (code : List ℕ) (scope : String) (window : Option ℕ) (b : Bool)
        → Keeps view Safe v v
            (λ _. Unit {0})
            (verify_totp_secret_for_user_outcome q u secret code scope window b)
    unfolding verify_totp_secret_for_user_outcome
    verify_totp_secret_for_user_outcome-Keeps u secret code scope window b =
        elim (Bool-cases (has_six_digits q code)) [
          | inl shaped ↦ rw shaped (
              Keeps-bind
                (when-Keeps_open b (
                  catch-Keeps_refuse _ (enforce_auth_backoff-Keeps q i _ _)
                    (enforce_auth_backoff-Stays q i _ _) (on_backoff_error-Refuses q i u)))
                λ _ _.
                  Keeps-bind (or_else-Keeps (raise-Refuses _))
                    λ step _. settle_step-Keeps _ _ _ _ _ _)
          | inr odd ↦ rw odd (answer_invalid-Keeps u.id scope b)
        ]

    verify_totp_for_user_outcome-Keeps :
        (u : User) (code : List ℕ) (scope : String) (window : Option ℕ) (b : Bool)
        → Keeps view Safe v v (λ _. Unit {0}) (verify_totp_for_user_outcome q u code scope window b)
    unfolding verify_totp_for_user_outcome mfa_secret_for_user
    verify_totp_for_user_outcome-Keeps u code scope window b =
        Keeps-bind
          (Keeps-bind (or_else-Keeps (raise-Refuses _))
            λ _ _. Keeps-map (λ _ _. tt) (or_else-Keeps (raise-Refuses _)))
          λ secret _. verify_totp_secret_for_user_outcome-Keeps u secret code scope window b

    pub verify_code-Keeps :
        (u : User) (code : List ℕ) (scope : String)
        → Keeps view Safe v v (λ _. Unit {0}) (verify_totp_code_for_user q u code scope)
    unfolding verify_totp_code_for_user
    verify_code-Keeps u code scope =
        Keeps-bind (verify_totp_for_user_outcome-Keeps u code scope none true)
          λ _ _. pure-Keeps _ tt

accounts-lock :
    (now user : ℕ) (reason : String) (us : List User)
    → accounts (update_user user (lock_user now reason) us) ≡ accounts us
unfolding lock_user
accounts-lock now user reason [] = refl
accounts-lock now user reason (u ∷ us) = ground (arith, accounts-lock now user reason us)

topup_view-IsAuthView : (m : Money) → IsAuthView topup_view (λ x. money x.0 ≡ m)
unfolding on_attempts apply_lock
topup_view-IsAuthView m = record {
  base = topup_view-IsView;
  hides_attempts = λ f d. refl;
  lock_safe = λ q user reason d h. rw (accounts-lock q.now user reason d.ledger.users) h;
}

-- The verification of a code, in view of the ledger and of the requests for top-ups: when it answers, ledger and requests are as they were, in the
-- tables and in the open transaction; when it raises, the balances, transactions and credits in
-- the tables are as they were.
pub verify_totp_code_for_user-Keeps :
    (q : Request) (code : List ℕ) (scope : String) (u : User) (m : Money)
    (v : Ledger × List TopUpApprovalRequest)
    → Keeps topup_view
        (λ x. money x.0 ≡ m)
        v
        v
        (λ _. Unit {0})
        (verify_totp_code_for_user q u code scope)
verify_totp_code_for_user-Keeps q code scope u m v = record {
  keep = λ sv sw s h.
      (verify_code-Keeps q (topup_view-IsAuthView m) sv (λ r d. refl) u code scope).keep sv sw s h;
}

-- The second factor of a top-up's approval, with the code of the form.
unfoldable pub totp_factor : Request → List ℕ → SecondFactor
totp_factor q code = record {
  verify_totp = λ u. verify_totp_code_for_user q u code "account_topup_approval";
  verify_keeps = verify_totp_code_for_user-Keeps q code "account_topup_approval";
}
