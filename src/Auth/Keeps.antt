-- ===== src/Auth/Keeps.antt =====
-- Counters, locks and replay records change nothing in a view that leaves their tables out; a
-- lock changes the user's flags.
use sitbank.Base.{◌≡◌, ℕ, String, List, Bool, sym, subst, ◌∷◌}
use sitbank.Bank.Types.{User}
use sitbank.Bank.Store.{Db, commit, modify, when, ◌>>◌}
use sitbank.Bank.Request.{Request}
use sitbank.Bank.Request.Keeps.{
  IsView, audit_event-Stays, audit_event-Returns, audit_event_required-Stays, commit-Stays,
}
use sitbank.Bank.Rules.{Keeps, Stays, Refuses-bind, Keeps-bind}
use sitbank.Bank.Rules.Steps.{gets-Keeps_any, pure-Keeps, raise-Refuses, Keeps-of-Refuses}
use sitbank.Bank.Rules.Handlers.{modify-Stays}
use sitbank.Bank.Rules.Open.{
  Stays-bind, when-Stays, gets-Stays, pure-Stays, raise-Stays, flush-Stays, modify-Keeps,
  flush-Keeps, when-Keeps_open, commit-Keeps, Keeps-of-Returns,
}
use sitbank.Auth.Rows.{AttemptRow, CounterScope, TotpReplayRecord}
use sitbank.Auth.Throttle.{
  on_attempts, load_counter_row, record_user_failure, clear_user_failures, enforce_auth_backoff,
  answer_backoff,
}
use sitbank.Auth.Lockout.{
  apply_lock, lock_user_account, record_user_security_failure, clear_user_security_failures,
}
use sitbank.Security.RateLimits.{
  Limited, passed, backoff_required, counted, limit_exceeded, value_error,
}

abbrev pub add_replay : TotpReplayRecord → Db → Db
add_replay r d = record d { totp_replays = r ∷ d.totp_replays }

pub record IsAuthView {V : Type 0} (view : Db → V) (Safe : V → Type 0) : Type 0 where
  pub base : IsView view
  pub hides_attempts :
      (f : List AttemptRow → List AttemptRow) (d : Db) → view (on_attempts f d) ≡ view d
  pub lock_safe :
      (q : Request) (user : ℕ) (reason : String) (d : Db)
      → Safe (view d)
      → Safe (view (apply_lock q user reason d))

module _ (q : Request) {V : Type 0} {view : Db → V} {Safe : V → Type 0}
    (i : IsAuthView view Safe) where
  attempts-Stays :
      (f : List AttemptRow → List AttemptRow) → Stays view Safe (modify (on_attempts f))
  attempts-Stays f = modify-Stays _ λ d h. subst Safe (sym (i.hides_attempts f d)) h

  load_counter_row-Stays :
      (k : CounterScope) (user : ℕ) → Stays view Safe (load_counter_row q k user)
  unfolding load_counter_row
  load_counter_row-Stays k user = Stays-bind (gets-Stays _) λ rows.
      Stays-bind (when-Stays _ (Stays-bind (attempts-Stays _) λ _. flush-Stays)) λ _. pure-Stays _

  answer_backoff-Stays : (r : Limited) → Stays view Safe (answer_backoff q r)
  unfolding answer_backoff
  answer_backoff-Stays (backoff_required n) =
      Stays-bind (audit_event-Stays q i.base _) λ _. raise-Stays _
  answer_backoff-Stays (counted n) = pure-Stays tt
  answer_backoff-Stays passed = pure-Stays tt
  answer_backoff-Stays (limit_exceeded n) = pure-Stays tt
  answer_backoff-Stays value_error = pure-Stays tt

  pub enforce_auth_backoff-Stays :
      (scope : String) (user : ℕ) → Stays view Safe (enforce_auth_backoff q scope user)
  unfolding enforce_auth_backoff
  enforce_auth_backoff-Stays scope user =
      Stays-bind (load_counter_row-Stays _ _) λ c. answer_backoff-Stays _

  lock_user_account-Stays :
      (user : ℕ) (reason : String) → Stays view Safe (lock_user_account q user reason)
  unfolding lock_user_account
  lock_user_account-Stays user reason =
      Stays-bind (modify-Stays _ (i.lock_safe q user reason))
        λ _. Stays-bind (audit_event_required-Stays q i.base _) λ _. commit-Stays

  pub record_user_security_failure-Stays :
      (u : User) (scope reason : String)
      → Stays view Safe (record_user_security_failure q u scope reason)
  unfolding record_user_security_failure
  record_user_security_failure-Stays u scope reason = Stays-bind (load_counter_row-Stays _ _) λ c.
      Stays-bind (attempts-Stays _)
        λ _. Stays-bind commit-Stays λ _. when-Stays _ (lock_user_account-Stays _ _)

  module _ {v w : V} where
    attempts-Keeps :
        (f : List AttemptRow → List AttemptRow)
        → Keeps view Safe v w (λ _. Unit {0}) (modify (on_attempts f))
    attempts-Keeps f = modify-Keeps _ (i.hides_attempts f)

    load_counter_row-Keeps :
        (k : CounterScope) (user : ℕ)
        → Keeps view Safe v w (λ _. Unit {0}) (load_counter_row q k user)
    unfolding load_counter_row
    load_counter_row-Keeps k user = Keeps-bind (gets-Keeps_any _) λ rows _.
        Keeps-bind (when-Keeps_open _ (Keeps-bind (attempts-Keeps _) λ _ _. flush-Keeps))
          λ _ _. pure-Keeps _ tt

  module _ {v : V} where
    answer_backoff-Keeps : (r : Limited) → Keeps view Safe v v (λ _. Unit {0}) (answer_backoff q r)
    unfolding answer_backoff
    answer_backoff-Keeps (backoff_required n) =
        Keeps-of-Refuses (Refuses-bind (audit_event-Stays q i.base _) λ _. raise-Refuses _)
    answer_backoff-Keeps (counted n) = pure-Keeps tt tt
    answer_backoff-Keeps passed = pure-Keeps tt tt
    answer_backoff-Keeps (limit_exceeded n) = pure-Keeps tt tt
    answer_backoff-Keeps value_error = pure-Keeps tt tt

    pub enforce_auth_backoff-Keeps :
        (scope : String) (user : ℕ)
        → Keeps view Safe v v (λ _. Unit {0}) (enforce_auth_backoff q scope user)
    unfolding enforce_auth_backoff
    enforce_auth_backoff-Keeps scope user =
        Keeps-bind (load_counter_row-Keeps _ _) λ c _. answer_backoff-Keeps _

    pub record_user_failure-Keeps :
        (scope : String) (user : ℕ)
        → Keeps view Safe v v (λ _. Unit {0}) (record_user_failure q scope user)
    unfolding record_user_failure
    record_user_failure-Keeps scope user = Keeps-bind (load_counter_row-Keeps _ _) λ c _.
        Keeps-bind (attempts-Keeps _) λ _ _. Keeps-bind commit-Keeps λ _ _.
          Keeps-bind (when-Keeps_open _ (Keeps-of-Returns (audit_event-Returns q i.base _)))
            λ _ _. pure-Keeps _ tt

    clear-Keeps :
        (b : Bool) (f : List AttemptRow → List AttemptRow)
        → Keeps view Safe v v (λ _. Unit {0}) (when b (do modify (on_attempts f); commit))
    clear-Keeps b f = when-Keeps_open b (Keeps-bind (attempts-Keeps f) λ _ _. commit-Keeps)

    pub clear_user_failures-Keeps :
        (scope : String) (user : ℕ)
        → Keeps view Safe v v (λ _. Unit {0}) (clear_user_failures q scope user)
    unfolding clear_user_failures
    clear_user_failures-Keeps scope user =
        Keeps-bind (load_counter_row-Keeps _ _) λ c _. clear-Keeps _ _

    pub clear_user_security_failures-Keeps :
        (user : ℕ) (scope : String)
        → Keeps view Safe v v (λ _. Unit {0}) (clear_user_security_failures q user scope)
    unfolding clear_user_security_failures
    clear_user_security_failures-Keeps user scope =
        Keeps-bind (gets-Keeps_any _) λ rows _. clear-Keeps _ _
