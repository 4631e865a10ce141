-- ===== src/Auth/Totp/Replay.antt =====
-- A code is accepted once: what a successful verification commits, and what the table then
-- refuses.
use sitbank.Base.{
  ◌≡◌, List, refl, inr, true, Bool, inl, Bool-cases, any, eq_iff, str_eq, ap, some, ℕ, String,
  false, subst, ==_refl, none, Option, sym,
}
use sitbank.Bank.Store.{Db, Ledger, commit, rollback, calls, fits, ok, Result, Session, begin}
use sitbank.Auth.Rows.{same_replay, TotpReplayRecord}
use sitbank.Auth.Throttle.{on_attempts}
use sitbank.Auth.Totp.{
  insert_replay, on_replay_error, store_replay, answer_invalid, TotpVerificationOutcome,
  answer_stored, valid, invalid, accepted_totp_step, replay_record,
  verify_totp_secret_for_user_outcome, settle_step, totp_valid_window, has_six_digits,
}
use sitbank.Bank.Types.{User}
use sitbank.Auth.Keeps.{
  IsAuthView, clear_user_failures-Keeps, clear_user_security_failures-Keeps,
  record_user_failure-Keeps, enforce_auth_backoff-Keeps, enforce_auth_backoff-Stays,
}
use sitbank.Bank.Rules.Lands.{Lands, pure-Lands, Lands-bind_keep, Lands-map, Landed-ok, Lands-bind}
use sitbank.Bank.Request.{Request}
use sitbank.Bank.Rules.Open.{when-Keeps_open, catch-Keeps_refuse}
use sitbank.Bank.Rules.{Keeps-bind}
use sitbank.Bank.Rules.Steps.{pure-Keeps, or_else-Keeps, raise-Refuses}
use sitbank.Auth.Totp.SecondFactor.{on_backoff_error-Refuses}

abbrev replays_view : Db → Ledger × List TotpReplayRecord
replays_view d = (d.ledger, d.totp_replays)

replays_view-IsAuthView : IsAuthView replays_view (λ _. Unit)
unfolding on_attempts
replays_view-IsAuthView = record {
  base = record { ledger_of = λ x. x.0; shows_ledger = λ d. refl; hides_audit = λ e d. refl };
  hides_attempts = λ f d. refl;
  lock_safe = λ q user reason d h. tt;
}

same_replay_refl : (r : TotpReplayRecord) → same_replay r r ≡ true
unfolding same_replay
same_replay_refl r =
    let scope : str_eq r.scope r.scope ≡ true = (eq_iff r.scope r.scope).1 refl in
    let digest : str_eq r.code_digest r.code_digest ≡ true =
      (eq_iff r.code_digest r.code_digest).1 refl in
    rw (==_refl r.user_id, scope, ==_refl r.time_step, digest) refl

-- The record was not there, and is now.
abbrev StoredNow : TotpReplayRecord → List TotpReplayRecord → List TotpReplayRecord → Type 0
StoredNow r old now = (any (same_replay r) old ≡ false) × (any (same_replay r) now ≡ true)

module _ {l : Ledger} {rows : List TotpReplayRecord} where
  store_replay-Lands :
      (r : TotpReplayRecord)
      → Lands replays_view (l, rows) (λ b x. (b ≡ true) → StoredNow r rows x.1) (store_replay r)
  unfolding store_replay insert_replay commit on_replay_error rollback calls
  store_replay-Lands r = record {
    land = λ s h. elim (Bool-cases (any (same_replay r) s.working.totp_replays)) [
      | inl known ↦ rw known (λ e. cc (e), refl)
      | inr fresh ↦ elim (Bool-cases (fits s.working)) [
        | inl good ↦
            rw (fresh, good)
              (
                λ _. (
                  subst (λ (x : List TotpReplayRecord). any (same_replay r) x ≡ false)
                      (ap (λ (x : Ledger × List TotpReplayRecord). x.1) h.1) fresh,
                  rw (same_replay_refl r) refl,
                ),
                refl,
              )
        | inr bad ↦ rw (fresh, bad) (λ e. cc (e), refl)
      ]
    ];
  }

module _ (q : Request) where
  -- What a successful answer says: a step was accepted for the code, and its record was stored.
  abbrev pub Proved :
      ℕ
      → String
      → List ℕ
      → String
      → ℕ
      → TotpVerificationOutcome
      → List TotpReplayRecord
      → List TotpReplayRecord
      → Type 0
  Proved user secret code scope window o old now =
      (o ≡ valid)
      → (k : ℕ) × (accepted_totp_step q secret code q.unix_now window ≡ some (some k))
        × StoredNow (replay_record q user scope k code window) old now

module _ (q : Request) {v : Ledger × List TotpReplayRecord} where
  answer_invalid-Lands :
      (user : ℕ) (scope : String) (b : Bool)
      → Lands replays_view v (λ o x. o ≡ invalid) (answer_invalid q user scope b)
  unfolding answer_invalid
  answer_invalid-Lands user scope b =
      Lands-bind_keep
        (when-Keeps_open b (
          Keeps-bind (record_user_failure-Keeps q replays_view-IsAuthView _ _)
            λ _ _. pure-Keeps tt tt))
        λ _ _. pure-Lands _ refl

  answer_stored-Lands :
      (user : ℕ) (scope : String) (b stored : Bool)
      → Lands replays_view v
          (λ o x. ((o ≡ valid) → stored ≡ true) × (x ≡ v))
          (answer_stored q user scope b stored)
  unfolding answer_stored
  answer_stored-Lands user scope b false = pure-Lands _ (λ e. cc (e), refl)
  answer_stored-Lands user scope b true =
      Lands-bind_keep (when-Keeps_open b (clear_user_failures-Keeps q replays_view-IsAuthView _ _))
        λ _ _.
          Lands-bind_keep (clear_user_security_failures-Keeps q replays_view-IsAuthView _ _)
            λ _ _. pure-Lands _ (λ e. refl, refl)

module _ (q : Request) {l : Ledger} {rows : List TotpReplayRecord} where
  settle_step-Lands :
      (user : ℕ) (secret : String) (scope : String) (code : List ℕ) (window : ℕ) (b : Bool)
      (step : Option ℕ)
      → accepted_totp_step q secret code q.unix_now window ≡ some step
      → Lands replays_view
          (l, rows)
          (λ o x. Proved q user secret code scope window o rows x.1)
          (settle_step q user scope code window b step)
  unfolding settle_step
  settle_step-Lands user secret scope code window b none e =
      Lands-map (λ o x h good. cc (h, good)) (answer_invalid-Lands q user scope b)
  settle_step-Lands user secret scope code window b (some k) e =
      Lands-bind (store_replay-Lands _) λ stored x fresh.
        Lands-map
          (λ o y h good. (
            k,
            e,
            subst
                (λ (z : Ledger × List TotpReplayRecord).
                  StoredNow (replay_record q user scope k code window) rows z.1)
                (sym h.1) (fresh (h.0 good)),
          ))
          (answer_stored-Lands q user scope b stored)

  verify_totp_secret_for_user_outcome-Lands :
      (u : User) (secret : String) (code : List ℕ) (scope : String) (w : Option ℕ) (b : Bool)
      → Lands replays_view
          (l, rows)
          (λ o x. Proved q u.id secret code scope (totp_valid_window q scope w) o rows x.1)
          (verify_totp_secret_for_user_outcome q u secret code scope w b)
  unfolding verify_totp_secret_for_user_outcome
  verify_totp_secret_for_user_outcome-Lands u secret code scope w b =
      elim (Bool-cases (has_six_digits q code)) [
        | inl shaped ↦ rw shaped (
            Lands-bind_keep
              (when-Keeps_open b (
                catch-Keeps_refuse _ (enforce_auth_backoff-Keeps q replays_view-IsAuthView _ _)
                  (enforce_auth_backoff-Stays q replays_view-IsAuthView _ _)
                  (on_backoff_error-Refuses q replays_view-IsAuthView u)))
              λ _ _.
                Lands-bind_keep (or_else-Keeps (raise-Refuses _))
                  λ step e. settle_step-Lands _ _ _ _ _ _ _ e)
        | inr odd ↦
            rw odd (Lands-map (λ o x h good. cc (h, good)) (answer_invalid-Lands q u.id scope b))
      ]

module _ (q : Request) (u : User) (secret : String) (code : List ℕ) (scope : String) (w : Option ℕ)
    (b : Bool) where
  -- One verification on these tables.
  abbrev pub verify_run : Db → Result TotpVerificationOutcome × Session
  verify_run d = verify_totp_secret_for_user_outcome q u secret code scope w b (begin d)

  -- A verification that answers "valid" has accepted a step for the code, and its commits hold the
  -- replay record of user, scope, step and code, which was not there before.
  pub verify_totp_secret_for_user_outcome-Proved :
      (d : Db)
      → (verify_run d).0 ≡ ok valid
      → (k : ℕ) × (accepted_totp_step q secret code q.unix_now (totp_valid_window q scope w)
          ≡ some (some k))
        × StoredNow
            (replay_record q u.id scope k code (totp_valid_window q scope w))
            d.totp_replays
            (verify_run d).1.committed.totp_replays
  verify_totp_secret_for_user_outcome-Proved d good =
      Landed-ok replays_view
        (λ o x. Proved q u.id secret code scope (totp_valid_window q scope w) o d.totp_replays x.1)
        (verify_run d).0 (verify_run d).1 valid
        ((verify_totp_secret_for_user_outcome-Lands q u secret code scope w b).land (begin d)
          (refl, refl))
        good refl
