-- ===== src/Auth/Totp/Waits.antt =====
-- After a wrong code, how long every other code is refused.
use sitbank.Bank.Store.{
  ok, err, pure, calls, Db, Result, Session, commit, Ledger, modify, ◌>>◌, when, fits, begin,
  Action, resume,
}
use sitbank.Base.{
  String, ◌+◌, ◌≤◌, ℕ, ◌≡◌, true, some, inl, inr, List, Bool, refl, Bool-cases, none, subst, arith,
  sym, Option, ◌*◌, false, ◌<◌, min, ◌-◌, ◌^◌, ltb, leb, ◌≢◌,
}
use sitbank.Bank.Request.{Request, audit_event, event}
use sitbank.Security.RateLimits.{
  AuthAttemptCounter, record_failure, active_window_seconds, Counter, load_or_create_counter,
  apply_exponential_backoff, backoff_start_attempts, load_counter,
}
use sitbank.Auth.Totp.{
  answer_invalid, settle_step, verify_totp_secret_for_user_outcome, answer_stored, invalid,
  has_six_digits, TotpVerificationOutcome, on_backoff_error, valid,
}
use sitbank.Bank.Types.{auth, AuditEvent, User, Error, retry_after, auth_backoff, blocked}
use sitbank.Auth.Throttle.{
  record_user_failure, on_attempts, enforce_auth_backoff, load_counter_row, answer_backoff,
  is_login, is_expired, nobody,
}
use sitbank.Auth.Rows.{counter_for, throttle, put_counter, AttemptRow}
use sitbank.Bank.Request.Keeps.{IsView, audit_event-Returns}
use sitbank.Bank.Rules.Lands.{Lands, Landed, Lands-bind_keep, pure-Lands}
use sitbank.Bank.Rules.Open.{when-Keeps_open, Keeps-of-Returns}
use sitbank.Auth.Rows.Counters.{counter_for-put}
use sitbank.Bank.Rules.Ensures.{
  Ensures, Ensured, pure-Ensures, Ensures-after, Ensures-pure, Ensures-map, Ensured-ok,
}
use sitbank.Auth.Totp.Replay.{verify_run}
use sitbank.Auth.Keeps.{IsAuthView}
use sitbank.Auth.Totp.SecondFactor.{on_backoff_error-Refuses}
use sitbank.Bank.Rules.{Failed}

-- A counter of this scope and user that has counted a failure, and stays open for five minutes.
pub record Waiting (q : Request) (scope : String) (user : ℕ) (rows : List AttemptRow) : Type 0 where
  pub counter : AuthAttemptCounter
  pub found : counter_for (throttle scope) user rows ≡ some counter
  pub counted_one : 1 ≤ counter.failure_count
  pub stays_open : q.now + 300_000_000 ≤ counter.window_expires_at

abbrev attempts_view : Db → Ledger × List AttemptRow
attempts_view d = (d.ledger, d.attempts)

attempts_view-IsView : IsView attempts_view
attempts_view-IsView = record {
  ledger_of = λ x. x.0;
  shows_ledger = λ d. refl;
  hides_audit = λ e d. refl;
}

Ensured-of-Landed :
    {A : Type 0} (v : Ledger × List AttemptRow) (P : List AttemptRow → Type 0) (r : Result A)
    (s : Session)
    → P v.1
    → Landed attempts_view (λ a x. x ≡ v) r s
    → Ensured (λ a d. P d.attempts) r s
Ensured-of-Landed v P (ok a) s p h = subst (λ (x : Ledger × List AttemptRow). P x.1) (sym h.0) p
Ensured-of-Landed v P (err e) s p h = tt

-- What a write of the counters leaves when it is committed and then audited.
commit-Ensures :
    (q : Request) (f : List AttemptRow → List AttemptRow) (b : Bool) (e : AuditEvent) (n : ℕ)
    (P : List AttemptRow → Type 0)
    → ((rows : List AttemptRow) → P (f rows))
    → Ensures
        (λ (m : ℕ) d. P d.attempts)
        (modify (on_attempts f) >> (commit >> (when b (audit_event q e) >> pure n)))
unfolding on_attempts commit calls
commit-Ensures q f b e n P p = record {
  ensure = λ s. elim (Bool-cases (fits (on_attempts f s.working))) [
    | inl good ↦
        let audited : Lands attempts_view (attempts_view (on_attempts f s.working))
            (λ a x. x ≡ attempts_view (on_attempts f s.working))
            (when b (audit_event q e) >> pure n) =
          Lands-bind_keep
            (when-Keeps_open b (Keeps-of-Returns (audit_event-Returns q attempts_view-IsView e)))
            λ _ _. pure-Lands n refl in
        rw good (
          Ensured-of-Landed (attempts_view (on_attempts f s.working)) P
            ((when b (audit_event q e) >> pure n) (begin (on_attempts f s.working))).0
            ((when b (audit_event q e) >> pure n) (begin (on_attempts f s.working))).1
            (p s.working.attempts) (audited.land (begin (on_attempts f s.working)) (refl, refl)))
    | inr bad ↦ rw bad tt
  ];
}

put-Waiting :
    (q : Request) (scope : String) (user : ℕ) (c : Counter) (rows : List AttemptRow)
    → Waiting q scope user (put_counter (throttle scope) user (record_failure none q.now c).1 rows)
unfolding record_failure active_window_seconds
put-Waiting q scope user c rows =
    let old : AuthAttemptCounter = load_or_create_counter q.now (5 * 60) c in
    record {
      counter = record old {
        failure_count = old.failure_count + 1;
        last_failed_at = some q.now;
        window_expires_at = q.now + active_window_seconds none (old.failure_count + 1) * 1_000_000;
      };
      found = counter_for-put _ user _ rows;
      counted_one = ground arith;
      stays_open = ground arith;
    }

module _ (q : Request) (scope : String) (user : ℕ) where
  record_user_failure-Ensures :
      Ensures (λ n d. Waiting q scope user d.attempts) (record_user_failure q scope user)
  unfolding record_user_failure
  record_user_failure-Ensures =
      Ensures-after _
        λ c. commit-Ensures q _ _ _ _ (Waiting q scope user) (put-Waiting q scope user c)

  answer_invalid-Ensures :
      Ensures (λ o d. Waiting q scope user d.attempts) (answer_invalid q user scope true)
  unfolding answer_invalid calls
  answer_invalid-Ensures =
      Ensures-pure _ (Ensures-pure _ record_user_failure-Ensures λ a d h. h) λ a d h. h

  answer_stored-Ensures :
      (b stored : Bool)
      → Ensures
          (λ o d. (o ≡ invalid) → Waiting q scope user d.attempts)
          (answer_stored q user scope b stored)
  unfolding answer_stored
  answer_stored-Ensures b false = pure-Ensures _ λ d e. cc (e)
  answer_stored-Ensures b true =
      Ensures-after _ λ _. Ensures-after _ λ _. pure-Ensures _ λ d e. cc (e)

  settle_step-Ensures :
      (code : List ℕ) (window : ℕ) (step : Option ℕ)
      → Ensures
          (λ o d. (o ≡ invalid) → Waiting q scope user d.attempts)
          (settle_step q user scope code window true step)
  unfolding settle_step
  settle_step-Ensures code window none = Ensures-map (λ o d h _. h) answer_invalid-Ensures
  settle_step-Ensures code window (some k) =
      Ensures-after _ λ stored. answer_stored-Ensures true stored

  verify-Ensures :
      (u : User) (secret : String) (code : List ℕ) (w : Option ℕ)
      → u.id ≡ user
      → Ensures
          (λ o d. (o ≡ invalid) → Waiting q scope user d.attempts)
          (verify_totp_secret_for_user_outcome q u secret code scope w true)
  unfolding verify_totp_secret_for_user_outcome
  verify-Ensures u secret code w e = elim (Bool-cases (has_six_digits q code)) [
    | inl shaped ↦
        rw (shaped, e)
          (Ensures-after _ λ _. Ensures-after _ λ step. settle_step-Ensures code _ step)
    | inr odd ↦ rw (odd, e) (Ensures-map (λ o d h _. h) answer_invalid-Ensures)
  ]

ledger-IsAuthView : IsAuthView (λ (d : Db). d.ledger) (λ _. Unit)
unfolding on_attempts
ledger-IsAuthView = record {
  base = record { ledger_of = λ l. l; shows_ledger = λ d. refl; hides_audit = λ e d. refl };
  hides_attempts = λ f d. refl;
  lock_safe = λ q user reason d h. tt;
}

-- What follows a call that failed returns nothing.
Failed-stops :
    {A B : Type 0} (view : Db → Ledger) (f : A → Action B) (r : Result A) (s : Session)
    → Failed view (λ _. Unit) r s
    → (b : B) → (resume f r s).0 ≢ ok b
Failed-stops view f (ok a) s h b same = absurd h
Failed-stops view f (err e) s h b same = cc (same)

module _ (q : Request) (scope : String) (u : User) (d : Db) where
  -- An open counter with a failure makes the backoff raise.
  enforce_auth_backoff-raises :
      (c : AuthAttemptCounter)
      → counter_for (throttle scope) u.id d.attempts ≡ some c
      → 1 ≤ c.failure_count
      → q.now < c.window_expires_at
      → is_login scope ≡ false
      → (e : Error) × ((enforce_auth_backoff q scope u.id (begin d)).0 ≡ err e)
  unfolding enforce_auth_backoff load_counter_row answer_backoff calls apply_exponential_backoff
      backoff_start_attempts load_counter is_expired
  enforce_auth_backoff-raises c found one early other =
      let open_window : leb c.window_expires_at q.now ≡ false = ground arith in
      let waits : ltb c.failure_count 1 ≡ false = ground arith in
      let audited : (audit_event q (event q auth_backoff blocked nobody none) (begin d)).0 ≡ ok tt =
        ((audit_event-Returns q ledger-IsAuthView.base _).return (begin d) (refl, refl)).0 in
      (
        auth 429 (retry_after (min (2 ^ (c.failure_count - 1)) 16)),
        rw (found, open_window, other, open_window, waits, audited) refl,
      )

  -- While it is open, no code is accepted, and none is found wrong: a verification with six digits
  -- raises.
  waiting-refuses :
      (secret : String) (code : List ℕ) (w : Option ℕ) (c : AuthAttemptCounter)
      → counter_for (throttle scope) u.id d.attempts ≡ some c
      → 1 ≤ c.failure_count
      → q.now < c.window_expires_at
      → is_login scope ≡ false
      → has_six_digits q code ≡ true
      → (o : TotpVerificationOutcome)
      → (verify_totp_secret_for_user_outcome q u secret code scope w true (begin d)).0 ≢ ok o
  unfolding verify_totp_secret_for_user_outcome calls
  waiting-refuses secret code w c found one early other shaped o =
      let (e, raised) = enforce_auth_backoff-raises c found one early other in
      let t : Session = (enforce_auth_backoff q scope u.id (begin d)).1 in
      rw (shaped, raised)
        (Failed-stops (λ d. d.ledger) _ (on_backoff_error q u e t).0 (on_backoff_error q u e t).1
          ((on_backoff_error-Refuses q ledger-IsAuthView u e).refuse t tt tt) o)

-- Other texts than six digits are never accepted.
odd-refuses :
    (q : Request) (scope : String) (u : User) (d : Db) (secret : String) (code : List ℕ)
    (w : Option ℕ)
    → has_six_digits q code ≡ false
    → (verify_run q u secret code scope w true d).0 ≢ ok valid
unfolding verify_totp_secret_for_user_outcome answer_invalid
odd-refuses q scope u d secret code w odd same =
    let never : Ensures (λ o d. o ≢ valid) (answer_invalid q u.id scope true) =
      Ensures-after _ λ _. pure-Ensures _ λ d e. cc (e) in
    let run = verify_run q u secret code scope w true d in
    Ensured-ok (λ o d. o ≢ valid) run.0 run.1 valid (rw odd (never.ensure (begin d))) same refl

-- After a wrong code under a scope other than a login, with failures tracked, no code is accepted
-- under that scope for five minutes, from what the first verification committed on: not even
-- the right one, and whatever wait the refusal names.
pub verify_totp_secret_for_user_outcome-waits :
    (q1 q2 : Request) (u : User) (secret1 secret2 : String) (code1 code2 : List ℕ) (scope : String)
    (w1 w2 : Option ℕ) (d : Db)
    → is_login scope ≡ false
    → (verify_run q1 u secret1 code1 scope w1 true d).0 ≡ ok invalid
    → q2.now < q1.now + 300_000_000
    → (verify_run q2 u secret2 code2 scope w2 true
        (verify_run q1 u secret1 code1 scope w1 true d).1.committed).0
      ≢ ok valid
verify_totp_secret_for_user_outcome-waits q1 q2 u secret1 secret2 code1 code2 scope w1 w2 d other
      wrong early =
    let run1 = verify_run q1 u secret1 code1 scope w1 true d in
    let waiting : Waiting q1 scope u.id run1.1.committed.attempts =
      Ensured-ok (λ o t. (o ≡ invalid) → Waiting q1 scope u.id t.attempts) run1.0 run1.1 invalid
        ((verify-Ensures q1 scope u.id u secret1 code1 w1 refl).ensure (begin d)) wrong refl in
    elim (Bool-cases (has_six_digits q2 code2)) [
      | inl shaped ↦
          waiting-refuses q2 scope u run1.1.committed secret2 code2 w2 waiting.counter waiting.found
            waiting.counted_one (ground (arith, waiting.stays_open)) other shaped valid
      | inr odd ↦ odd-refuses q2 scope u run1.1.committed secret2 code2 w2 odd
    ]
