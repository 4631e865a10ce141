-- ===== src/Auth/Lockout/Step.antt =====
-- What one recorded failure does to the tables.
use sitbank.Bank.Types.{Instant, User, AuditEvent, locked, account_lock, lock_reason}
use sitbank.Security.RateLimits.{
  load_counter, record_failure, AuthAttemptCounter, load_or_create_counter, new_counter,
  active_window_seconds, Counter,
}
use sitbank.Base.{
  arith, ℕ, inl, [], some, ◌≡◌, true, ◌+◌, List, refl, String, ◌∷◌, inr, none, leb, Bool-cases,
  if◌then◌else◌, all, ap, ◌*◌,
}
use sitbank.Auth.Lockout.{
  lock_user, lock_user_account, apply_lock, user_security_lock_threshold, auth_lock_window_seconds,
  modify, record_user_security_failure,
}
use sitbank.Bank.Store.{
  commit, Action, Db, fits, flush, ◌>>◌, calls, update_user, begin, ledger_fits, ok, when,
  balance_fits, add_audit,
}
use sitbank.Bank.Request.{audit_event_required, Request, event}
use sitbank.Auth.Throttle.{load_counter_row, on_attempts, is_expired}
use sitbank.Auth.Rows.{user_security, counter_for, put_counter, remove_counter}
use sitbank.Auth.Rows.Counters.{counter_for-put}

-- The failures that the user's open counter holds at a time.
abbrev pub failures_at : Instant → String → ℕ → Db → ℕ
failures_at now scope user d =
    elim (load_counter now (counter_for (user_security scope) user d.attempts)) [
      | none ↦ 0
      | some c ↦ c.failure_count
    ]

-- One failure is counted, until a quarter of an hour after it; at the threshold the user is locked
-- and the user's sessions end.
pub record Failure (q : Request) (u : User) (scope reason : String) (d d2 : Db) : Type 0 where
  pub still_fits : fits d2 ≡ true
  pub counter : AuthAttemptCounter
  pub found : counter_for (user_security scope) u.id d2.attempts ≡ some counter
  pub count : counter.failure_count ≡ failures_at q.now scope u.id d + 1
  pub expires : counter.window_expires_at ≡ q.now + 900_000_000
  pub users : d2.ledger.users ≡ (
      if leb
        (user_security_lock_threshold q u.account_type scope)
        (failures_at q.now scope u.id d + 1)
      then update_user u.id (lock_user q.now reason) d.ledger.users
      else d.ledger.users)

balances-lock :
    (now user : ℕ) (reason : String) (us : List User)
    → all balance_fits (update_user user (lock_user now reason) us) ≡ all balance_fits us
unfolding lock_user balance_fits
balances-lock now user reason [] = refl
balances-lock now user reason (u ∷ us) = ground (arith, balances-lock now user reason us)

load_counter_twice :
    (now : Instant) (c : Counter) → load_counter now (load_counter now c) ≡ load_counter now c
unfolding load_counter
load_counter_twice now none = refl
load_counter_twice now (some c) = elim (Bool-cases (leb c.window_expires_at now)) [
  | inl old ↦ rw old refl
  | inr current ↦ rw (current, current) refl
]

loaded_count :
    (now : Instant) (c : Counter)
    → load_counter now c ≡ c
    → (load_or_create_counter now auth_lock_window_seconds c).failure_count
      ≡ elim c [ none ↦ 0 | some o ↦ o.failure_count ]
unfolding load_or_create_counter new_counter
loaded_count now none h = rw (load_or_create_counter, h) refl
loaded_count now (some c) h = rw (load_or_create_counter, h) refl

-- The row that a failure leaves of a loaded one.
counted :
    (now : Instant) (c : Counter)
    → load_counter now c ≡ c
    → (row : AuthAttemptCounter) × ((record_failure (some auth_lock_window_seconds) now c).1
        ≡ some row)
      × (row.failure_count ≡ elim c [ none ↦ 0 | some o ↦ o.failure_count ] + 1)
      × (row.window_expires_at ≡ now + 900_000_000)
      × ((record_failure (some auth_lock_window_seconds) now c).0
          ≡ elim c [ none ↦ 0 | some o ↦ o.failure_count ] + 1)
unfolding record_failure active_window_seconds
counted now c h =
    let old : AuthAttemptCounter = load_or_create_counter now auth_lock_window_seconds c in
    let n : old.failure_count + 1 ≡ elim c [ none ↦ 0 | some o ↦ o.failure_count ] + 1 =
      ap (λ (m : ℕ). m + 1) (loaded_count now c h) in
    (
      record old {
        failure_count = old.failure_count + 1;
        last_failed_at = some now;
        window_expires_at = now + 900 * 1_000_000;
      },
      refl,
      n,
      refl,
      n,
    )

module _ (q : Request) (u : User) (scope reason : String) (d : Db) where
  -- The tables after the counter is written.
  abbrev counted_tables : Db → Db
  counted_tables e =
      on_attempts
        (put_counter (user_security scope) u.id
          (record_failure (some auth_lock_window_seconds) q.now
            (load_counter q.now (counter_for (user_security scope) u.id d.attempts))).1)
        e

  load_counter_row-result :
      fits d ≡ true
      → (e : Db) × (load_counter_row q (user_security scope) u.id (begin d) ≡ (
        ok (load_counter q.now (counter_for (user_security scope) u.id d.attempts)),
        record { committed = d; working = e },
      ))
        × (e.ledger ≡ d.ledger)
  unfolding load_counter_row on_attempts flush calls
  load_counter_row-result good =
      elim (Bool-cases (is_expired q.now (counter_for (user_security scope) u.id d.attempts))) [
        | inl old ↦
            (on_attempts (remove_counter (user_security scope) u.id) d, rw (old, good) refl, refl)
        | inr current ↦ (d, rw current refl, refl)
      ]

  -- What the rest of the call does, once the counter is loaded.
  rest_of_call : Action (Unit {0})
  rest_of_call = do
    modify counted_tables
    commit
    when
        (leb (user_security_lock_threshold q u.account_type scope)
          (record_failure (some auth_lock_window_seconds) q.now
            (load_counter q.now (counter_for (user_security scope) u.id d.attempts))).0)
        (lock_user_account q u.id reason)

  locked_tables : Db → Db
  locked_tables e =
      add_audit (event q account_lock locked u.id (some (lock_reason reason)))
        (apply_lock q u.id reason (counted_tables e))

  rest-runs :
      (e : Db)
      → fits e ≡ true
      → ((a : AuditEvent) → q.audit_ok a ≡ true)
      → rest_of_call (record { committed = d; working = e }) ≡ (
        ok tt,
        begin (
            if leb
              (user_security_lock_threshold q u.account_type scope)
              (failures_at q.now scope u.id d + 1)
            then locked_tables e
            else counted_tables e),
      )
  unfolding rest_of_call locked_tables lock_user_account apply_lock audit_event_required commit
      calls on_attempts ledger_fits
  rest-runs e good audits =
      let (row, found, count, expires, n) =
        counted q.now (load_counter q.now (counter_for (user_security scope) u.id d.attempts))
          (load_counter_twice q.now (counter_for (user_security scope) u.id d.attempts)) in
      let still : all balance_fits (update_user u.id (lock_user q.now reason) e.ledger.users)
          ≡ all balance_fits e.ledger.users =
        balances-lock q.now u.id reason e.ledger.users in
      elim (Bool-cases (
        leb (user_security_lock_threshold q u.account_type scope)
          (failures_at q.now scope u.id d + 1))) [
            | inl over ↦ rw (n, over, good, audits, still, good) refl
            | inr under ↦ rw (n, under, good) refl
          ]

  after-Failure :
      (e : Db)
      → fits d ≡ true
      → e.ledger ≡ d.ledger
      → Failure q u scope reason d (
          if leb
            (user_security_lock_threshold q u.account_type scope)
            (failures_at q.now scope u.id d + 1)
          then locked_tables e
          else counted_tables e)
  unfolding locked_tables apply_lock on_attempts ledger_fits
  after-Failure e good same =
      let (row, found, count, expires, n) =
        counted q.now (load_counter q.now (counter_for (user_security scope) u.id d.attempts))
          (load_counter_twice q.now (counter_for (user_security scope) u.id d.attempts)) in
      let placed : counter_for (user_security scope) u.id (counted_tables e).attempts ≡ some row =
        rw found (counter_for-put _ u.id row e.attempts) in
      let good_e : fits e ≡ true = rw same good in
      let still : all balance_fits (update_user u.id (lock_user q.now reason) e.ledger.users)
          ≡ all balance_fits e.ledger.users =
        balances-lock q.now u.id reason e.ledger.users in
      elim (Bool-cases (
        leb (user_security_lock_threshold q u.account_type scope)
          (failures_at q.now scope u.id d + 1))) [
            | inl over ↦ rw over (record {
              still_fits = rw still good_e;
              counter = row;
              found = placed;
              count = count;
              expires = expires;
              users = rw (over, same) refl;
            })
            | inr under ↦ rw under (record {
              still_fits = good_e;
              counter = row;
              found = placed;
              count = count;
              expires = expires;
              users = rw (under, same) refl;
            })
          ]

  pub record_user_security_failure-Failure :
      fits d ≡ true
      → ((a : AuditEvent) → q.audit_ok a ≡ true)
      → (d2 : Db) × (record_user_security_failure q u scope reason (begin d) ≡ (ok tt, begin d2))
        × Failure q u scope reason d d2
  unfolding record_user_security_failure rest_of_call calls ledger_fits
  record_user_security_failure-Failure good audits =
      let (e, loads, same) = load_counter_row-result good in
      let good_e : fits e ≡ true = rw same good in
      (_, rw loads (rest-runs e good_e audits), after-Failure e good same)
