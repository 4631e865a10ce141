-- ===== src/Auth/Lockout/Threshold.antt =====
-- How many failures lock an account.
use sitbank.Auth.Lockout.{
  record_user_security_failure, user_security_lock_threshold, lock_user, is_privileged,
}
use sitbank.Bank.Store.{update_user, Db, find_user, begin, fits}
use sitbank.Bank.Request.{Request, is_blocked}
use sitbank.Bank.Types.{Instant, User, AuditEvent, AccountType}
use sitbank.Base.{
  ◌<◌, true, some, ◌∷◌, ℕ, inr, String, List, refl, ◌+◌, inl, [], ◌≡◌, Bool-cases, leb,
  if◌then◌else◌, Bool, false, ◌∙◌, ap, arith, none, sym, length, str_eq, ◌&&◌,
}
use sitbank.Auth.Lockout.Step.{failures_at, record_user_security_failure-Failure}
use sitbank.Security.RateLimits.{load_counter, Counter, AuthAttemptCounter}
use sitbank.Bank.Transfer.Conservation.{find-update_self}

-- The failures at these times, each a request of its own.
unfoldable pub record_failures : Request → User → String → String → List Instant → Db → Db
record_failures q u scope reason [] d = d
record_failures q u scope reason (t ∷ ts) d =
    record_failures q u scope reason ts
      (record_user_security_failure (record q { now = t }) u scope reason (begin d)).1.committed

-- Each time comes before the end of the window, which the failure before it moves to a quarter of
-- an hour after it.
abbrev pub Within : Instant → List Instant → Type 0
Within end [] = Unit
Within end (t ∷ ts) = (t < end) × Within (t + 900_000_000) ts

find-lock :
    (b : Bool) (i : ℕ) (now : Instant) (reason : String) (us vs : List User) (u : User)
    → vs ≡ (if b then update_user i (lock_user now reason) us else us)
    → find_user i us ≡ some u
    → find_user i vs ≡ some (if b then lock_user now reason u else u)
unfolding lock_user
find-lock true i now reason us vs u e h =
    rw e (find-update_self (lock_user now reason) (λ x. refl) i us u h)
find-lock false i now reason us vs u e h = rw e h

blocked-lock :
    (thr m : ℕ) (now : Instant) (reason : String) (u : User)
    → is_blocked u ≡ leb thr m
    → is_blocked (if leb thr (m + 1) then lock_user now reason u else u) ≡ leb thr (m + 1)
unfolding lock_user is_blocked
blocked-lock thr m now reason u h = elim (Bool-cases (leb thr (m + 1))) [
  | inl over ↦ rw over refl
  | inr under ↦ let before : leb thr m ≡ false = ground arith in rw under (h ∙ before)
]

open_count :
    (t : Instant) (c : Counter) (row : AuthAttemptCounter)
    → c ≡ some row
    → t < row.window_expires_at
    → elim (load_counter t c) [ none ↦ 0 | some o ↦ o.failure_count ] ≡ row.failure_count
unfolding load_counter
open_count t c row e early =
    let current : leb row.window_expires_at t ≡ false = ground arith in rw (e, current) refl

module _ (q : Request) (u : User) (scope reason : String) where
  -- The tables after `m` failures in a window that ends at `end`: the user is locked exactly when
  -- they have reached the threshold.
  record After (m : ℕ) (end : Instant) (d : Db) : Type 0 where
    fit : fits d ≡ true
    counts : (t : Instant) → t < end → failures_at t scope u.id d ≡ m
    user : User
    found : find_user u.id d.ledger.users ≡ some user
    locks : is_blocked user ≡ leb (user_security_lock_threshold q u.account_type scope) m

  step-After :
      (m : ℕ) (t : Instant) (d : Db) (user : User)
      → ((a : AuditEvent) → q.audit_ok a ≡ true)
      → fits d ≡ true
      → failures_at t scope u.id d ≡ m
      → find_user u.id d.ledger.users ≡ some user
      → is_blocked user ≡ leb (user_security_lock_threshold q u.account_type scope) m
      → After
          (m + 1)
          (t + 900_000_000)
          (record_user_security_failure (record q { now = t }) u scope reason (begin d)).1.committed
  unfolding user_security_lock_threshold load_counter
  step-After m t d user audits good counted found locks =
      let (d2, runs, failure) =
        record_user_security_failure-Failure (record q { now = t }) u scope reason d good audits in
      rw runs (record {
        fit = failure.still_fits;
        counts = λ t2 early.
            open_count t2 _ failure.counter failure.found (ground (arith, failure.expires))
            ∙ failure.count
            ∙ ap (λ (n : ℕ). n + 1) counted;
        user =
            if leb (user_security_lock_threshold q u.account_type scope) (m + 1)
            then lock_user t reason user
            else user;
        found =
            find-lock _ u.id t reason d.ledger.users d2.ledger.users user
              (failure.users
                ∙ ap
                    (λ (n : ℕ).
                      if leb (user_security_lock_threshold q u.account_type scope) (n + 1)
                      then update_user u.id (lock_user t reason) d.ledger.users
                      else d.ledger.users)
                    counted)
              found;
        locks = blocked-lock _ m t reason user locks;
      })

  failures-After :
      (ts : List Instant) (m : ℕ) (end : Instant) (d : Db)
      → ((a : AuditEvent) → q.audit_ok a ≡ true)
      → After m end d
      → Within end ts
      → (user : User) × (find_user u.id (record_failures q u scope reason ts d).ledger.users
          ≡ some user)
        × (is_blocked user
            ≡ leb (user_security_lock_threshold q u.account_type scope) (m + length ts))
  unfolding record_failures
  failures-After [] m end d audits after within =
      (after.user, after.found, after.locks ∙ ap (leb _) (ground arith))
  failures-After (t ∷ ts) m end d audits after within =
      let (user, found, locks) =
        failures-After ts (m + 1) (t + 900_000_000) _ audits
          (step-After m t d after.user audits after.fit (after.counts t within.0) after.found
            after.locks)
          within.1 in
      (user, found, locks ∙ ap (leb _) (ground arith))

threshold_pos :
    (q : Request) (t : AccountType) (scope : String)
    → leb (user_security_lock_threshold q t scope) 0 ≡ false
unfolding user_security_lock_threshold
threshold_pos q t scope = elim (Bool-cases (str_eq scope "password" && is_privileged t)) [
  | inl strict ↦ rw strict refl
  | inr lax ↦ elim (Bool-cases (str_eq scope "password")) [
    | inl password ↦ rw (lax, password) refl
    | inr other ↦ elim (Bool-cases (str_eq scope "mfa")) [
      | inl mfa ↦ rw (lax, other, mfa) (ground arith)
      | inr rest ↦ rw (lax, other, rest) refl
    ]
  ]
]

-- Failures that follow one another, each before the quarter of an hour after the one before it has
-- passed, from a time at which no failure is counted: the user, who was not locked before, is
-- locked after them exactly when they are as many as the threshold of account type and scope,
-- when the audit rows are written, on tables that pass the flush, as committed ones do.
pub record_user_security_failure-locks :
    (q : Request) (u : User) (scope reason : String) (t : Instant) (ts : List Instant) (d : Db)
    (user : User)
    → ((a : AuditEvent) → q.audit_ok a ≡ true)
    → fits d ≡ true
    → failures_at t scope u.id d ≡ 0
    → find_user u.id d.ledger.users ≡ some user
    → is_blocked user ≡ false
    → Within (t + 900_000_000) ts
    → (after : User) × (find_user u.id (record_failures q u scope reason (t ∷ ts) d).ledger.users
        ≡ some after)
      × (is_blocked after
          ≡ leb (user_security_lock_threshold q u.account_type scope) (1 + length ts))
unfolding record_failures
record_user_security_failure-locks q u scope reason t ts d user audits good fresh found free
      within =
    let first =
      step-After q u scope reason 0 t d user audits good fresh found
        (free ∙ sym (threshold_pos q u.account_type scope)) in
    failures-After q u scope reason ts 1 (t + 900_000_000) _ audits first within
