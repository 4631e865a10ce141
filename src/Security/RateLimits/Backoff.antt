-- ===== src/Security/RateLimits/Backoff.antt =====
-- How long a principal waits after its failures.
use sitbank.Base.{
  ◌≡◌, ℕ, ◌+◌, arith, ◌*◌, ◌-◌, Option, none, min, some, Bool, ◌^◌, ◌<◌, if◌then◌else◌, ltb, false,
  refl, leb,
}
use sitbank.Security.RateLimits.{
  Counter, Limited, apply_exponential_backoff, backoff_start_attempts, record_failure, passed,
  Instant, load_or_create_counter, backoff_required, load_counter, new_counter,
  active_window_seconds, initial_window,
}

-- The wait after `n` failures of a scope: none before the scope's first attempt that waits, then
-- a doubling number of seconds, at most sixteen.
abbrev pub wait_after : Bool → ℕ → Limited
wait_after login n =
    if ltb n (backoff_start_attempts login)
    then passed
    else backoff_required (min (2 ^ (n - backoff_start_attempts login)) 16)

counts :
    (now : Instant) (w : ℕ) (s : Counter)
    → (load_or_create_counter now w s).failure_count + 1
      ≡ 1 + elim (load_counter now s) [ none ↦ 0 | some c ↦ c.failure_count ]
unfolding load_or_create_counter load_counter new_counter
counts now w none = refl
counts now w (some c) = ground arith

-- After a failure is recorded, and until its window ends, the backoff is the wait after the
-- number of failures that the record reports; that number is one more than the failures that
-- the open counter held, and a failure in a new window is the first one.
pub record_failure-backoff :
    (login : Bool) (window : Option ℕ) (now later : Instant) (s : Counter)
    → later < now + active_window_seconds window (record_failure window now s).0 * 1_000_000
    → (apply_exponential_backoff login later (record_failure window now s).1
        ≡ wait_after login (record_failure window now s).0)
      × ((record_failure window now s).0
          ≡ 1 + elim (load_counter now s) [ none ↦ 0 | some c ↦ c.failure_count ])
unfolding apply_exponential_backoff record_failure load_or_create_counter load_counter new_counter
record_failure-backoff login window now later s early =
    let open_window : leb
          (now + active_window_seconds window (record_failure window now s).0 * 1_000_000) later
        ≡ false =
      ground arith in
    (rw open_window refl, counts now (initial_window window) s)
