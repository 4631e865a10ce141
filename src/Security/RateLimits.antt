-- ===== src/Security/RateLimits.antt =====
-- Durable rate limits: app/security/rate_limits.py, on the counter of one scope and principal. One
-- reading of the clock stands for the two that a call makes.
pub mod Window
pub mod Backoff
use sitbank.Base.{
  ℕ, ◌+◌, ◌-◌, ◌/◌, ◌*◌, ◌^◌, min, max, Bool, true, false, ◌||◌, Option, none, some, ltb, leb,
  if◌then◌else◌,
}

-- Instants in microseconds.
abbrev pub Instant : Type 0
Instant = ℕ

-- `AuthAttemptCounter`, found by its scope and the hash of the principal.
pub record AuthAttemptCounter : Type 0 where
  pub failure_count : ℕ
  pub window_started_at : Instant
  pub window_expires_at : Instant
  pub last_failed_at : Option Instant

-- The table's row for the scope and principal, if there is one.
abbrev pub Counter : Type 0
Counter = Option AuthAttemptCounter

abbrev second : ℕ
second = 1_000_000

-- What a call returns or raises.
pub data Limited : Type 0 where
  counted : ℕ → Limited
  passed : Limited
  backoff_required : ℕ → Limited
  limit_exceeded : ℕ → Limited
  value_error : Limited

-- `LOGIN_BACKOFF_START_ATTEMPTS` and `_backoff_start_attempts`, by whether the scope is a login.
abbrev pub login_backoff_start_attempts : ℕ
login_backoff_start_attempts = 3

unfoldable pub backoff_start_attempts : Bool → ℕ
backoff_start_attempts true = login_backoff_start_attempts
backoff_start_attempts false = 1

-- `_load_counter`, which deletes an expired row.
unfoldable pub load_counter : Instant → Counter → Counter
load_counter now none = none
load_counter now (some c) = if leb c.window_expires_at now then none else some c

unfoldable pub new_counter : Instant → ℕ → AuthAttemptCounter
new_counter now window_seconds = record {
  failure_count = 0;
  window_started_at = now;
  window_expires_at = now + window_seconds * second;
  last_failed_at = none;
}

-- `_load_or_create_counter`
unfoldable pub load_or_create_counter : Instant → ℕ → Counter → AuthAttemptCounter
load_or_create_counter now window_seconds s = elim (load_counter now s) [
  | none ↦ new_counter now window_seconds
  | some c ↦ c
]

-- `failure_count or 0` of a loaded row.
abbrev attempts_of : Counter → ℕ
attempts_of none = 0
attempts_of (some c) = c.failure_count

-- `apply_exponential_backoff`
unfoldable pub apply_exponential_backoff : Bool → Instant → Counter → Limited
apply_exponential_backoff login now s =
    let attempts = attempts_of (load_counter now s) in
    let start = backoff_start_attempts login in
    if ltb attempts start then passed else backoff_required (min (2 ^ (attempts - start)) 16)

-- The window that a failure opens: the one given, or five minutes, or fifteen after ten failures.
unfoldable pub active_window_seconds : Option ℕ → ℕ → ℕ
active_window_seconds (some w) n = w
active_window_seconds none n = if ltb 10 n then 15 * 60 else 5 * 60

abbrev initial_window : Option ℕ → ℕ
initial_window (some w) = w
initial_window none = 5 * 60

-- `record_failure`
unfoldable pub record_failure : Option ℕ → Instant → Counter → ℕ × Counter
record_failure window now s =
    let c = load_or_create_counter now (initial_window window) s in
    let n = c.failure_count + 1 in
    (
      n,
      some (record c {
        failure_count = n;
        last_failed_at = some now;
        window_expires_at = now + active_window_seconds window n * second;
      }),
    )

-- `max(1, int((expires - now).total_seconds()))`, of a row that is not expired.
abbrev retry_after : Instant → Instant → ℕ
retry_after expires now = max 1 ((expires - now) / second)

exceeds : ℕ → Instant → Counter → Limited
exceeds limit now none = passed
exceeds limit now (some c) =
    if leb c.failure_count limit
    then passed
    else limit_exceeded (retry_after c.window_expires_at now)

-- `enforce_durable_failure_limit`
unfoldable pub enforce_durable_failure_limit : ℕ → Instant → Counter → Limited
unfolding exceeds
enforce_durable_failure_limit limit now s =
    if ltb limit 1 then value_error else exceeds limit now (load_counter now s)

-- `clear_failures`
unfoldable pub clear_failures : Instant → Counter → Counter
clear_failures now s = none

-- `consume_durable_rate_limit`, which rolls back when the limit is reached.
unfoldable pub consume_durable_rate_limit : ℕ → ℕ → Instant → Counter → Limited × Counter
consume_durable_rate_limit limit window_seconds now s =
    let c = load_or_create_counter now window_seconds s in
    if ltb limit 1 || ltb window_seconds 1
    then (value_error, s)
    else if leb limit c.failure_count
    then (limit_exceeded (retry_after c.window_expires_at now), s)
    else (counted (c.failure_count + 1), some (record c { failure_count = c.failure_count + 1 }))
