-- ===== src/Security/Tests.antt =====
-- Runs of the rate limits.
pub mod Chain
use sitbank.Base.{◌≡◌, refl, ◌+◌, List, [], ◌∷◌, false, arith, ◌<◌, ◌*◌, none, some}
use sitbank.Security.RateLimits.{
  Counter, apply_exponential_backoff, load_counter, active_window_seconds, record_failure,
  backoff_start_attempts, load_or_create_counter, backoff_required, new_counter,
}
use sitbank.Security.RateLimits.Window.{grants, consume_durable_rate_limit-grants, AllBefore}
use sitbank.Security.RateLimits.Backoff.{record_failure-backoff, wait_after}
use sitbank.Bank.Types.{Instant}

abbrev stale : Counter
stale = some (record {
  failure_count = 3;
  window_started_at = 0;
  window_expires_at = 4_000_000;
  last_failed_at = none;
})

abbrev attempts : List Instant
attempts = 5_500_000 ∷ 6_000_000 ∷ 7_000_000 ∷ []

stale_is_gone : load_counter 5_000_000 stale ≡ none
unfolding load_counter
stale_is_gone = refl

attempts-AllBefore : AllBefore (5_000_000 + 60 * 1_000_000) attempts
attempts-AllBefore = ground arith

consume_durable_rate_limit-grants_example : grants 2 60 (5_000_000 ∷ attempts) stale ≡ 2
consume_durable_rate_limit-grants_example =
    consume_durable_rate_limit-grants 2 60 5_000_000 attempts stale (ground arith) (ground arith)
      stale_is_gone attempts-AllBefore

in_window :
    6_000_000
    < 5_000_000 + active_window_seconds none (record_failure none 5_000_000 stale).0 * 1_000_000
unfolding active_window_seconds record_failure load_or_create_counter load_counter new_counter
in_window = ground arith

record_failure-backoff_example :
    (apply_exponential_backoff false 6_000_000 (record_failure none 5_000_000 stale).1
      ≡ wait_after false (record_failure none 5_000_000 stale).0)
    × ((record_failure none 5_000_000 stale).0
        ≡ 1 + elim (load_counter 5_000_000 stale) [ none ↦ 0 | some c ↦ c.failure_count ])
record_failure-backoff_example =
    record_failure-backoff false none 5_000_000 6_000_000 stale in_window

waits_four : apply_exponential_backoff false 3_000_000 stale ≡ backoff_required 4
unfolding apply_exponential_backoff load_counter backoff_start_attempts
waits_four = refl
