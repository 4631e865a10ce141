-- ===== src/Auth/Rows/Counters.antt =====
-- The table of counters finds what was put there.
use sitbank.Base.{refl, eq_iff, ◌≡◌, ℕ, some, true, List, str_eq, ==_refl}
use sitbank.Auth.Rows.{
  counter_for, is_counter_of, put_counter, same_scope, CounterScope, AttemptRow, throttle,
  user_security,
}
use sitbank.Security.RateLimits.{AuthAttemptCounter}

is_counter_of-put :
    (k : CounterScope) (user : ℕ) (c : AuthAttemptCounter)
    → is_counter_of k user (record { scope = k; user_id = user; counter = c }) ≡ true
unfolding is_counter_of same_scope
is_counter_of-put (throttle t) user c =
    let same : str_eq t t ≡ true = (eq_iff t t).1 refl in rw (same, ==_refl user) refl
is_counter_of-put (user_security t) user c =
    let same : str_eq t t ≡ true = (eq_iff t t).1 refl in rw (same, ==_refl user) refl

pub counter_for-put :
    (k : CounterScope) (user : ℕ) (c : AuthAttemptCounter) (rows : List AttemptRow)
    → counter_for k user (put_counter k user (some c) rows) ≡ some c
unfolding counter_for put_counter
counter_for-put k user c rows = rw (is_counter_of-put k user c) refl
