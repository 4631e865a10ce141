-- ===== src/Security/RateLimits/Window.antt =====
-- How many attempts a window grants.
use sitbank.Base.{ℕ, ◌+◌, ◌≤◌, List, [], ◌∷◌, arith, some, ◌<◌, ◌≡◌, ◌*◌, none, min, length}
use sitbank.Security.RateLimits.{
  Counter, consume_durable_rate_limit, load_or_create_counter, counted, load_counter,
  AuthAttemptCounter, new_counter, Instant,
}

-- The attempts at these times, in order: how many are granted, and the counter after them.
unfoldable pub grants : ℕ → ℕ → List Instant → Counter → ℕ
grants limit window [] s = 0
grants limit window (t ∷ ts) s =
    let (r, s2) = consume_durable_rate_limit limit window t s in
    let rest = grants limit window ts s2 in elim r [ counted n ↦ 1 + rest | _ ↦ rest ]

-- Every time is before the end.
abbrev pub AllBefore : Instant → List Instant → Type 0
AllBefore e [] = Unit
AllBefore e (t ∷ ts) = (t < e) × AllBefore e ts

grants-open :
    (limit window : ℕ) (ts : List Instant) (c : AuthAttemptCounter)
    → 1 ≤ limit
    → 1 ≤ window
    → AllBefore c.window_expires_at ts
    → c.failure_count ≤ limit
    → c.failure_count + grants limit window ts (some c) ≡ min limit (c.failure_count + length ts)
unfolding grants consume_durable_rate_limit load_or_create_counter load_counter
grants-open limit window [] c l1 w1 before fits = ground arith
grants-open limit window (t ∷ ts) c l1 w1 before fits =
    let counted_rest =
      grants-open limit window ts (record c { failure_count = c.failure_count + 1 }) l1 w1
        before.1 in
    ground (arith, counted_rest, grants-open limit window ts c l1 w1 before.1 fits, before.0)

-- When no counter is open at the first of some attempts, and the others come before the end of
-- the window that the first one opens, exactly as many are granted as there are attempts, up
-- to the limit.
pub consume_durable_rate_limit-grants :
    (limit window : ℕ) (t : Instant) (ts : List Instant) (s : Counter)
    → 1 ≤ limit
    → 1 ≤ window
    → load_counter t s ≡ none
    → AllBefore (t + window * 1_000_000) ts
    → grants limit window (t ∷ ts) s ≡ min limit (1 + length ts)
unfolding grants consume_durable_rate_limit load_or_create_counter new_counter
consume_durable_rate_limit-grants limit window t ts s l1 w1 fresh before =
    let rest =
      grants-open limit window ts (record (new_counter t window) { failure_count = 1 }) l1 w1 before
        l1 in
    ground (arith, fresh, rest)
