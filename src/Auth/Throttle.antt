-- ===== src/Auth/Throttle.antt =====
-- The durable rate limits of app/security/rate_limits.py on the table of counters, for the
-- principal `str(user.id)`, and `_enforce_auth_backoff` of app/auth/services.py.
use sitbank.Base.{
  ℕ, String, Bool, false, not, ◌||◌, none, some, List, ltb, leb, ◌==◌, str_eq, is_none,
}
use sitbank.Bank.Types.{auth, auth_backoff, applied, blocked, retry_after}
use sitbank.Bank.Store.{Db, Action, pure, raise, when, gets, modify, commit, flush, ◌>>=◌, ◌>>◌}
use sitbank.Bank.Request.{Request, event, audit_event}
use sitbank.Auth.Rows.{CounterScope, throttle, AttemptRow, counter_for, put_counter, remove_counter}
use sitbank.Security.RateLimits.{
  Counter, Limited, backoff_required, apply_exponential_backoff, record_failure, load_counter,
}

-- An event that names no user.
abbrev pub nobody : ℕ
nobody = 0

unfoldable pub on_attempts : (List AttemptRow → List AttemptRow) → Db → Db
on_attempts f d = record d { attempts = f d.attempts }

unfoldable pub is_expired : ℕ → Counter → Bool
is_expired now none = false
is_expired now (some c) = leb c.window_expires_at now

unfoldable pub is_login : String → Bool
is_login scope = str_eq scope "login" || str_eq scope "admin_login"

-- `attempts in {2, 3, 5, 10} or attempts > 10`
is_audited_attempt : ℕ → Bool
is_audited_attempt n = n == 2 || n == 3 || n == 5 || n == 10 || ltb 10 n

module _ (q : Request) where
  -- `_load_counter`, which deletes an expired row and flushes.
  unfoldable pub load_counter_row : CounterScope → ℕ → Action Counter
  unfolding is_expired counter_for remove_counter on_attempts
  load_counter_row k user = do
    rows ← gets (λ (d : Db). d.attempts)
    when (is_expired q.now (counter_for k user rows))
        (do modify (on_attempts (remove_counter k user)); flush)
    pure (load_counter q.now (counter_for k user rows))

  -- `record_failure` without a window of its own.
  unfoldable pub record_user_failure : String → ℕ → Action ℕ
  unfolding load_counter_row put_counter is_audited_attempt on_attempts
  record_user_failure scope user = do
    c ← load_counter_row (throttle scope) user
    modify (on_attempts (put_counter (throttle scope) user (record_failure none q.now c).1))
    commit
    when (is_audited_attempt (record_failure none q.now c).0)
        (audit_event q (event q auth_backoff applied nobody none))
    pure (record_failure none q.now c).0

  -- `clear_failures`
  unfoldable pub clear_user_failures : String → ℕ → Action (Unit {0})
  unfolding load_counter_row remove_counter on_attempts
  clear_user_failures scope user = do
    c ← load_counter_row (throttle scope) user
    when (not (is_none c)) (do modify (on_attempts (remove_counter (throttle scope) user)); commit)

  unfoldable pub answer_backoff : Limited → Action (Unit {0})
  answer_backoff (backoff_required n) = do
    audit_event q (event q auth_backoff blocked nobody none)
    raise (auth 429 (retry_after n))
  answer_backoff _ = pure tt

  -- `_enforce_auth_backoff`
  unfoldable pub enforce_auth_backoff : String → ℕ → Action (Unit {0})
  unfolding load_counter_row answer_backoff is_login
  enforce_auth_backoff scope user = do
    c ← load_counter_row (throttle scope) user
    answer_backoff (apply_exponential_backoff (is_login scope) q.now c)
