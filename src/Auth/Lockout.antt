-- ===== src/Auth/Lockout.antt =====
-- Failures that lock an account: `_record_user_security_failure` and its helpers in
-- app/auth/services.py, with `revoke_all_sessions` of app/security/sessions.py.
pub mod Sessions
pub mod Step
pub mod Threshold
use sitbank.Base.{
  ℕ, ◌+◌, ◌*◌, String, Bool, true, false, not, ◌&&◌, none, some, List, max, ltb, leb, ◌==◌, str_eq,
  is_none, if◌then◌else◌, update_where, Option,
}
use sitbank.Bank.Types.{User, AccountType, account_lock, locked, lock_reason}
use sitbank.Bank.Store.{Db, Action, when, gets, modify, commit, update_user, ◌>>=◌, ◌>>◌}
use sitbank.Bank.Request.{Request, event, audit_event_required}
use sitbank.Auth.Rows.{ServerSideSession, user_security, counter_for, put_counter, remove_counter}
use sitbank.Auth.Throttle.{on_attempts, load_counter_row}
use sitbank.Security.RateLimits.{record_failure}

abbrev pub auth_lock_threshold : ℕ
auth_lock_threshold = 10

abbrev pub customer_password_lock_threshold : ℕ
customer_password_lock_threshold = 3

abbrev pub privileged_password_lock_threshold : ℕ
privileged_password_lock_threshold = 2

abbrev pub auth_lock_window_seconds : ℕ
auth_lock_window_seconds = 15 * 60

unfoldable pub is_privileged : AccountType → Bool
is_privileged AccountType.customer = false
is_privileged _ = true

-- `_active_session_records`: which rows it finds, and which stale ones it ends on the way.
is_live : String → ℕ → ServerSideSession → Bool
is_live component user r =
    str_eq r.component component && r.user_id == user && is_none r.revoked_at && is_none r.ended_at

unfoldable pub is_active_session : String → ℕ → ℕ → ServerSideSession → Bool
unfolding is_live
is_active_session component user now r =
    is_live component user r && ltb now r.expires_at && not (is_none r.payload)

is_stale_session : String → ℕ → ℕ → ServerSideSession → Bool
unfolding is_live
is_stale_session component user now r = is_live component user r && leb r.expires_at now

-- `_end_session_record` of a session that has not ended.
end_session_record : String → ℕ → ServerSideSession → ServerSideSession
end_session_record reason now r = record r {
  payload = none;
  revoked_at = some now;
  ended_at = some now;
  ended_reason = some reason;
}

-- `str(component or _session_component())`
abbrev pub component_of : String → Option String → String
component_of current none = current
component_of current (some c) = if str_eq c "" then current else c

-- `revoke_all_sessions` in an app of component `current`: whatever component is given, the stale
-- sessions that end are those of the app's own. `reason` is a normalized one.
unfoldable pub revoke_all_sessions :
    String → Option String → String → ℕ → ℕ → List ServerSideSession → List ServerSideSession
unfolding is_active_session is_stale_session end_session_record
revoke_all_sessions current component reason user now rows =
    update_where (is_active_session (component_of current component) user now)
      (end_session_record reason now)
      (update_where (is_stale_session current user now) (end_session_record "expired" now) rows)

unfoldable pub lock_user : ℕ → String → User → User
lock_user now reason u = record u {
  is_frozen = true;
  security_locked_at = some now;
  security_lock_reason = some reason;
}

module _ (q : Request) where
  -- `_user_security_lock_threshold`
  unfoldable pub user_security_lock_threshold : AccountType → String → ℕ
  unfolding is_privileged
  user_security_lock_threshold t scope =
      if str_eq scope "password" && is_privileged t
      then privileged_password_lock_threshold
      else if str_eq scope "password"
      then customer_password_lock_threshold
      else if str_eq scope "mfa"
      then max auth_lock_threshold (q.customer_mfa_failure_limit + 2)
      else auth_lock_threshold

  -- The writes of `_lock_user_account`, before its audit.
  unfoldable pub apply_lock : ℕ → String → Db → Db
  unfolding revoke_all_sessions lock_user
  apply_lock user reason d = record d {
    ledger = record d.ledger { users = update_user user (lock_user q.now reason) d.ledger.users };
    sessions = revoke_all_sessions q.session_component none "revoked" user q.now d.sessions;
  }

  -- `_lock_user_account`
  unfoldable pub lock_user_account : ℕ → String → Action (Unit {0})
  unfolding apply_lock event
  lock_user_account user reason = do
    modify (apply_lock user reason)
    audit_event_required q (event q account_lock locked user (some (lock_reason reason)))
    commit

  -- `_record_user_security_failure`, whose counter starts, counts and expires as one of
  -- `record_failure` with this window.
  unfoldable pub record_user_security_failure : User → String → String → Action (Unit {0})
  unfolding load_counter_row put_counter on_attempts user_security_lock_threshold lock_user_account
  record_user_security_failure u scope reason = do
    c ← load_counter_row q (user_security scope) u.id
    let counted = record_failure (some auth_lock_window_seconds) q.now c
    modify (on_attempts (put_counter (user_security scope) u.id counted.1))
    commit
    when (leb (user_security_lock_threshold u.account_type scope) counted.0)
        (lock_user_account u.id reason)

  -- `_clear_user_security_failures`
  unfoldable pub clear_user_security_failures : ℕ → String → Action (Unit {0})
  unfolding counter_for remove_counter on_attempts
  clear_user_security_failures user scope = do
    rows ← gets (λ (d : Db). d.attempts)
    when (not (is_none (counter_for (user_security scope) user rows)))
        (do modify (on_attempts (remove_counter (user_security scope) user)); commit)
