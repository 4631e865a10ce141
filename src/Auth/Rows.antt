-- ===== src/Auth/Rows.antt =====
-- The rows that authentication reads and writes (app/models.py).
pub mod Counters
use sitbank.Base.{
  ℕ, String, Bool, false, ◌&&◌, Option, none, some, List, [], ◌∷◌, ◌==◌, str_eq, if◌then◌else◌,
}
use sitbank.Security.RateLimits.{AuthAttemptCounter}

-- The `scope` column of a counter; `_record_user_security_failure` puts "user_security:" before
-- its scope.
pub data CounterScope : Type 0 where
  throttle user_security : String → CounterScope

-- A counter of the principal `str(user.id)`; the HMAC of scope and principal is modelled by the
-- two themselves.
pub record AttemptRow : Type 0 where
  pub scope : CounterScope
  pub user_id : ℕ
  pub counter : AuthAttemptCounter

pub record TotpReplayRecord : Type 0 where
  pub user_id : ℕ
  pub scope : String
  pub time_step : ℕ
  pub code_digest : String
  pub expires_at : ℕ

pub record ServerSideSession : Type 0 where
  pub user_id : ℕ
  pub component : String
  pub expires_at : ℕ
  pub payload : Option String
  pub revoked_at : Option ℕ
  pub ended_at : Option ℕ
  pub ended_reason : Option String

pub record RecoveryCode : Type 0 where
  pub user_id : ℕ
  pub code_hmac : String
  pub hmac_version : ℕ
  pub purpose : String
  pub used_at : Option ℕ

same_scope : CounterScope → CounterScope → Bool
same_scope (throttle a) (throttle b) = str_eq a b
same_scope (user_security a) (user_security b) = str_eq a b
same_scope _ _ = false

unfoldable pub is_counter_of : CounterScope → ℕ → AttemptRow → Bool
unfolding same_scope
is_counter_of k user r = same_scope r.scope k && r.user_id == user

unfoldable pub counter_for : CounterScope → ℕ → List AttemptRow → Option AuthAttemptCounter
unfolding is_counter_of
counter_for k user [] = none
counter_for k user (r ∷ rows) =
    if is_counter_of k user r then some r.counter else counter_for k user rows

unfoldable pub remove_counter : CounterScope → ℕ → List AttemptRow → List AttemptRow
unfolding is_counter_of
remove_counter k user [] = []
remove_counter k user (r ∷ rows) =
    let rest = remove_counter k user rows in if is_counter_of k user r then rest else r ∷ rest

-- The table with this row for the scope and the user, or none.
unfoldable pub put_counter :
    CounterScope → ℕ → Option AuthAttemptCounter → List AttemptRow → List AttemptRow
unfolding remove_counter
put_counter k user none rows = remove_counter k user rows
put_counter k user (some c) rows =
    record { scope = k; user_id = user; counter = c } ∷ remove_counter k user rows

-- Do two records break the unique constraint of the table?
unfoldable pub same_replay : TotpReplayRecord → TotpReplayRecord → Bool
same_replay a b =
    a.user_id == b.user_id
    && str_eq a.scope b.scope
    && a.time_step == b.time_step
    && str_eq a.code_digest b.code_digest
