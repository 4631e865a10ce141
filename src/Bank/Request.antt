-- ===== src/Bank/Request.antt =====
-- What one request brings along, and the audit and mail helpers of app/banking/services.py
-- (`audit_banking_action`, `_ensure_banking_action_allowed`, `send_transfer_notification`,
-- `maybe_send_daily_limit_warning`) with `_audit_event` of app/security/audit.py.
pub mod Keeps
pub mod Warning
use sitbank.Base.{
  ℕ, ◌+◌, ◌*◌, String, Bool, true, false, not, ◌&&◌, ◌||◌, Option, none, some, leb, ltb, str_eq,
  is_none, if◌then◌else◌, List,
}
use sitbank.Bank.Types.{
  Instant, Cents, User, Transaction, BankingAction, outbound_transfer, scheduled_transfer_execution,
  transaction_authorization, Outcome, success, failure, blocked, queued, approved, executed,
  completed, EventType, banking, banking_transfer_notification, banking_daily_limit_notification,
  Reason, account_frozen, lock_reason, email_delivery_failed, AuditEvent, frozen_account,
  audit_write_error, TopUpCredit, PublicMessage,
}
use sitbank.Bank.Store.{
  begin, ok, err, Action, pure, raise, when, fits, commit, catch, ◌>>◌, add_audit,
}

-- The clock's readings, what HMAC, UUID and mail answer, and the configuration.
pub record Request : Type 0 where
  pub now : Instant
  -- read when the row is made, when usage and risk are computed, by the audit, and when a top-up
  -- is completed
  pub txn_created_at : Instant
  pub day_now : Instant
  pub audit_at : Instant
  pub approved_at : Instant
  -- `local_transfer_token_verifier` and `payup_transfer_token_verifier`
  pub local_token_verifier : String → String
  pub payup_token_verifier : String → String
  -- `_topup_token_hmac`, on code points
  pub topup_verifier_hmac : List ℕ → String
  -- `str(uuid.uuid4())`
  pub new_ref : String
  -- `sign_transaction_integrity` and `sign_topup_credit_integrity` of a row's signed fields;
  -- none is a misconfigured keyring
  pub sign : Transaction → Option String
  pub sign_credit : TopUpCredit → Option String
  -- does the row reach the audit table, does the mail leave
  pub audit_ok : AuditEvent → Bool
  pub mail_ok : ℕ → Bool
  pub payee_cooldown_seconds : ℕ
  pub topup_approval_ttl_seconds : ℕ
  -- the four settings of the PayUp policy, caps in whole cents, with whether all of them are
  -- there and read as numbers, and whether session and audit table are read without an error
  pub payup_settings_valid : Bool
  pub payup_state_readable : Bool
  pub payup_quick_transfer_cap : Cents
  pub payup_quick_daily_cap : Cents
  pub payup_quick_session_max_age_seconds : ℕ
  pub payup_sensitive_event_cooldown_seconds : ℕ
  -- of the authenticated session (app/security/sessions.py)
  pub session_age_seconds : Option ℕ
  pub session_is_stable : Bool
  -- `PUBLIC_TRANSACTION_IDEMPOTENCY_TTL_SECONDS`; none is one that is missing or no number
  pub public_transaction_ttl_seconds : Option ℕ
  -- `TRANSACTION_LEDGER_HMAC_ACTIVE_KEY_ID`, and the ids of `TRANSACTION_LEDGER_HMAC_KEYS` with the
  -- number of bytes of each key; none is a setting that is no dictionary
  pub ledger_hmac_active_key_id : String
  pub ledger_hmac_keys : Option (List (String × ℕ))
  -- `str.strip`
  pub strip : String → String
  -- the HMAC under a key of the keyring, and the SHA-256 of user and idempotency key
  pub public_hmac : String → PublicMessage → String
  pub public_key_fingerprint : ℕ → String → String
  -- `int(time.time())`
  pub unix_now : ℕ
  -- `_session_component()`
  pub session_component : String
  -- `decrypt_mfa_secret`; none is a failing decryption
  pub decrypt_mfa_secret : ℕ → String → Option String
  -- `pyotp.TOTP(secret).at(time)`
  pub totp_at : String → ℕ → List ℕ
  -- does `\d` match a code point that is not ASCII
  pub is_wide_digit : ℕ → Bool
  -- `active_hmac_hex` of user, scope, step and code
  pub replay_digest : ℕ → String → ℕ → List ℕ → String
  -- `str.casefold` and `str.isalnum`, and the HMAC of user, purpose and normalized recovery code
  pub casefold : List ℕ → List ℕ
  pub is_alnum : ℕ → Bool
  pub recovery_hmac : ℕ → String → List ℕ → String
  -- `.strip().casefold()` of an address
  pub normalized_email : String → String
  pub totp_login_valid_window : ℕ
  pub totp_high_risk_valid_window : ℕ
  pub customer_mfa_failure_limit : ℕ

-- `_requires_durable_audit`
unfoldable pub durable_action : BankingAction → Bool
durable_action outbound_transfer = true
durable_action scheduled_transfer_execution = true
durable_action transaction_authorization = true
durable_action _ = false

unfoldable pub durable_outcome : Outcome → Bool
durable_outcome success = true
durable_outcome approved = true
durable_outcome completed = true
durable_outcome executed = true
durable_outcome _ = false

unfoldable pub requires_durable_audit : BankingAction → Outcome → Bool
unfolding durable_action durable_outcome
requires_durable_audit a o = durable_action a && durable_outcome o

-- `user.security_lock_reason or "account_frozen"`
frozen_reason : Option String → Reason
frozen_reason none = account_frozen
frozen_reason (some t) = if str_eq t "" then account_frozen else lock_reason t

-- `ensure_account_not_frozen` of app/auth/services.py raises when this holds.
unfoldable pub is_blocked : User → Bool
is_blocked u = u.is_frozen || not (is_none u.security_locked_at)

-- `maybe_send_daily_limit_warning`: only when this transfer crosses 80 % of the limit
unfoldable pub crosses_warning : Cents → Cents → Cents → Bool
crosses_warning used amount limit =
    ltb 0 limit && ltb (used * 10) (limit * 8) && leb (limit * 8) ((used + amount) * 10)

-- `safe_send_notification`: whatever the notification raises is swallowed.
unfoldable pub safe_send_notification : Action (Unit {0}) → Action (Unit {0})
safe_send_notification m = catch m λ _. pure tt

module _ (q : Request) where
  unfoldable pub event : EventType → Outcome → ℕ → Option Reason → AuditEvent
  event t o user reason = record {
    event_type = t;
    outcome = o;
    user_id = user;
    reason = reason;
    created_at = q.audit_at;
  }

  -- `audit_event`: the row is flushed with all that is pending, and committed; a failure rolls
  -- the whole transaction back and is swallowed.
  unfoldable pub audit_event : AuditEvent → Action (Unit {0})
  audit_event e s =
      let d = add_audit e s.working in
      if q.audit_ok e && fits d then (ok tt, begin d) else (ok tt, begin s.committed)

  -- `audit_event_required`: only the audit row is flushed; a failure raises.
  unfoldable pub audit_event_required : AuditEvent → Action (Unit {0})
  audit_event_required e s =
      if q.audit_ok e
      then (ok tt, record s { working = add_audit e s.working })
      else (err audit_write_error, s)

  unfoldable pub audit_banking_action :
      Bool → BankingAction → Outcome → ℕ → Option Reason → Action (Unit {0})
  unfolding requires_durable_audit event
  audit_banking_action required a o user reason =
      let e = event (banking a) o user reason in
      if required || requires_durable_audit a o
      then (do audit_event_required e; commit)
      else audit_event e

  -- `audit_outbound_transfer`
  unfoldable pub audit_outbound_transfer : User → Outcome → Option Reason → Action (Unit {0})
  unfolding audit_banking_action
  audit_outbound_transfer u o reason = audit_banking_action false outbound_transfer o u.id reason

  -- `_ensure_banking_action_allowed`
  unfoldable pub ensure_banking_action_allowed : BankingAction → User → Action (Unit {0})
  unfolding frozen_reason audit_banking_action
  ensure_banking_action_allowed a u = catch (when (is_blocked u) (raise (frozen_account a))) λ e. do
    audit_banking_action false a blocked u.id (some (frozen_reason u.security_lock_reason))
    raise e

  -- `_send_banking_email`
  send_banking_email : EventType → User → Action (Unit {0})
  unfolding audit_event event
  send_banking_email t u =
      if q.mail_ok u.id
      then audit_event (event t queued u.id none)
      else audit_event (event t failure u.id (some email_delivery_failed))

  -- `send_transfer_notification`, for any direction, outcome and channel
  unfoldable pub send_transfer_notification : User → Action (Unit {0})
  unfolding send_banking_email
  send_transfer_notification u =
      when u.transfer_activity_email_enabled (send_banking_email banking_transfer_notification u)

  unfoldable pub maybe_send_daily_limit_warning : User → Cents → Cents → Cents → Action (Unit {0})
  unfolding crosses_warning send_banking_email
  maybe_send_daily_limit_warning u used amount limit =
      when (crosses_warning used amount limit)
        (send_banking_email banking_daily_limit_notification u)
