-- ===== src/Bank/Types.antt =====
-- The rows that the banking services read and write (app/models.py), and the values that they
-- return or raise (app/banking/services.py, app/auth/services.py).
use sitbank.Base.{ℕ, String, Bool, List, Option}
use sitbank.Base.Int.{ℤ}

-- Instants are microseconds since 0001-01-01T00:00Z, amounts of money whole cents.
abbrev pub Instant : Type 0
Instant = ℕ

abbrev pub Cents : Type 0
Cents = ℕ

pub data AccountStatus : Type 0 where
  active setup_pending revoked locked : AccountStatus

pub data AccountType : Type 0 where
  customer staff admin root_admin : AccountType

pub record User : Type 0 where
  pub id : ℕ
  pub account_type : AccountType
  pub email : String
  -- none is the empty text
  pub staff_personal_email : String
  pub account_status : AccountStatus
  -- twelve digits, as the number that they spell
  pub account_number : Option ℕ
  pub phone_number : Option String
  -- the nickname's code points; none is the empty text
  pub payup_nickname : List ℕ
  pub balance : Cents
  pub payup_daily_limit : Cents
  pub local_transfer_daily_limit : Cents
  pub payup_enabled : Bool
  pub mfa_enabled : Bool
  -- the sealed secret of the authenticator, nonce and ciphertext
  pub mfa_secret : Option String
  pub transfer_activity_email_enabled : Bool
  pub is_frozen : Bool
  pub security_locked_at : Option Instant
  pub security_lock_reason : Option String

pub record Payee : Type 0 where
  pub id : ℕ
  pub user_id : ℕ
  pub account_number : ℕ
  pub created_at : Instant

-- `Decimal(str(pending.amount))` of a `Numeric(12, 5)` column: hundred-thousandths of a dollar.
pub data StoredDecimal : Type 0 where
  nan : StoredDecimal
  units : ℤ → StoredDecimal

-- The rows of `PendingTransfer` (target: the payee's id) and of `PayupPendingTransfer`
-- (target: the recipient's user id), which share their columns.
pub record PendingTransfer : Type 0 where
  pub token : String
  pub user_id : ℕ
  pub target_id : ℕ
  pub amount : StoredDecimal
  pub reference : List ℕ
  pub expires_at : Instant
  pub consumed_at : Option Instant
  pub consumed_transaction_ref : Option String

pub data TransactionType : Type 0 where
  local_transfer payup topup : TransactionType

pub data TransactionStatus : Type 0 where
  completed failed : TransactionStatus

pub record Transaction : Type 0 where
  pub transaction_ref : String
  pub transaction_hash : String
  pub sender_id : ℕ
  pub recipient_id : ℕ
  pub payee_id : Option ℕ
  pub amount : Cents
  pub reference : List ℕ
  pub status : TransactionStatus
  pub transaction_type : TransactionType
  pub created_at : Instant

pub record TopUpCredit : Type 0 where
  pub credit_ref : String
  pub credit_hash : String
  pub user_id : ℕ
  pub amount : Cents
  pub created_at : Instant

pub data TopUpStatus : Type 0 where
  pending completed expired failed : TopUpStatus

pub record TopUpApprovalRequest : Type 0 where
  pub selector : List ℕ
  pub verifier_hmac : String
  pub user_id : ℕ
  pub amount : Cents
  pub status : TopUpStatus
  pub failure_count : ℕ
  pub expires_at : Instant
  pub approved_at : Option Instant
  pub credit_ref : Option String

pub data ReservationStatus : Type 0 where
  reserved completed failed : ReservationStatus

pub record PublicTransactionIdempotency : Type 0 where
  pub user_id : ℕ
  pub hmac_key_id : String
  pub key_fingerprint : String
  pub key_verifier : String
  pub payload_verifier : String
  pub status : ReservationStatus
  pub result_reference : Option String
  pub created_at : Instant
  pub updated_at : Instant
  pub expires_at : Instant

-- What `_public_transaction_hmac_hex` signs: the text after "key:", or a payload's message.
pub data PublicMessage : Type 0 where
  key_message payload_message : String → PublicMessage

pub data BankingAction : Type 0 where
  outbound_transfer scheduled_transfer_execution public_transaction_validation : BankingAction
  transaction_authorization sensitive_profile_change : BankingAction

pub data Outcome : Type 0 where
  success failure blocked queued approved executed requested verified completed mfa_success locked
        applied :
      Outcome

-- `updated_fields` of a profile update, and the other event types that the services name.
pub data UpdatedFields : Type 0 where
  profile_email profile_phone profile_email_phone none_of_these : UpdatedFields

pub data EventType : Type 0 where
  banking : BankingAction → EventType
  banking_transfer_notification banking_daily_limit_notification account_topup : EventType
  account_topup_approval auth_backoff account_lock : EventType
  manual_recovery_completed manual_recovery_requested mfa_replace_start : EventType
  mfa_replace_verify password_change password_reset_completed : EventType
  recovery_codes_generated recovery_codes_regenerate other_event : EventType
  staff_self_customer_action_blocked : EventType
  profile_update : UpdatedFields → EventType

-- The `reason` of an audit event's metadata, which also tells the raised errors apart.
pub data Reason : Type 0 where
  payee_ownership_mismatch recipient_not_found self_transfer : Reason
  recipient_account_unavailable payee_in_cooldown confirmation_token_not_found : Reason
  confirmation_token_expired invalid_amount_precision amount_out_of_range : Reason
  insufficient_funds daily_limit_exceeded payup_nickname_required : Reason
  payup_step_up_required risk_state_unavailable risk_state_invalid payup_disabled : Reason
  mfa_not_enrolled session_risk session_state_unavailable stale_session : Reason
  recent_sensitive_event quick_transfer_cap quick_daily_cap account_frozen : Reason
  email_delivery_failed owner_ineligible mfa_not_configured : Reason
  authenticated_scope_required pending_database_state_rejected : Reason
  schema_validation_failed non_durable_store_rejected idempotency_hmac_key_unavailable : Reason
  idempotency_key_verifier_invalid same_payload_replay_blocked : Reason
  idempotency_payload_conflict public_transaction_unavailable : Reason
  missing_identity actor_not_staff target_not_customer explicit_identity_link : Reason
  verified_email_overlap : Reason
  retry_after : ℕ → Reason
  lock_reason : String → Reason

pub record AuditEvent : Type 0 where
  pub event_type : EventType
  pub outcome : Outcome
  pub user_id : ℕ
  pub reason : Option Reason
  pub created_at : Instant

-- `PersonIdentityLink`: one person behind a staff account and a customer account.
pub record PersonIdentityLink : Type 0 where
  pub staff_user_id : ℕ
  pub customer_user_id : ℕ
  pub revoked_at : Option Instant

-- Exceptions. `auth` is `AuthError` with its status code; two of its messages are shared by two
-- reasons each, which the reason keeps apart. `integrity_error` is what a flush raises when a
-- row breaks a constraint, `no_such_row` a failed lookup in the dictionary of locked rows.
pub data Error : Type 0 where
  frozen_account : BankingAction → Error
  account_frozen_topup : Error
  auth : ℕ → Reason → Error
  -- a response of a route that ends it early, with its status code
  responded : ℕ → Error
  audit_write_error integrity_error no_such_row signing_error : Error
  -- `InvalidTag` of a secret that does not decrypt, `TypeError` of a comparison of other texts
  -- than ASCII
  invalid_tag type_error value_error : Error
  -- `decimal.InvalidOperation` of an order comparison with NaN
  invalid_operation : Error
