-- ===== src/Bank/Tests.antt =====
-- A bank of three users on which the services run.
pub mod Payups
pub mod TopUps
pub mod PublicTransactions
use sitbank.Base.{
  ◌≡◌, refl, [], ◌∷◌, some, none, true, ℕ, ◌*◌, String, false, arith, if◌then◌else◌, ◌==◌, leb,
  codes_eq, zero,
}
use sitbank.Base.Int.{pos}
use sitbank.Bank.Types.{
  User, Cents, Payee, PendingTransfer, customer, units, active, TopUpApprovalRequest, TopUpStatus,
  key_message, payload_message,
}
use sitbank.Bank.Store.{Db, calls, ok, commit, rollback, ledger_fits}
use sitbank.Bank.Request.{
  Request, ensure_banking_action_allowed, is_blocked, audit_event, audit_event_required,
  audit_banking_action, audit_outbound_transfer, send_transfer_notification, safe_send_notification,
  maybe_send_daily_limit_warning, crosses_warning,
}
use sitbank.Bank.Local.Outcome.{
  local_run, execute_local_transfer-total, execute_local_transfer-once,
  execute_local_transfer-Settled,
}
use sitbank.Bank.Transfer.Conservation.{UniqueIds, total}
use sitbank.Bank.Local.{
  execute_local_transfer, local_transfer_recipient, ensure_payee_cooldown_elapsed,
  load_pending_local_transfer, is_pending_for, local_transfer_amount, ensure_local_transfer_balance,
  ensure_local_transfer_daily_limit,
}
use sitbank.Bank.Rules.{Settled, Failed}
use sitbank.Bank.Local.Accounting.{local_view, Done}
use sitbank.Bank.Transfer.{
  has_cent_precision, cents_in_range, lock_transfer_participants, sign_transaction, new_transaction,
  move, consume, set_consumed_ref, audit_transfer_success, finish_transfer, on_audit_error,
}
use sitbank.Bank.Usage.{amount_used_today, sgt_day_start_utc}
use sitbank.Bank.Local.Success.{LocalReady, execute_local_transfer-returns}
use sitbank.Bank.Request.Warning.{crosses_warning_once}

abbrev pub member : ℕ → ℕ → String → Cents → User
member i number phone balance = record {
  id = i;
  account_type = customer;
  email = if i == 1 then "ann@example.org" else "ben@example.org";
  staff_personal_email = "";
  account_status = active;
  account_number = some number;
  phone_number = some phone;
  payup_nickname = 65 ∷ 110 ∷ 110 ∷ [];
  balance = balance;
  payup_daily_limit = 50_000;
  local_transfer_daily_limit = 100_000;
  payup_enabled = true;
  mfa_enabled = true;
  mfa_secret = some "sealed";
  transfer_activity_email_enabled = true;
  is_frozen = false;
  security_locked_at = none;
  security_lock_reason = none;
}

abbrev pub ann : User
ann = member 1 100_000_000_001 "+6580000001" 90_000

abbrev pub ben : User
ben = member 2 100_000_000_002 "+6580000002" 5_000

abbrev pub ben_payee : Payee
ben_payee = record { id = 7; user_id = 1; account_number = 100_000_000_002; created_at = 1_000 }

abbrev pub confirmation : ℕ → ℕ → PendingTransfer
confirmation target cents = record {
  token = "h:t";
  user_id = 1;
  target_id = target;
  amount = units (pos (cents * 1000));
  reference = [];
  expires_at = 100_000_000_000_000_900;
  consumed_at = none;
  consumed_transaction_ref = none;
}

abbrev pub topup_request : TopUpApprovalRequest
topup_request = record {
  selector = 97 ∷ 98 ∷ [];
  verifier_hmac = "h:v";
  user_id = 2;
  amount = 10_000;
  status = TopUpStatus.pending;
  failure_count = 0;
  expires_at = 100_000_000_000_000_900;
  approved_at = none;
  credit_ref = none;
}

abbrev pub bank : Db
bank = record {
  ledger = record { users = ann ∷ ben ∷ []; transactions = []; topup_credits = [] };
  payees = ben_payee ∷ [];
  pending_transfers = confirmation 7 2_500 ∷ [];
  payup_pending_transfers = confirmation 2 1_200 ∷ [];
  topup_requests = topup_request ∷ [];
  reservations = [];
  attempts = [];
  totp_replays = [];
  sessions = [];
  recovery_codes = [];
  identity_links = [];
  audit = [];
}

abbrev bank-UniqueIds : UniqueIds bank.ledger.users
bank-UniqueIds = (refl, (refl, tt))

abbrev pub request : Request
request = record {
  now = 100_000_000_000_000_500;
  txn_created_at = 100_000_000_000_000_510;
  day_now = 100_000_000_000_000_505;
  audit_at = 100_000_000_000_000_520;
  approved_at = 100_000_000_000_000_530;
  topup_verifier_hmac = λ v. "h:v";
  sign_credit = λ c. some "signed";
  local_token_verifier = λ t. "h:t";
  payup_token_verifier = λ t. "h:t";
  new_ref = "ref-1";
  sign = λ t. some "signed";
  audit_ok = λ e. true;
  mail_ok = λ i. true;
  payee_cooldown_seconds = 3_600;
  topup_approval_ttl_seconds = 300;
  payup_settings_valid = true;
  payup_state_readable = true;
  payup_quick_transfer_cap = 20_000;
  payup_quick_daily_cap = 30_000;
  payup_quick_session_max_age_seconds = 900;
  payup_sensitive_event_cooldown_seconds = 86_400;
  session_age_seconds = some 60;
  session_is_stable = true;
  public_transaction_ttl_seconds = some 3_600;
  ledger_hmac_active_key_id = "k1";
  ledger_hmac_keys = some (("k1", 32) ∷ []);
  strip = λ t. t;
  public_hmac = λ k m. elim m [ key_message t ↦ t | payload_message t ↦ t ];
  public_key_fingerprint = λ user k. k;
  unix_now = 1_000_000;
  session_component = "customer";
  decrypt_mfa_secret = λ i t. some "secret";
  totp_at = λ secret at. 49 ∷ 49 ∷ 49 ∷ 49 ∷ 49 ∷ (if at == 999_990 then 49 else 50) ∷ [];
  is_wide_digit = λ c. false;
  replay_digest = λ i scope step code. "digest";
  casefold = λ t. t;
  is_alnum = λ c. leb 48 c;
  recovery_hmac = λ user purpose code.
      if codes_eq code (49 ∷ [])
      then "one"
      else if codes_eq code (48 ∷ [])
      then "zero"
      else "other";
  normalized_email = λ a. a;
  totp_login_valid_window = 1;
  totp_high_risk_valid_window = 0;
  customer_mfa_failure_limit = 5;
}

-- The steps that every transfer takes.
unfoldable steps : Unit {0}
unfolding calls ledger_fits commit rollback ensure_banking_action_allowed is_blocked audit_event
    audit_event_required audit_banking_action audit_outbound_transfer send_transfer_notification
    safe_send_notification maybe_send_daily_limit_warning has_cent_precision cents_in_range
    lock_transfer_participants amount_used_today sgt_day_start_utc sign_transaction new_transaction
    move consume set_consumed_ref audit_transfer_success finish_transfer on_audit_error
steps = tt

local_returns : (local_run request ann ben_payee "t" bank).0 ≡ ok "ref-1"
unfolding steps execute_local_transfer local_transfer_recipient ensure_payee_cooldown_elapsed
    load_pending_local_transfer is_pending_for local_transfer_amount ensure_local_transfer_balance
    ensure_local_transfer_daily_limit
local_returns = refl

execute_local_transfer-Settled_example :
    Settled local_view
      (λ x. x.0 ≡ bank.ledger)
      (Done request ann ben_payee "t" bank.ledger bank.pending_transfers)
      (local_run request ann ben_payee "t" bank).0
      (local_run request ann ben_payee "t" bank).1
execute_local_transfer-Settled_example =
    execute_local_transfer-Settled request ann ben_payee "t" bank

execute_local_transfer-total_example :
    (total (local_run request ann ben_payee "t" bank).1.committed.ledger.users ≡ 95_000)
    × UniqueIds (local_run request ann ben_payee "t" bank).1.committed.ledger.users
execute_local_transfer-total_example =
    execute_local_transfer-total request ann ben_payee "t" bank bank-UniqueIds

execute_local_transfer-once_example :
    let d2 = (local_run request ann ben_payee "t" bank).1.committed in
    Failed local_view
      (λ x. x.0 ≡ d2.ledger)
      (local_run request ann ben_payee "t" d2).0
      (local_run request ann ben_payee "t" d2).1
execute_local_transfer-once_example =
    execute_local_transfer-once request request ann ann ben_payee ben_payee "t" "ref-1" bank refl
      refl refl local_returns

ready : LocalReady request ann ben_payee "t" bank
unfolding steps is_pending_for
ready = record {
  recipient = ben;
  pending = confirmation 7 2_500;
  amount = 2_500;
  pair = (ann, ben);
  hash = "signed";
  not_blocked = refl;
  owns_payee = refl;
  has_account = refl;
  is_other = λ e. cc;
  open_account = refl;
  cooled = ground arith;
  confirmed = refl;
  not_expired = ground arith;
  precise = refl;
  in_range = refl;
  sender_row = refl;
  recipient_row = refl;
  covered = ground arith;
  within_limit = ground arith;
  signed = refl;
  logged = refl;
  fitting = refl;
}

execute_local_transfer-returns_example : (local_run request ann ben_payee "t" bank).0 ≡ ok "ref-1"
execute_local_transfer-returns_example =
    execute_local_transfer-returns request ann ben_payee "t" bank ready

crosses : crosses_warning 30_000 20_000 60_000 ≡ true
unfolding crosses_warning
crosses = refl

crosses_warning_once_example : crosses_warning 50_000 9_000 60_000 ≡ false
crosses_warning_once_example =
    crosses_warning_once 30_000 20_000 50_000 9_000 60_000 (ground arith) crosses
