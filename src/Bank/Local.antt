-- ===== src/Bank/Local.antt =====
-- Local transfers: `execute_local_transfer` of app/banking/services.py and the checks before it.
pub mod Accounting
pub mod Outcome
pub mod Success
use sitbank.Base.{
  ℕ, ◌+◌, ◌*◌, String, Bool, true, false, not, ◌&&◌, str_eq, none, some, ltb, ◌==◌, is_none, find,
}
use sitbank.Bank.Types.{
  Cents, AccountStatus, active, locked, User, Payee, PendingTransfer, Reason,
  invalid_amount_precision, payee_ownership_mismatch, outbound_transfer, failure,
  insufficient_funds, payee_in_cooldown, amount_out_of_range, confirmation_token_not_found,
  recipient_not_found, local_transfer, self_transfer, confirmation_token_expired, auth,
  recipient_account_unavailable, daily_limit_exceeded, StoredDecimal, invalid_operation, units, nan,
}
use sitbank.Bank.Request.{
  Request, audit_outbound_transfer, ensure_banking_action_allowed, send_transfer_notification,
}
use sitbank.Bank.Store.{
  Action, Db, when, ◌>>=◌, ◌>>◌, gets, commit, or_else, raise, modify, pure, set_ledger,
}
use sitbank.Bank.Usage.{amount_used_today, sgt_day_start_utc}
use sitbank.Bank.Transfer.{
  consume, update_pending, has_cent_precision, cents_in_range, lock_transfer_participants,
  sign_transaction, new_transaction, reference_of, move, set_consumed_ref, audit_transfer_success,
  finish_transfer,
}

-- `filter_by(account_number=…)`
abbrev has_number : ℕ → User → Bool
has_number n u = elim u.account_number [ none ↦ false | some m ↦ m == n ]

-- `account_status in ("active", "locked")`
abbrev can_receive : AccountStatus → Bool
can_receive active = true
can_receive locked = true
can_receive _ = false

-- The query of `_load_pending_local_transfer`.
unfoldable pub is_pending_for : String → ℕ → ℕ → PendingTransfer → Bool
is_pending_for token user target p =
    str_eq p.token token && (p.user_id == user) && (p.target_id == target) && is_none p.consumed_at

abbrev on_pending_transfers : String → (PendingTransfer → PendingTransfer) → Db → Db
on_pending_transfers token f d = record d {
  pending_transfers = update_pending token f d.pending_transfers;
}

module _ (q : Request) where
  -- `_reject_local_transfer`
  unfoldable pub reject_local_transfer : {A : Type 0} → User → ℕ → Reason → Action A
  reject_local_transfer sender status reason = do
    audit_outbound_transfer q sender failure (some reason)
    commit
    send_transfer_notification q sender
    raise (auth status reason)

  -- `_local_transfer_recipient`
  unfoldable pub local_transfer_recipient : User → Payee → Action User
  local_transfer_recipient sender payee = do
    when (not (payee.user_id == sender.id))
        (reject_local_transfer sender 403 payee_ownership_mismatch)
    users ← gets (λ d. d.ledger.users)
    recipient ←
        or_else (find (has_number payee.account_number) users)
          (reject_local_transfer sender 400 recipient_not_found)
    when (recipient.id == sender.id) (reject_local_transfer sender 400 self_transfer)
    when (not (can_receive recipient.account_status))
        (reject_local_transfer sender 400 recipient_account_unavailable)
    pure recipient

  -- `_ensure_payee_cooldown_elapsed`
  unfoldable pub ensure_payee_cooldown_elapsed : User → Payee → Action (Unit {0})
  ensure_payee_cooldown_elapsed sender payee =
      when (ltb q.now (payee.created_at + q.payee_cooldown_seconds * 1_000_000))
        (reject_local_transfer sender 400 payee_in_cooldown)

  -- `_load_pending_local_transfer`
  unfoldable pub load_pending_local_transfer : User → Payee → String → Action PendingTransfer
  load_pending_local_transfer sender payee token = do
    rows ← gets (λ d. d.pending_transfers)
    pending ←
        or_else (find (is_pending_for (q.local_token_verifier token) sender.id payee.id) rows)
          (reject_local_transfer sender 409 confirmation_token_not_found)
    when (ltb pending.expires_at q.now)
        (reject_local_transfer sender 409 confirmation_token_expired)
    pure pending

  -- The answer to an amount with sub-cent digits; `_amount_audit_band` of NaN raises before it.
  unfoldable pub refuse_precision : {A : Type 0} → User → StoredDecimal → Action A
  refuse_precision sender nan = raise invalid_operation
  refuse_precision sender (units n) = reject_local_transfer sender 400 invalid_amount_precision

  -- `_local_transfer_amount`
  unfoldable pub local_transfer_amount : User → PendingTransfer → Action Cents
  local_transfer_amount sender pending = do
    when (not (has_cent_precision pending.amount)) (refuse_precision sender pending.amount)
    or_else (cents_in_range pending.amount) (reject_local_transfer sender 400 amount_out_of_range)

  -- `_ensure_local_transfer_balance`
  unfoldable pub ensure_local_transfer_balance : User → User → Cents → Action (Unit {0})
  ensure_local_transfer_balance sender locked_sender amount =
      when (ltb locked_sender.balance amount) (reject_local_transfer sender 400 insufficient_funds)

  -- `_ensure_local_transfer_daily_limit`
  unfoldable pub ensure_local_transfer_daily_limit : User → User → Cents → Action Cents
  ensure_local_transfer_daily_limit sender locked_sender amount = do
    used ← gets (λ (d : Db).
        amount_used_today local_transfer locked_sender.id (sgt_day_start_utc q.day_now)
          d.ledger.transactions)
    when (ltb locked_sender.local_transfer_daily_limit (used + amount))
        (reject_local_transfer sender 409 daily_limit_exceeded)
    pure used

  unfoldable pub execute_local_transfer : User → Payee → String → Action String
  execute_local_transfer sender payee token = do
    ensure_banking_action_allowed q outbound_transfer sender
    recipient ← local_transfer_recipient sender payee
    ensure_payee_cooldown_elapsed sender payee
    pending ← load_pending_local_transfer sender payee token
    modify (on_pending_transfers pending.token (consume q.now))
    amount ← local_transfer_amount sender pending
    (locked_sender, locked_recipient) ← lock_transfer_participants sender.id recipient.id
    ensure_local_transfer_balance sender locked_sender amount
    used ← ensure_local_transfer_daily_limit sender locked_sender amount
    t ← sign_transaction q (
        new_transaction q local_transfer locked_sender.id locked_recipient.id (some payee.id) amount
          (reference_of pending))
    modify (set_ledger (move locked_sender.id locked_recipient.id amount t))
    modify (on_pending_transfers pending.token (set_consumed_ref q.new_ref))
    audit_transfer_success q sender
    finish_transfer q sender locked_recipient used amount locked_sender.local_transfer_daily_limit
