-- ===== src/Bank/Payup.antt =====
-- PayUp transfers by phone number: `execute_payup_transfer` of app/banking/services.py and the
-- checks before it.
pub mod Steps
pub mod Accounting
pub mod Outcome
pub mod Success
use sitbank.Base.{
  ℕ, String, Option, Bool, List, not, true, ◌&&◌, false, leb, str_eq, length, some, ltb, ◌==◌, none,
  all, is_none, find,
}
use sitbank.Bank.Types.{
  User, AccountStatus, Reason, PendingTransfer, active, Cents, payup_step_up_required,
  outbound_transfer, failure, payup_nickname_required, invalid_amount_precision,
  confirmation_token_not_found, recipient_not_found, confirmation_token_expired, self_transfer,
  amount_out_of_range, auth, recipient_account_unavailable, payup, insufficient_funds,
  StoredDecimal, invalid_operation, units, nan, risk_state_unavailable,
}
use sitbank.Bank.Request.{Request, ensure_banking_action_allowed, audit_outbound_transfer}
use sitbank.Bank.Risk.{PayupRiskDecision, block, step_up, allow, evaluate_payup_risk}
use sitbank.Bank.Store.{
  Action, ◌>>◌, ◌>>=◌, Db, when, gets, or_else, pure, find_user, commit, raise, modify, set_ledger,
}
use sitbank.Bank.Transfer.{
  update_pending, has_cent_precision, cents_in_range, lock_transfer_participants, consume,
  sign_transaction, new_transaction, reference_of, move, set_consumed_ref, audit_transfer_success,
  finish_transfer,
}
use sitbank.Bank.Usage.{amount_used_today, sgt_day_start_utc}

-- `_payup_sender_has_nickname`, on the stripped code points.
is_printable : ℕ → Bool
is_printable c = not (ltb c 32) && not (c == 127)

unfoldable pub has_nickname : List ℕ → Bool
unfolding is_printable
has_nickname n = leb 2 (length n) && leb (length n) 128 && all is_printable n

-- `phone_number` is set and not empty.
has_phone : Option String → Bool
has_phone none = false
has_phone (some p) = not (str_eq p "")

is_active : AccountStatus → Bool
is_active active = true
is_active _ = false

unfoldable pub can_receive_payup : User → Bool
unfolding has_phone is_active
can_receive_payup u = is_active u.account_status && not u.is_frozen && has_phone u.phone_number

-- The query of `_load_and_lock_payup_pending_transfer`.
unfoldable pub is_payup_pending_for : String → ℕ → PendingTransfer → Bool
is_payup_pending_for token user p =
    str_eq p.token token && (p.user_id == user) && is_none p.consumed_at

abbrev pub on_payup_pending : String → (PendingTransfer → PendingTransfer) → Db → Db
on_payup_pending token f d = record d {
  payup_pending_transfers = update_pending token f d.payup_pending_transfers;
}

module _ (q : Request) where
  -- The audit, commit and raise that every failing check repeats.
  unfoldable pub reject_payup : {A : Type 0} → User → ℕ → Reason → Action A
  reject_payup sender status reason = do
    audit_outbound_transfer q sender failure (some reason)
    commit
    raise (auth status reason)

  -- `_load_and_lock_payup_pending_transfer`, which consumes the row.
  unfoldable pub load_payup_pending_transfer : User → String → Action PendingTransfer
  load_payup_pending_transfer sender token = do
    rows ← gets (λ d. d.payup_pending_transfers)
    pending ←
        or_else (find (is_payup_pending_for (q.payup_token_verifier token) sender.id) rows)
          (reject_payup sender 409 confirmation_token_not_found)
    when (ltb pending.expires_at q.now) (reject_payup sender 409 confirmation_token_expired)
    modify (on_payup_pending pending.token (consume q.now))
    pure pending

  -- The answer to an amount with sub-cent digits; `_amount_audit_band` of NaN raises before it.
  unfoldable pub refuse_payup_precision : {A : Type 0} → User → StoredDecimal → Action A
  refuse_payup_precision sender nan = raise invalid_operation
  refuse_payup_precision sender (units n) = reject_payup sender 400 invalid_amount_precision

  -- `_validate_payup_amount`
  unfoldable pub validate_payup_amount : User → PendingTransfer → Action Cents
  validate_payup_amount sender pending = do
    when (not (has_cent_precision pending.amount)) (refuse_payup_precision sender pending.amount)
    or_else (cents_in_range pending.amount) (reject_payup sender 400 amount_out_of_range)

  -- `_validate_payup_recipient`
  unfoldable pub validate_payup_recipient : User → ℕ → Action User
  validate_payup_recipient sender recipient_id = do
    users ← gets (λ d. d.ledger.users)
    recipient ← or_else (find_user recipient_id users) (reject_payup sender 400 recipient_not_found)
    when (recipient.id == sender.id) (reject_payup sender 400 self_transfer)
    when (not (can_receive_payup recipient)) (reject_payup sender 400 recipient_account_unavailable)
    pure recipient

  -- The decisions recomputed under the row lock.
  unfoldable pub apply_risk : User → Bool → PayupRiskDecision → Action (Unit {0})
  apply_risk sender authorized (block reason) = reject_payup sender 403 reason
  apply_risk sender authorized (step_up reasons) =
      when (not authorized) (reject_payup sender 403 payup_step_up_required)
  apply_risk sender authorized allow = pure tt

  unfoldable pub execute_payup_transfer : User → String → Bool → Action String
  execute_payup_transfer sender token authorized = do
    ensure_banking_action_allowed q outbound_transfer sender
    when (not (has_nickname sender.payup_nickname))
        (reject_payup sender 403 payup_nickname_required)
    pending ← load_payup_pending_transfer sender token
    amount ← validate_payup_amount sender pending
    recipient ← validate_payup_recipient sender pending.target_id
    (locked_sender, locked_recipient) ← lock_transfer_participants sender.id recipient.id
    used ← gets (λ (d : Db).
        amount_used_today payup locked_sender.id (sgt_day_start_utc q.day_now)
          d.ledger.transactions)
    audit ← gets (λ d. d.audit)
    apply_risk sender authorized (evaluate_payup_risk q locked_sender amount used audit)
    when (ltb locked_sender.balance amount) (reject_payup sender 400 insufficient_funds)
    t ← sign_transaction q (
        new_transaction q payup locked_sender.id locked_recipient.id none amount
          (reference_of pending))
    modify (set_ledger (move locked_sender.id locked_recipient.id amount t))
    modify (on_payup_pending pending.token (set_consumed_ref q.new_ref))
    audit_transfer_success q sender
    finish_transfer q sender locked_recipient used amount locked_sender.payup_daily_limit
