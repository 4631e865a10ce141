-- ===== src/Bank/Local/Accounting.antt =====
-- A local transfer commits exactly one covered double entry and consumes its confirmation, or
-- commits no change of the ledger.
use sitbank.Base.{
  ◌≡◌, refl, none, List, arith, ℕ, String, some, ◌+◌, false, eq_iff, ltb, ◌==◌, find-true, find,
}
use sitbank.Bank.Types.{
  User, Payee, PendingTransfer, Reason, Cents, local_transfer, payee_in_cooldown,
  insufficient_funds, invalid_amount_precision, daily_limit_exceeded, outbound_transfer,
  payee_ownership_mismatch, amount_out_of_range, confirmation_token_not_found, failure,
  recipient_not_found, confirmation_token_expired, self_transfer, recipient_account_unavailable,
  StoredDecimal, units, nan,
}
use sitbank.Bank.Store.{Ledger, Db}
use sitbank.Bank.Request.{Request}
use sitbank.Bank.Rules.{Keeps, Settles, Keeps-bind, Settles-bind, Refuses, Refuses-bind}
use sitbank.Bank.Rules.Steps.{
  Keeps-map, gets-Keeps, when-Keeps, or_else-Keeps, modify-Settles, pure-Keeps, gets-Keeps_any,
  Settles-of-Concludes, modify-Concludes, raise-Refuses,
}
use sitbank.Bank.Local.{
  execute_local_transfer, is_pending_for, load_pending_local_transfer, local_transfer_amount,
  ensure_local_transfer_daily_limit, ensure_payee_cooldown_elapsed, local_transfer_recipient,
  reject_local_transfer, ensure_local_transfer_balance, refuse_precision,
}
use sitbank.Bank.Transfer.{
  reference_of, consume, update_pending, set_consumed_ref, cents_in_range, move,
}
use sitbank.Bank.Usage.{sgt_day_start_utc, amount_used_today}
use sitbank.Bank.Request.Keeps.{
  IsView, ensure_banking_action_allowed-Keeps, audit_outbound_transfer-Stays, commit-Stays,
  send_transfer_notification-Stays,
}
use sitbank.Bank.Transfer.Pending.{IsQuery, find-consumed}
use sitbank.Bank.Transfer.Entry.{Transferred, Transferred-intro}
use sitbank.Bank.Transfer.Keeps.{
  lock_transfer_participants-Keeps, sign_transaction-Keeps, conclude-Concludes,
}

-- What a local transfer reads and writes.
abbrev pub local_view : Db → Ledger × List PendingTransfer
local_view d = (d.ledger, d.pending_transfers)

abbrev pub local_view-IsView : IsView local_view
local_view-IsView = record {
  ledger_of = λ x. x.0;
  shows_ledger = λ d. refl;
  hides_audit = λ e d. refl;
}

module _ (q : Request) {Safe : Ledger × List PendingTransfer → Type 0} where
  pub reject-Refuses :
      {A : Type 0} (u : User) (status : ℕ) (reason : Reason)
      → Refuses local_view Safe (reject_local_transfer q {A = A} u status reason)
  unfolding reject_local_transfer
  reject-Refuses u status reason =
      Refuses-bind (audit_outbound_transfer-Stays q local_view-IsView u failure (some reason)) λ _.
        Refuses-bind commit-Stays λ _.
          Refuses-bind (send_transfer_notification-Stays q local_view-IsView u) λ _. raise-Refuses _

  precision-Refuses :
      {A : Type 0} (u : User) (d : StoredDecimal)
      → Refuses local_view Safe (refuse_precision q {A = A} u d)
  unfolding refuse_precision
  precision-Refuses u nan = raise-Refuses _
  precision-Refuses u (units n) = reject-Refuses u 400 invalid_amount_precision

module _ (q : Request) {Safe : Ledger × List PendingTransfer → Type 0}
    {v w : Ledger × List PendingTransfer} where
  pub recipient-Keeps :
      (sender : User) (payee : Payee)
      → Keeps local_view Safe v w
          (λ r. (r.id == sender.id) ≡ false)
          (local_transfer_recipient q sender payee)
  unfolding local_transfer_recipient
  recipient-Keeps sender payee =
      Keeps-bind (when-Keeps (reject-Refuses q sender 403 payee_ownership_mismatch)) λ _ _.
        Keeps-bind (gets-Keeps_any _) λ users _.
          Keeps-bind (or_else-Keeps (reject-Refuses q sender 400 recipient_not_found)) λ r _.
            Keeps-bind (when-Keeps (reject-Refuses q sender 400 self_transfer)) λ _ other.
              Keeps-bind (when-Keeps (reject-Refuses q sender 400 recipient_account_unavailable))
                λ _ _. pure-Keeps _ other

  pub cooldown-Keeps :
      (sender : User) (payee : Payee)
      → Keeps local_view Safe v w (λ _. Unit {0}) (ensure_payee_cooldown_elapsed q sender payee)
  unfolding ensure_payee_cooldown_elapsed
  cooldown-Keeps sender payee =
      Keeps-map (λ _ _. tt) (when-Keeps (reject-Refuses q sender 400 payee_in_cooldown))

  pub pending-Keeps :
      (sender : User) (payee : Payee) (token : String)
      → Keeps local_view Safe v w
          (λ p.
            find (is_pending_for (q.local_token_verifier token) sender.id payee.id) w.1 ≡ some p)
          (load_pending_local_transfer q sender payee token)
  unfolding load_pending_local_transfer
  pending-Keeps sender payee token =
      Keeps-bind (gets-Keeps _ (λ (x : Ledger × List PendingTransfer). x.1) (λ _. refl)) λ rows e.
        Keeps-bind (or_else-Keeps (reject-Refuses q sender 409 confirmation_token_not_found))
          λ p found.
            Keeps-bind (when-Keeps (reject-Refuses q sender 409 confirmation_token_expired))
              λ _ _. pure-Keeps _ (rw e at found)

  amount-Keeps :
      (sender : User) (pending : PendingTransfer)
      → Keeps local_view Safe v w
          (λ a. cents_in_range pending.amount ≡ some a)
          (local_transfer_amount q sender pending)
  unfolding local_transfer_amount
  amount-Keeps sender pending =
      Keeps-bind (when-Keeps (precision-Refuses q sender pending.amount))
        λ _ _. or_else-Keeps (reject-Refuses q sender 400 amount_out_of_range)

  balance-Keeps :
      (sender locked : User) (amount : Cents)
      → Keeps local_view Safe v w
          (λ _. ltb locked.balance amount ≡ false)
          (ensure_local_transfer_balance q sender locked amount)
  unfolding ensure_local_transfer_balance
  balance-Keeps sender locked amount = when-Keeps (reject-Refuses q sender 400 insufficient_funds)

  limit-Keeps :
      (sender locked : User) (amount : Cents)
      → Keeps local_view Safe v w
          (λ _.
            ltb locked.local_transfer_daily_limit (
              amount_used_today local_transfer locked.id
                (sgt_day_start_utc q.day_now)
                w.0.transactions
              + amount)
            ≡ false)
          (ensure_local_transfer_daily_limit q sender locked amount)
  unfolding ensure_local_transfer_daily_limit
  limit-Keeps sender locked amount =
      Keeps-bind
        (gets-Keeps _
          (λ x.
            amount_used_today local_transfer locked.id (sgt_day_start_utc q.day_now)
              x.0.transactions)
          (λ _. refl))
        λ used e.
          Keeps-bind (when-Keeps (reject-Refuses q sender 409 daily_limit_exceeded))
            λ _ within. pure-Keeps _ (rw e at within)

is_pending_for-IsQuery :
    (token : String) (user payee : ℕ) → IsQuery token (is_pending_for token user payee)
unfolding is_pending_for
is_pending_for-IsQuery token user payee = record {
  wants_token = λ r h. ground (arith, eq_iff r.token token);
  wants_open = λ r at h. ground arith;
}

module _ (q : Request) (sender : User) (payee : Payee) (token : String) (l : Ledger)
    (rows : List PendingTransfer) where
  -- The tables after a transfer: the entry is made and the confirmation used up.
  abbrev pub Done : Ledger × List PendingTransfer → Type 0
  Done x =
      Transferred local_transfer (λ u. u.local_transfer_daily_limit) (sgt_day_start_utc q.day_now)
        sender.id l x.0
      × (find (is_pending_for (q.local_token_verifier token) sender.id payee.id) x.1 ≡ none)

  consumed :
      (p : PendingTransfer)
      → find (is_pending_for (q.local_token_verifier token) sender.id payee.id) rows ≡ some p
      → find (is_pending_for (q.local_token_verifier token) sender.id payee.id) (
          update_pending p.token
            (set_consumed_ref q.new_ref)
            (update_pending p.token (consume q.now) rows))
        ≡ none
  consumed p found =
      let is = is_pending_for-IsQuery (q.local_token_verifier token) sender.id payee.id in
      let same : p.token ≡ q.local_token_verifier token =
        is.wants_token p (find-true _ rows p found) in
      rw same (find-consumed (q.local_token_verifier token) q.now q.new_ref _ is rows)

  pub execute_local_transfer-Settles :
      Settles local_view
        (λ x. x.0 ≡ l)
        (l, rows)
        (l, rows)
        Done
        (execute_local_transfer q sender payee token)
  unfolding execute_local_transfer
  execute_local_transfer-Settles =
      Settles-bind
        (ensure_banking_action_allowed-Keeps q local_view-IsView outbound_transfer sender)
        λ _ _. Settles-bind (recipient-Keeps q sender payee) λ recipient other.
          Settles-bind (cooldown-Keeps q sender payee) λ _ _.
            Settles-bind (pending-Keeps q sender payee token) λ p found.
              modify-Settles _ (λ x. (x.0, update_pending p.token (consume q.now) x.1)) (λ _. refl)
                refl
                (Settles-bind (amount-Keeps q sender p) λ amount in_range.
                  Settles-bind
                    (lock_transfer_participants-Keeps local_view-IsView sender.id recipient.id)
                    λ pair locked. Settles-bind (balance-Keeps q sender pair.0 amount) λ _ covered.
                      Settles-bind (limit-Keeps q sender pair.0 amount) λ used within.
                        Settles-bind (sign_transaction-Keeps q _) λ t signed. Settles-of-Concludes (
                          modify-Concludes _ (λ x. (move pair.0.id pair.1.id amount t x.0, x.1))
                            (λ _. refl)
                            (modify-Concludes _
                              (λ x. (x.0, update_pending p.token (set_consumed_ref q.new_ref) x.1))
                              (λ _. refl)
                              (conclude-Concludes q local_view-IsView _ _ _ Done sender pair.1 used
                                amount pair.0.local_transfer_daily_limit
                                (
                                  Transferred-intro q local_transfer
                                      (λ u. u.local_transfer_daily_limit) l sender.id recipient.id
                                      pair amount p.amount (some payee.id) (reference_of p) t other
                                      locked in_range covered within signed,
                                  consumed p found,
                                )))))

  -- Without an open confirmation a transfer always fails, and commits no change of the ledger.
  pub execute_local_transfer-none :
      find (is_pending_for (q.local_token_verifier token) sender.id payee.id) rows ≡ none
      → Settles local_view
          (λ x. x.0 ≡ l)
          (l, rows)
          (l, rows)
          (λ _. ⊥)
          (execute_local_transfer q sender payee token)
  unfolding execute_local_transfer
  execute_local_transfer-none closed =
      Settles-bind
        (ensure_banking_action_allowed-Keeps q local_view-IsView outbound_transfer sender)
        λ _ _. Settles-bind (recipient-Keeps q sender payee) λ recipient other.
          Settles-bind (cooldown-Keeps q sender payee)
            λ _ _. Settles-bind (pending-Keeps q sender payee token) λ p found. cc
