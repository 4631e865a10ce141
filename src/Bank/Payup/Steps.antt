-- ===== src/Bank/Payup/Steps.antt =====
-- What the steps of a PayUp transfer keep.
use sitbank.Base.{◌≡◌, refl, arith, Bool, List, ℕ, some, false, ◌==◌}
use sitbank.Bank.Types.{
  User, PendingTransfer, Reason, invalid_amount_precision, recipient_not_found, amount_out_of_range,
  failure, self_transfer, recipient_account_unavailable, payup_step_up_required, StoredDecimal,
  units, nan,
}
use sitbank.Bank.Store.{Ledger, Db}
use sitbank.Bank.Request.{Request}
use sitbank.Bank.Rules.{Keeps, Keeps-bind, Refuses, Refuses-bind}
use sitbank.Bank.Rules.Steps.{
  when-Keeps, gets-Keeps_any, Keeps-of-Refuses, or_else-Keeps, Keeps-map, raise-Refuses, pure-Keeps,
}
use sitbank.Bank.Payup.{
  reject_payup, validate_payup_amount, validate_payup_recipient, apply_risk, refuse_payup_precision,
}
use sitbank.Bank.Transfer.{cents_in_range}
use sitbank.Bank.Risk.{PayupRiskDecision, blocks, block, step_up, allow, requires_step_up}
use sitbank.Bank.Request.Keeps.{IsView, audit_outbound_transfer-Stays, commit-Stays}

-- What a PayUp transfer reads and writes.
abbrev pub payup_view : Db → Ledger × List PendingTransfer
payup_view d = (d.ledger, d.payup_pending_transfers)

abbrev pub payup_view-IsView : IsView payup_view
payup_view-IsView = record {
  ledger_of = λ x. x.0;
  shows_ledger = λ d. refl;
  hides_audit = λ e d. refl;
}

module _ (q : Request) {Safe : Ledger × List PendingTransfer → Type 0} where
  pub reject-Refuses :
      {A : Type 0} (u : User) (status : ℕ) (reason : Reason)
      → Refuses payup_view Safe (reject_payup q {A = A} u status reason)
  unfolding reject_payup
  reject-Refuses u status reason =
      Refuses-bind (audit_outbound_transfer-Stays q payup_view-IsView u failure (some reason))
        λ _. Refuses-bind commit-Stays λ _. raise-Refuses _

  precision-Refuses :
      {A : Type 0} (u : User) (d : StoredDecimal)
      → Refuses payup_view Safe (refuse_payup_precision q {A = A} u d)
  unfolding refuse_payup_precision
  precision-Refuses u nan = raise-Refuses _
  precision-Refuses u (units n) = reject-Refuses u 400 invalid_amount_precision

module _ (q : Request) {Safe : Ledger × List PendingTransfer → Type 0}
    {v w : Ledger × List PendingTransfer} where
  pub amount-Keeps :
      (sender : User) (pending : PendingTransfer)
      → Keeps payup_view Safe v w
          (λ a. cents_in_range pending.amount ≡ some a)
          (validate_payup_amount q sender pending)
  unfolding validate_payup_amount
  amount-Keeps sender pending =
      Keeps-bind (when-Keeps (precision-Refuses q sender pending.amount))
        λ _ _. or_else-Keeps (reject-Refuses q sender 400 amount_out_of_range)

  pub recipient-Keeps :
      (sender : User) (i : ℕ)
      → Keeps payup_view Safe v w
          (λ r. (r.id == sender.id) ≡ false)
          (validate_payup_recipient q sender i)
  unfolding validate_payup_recipient
  recipient-Keeps sender i = Keeps-bind (gets-Keeps_any _) λ users _.
      Keeps-bind (or_else-Keeps (reject-Refuses q sender 400 recipient_not_found)) λ r _.
        Keeps-bind (when-Keeps (reject-Refuses q sender 400 self_transfer)) λ _ other.
          Keeps-bind (when-Keeps (reject-Refuses q sender 400 recipient_account_unavailable))
            λ _ _. pure-Keeps _ other

  pub risk-Keeps :
      (sender : User) (authorized : Bool) (d : PayupRiskDecision)
      → Keeps payup_view Safe v w
          (λ _. (blocks d ≡ false) × (authorized ≡ false → requires_step_up d ≡ false))
          (apply_risk q sender authorized d)
  unfolding apply_risk
  risk-Keeps sender authorized (block reason) =
      Keeps-of-Refuses (reject-Refuses q sender 403 reason)
  risk-Keeps sender authorized (step_up reasons) =
      Keeps-map (λ _ e. (refl, λ n. ground arith))
        (when-Keeps (reject-Refuses q sender 403 payup_step_up_required))
  risk-Keeps sender authorized allow = pure-Keeps tt (refl, λ _. refl)
