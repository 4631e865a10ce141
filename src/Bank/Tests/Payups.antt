-- ===== src/Bank/Tests/Payups.antt =====
-- Runs of PayUp transfers and of their risk policy.
use sitbank.Bank.Tests.{
  steps, bank, request, ann, ben, confirmation, bank-UniqueIds, Settled, Failed,
}
use sitbank.Base.{inl, refl, arith, [], ◌↔◌, true, ◌+◌, ◌≡◌, false, ◌≤◌}
use sitbank.Bank.Payup.{
  is_payup_pending_for, execute_payup_transfer, has_nickname, load_payup_pending_transfer,
  can_receive_payup, validate_payup_amount, validate_payup_recipient, apply_risk,
}
use sitbank.Bank.Transfer.Conservation.{total, UniqueIds}
use sitbank.Bank.Risk.{evaluate_payup_risk, allow, has_recent_payup_sensitive_event}
use sitbank.Bank.Payup.Outcome.{
  payup_run, execute_payup_transfer-once, execute_payup_transfer-total,
  execute_payup_transfer-Settled,
}
use sitbank.Bank.Store.{ok}
use sitbank.Bank.Payup.Accounting.{PayupDone}
use sitbank.Bank.Payup.Steps.{payup_view}
use sitbank.Bank.Payup.Success.{execute_payup_transfer-returns, PayupReady}
use sitbank.Bank.Risk.Policy.{Eligible, allow_iff}

payup_returns : (payup_run request ann "t" false bank).0 ≡ ok "ref-1"
unfolding steps execute_payup_transfer has_nickname load_payup_pending_transfer is_payup_pending_for
    validate_payup_amount validate_payup_recipient can_receive_payup apply_risk evaluate_payup_risk
    has_recent_payup_sensitive_event
payup_returns = refl

execute_payup_transfer-Settled_example :
    Settled payup_view
      (λ x. x.0 ≡ bank.ledger)
      (PayupDone request ann "t" bank.ledger bank.payup_pending_transfers false)
      (payup_run request ann "t" false bank).0
      (payup_run request ann "t" false bank).1
execute_payup_transfer-Settled_example = execute_payup_transfer-Settled request ann "t" false bank

execute_payup_transfer-total_example :
    (total (payup_run request ann "t" false bank).1.committed.ledger.users ≡ 95_000)
    × UniqueIds (payup_run request ann "t" false bank).1.committed.ledger.users
execute_payup_transfer-total_example =
    execute_payup_transfer-total request ann "t" false bank bank-UniqueIds

execute_payup_transfer-once_example :
    let d2 = (payup_run request ann "t" false bank).1.committed in
    Failed payup_view
      (λ x. x.0 ≡ d2.ledger)
      (payup_run request ann "t" true d2).0
      (payup_run request ann "t" true d2).1
execute_payup_transfer-once_example =
    execute_payup_transfer-once request request ann ann "t" "ref-1" false true bank refl refl
      payup_returns

allow_iff_example :
    (evaluate_payup_risk request ann 1_200 0 [] ≡ allow)
    ↔ (Eligible request ann 1_200 0 [] × (1_200 ≤ 20_000) × (0 + 1_200 ≤ 30_000))
allow_iff_example = allow_iff request ann 1_200 0 []

payup_ready : PayupReady request ann "t" false bank
unfolding steps is_payup_pending_for has_nickname can_receive_payup evaluate_payup_risk
    has_recent_payup_sensitive_event
payup_ready = record {
  recipient = ben;
  pending = confirmation 2 1_200;
  amount = 1_200;
  pair = (ann, ben);
  hash = "signed";
  not_blocked = refl;
  named = refl;
  confirmed = refl;
  not_expired = ground arith;
  precise = refl;
  in_range = refl;
  is_user = refl;
  is_other = λ e. cc;
  receives = refl;
  sender_row = refl;
  recipient_row = refl;
  unblocked = refl;
  stepped_up = inl refl;
  covered = ground arith;
  signed = refl;
  logged = refl;
  fitting = refl;
}

execute_payup_transfer-returns_example : (payup_run request ann "t" false bank).0 ≡ ok "ref-1"
execute_payup_transfer-returns_example =
    execute_payup_transfer-returns request ann "t" false bank payup_ready
