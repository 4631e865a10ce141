-- ===== src/Bank/Transfer/Runs.antt =====
-- The steps of a transfer that pass: the guard, and the last steps.
use sitbank.Base.{◌≡◌, refl, false, true, none}
use sitbank.Bank.Store.{Session, ok, calls, Db, Ledger, ledger_fits, ◌>>◌, begin, add_audit, commit}
use sitbank.Bank.Request.{
  Request, ensure_banking_action_allowed, is_blocked, audit_outbound_transfer, audit_banking_action,
  audit_event_required,
}
use sitbank.Bank.Request.Keeps.{IsView}
use sitbank.Bank.Transfer.{finish_transfer, audit_transfer_success}
use sitbank.Bank.Types.{Cents, User, AuditEvent, BankingAction, banking, outbound_transfer, success}
use sitbank.Bank.Transfer.Keeps.{finish_transfer-Returns}
use sitbank.Bank.Rules.Runs.{Gives-bind, Passes, Gives}

pub ensure_banking_action_allowed-Passes :
    (q : Request) (a : BankingAction) (u : User) (s : Session)
    → is_blocked u ≡ false
    → Passes (ensure_banking_action_allowed q a u) s tt s
unfolding ensure_banking_action_allowed calls
ensure_banking_action_allowed-Passes q a u s h = record { passes = rw h refl }

abbrev ledger_view : Db → Ledger
ledger_view d = d.ledger

abbrev ledger_view-IsView : IsView ledger_view
ledger_view-IsView = record {
  ledger_of = λ l. l;
  shows_ledger = λ d. refl;
  hides_audit = λ e d. refl;
}

-- The row of a successful transfer in the audit table.
abbrev pub success_event : Request → User → AuditEvent
success_event q u = record {
  event_type = banking outbound_transfer;
  outcome = success;
  user_id = u.id;
  reason = none;
  created_at = q.audit_at;
}

module _ (q : Request) (sender recipient : User) (used amount limit : Cents) (s : Session) where
  audit_transfer_success-Passes :
      q.audit_ok (success_event q sender) ≡ true
      → ledger_fits s.working.ledger ≡ true
      → Passes
          (audit_transfer_success q sender)
          s
          tt
          (begin (add_audit (success_event q sender) s.working))
  unfolding audit_transfer_success audit_outbound_transfer audit_banking_action audit_event_required
      commit calls
  audit_transfer_success-Passes logged fit = record { passes = rw logged (rw fit refl) }

  -- When the audit row is written and the ledger fits its columns, the last steps return.
  pub conclude-Gives :
      q.audit_ok (success_event q sender) ≡ true
      → ledger_fits s.working.ledger ≡ true
      → Gives
          (audit_transfer_success q sender >> finish_transfer q sender recipient used amount limit)
          s
          (ok q.new_ref)
  conclude-Gives logged fit =
      let returns =
        finish_transfer-Returns q ledger_view-IsView (λ _. Unit) s.working.ledger s.working.ledger
          sender recipient used amount limit fit in
      Gives-bind _ (audit_transfer_success-Passes logged fit) (record {
        gives =
            (returns.return (begin (add_audit (success_event q sender) s.working)) (refl, refl)).0;
      })
