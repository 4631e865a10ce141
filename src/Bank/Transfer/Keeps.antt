-- ===== src/Bank/Transfer/Keeps.antt =====
-- What the shared steps of a transfer ensure: the rows that are locked, the signed row, and the
-- last steps, after which the open transaction is committed or the old tables still stand.
use sitbank.Base.{◌≡◌, refl, String, ap, ℕ, some, sym, true, subst, none, ◌∙◌}
use sitbank.Bank.Types.{User, Transaction, Cents, no_such_row, signing_error, success, AuditEvent}
use sitbank.Bank.Store.{
  Ledger, Db, Result, find_user, calls, Session, ok, ledger_fits, ◌>>◌, Action, err, resume,
  rollback, recover, add_audit,
}
use sitbank.Bank.Request.{Request, audit_outbound_transfer}
use sitbank.Bank.Rules.{Keeps, Keeps-bind, Returns, Holds, Returns-bind, Settled, Concludes}
use sitbank.Bank.Rules.Steps.{gets-Keeps, or_else-Keeps, raise-Refuses, pure-Keeps, pure-Returns}
use sitbank.Bank.Transfer.{
  lock_transfer_participants, sign_transaction, finish_transfer, audit_transfer_success,
  on_audit_error,
}
use sitbank.Bank.Request.Keeps.{
  IsView, commit-Returns, safe_send_notification-Returns, send_transfer_notification-Returns,
  maybe_send_daily_limit_warning-Returns, audit_success-Durable, Durable, written, unfit, unwritten,
}

module _ {V : Type 0} {view : Db → V} (i : IsView view) {Safe : V → Type 0} {v w : V} where
  pub lock_transfer_participants-Keeps :
      (sender recipient : ℕ)
      → Keeps view Safe v w
          (λ (p : User × User).
            (find_user sender (i.ledger_of w).users ≡ some p.0)
            × (find_user recipient (i.ledger_of w).users ≡ some p.1))
          (lock_transfer_participants sender recipient)
  unfolding lock_transfer_participants
  lock_transfer_participants-Keeps sender recipient =
      Keeps-bind
        (gets-Keeps _ (λ x. (i.ledger_of x).users)
          (λ d. ap (λ (l : Ledger). l.users) (i.shows_ledger d)))
        λ users e. Keeps-bind (or_else-Keeps (raise-Refuses no_such_row)) λ s s_row.
          Keeps-bind (or_else-Keeps (raise-Refuses no_such_row))
            λ r r_row. pure-Keeps (s, r) (rw e at s_row, rw e at r_row)

module _ (q : Request) {V : Type 0} {view : Db → V} {Safe : V → Type 0} {v w : V} where
  pub sign_transaction-Keeps :
      (t : Transaction)
      → Keeps view Safe v w
          (λ u. u ≡ record t { transaction_hash = u.transaction_hash })
          (sign_transaction q t)
  unfolding sign_transaction
  sign_transaction-Keeps t =
      Keeps-bind (or_else-Keeps (raise-Refuses signing_error)) λ hash _. pure-Keeps _ refl

module _ (q : Request) {V : Type 0} {view : Db → V} (i : IsView view) (Safe : V → Type 0)
    (v w : V) where
  -- The transaction is committed with its audit row, or the old tables stand.
  abbrev Booked : Result (Unit {0}) → Session → Type 0
  Booked (ok a) s = Holds view w w s × (ledger_fits (i.ledger_of w) ≡ true)
  Booked (err e) s = Safe (view s.committed)

  recover-Booked :
      (s : Session) (e : AuditEvent) (x : Result (Unit {0}) × Session)
      → Safe v
      → Holds view v w s
      → Durable s e x
      → Booked (recover on_audit_error x.0 x.1).0 (recover on_audit_error x.0 x.1).1
  unfolding on_audit_error rollback calls
  recover-Booked s e x safe h (written good) =
      let w' : view (add_audit e s.working) ≡ w = i.hides_audit e s.working ∙ h.1 in
      ((w', w'), ap ledger_fits (ap i.ledger_of (sym h.1) ∙ sym (i.shows_ledger s.working)) ∙ good)
  recover-Booked s e x safe h unfit = subst Safe (sym h.0) safe
  recover-Booked s e x safe h unwritten = subst Safe (sym h.0) safe

  audit_transfer_success-Booked :
      (sender : User) (s : Session)
      → Safe v
      → Holds view v w s
      → Booked (audit_transfer_success q sender s).0 (audit_transfer_success q sender s).1
  unfolding calls audit_transfer_success
  audit_transfer_success-Booked sender s safe h =
      let (e, durable) = audit_success-Durable q sender s in
      recover-Booked s e (audit_outbound_transfer q sender success none s) safe h durable

  pub finish_transfer-Returns :
      (sender recipient : User) (used amount limit : Cents)
      → ledger_fits (i.ledger_of w) ≡ true
      → Returns view w q.new_ref (finish_transfer q sender recipient used amount limit)
  unfolding finish_transfer
  finish_transfer-Returns sender recipient used amount limit fit =
      Returns-bind _ (commit-Returns q i fit) (
        Returns-bind _
          (safe_send_notification-Returns (send_transfer_notification-Returns q i sender))
          (Returns-bind _
            (safe_send_notification-Returns (send_transfer_notification-Returns q i recipient))
            (Returns-bind _
              (safe_send_notification-Returns
                (maybe_send_daily_limit_warning-Returns q i sender used amount limit))
              (pure-Returns _))))

  -- The last steps of a transfer: the success is audited and committed, and the parties told.
  pub conclude-Concludes :
      (P : V → Type 0) (sender recipient : User) (used amount limit : Cents)
      → P w
      → Concludes view Safe v w P
          (audit_transfer_success q sender >> finish_transfer q sender recipient used amount limit)
  unfolding calls
  conclude-Concludes P sender recipient used amount limit p = record {
    conclude = λ sv s h.
        close (audit_transfer_success q sender s).0 (audit_transfer_success q sender s).1
          (audit_transfer_success-Booked sender s sv h);
  }
    where
      finish : Action String
      finish = finish_transfer q sender recipient used amount limit

      close :
          (r : Result (Unit {0})) (u : Session)
          → Booked r u
          → Settled view Safe P (resume (λ _. finish) r u).0 (resume (λ _. finish) r u).1
      close (ok a) u b =
          let (e, k) =
            (finish_transfer-Returns sender recipient used amount limit b.1).return u b.0 in
          rw e (subst P (sym k.0) p, k.1 ∙ sym k.0)
      close (err x) u b = b
