-- ===== src/Bank/Request/Keeps.antt =====
-- Audit rows and mail change nothing in a view that leaves the audit table out, whether or not
-- they reach their table; a commit brings the open transaction's view into the tables.
use sitbank.Base.{
  ◌≡◌, subst, sym, inr, ◌&&◌, inl, Bool-cases, ℕ, false, ◌∙◌, true, ap, Option, refl, ◌||◌, some,
  Bool, none,
}
use sitbank.Bank.Store.{
  Db, Ledger, add_audit, fits, calls, when, Result, Session, ok, commit, Action, err, ledger_fits,
  begin,
}
use sitbank.Bank.Request.{
  Request, audit_event, audit_event_required, send_transfer_notification,
  ensure_banking_action_allowed, audit_outbound_transfer, send_banking_email,
  safe_send_notification, audit_banking_action, maybe_send_daily_limit_warning, is_blocked,
  requires_durable_audit, frozen_reason, event,
}
use sitbank.Bank.Types.{
  audit_write_error, banking, success, Outcome, AuditEvent, EventType, User, BankingAction, Cents,
  Reason, outbound_transfer, blocked, frozen_account, integrity_error,
}
use sitbank.Bank.Rules.{Stays, Returns, Keeps, Refuses-bind}
use sitbank.Bank.Rules.Steps.{Keeps-of-Refuses, raise-Refuses}
use sitbank.Bank.Rules.Open.{Stays-bind}

-- A view that leaves the audit table out, and shows the ledger.
pub record IsView {V : Type 0} (view : Db → V) : Type 0 where
  pub ledger_of : V → Ledger
  pub shows_ledger : (d : Db) → d.ledger ≡ ledger_of (view d)
  pub hides_audit : (e : AuditEvent) (d : Db) → view (add_audit e d) ≡ view d

module _ (q : Request) {V : Type 0} {view : Db → V} (i : IsView view) {Safe : V → Type 0} where
  pub audit_event-Stays : (e : AuditEvent) → Stays view Safe (audit_event q e)
  unfolding audit_event
  audit_event-Stays e = record {
    stay = λ s sc sw.
        let sw' : Safe (view (add_audit e s.working)) =
          subst Safe (sym (i.hides_audit e s.working)) sw in
        elim (Bool-cases (q.audit_ok e && fits s.working)) [
          | inl done ↦ rw done (sw', sw')
          | inr lost ↦ rw lost (sc, sc)
        ];
  }

  pub audit_event_required-Stays : (e : AuditEvent) → Stays view Safe (audit_event_required q e)
  unfolding audit_event_required
  audit_event_required-Stays e = record {
    stay = λ s sc sw.
        let sw' : Safe (view (add_audit e s.working)) =
          subst Safe (sym (i.hides_audit e s.working)) sw in
        elim (Bool-cases (q.audit_ok e)) [
          | inl done ↦ rw done (sc, sw')
          | inr lost ↦ rw lost (sc, sw)
        ];
  }

pub commit-Stays : {V : Type 0} {view : Db → V} {Safe : V → Type 0} → Stays view Safe commit
unfolding commit
commit-Stays = record {
  stay = λ s sc sw. elim (Bool-cases (fits s.working)) [
    | inl good ↦ rw good (sw, sw)
    | inr bad ↦ rw bad (sc, sc)
  ];
}

module _ (q : Request) {V : Type 0} {view : Db → V} (i : IsView view) {Safe : V → Type 0} where
  pub audit_banking_action-Stays :
      (required : Bool) (a : BankingAction) (o : Outcome) (user : ℕ) (reason : Option Reason)
      → Stays view Safe (audit_banking_action q required a o user reason)
  unfolding audit_banking_action
  audit_banking_action-Stays required a o user reason =
      elim (Bool-cases (required || requires_durable_audit a o)) [
        | inl durable ↦ rw durable (Stays-bind (audit_event_required-Stays q i _) λ _. commit-Stays)
        | inr lax ↦ rw lax (audit_event-Stays q i _)
      ]

  pub audit_outbound_transfer-Stays :
      (u : User) (o : Outcome) (reason : Option Reason)
      → Stays view Safe (audit_outbound_transfer q u o reason)
  unfolding audit_outbound_transfer
  audit_outbound_transfer-Stays u o reason =
      audit_banking_action-Stays false outbound_transfer o u.id reason

  send_banking_email-Stays : (t : EventType) (u : User) → Stays view Safe (send_banking_email q t u)
  unfolding send_banking_email
  send_banking_email-Stays t u = elim (Bool-cases (q.mail_ok u.id)) [
    | inl sent ↦ rw sent (audit_event-Stays q i _)
    | inr lost ↦ rw lost (audit_event-Stays q i _)
  ]

  pub send_transfer_notification-Stays :
      (u : User) → Stays view Safe (send_transfer_notification q u)
  unfolding send_transfer_notification calls
  send_transfer_notification-Stays u = elim (Bool-cases u.transfer_activity_email_enabled) [
    | inl on ↦ record { stay = λ s sc sw. rw on ((send_banking_email-Stays _ u).stay s sc sw) }
    | inr off ↦ record { stay = λ s sc sw. rw off (sc, sw) }
  ]

  pub ensure_banking_action_allowed-Keeps :
      {v w : V} (a : BankingAction) (u : User)
      → Keeps view Safe v w (λ _. is_blocked u ≡ false) (ensure_banking_action_allowed q a u)
  unfolding ensure_banking_action_allowed calls
  ensure_banking_action_allowed-Keeps {v} {w} a u = elim (Bool-cases (is_blocked u)) [
    | inl closed ↦ record {
      keep = λ sv sw s h. rw closed (
          (Keeps-of-Refuses {Q = λ _. true ≡ false} (
              Refuses-bind
                (audit_banking_action-Stays false a blocked u.id
                  (some (frozen_reason u.security_lock_reason)))
                (λ _. raise-Refuses (frozen_account a)))).keep
            sv sw s h);
    }
    | inr free ↦ record { keep = λ sv sw s h. rw free (refl, h) }
  ]

module _ (q : Request) {V : Type 0} {view : Db → V} (i : IsView view) where
  -- After a commit nothing in view is pending, and best-effort audit cannot fail the call.
  pub audit_event-Returns : {v : V} (e : AuditEvent) → Returns view v tt (audit_event q e)
  unfolding audit_event
  audit_event-Returns {v} e = record {
    return = λ s h.
        let w' : view (add_audit e s.working) ≡ v = i.hides_audit e s.working ∙ h.1 in
        elim (Bool-cases (q.audit_ok e && fits s.working)) [
          | inl done ↦ rw done (refl, (w', w'))
          | inr lost ↦ rw lost (refl, (h.0, h.0))
        ];
  }

  send_banking_email-Returns :
      {v : V} (t : EventType) (u : User) → Returns view v tt (send_banking_email q t u)
  unfolding send_banking_email
  send_banking_email-Returns t u = elim (Bool-cases (q.mail_ok u.id)) [
    | inl sent ↦ rw sent (audit_event-Returns _)
    | inr lost ↦ rw lost (audit_event-Returns _)
  ]

  when-Returns :
      {v : V} (b : Bool) {m : Action (Unit {0})}
      → Returns view v tt m
      → Returns view v tt (when b m)
  unfolding calls
  when-Returns true k = record { return = k.return }
  when-Returns false k = record { return = λ s h. (refl, h) }

  pub send_transfer_notification-Returns :
      {v : V} (u : User) → Returns view v tt (send_transfer_notification q u)
  unfolding send_transfer_notification
  send_transfer_notification-Returns u = when-Returns _ (send_banking_email-Returns _ u)

  pub maybe_send_daily_limit_warning-Returns :
      {v : V} (u : User) (used amount limit : Cents)
      → Returns view v tt (maybe_send_daily_limit_warning q u used amount limit)
  unfolding maybe_send_daily_limit_warning
  maybe_send_daily_limit_warning-Returns u used amount limit =
      when-Returns _ (send_banking_email-Returns _ u)

  pub commit-Returns : {v : V} → ledger_fits (i.ledger_of v) ≡ true → Returns view v tt commit
  unfolding commit
  commit-Returns {v} fit = record {
    return = λ s h.
        let good : fits s.working ≡ true =
          ap ledger_fits (i.shows_ledger s.working ∙ ap i.ledger_of h.1) ∙ fit in
        rw good (refl, (h.1, h.1));
  }

pub safe_send_notification-Returns :
    {V : Type 0} {view : Db → V} {v : V} {m : Action (Unit {0})}
    → Returns view v tt m
    → Returns view v tt (safe_send_notification m)
unfolding safe_send_notification calls
safe_send_notification-Returns k = record {
  return = λ s h. rw (k.return s h).0 (refl, (k.return s h).1);
}

-- A durable audit row is committed with all that is pending, or the call fails: by the flush
-- of the rest, which rolls back, or by the audit write, which leaves the transaction open.
pub data Durable (s : Session) (e : AuditEvent) : Result (Unit {0}) × Session → Type 0 where
  written : fits s.working ≡ true → Durable s e (ok tt, begin (add_audit e s.working))
  unfit : Durable s e (err integrity_error, begin s.committed)
  unwritten : Durable s e (err audit_write_error, s)

pub audit_success-Durable :
    (q : Request) (u : User) (s : Session)
    → (e : AuditEvent) × Durable s e (audit_outbound_transfer q u success none s)
unfolding audit_outbound_transfer audit_event_required commit calls
audit_success-Durable q u s =
    let e : AuditEvent = event q (banking outbound_transfer) success u.id none in
    (
      e,
      elim (Bool-cases (q.audit_ok e)) [
        | inl done ↦ elim (Bool-cases (fits s.working)) [
          | inl good ↦ rw (done, good) (written good)
          | inr bad ↦ rw (done, bad) unfit
        ]
        | inr lost ↦ rw lost unwritten
      ],
    )
