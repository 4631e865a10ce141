-- ===== src/Bank/TopUp/Steps.antt =====
-- What the steps of a top-up's approval ensure.
use sitbank.Base.{
  ◌≡◌, refl, ℕ, Bool, List, ◌<◌, some, true, false, find, arith, eq_iff, inl, ap, subst, inr, sym,
  Bool-cases,
}
use sitbank.Bank.Store.{
  Ledger, modify, ◌>>◌, commit, raise, rollback, calls, fits, Session, Action, set_ledger, begin,
  pure,
}
use sitbank.Bank.Money.{money, Money}
use sitbank.Bank.Request.{Request, audit_event_required}
use sitbank.Bank.Request.Keeps.{IsView, commit-Stays, audit_event-Stays}
use sitbank.Bank.Rules.{Keeps, Refuses, Refuses-bind, Stays, Keeps-bind, Concludes, Failed}
use sitbank.Bank.Rules.Steps.{when-Keeps, raise-Refuses, gets-Keeps, or_else-Keeps, pure-Keeps}
use sitbank.Bank.Rules.Handlers.{modify-Stays, Leads}
use sitbank.Bank.TopUp.{
  topup_view, refuse_code, refuse_owner, answer_wrong_code, on_topup_request, has_selector,
  load_topup_request, is_pending, on_verification_error, on_completion_error, fail_topup,
  has_token_shape,
}
use sitbank.Bank.Types.{
  frozen_account, TopUpApprovalRequest, responded, AuditEvent, Error, auth, account_frozen_topup,
  audit_write_error, integrity_error, no_such_row, signing_error, invalid_tag, type_error,
  value_error, invalid_operation,
}

abbrev pub topup_view-IsView : IsView topup_view
topup_view-IsView = record {
  ledger_of = λ x. x.0;
  shows_ledger = λ d. refl;
  hides_audit = λ e d. refl;
}

-- A call that answers early fails, and leaves the ledger.
module _ (q : Request) (m : Money) where
  on_topup_request-Stays :
      (selector : List ℕ) (f : TopUpApprovalRequest → TopUpApprovalRequest)
      → Stays topup_view (λ x. money x.0 ≡ m) (modify (on_topup_request selector f))
  unfolding on_topup_request
  on_topup_request-Stays selector f = modify-Stays _ λ d h. h

  pub refuse_owner-Refuses :
      {A : Type 0} (selector : List ℕ) (user : ℕ)
      → Refuses topup_view (λ x. money x.0 ≡ m) (refuse_owner q {A = A} selector user)
  unfolding refuse_owner
  refuse_owner-Refuses selector user = Refuses-bind (on_topup_request-Stays _ _) λ _.
      Refuses-bind (audit_event-Stays q topup_view-IsView _)
        λ _. Refuses-bind commit-Stays λ _. raise-Refuses _

  answer_wrong_code-Refuses :
      {A : Type 0} (locks : Bool) (selector : List ℕ) (user : ℕ)
      → Refuses topup_view (λ x. money x.0 ≡ m) (answer_wrong_code q {A = A} locks selector user)
  unfolding answer_wrong_code
  answer_wrong_code-Refuses true selector user = Refuses-bind (on_topup_request-Stays _ _) λ _.
      Refuses-bind commit-Stays
        λ _. Refuses-bind (audit_event-Stays q topup_view-IsView _) λ _. raise-Refuses _
  answer_wrong_code-Refuses false selector user =
      Refuses-bind commit-Stays
        λ _. Refuses-bind (audit_event-Stays q topup_view-IsView _) λ _. raise-Refuses _

  pub refuse_code-Refuses :
      {A : Type 0} (row : TopUpApprovalRequest) (user : ℕ)
      → Refuses topup_view (λ x. money x.0 ≡ m) (refuse_code q {A = A} row user)
  unfolding refuse_code
  refuse_code-Refuses row user =
      Refuses-bind (on_topup_request-Stays _ _) λ _. answer_wrong_code-Refuses _ _ _

  expire-Refuses :
      {A : Type 0} (selector : List ℕ) (f : TopUpApprovalRequest → TopUpApprovalRequest)
      → Refuses topup_view
          (λ x. money x.0 ≡ m)
          (modify (on_topup_request selector f) >> (commit >> raise {A = A} (responded 404)))
  expire-Refuses selector f =
      Refuses-bind (on_topup_request-Stays _ _) λ _. Refuses-bind commit-Stays λ _. raise-Refuses _

-- A request that may be approved: selector and verifier are of a legal length, it has the selector and the verifier's HMAC, and is pending
-- and not expired.
pub record Approvable (q : Request) (selector verifier : List ℕ) (rows : List TopUpApprovalRequest)
    (row : TopUpApprovalRequest) : Type 0 where
  pub shaped : has_token_shape selector verifier ≡ true
  pub found : find (has_selector selector) rows ≡ some row
  pub genuine : row.verifier_hmac ≡ q.topup_verifier_hmac verifier
  pub open_request : is_pending row.status ≡ true
  pub unexpired : q.now < row.expires_at

module _ (q : Request) {m : Money} {v w : Ledger × List TopUpApprovalRequest} where
  pub load_topup_request-Keeps :
      (selector verifier : List ℕ)
      → Keeps topup_view
          (λ x. money x.0 ≡ m)
          v
          w
          (Approvable q selector verifier w.1)
          (load_topup_request q selector verifier)
  unfolding load_topup_request
  load_topup_request-Keeps selector verifier = Keeps-bind (when-Keeps (raise-Refuses _)) λ _ shaped.
      Keeps-bind (gets-Keeps _ (λ (x : Ledger × List TopUpApprovalRequest). x.1) (λ _. refl))
        λ rows e. Keeps-bind (or_else-Keeps (raise-Refuses _)) λ row found.
          Keeps-bind (when-Keeps (raise-Refuses _)) λ _ same.
            Keeps-bind (when-Keeps (expire-Refuses q m _ _)) λ _ unexpired.
              Keeps-bind (when-Keeps (raise-Refuses _)) λ _ is_open. pure-Keeps row (record {
                shaped = ground arith;
                found = rw e at found;
                genuine = ground (arith, eq_iff row.verifier_hmac (q.topup_verifier_hmac verifier));
                open_request = ground arith;
                unexpired = ground arith;
              })

module _ (q : Request) {v w : Ledger × List TopUpApprovalRequest} where
  pub audit_event_required-Keeps :
      {Safe : Ledger × List TopUpApprovalRequest → Type 0} (e : AuditEvent)
      → Keeps topup_view Safe v w (λ _. Unit {0}) (audit_event_required q e)
  unfolding audit_event_required
  audit_event_required-Keeps {Safe} e = record {
    keep = λ sv sw s h. elim (Bool-cases (q.audit_ok e)) [
      | inl done ↦ rw done (tt, h)
      | inr lost ↦ rw lost (subst Safe (sym h.0) sv)
    ];
  }

  -- The credit's write with the audit row that it requires.
  pub book-Leads :
      {Safe : Ledger × List TopUpApprovalRequest → Type 0} {A : Type 0}
      (R : A → Ledger × List TopUpApprovalRequest → Type 0) (f : Ledger → Ledger) (e : AuditEvent)
      (a : A)
      → R a (f w.0, w.1)
      → Leads topup_view Safe v w R (modify (set_ledger f) >> (audit_event_required q e >> pure a))
  unfolding audit_event_required calls
  book-Leads {Safe} R f e a p = record {
    lead = λ sv sw s h. elim (Bool-cases (q.audit_ok e)) [
      | inl done ↦ rw done (
        subst (R a) (sym (ap (λ (x : Ledger × List TopUpApprovalRequest). (f x.0, x.1)) h.1)) p,
        h.0,
      )
      | inr lost ↦ rw lost (subst Safe (sym h.0) sv)
    ];
  }

  pub commit-Concludes :
      {Safe : Ledger × List TopUpApprovalRequest → Type 0}
      {P : Ledger × List TopUpApprovalRequest → Type 0}
      → P w
      → Concludes topup_view Safe v w P commit
  unfolding commit
  commit-Concludes {Safe} {P} p = record {
    conclude = λ sv s h. elim (Bool-cases (fits s.working)) [
      | inl good ↦ rw good (subst P (sym h.1) p, refl)
      | inr bad ↦ rw bad (subst Safe (sym h.0) sv)
    ];
  }

pub on_verification_error-Failed :
    (A : Type 0) (Safe : Ledger × List TopUpApprovalRequest → Type 0) (e : Error) (t : Session)
    → Safe (topup_view t.committed)
    → Failed topup_view Safe
        (on_verification_error {A = A} e t).0
        (on_verification_error {A = A} e t).1
unfolding on_verification_error calls
on_verification_error-Failed A Safe (frozen_account a) t h = h
on_verification_error-Failed A Safe account_frozen_topup t h = h
on_verification_error-Failed A Safe (auth code reason) t h = h
on_verification_error-Failed A Safe (responded code) t h = h
on_verification_error-Failed A Safe audit_write_error t h = h
on_verification_error-Failed A Safe integrity_error t h = h
on_verification_error-Failed A Safe no_such_row t h = h
on_verification_error-Failed A Safe signing_error t h = h
on_verification_error-Failed A Safe invalid_tag t h = h
on_verification_error-Failed A Safe type_error t h = h
on_verification_error-Failed A Safe value_error t h = h
on_verification_error-Failed A Safe invalid_operation t h = h

module _ (q : Request) (m : Money) (selector : List ℕ) where
  answer-Failed :
      (k : Action (Unit {0})) (t : Session)
      → Refuses topup_view (λ x. money x.0 ≡ m) k
      → money t.committed.ledger ≡ m
      → Failed topup_view (λ x. money x.0 ≡ m) ((rollback >> k) t).0 ((rollback >> k) t).1
  unfolding rollback calls
  answer-Failed k t r h = r.refuse (begin t.committed) h h

  fail_topup-Failed :
      (code : ℕ) (t : Session)
      → money t.committed.ledger ≡ m
      → Failed topup_view
          (λ x. money x.0 ≡ m)
          (fail_topup q selector code t).0
          (fail_topup q selector code t).1
  unfolding fail_topup
  fail_topup-Failed code t h =
      answer-Failed _ t
        (Refuses-bind (on_topup_request-Stays q m selector _)
          λ _. Refuses-bind commit-Stays λ _. raise-Refuses _)
        h

  pub on_completion_error-Failed :
      (e : Error) (t : Session)
      → money t.committed.ledger ≡ m
      → Failed topup_view
          (λ x. money x.0 ≡ m)
          (on_completion_error q selector e t).0
          (on_completion_error q selector e t).1
  unfolding on_completion_error
  on_completion_error-Failed account_frozen_topup t h = fail_topup-Failed 403 t h
  on_completion_error-Failed (frozen_account a) t h = fail_topup-Failed 403 t h
  on_completion_error-Failed (auth code reason) t h = fail_topup-Failed code t h
  on_completion_error-Failed (responded code) t h = answer-Failed _ t (raise-Refuses _) h
  on_completion_error-Failed audit_write_error t h = answer-Failed _ t (raise-Refuses _) h
  on_completion_error-Failed integrity_error t h = answer-Failed _ t (raise-Refuses _) h
  on_completion_error-Failed no_such_row t h = answer-Failed _ t (raise-Refuses _) h
  on_completion_error-Failed signing_error t h = answer-Failed _ t (raise-Refuses _) h
  on_completion_error-Failed invalid_tag t h = answer-Failed _ t (raise-Refuses _) h
  on_completion_error-Failed type_error t h = answer-Failed _ t (raise-Refuses _) h
  on_completion_error-Failed value_error t h = answer-Failed _ t (raise-Refuses _) h
  on_completion_error-Failed invalid_operation t h = answer-Failed _ t (raise-Refuses _) h
