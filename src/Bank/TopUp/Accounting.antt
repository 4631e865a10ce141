-- ===== src/Bank/TopUp/Accounting.antt =====
-- An approved top-up credits its owner once, or the approval commits no change of the ledger.
use sitbank.Base.{
  ◌≡◌, refl, List, true, false, some, ℕ, update_where, String, ap, Bool, none, [], subst, sym,
  arith, ◌∙◌, find,
}
use sitbank.Bank.Types.{User, Cents, TopUpApprovalRequest, TopUpCredit, Transaction, topup}
use sitbank.Bank.Store.{Ledger, find_user}
use sitbank.Bank.Money.{money}
use sitbank.Bank.Request.{Request, is_blocked}
use sitbank.Bank.Rules.Handlers.{
  Leads, Leads-bind, Settles-bind_open, catch-Keeps, Settles-then, catch-Settles,
}
use sitbank.Bank.TopUp.{
  topup_view, credit_account_topup, topup_owner_is_eligible, has_selector, complete, book_topup,
  topup_approve_submit, new_credit, complete_topup, on_topup_request, SecondFactor, is_pending,
}
use sitbank.Bank.Transfer.{new_transaction}
use sitbank.Bank.TopUp.Steps.{
  Approvable, book-Leads, load_topup_request-Keeps, audit_event_required-Keeps,
  refuse_owner-Refuses, on_verification_error-Failed, commit-Concludes, refuse_code-Refuses,
  on_completion_error-Failed, topup_view-IsView,
}
use sitbank.Bank.Transfer.Keeps.{sign_transaction-Keeps}
use sitbank.Bank.Rules.{Settles, Settles-bind}
use sitbank.Bank.Rules.Steps.{
  gets-Keeps, or_else-Keeps, raise-Refuses, when-Keeps, modify-Concludes,
}
use sitbank.Bank.Transfer.Entry.{find_user-id}
use sitbank.Bank.Request.Keeps.{safe_send_notification-Returns, send_transfer_notification-Returns}

-- The credit of `amount` to the user of id `i`, in the ledger `l`, with its two rows.
pub record Credited (q : Request) (i : ℕ) (amount : Cents) (l l' : Ledger) : Type 0 where
  pub owner : User
  pub credit : TopUpCredit
  pub entry : Transaction
  pub owner_row : find_user i l.users ≡ some owner
  pub not_frozen : is_blocked owner ≡ false
  pub credit_amount : credit.amount ≡ amount
  pub credit_user : credit.user_id ≡ i
  pub entry_amount : entry.amount ≡ amount
  pub entry_type : entry.transaction_type ≡ topup
  pub same_ref : entry.transaction_ref ≡ credit.credit_ref
  pub booked : l' ≡ book_topup i amount credit entry l

-- The tables after an approval: the request was open and its owner could top up, the owner is
-- credited with its amount, and the request is completed.
pub record ToppedUp (q : Request) (selector verifier : List ℕ) (l : Ledger)
    (rows : List TopUpApprovalRequest) (x : Ledger × List TopUpApprovalRequest) : Type 0 where
  pub row : TopUpApprovalRequest
  pub user : User
  pub approvable : Approvable q selector verifier rows row
  pub user_row : find_user row.user_id l.users ≡ some user
  pub eligible : topup_owner_is_eligible user ≡ true
  pub credited : Credited q row.user_id row.amount l x.0
  pub closed :
      x.1 ≡ update_where (has_selector row.selector) (complete q.approved_at q.new_ref) rows

module _ (q : Request) (l : Ledger) (rows : List TopUpApprovalRequest) where
  abbrev Unchanged : Ledger × List TopUpApprovalRequest → Type 0
  Unchanged x = x ≡ (l, rows)

  -- What a credit leaves in the open transaction.
  abbrev Lent : ℕ → Cents → TopUpCredit → Ledger × List TopUpApprovalRequest → Type 0
  Lent i amount c x = Credited q i amount l x.0 × (x.1 ≡ rows) × (c.credit_ref ≡ q.new_ref)

  Credited-intro :
      (i : ℕ) (amount : Cents) (owner : User) (hash : String) (t : Transaction)
      → find_user i l.users ≡ some owner
      → is_blocked owner ≡ false
      → t ≡ record (new_transaction q topup owner.id owner.id none amount []) {
        transaction_hash = t.transaction_hash;
      }
      → Credited q i amount l (
          book_topup owner.id amount
            (record (new_credit q owner.id amount) { credit_hash = hash })
            t
            l)
  unfolding new_credit new_transaction
  Credited-intro i amount owner hash t found unfrozen signed =
      let same : owner.id ≡ i = find_user-id i l.users owner found in
      record {
        owner = owner;
        credit = record (new_credit q owner.id amount) { credit_hash = hash };
        entry = t;
        owner_row = found;
        not_frozen = unfrozen;
        credit_amount = refl;
        credit_user = same;
        entry_amount = ap (λ (u : Transaction). u.amount) signed;
        entry_type = ap (λ (u : Transaction). u.transaction_type) signed;
        same_ref = ap (λ (u : Transaction). u.transaction_ref) signed;
        booked =
            ap
              (λ (k : ℕ).
                book_topup k amount (record (new_credit q owner.id amount) { credit_hash = hash }) t
                  l)
              same;
      }

  credit_account_topup-Leads :
      (user : User) (amount : Cents)
      → Leads topup_view Unchanged
          (l, rows)
          (l, rows)
          (Lent user.id amount)
          (credit_account_topup q user amount)
  unfolding credit_account_topup new_credit
  credit_account_topup-Leads user amount =
      Leads-bind (gets-Keeps _ (λ (x : Ledger × List TopUpApprovalRequest). x.0.users) (λ _. refl))
        λ users e. Leads-bind (or_else-Keeps (raise-Refuses _)) λ owner found.
          Leads-bind (when-Keeps (raise-Refuses _)) λ _ unfrozen.
            Leads-bind (or_else-Keeps (raise-Refuses _)) λ hash _.
              Leads-bind (sign_transaction-Keeps q _) λ t signed. book-Leads q _ _ _ _ (
                Credited-intro user.id amount owner hash t (rw e at found) unfrozen signed,
                refl,
                refl,
              )

  complete_topup-Settles :
      (selector verifier : List ℕ) (user : User) (row : TopUpApprovalRequest)
      → Approvable q selector verifier rows row
      → find_user row.user_id l.users ≡ some user
      → topup_owner_is_eligible user ≡ true
      → Settles topup_view Unchanged
          (l, rows)
          (l, rows)
          (ToppedUp q selector verifier l rows)
          (complete_topup q user row)
  unfolding complete_topup on_topup_request
  complete_topup-Settles selector verifier user row ok_row user_row eligible =
      Settles-bind (audit_event_required-Keeps q _) λ _ _.
        Settles-bind_open (credit_account_topup-Leads user row.amount) λ credit x lent.
          modify-Concludes _
            (λ y. (
              y.0,
              update_where (has_selector row.selector) (complete q.approved_at credit.credit_ref)
                  y.1,
            ))
            (λ _. refl)
            (commit-Concludes q (record {
              row = row;
              user = user;
              approvable = ok_row;
              user_row = user_row;
              eligible = eligible;
              credited =
                  subst (λ (i : ℕ). Credited q i row.amount l x.0)
                    (find_user-id row.user_id l.users user user_row) lent.0;
              closed = rw lent.1 (rw lent.2 refl);
            }))

  same_row :
      (selector verifier : List ℕ) (row again : TopUpApprovalRequest)
      → Approvable q selector verifier rows row
      → Approvable q selector verifier rows again
      → row ≡ again
  same_row selector verifier row again a b = cc (sym a.found ∙ b.found)

  pub topup_approve_submit-Settles :
      (factor : SecondFactor) (selector verifier : List ℕ) (form_valid : Bool)
      → Settles topup_view
          (λ x. money x.0 ≡ money l)
          (l, rows)
          (l, rows)
          (ToppedUp q selector verifier l rows)
          (topup_approve_submit q factor selector verifier form_valid)
  unfolding topup_approve_submit
  topup_approve_submit-Settles factor selector verifier form_valid =
      Settles-bind (load_topup_request-Keeps q selector verifier) λ row ok_row.
        Settles-bind (when-Keeps (raise-Refuses _)) λ _ _.
          Settles-bind
            (gets-Keeps _ (λ (x : Ledger × List TopUpApprovalRequest). x.0.users) (λ _. refl))
            λ users e.
              Settles-bind (or_else-Keeps (refuse_owner-Refuses q (money l) _ _)) λ user found.
                Settles-bind (when-Keeps (refuse_owner-Refuses q (money l) _ _)) λ _ eligible.
                  Settles-bind
                    (catch-Keeps _ (factor.verify_keeps user (money l) _)
                      (on_verification_error-Failed Bool (λ x. money x.0 ≡ money l)))
                    λ verified _.
                      Settles-bind (when-Keeps (refuse_code-Refuses q (money l) _ _)) λ _ _.
                        Settles-bind (load_topup_request-Keeps q selector verifier)
                          λ again ok_again.
                            Settles-then tt _
                              (catch-Settles _ _ _
                                (complete_topup-Settles selector verifier user again ok_again
                                  (subst
                                    (λ (r : TopUpApprovalRequest).
                                      find_user r.user_id l.users ≡ some user)
                                    (same_row selector verifier row again ok_row ok_again)
                                    (rw e at found))
                                  (ground arith))
                                (λ err t h.
                                  on_completion_error-Failed q (money l) again.selector err t
                                    (ap (λ (x : Ledger × List TopUpApprovalRequest). money x.0) h)))
                              (λ x.
                                safe_send_notification-Returns
                                  (send_transfer_notification-Returns q topup_view-IsView user))

  -- A request that is no longer pending is never approved, and its ledger stays.
  pub topup_approve_submit-none :
      (factor : SecondFactor) (selector verifier : List ℕ) (form_valid : Bool)
      (row : TopUpApprovalRequest)
      → find (has_selector selector) rows ≡ some row
      → is_pending row.status ≡ false
      → Settles topup_view
          (λ x. money x.0 ≡ money l)
          (l, rows)
          (l, rows)
          (λ _. ⊥)
          (topup_approve_submit q factor selector verifier form_valid)
  unfolding topup_approve_submit
  topup_approve_submit-none factor selector verifier form_valid row found closed =
      Settles-bind (load_topup_request-Keeps q selector verifier)
        λ other ok_other. absurd (not_open other ok_other)
    where
      not_open : (other : TopUpApprovalRequest) → Approvable q selector verifier rows other → ⊥
      not_open other a =
          let same : row ≡ other = cc (sym found ∙ a.found) in
          cc (
            sym closed
            ∙ ap (λ (r : TopUpApprovalRequest). is_pending r.status) same
            ∙ a.open_request)
