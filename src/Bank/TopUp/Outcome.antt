-- ===== src/Bank/TopUp/Outcome.antt =====
-- What a request to approve a top-up leaves in the committed tables, run from committed tables.
use sitbank.Base.{
  ◌≡◌, refl, ℕ, Bool, [], sym, arith, List, String, some, subst, ◌+◌, ◌∙◌, ap, ◌∷◌, find-true, find,
  update_where, ◌⊎◌, inr, inl, codes_eq-same,
}
use sitbank.Bank.Store.{Ledger, begin, Db, ok, Result, Session, err}
use sitbank.Bank.Money.{money, total-accounts_eq, Money}
use sitbank.Bank.Request.{Request}
use sitbank.Bank.Rules.{Settled, Failed}
use sitbank.Bank.Rules.Steps.{Settled-ok, Failed-of-Settled}
use sitbank.Bank.TopUp.{
  topup_view, SecondFactor, has_selector, book_topup, complete, topup_approve_submit, is_pending,
}
use sitbank.Bank.Types.{Cents, Instant, TopUpApprovalRequest}
use sitbank.Bank.TopUp.Accounting.{
  ToppedUp, Credited, topup_approve_submit-Settles, topup_approve_submit-none,
}
use sitbank.Bank.Transfer.Conservation.{total, UniqueIds, total-credit}
use sitbank.Bank.TopUp.Steps.{Approvable}

abbrev pub topup_run :
    Request → SecondFactor → List ℕ → List ℕ → Bool → Db → Result (Unit {0}) × Session
topup_run q factor selector verifier form_valid d =
    topup_approve_submit q factor selector verifier form_valid (begin d)

-- When the approval of a top-up answers 200, the request with the selector and the verifier of the
-- token was pending and not expired, its owner was an active customer that is not frozen, the
-- committed ledger is the old one with the request's amount credited to the owner and the two rows
-- that record it, and the request is completed; no change of the ledger or of the requests is left
-- open. With every other answer no balance, no transaction and no credit row changes.
pub topup_approve_submit-Settled :
    (q : Request) (factor : SecondFactor) (selector verifier : List ℕ) (form_valid : Bool) (d : Db)
    → Settled topup_view
        (λ x. money x.0 ≡ money d.ledger)
        (ToppedUp q selector verifier d.ledger d.topup_requests)
        (topup_run q factor selector verifier form_valid d).0
        (topup_run q factor selector verifier form_valid d).1
topup_approve_submit-Settled q factor selector verifier form_valid d =
    (topup_approve_submit-Settles q d.ledger d.topup_requests factor selector verifier
        form_valid).settle
      refl refl (begin d) (refl, refl)

module _ (selector : List ℕ) (at : Instant) (ref : String) where
  find-complete :
      (rows : List TopUpApprovalRequest) (row : TopUpApprovalRequest)
      → find (has_selector selector) rows ≡ some row
      → find (has_selector selector) (update_where (has_selector selector) (complete at ref) rows)
        ≡ some (complete at ref row)
  unfolding has_selector complete
  find-complete [] row h = cc
  find-complete (r ∷ rows) row h = ground (arith, find-complete rows row)

completed_row :
    (q : Request) (selector verifier : List ℕ) (l : Ledger) (rows : List TopUpApprovalRequest)
    (x : Ledger × List TopUpApprovalRequest) (done : ToppedUp q selector verifier l rows x)
    → find (has_selector selector) x.1 ≡ some (complete q.approved_at q.new_ref done.row)
unfolding has_selector
completed_row q selector verifier l rows x done =
    let same : done.row.selector ≡ selector =
      codes_eq-same done.row.selector selector
        (find-true (has_selector selector) rows done.row done.approvable.found) in
    let updated : x.1
        ≡ update_where (has_selector selector) (complete q.approved_at q.new_ref) rows =
      done.closed
      ∙ ap (λ (s : List ℕ). update_where (has_selector s) (complete q.approved_at q.new_ref) rows)
          same in
    rw updated (find-complete selector q.approved_at q.new_ref rows done.row done.approvable.found)

-- A second approval of the same request does not answer 200, whatever its code, and leaves the
-- committed balances, transactions and credit rows as the first one made them.
pub topup_approve_submit-once :
    (q q2 : Request) (factor factor2 : SecondFactor) (selector verifier : List ℕ)
    (form_valid : Bool) (d : Db)
    → (topup_run q factor selector verifier form_valid d).0 ≡ ok tt
    → let d2 = (topup_run q factor selector verifier form_valid d).1.committed in
      Failed topup_view
        (λ x. money x.0 ≡ money d2.ledger)
        (topup_run q2 factor2 selector verifier form_valid d2).0
        (topup_run q2 factor2 selector verifier form_valid d2).1
unfolding is_pending complete
topup_approve_submit-once q q2 factor factor2 selector verifier form_valid d first =
    let d2 = (topup_run q factor selector verifier form_valid d).1.committed in
    let done =
      Settled-ok topup_view (λ x. money x.0 ≡ money d.ledger)
        (ToppedUp q selector verifier d.ledger d.topup_requests)
        (topup_run q factor selector verifier form_valid d).0
        (topup_run q factor selector verifier form_valid d).1 tt first
        (topup_approve_submit-Settled q factor selector verifier form_valid d) in
    Failed-of-Settled topup_view (λ x. money x.0 ≡ money d2.ledger) (λ _. ⊥)
      (topup_run q2 factor2 selector verifier form_valid d2).0
      (topup_run q2 factor2 selector verifier form_valid d2).1
      ((topup_approve_submit-none q2 d2.ledger d2.topup_requests factor2 selector verifier
          form_valid (complete q.approved_at q.new_ref done.row)
          (completed_row q selector verifier d.ledger d.topup_requests (topup_view d2) done)
          refl).settle
        refl refl (begin d2) (refl, refl))

pub Credited-total :
    (q : Request) (i : ℕ) (amount : Cents) (l l2 : Ledger)
    → UniqueIds l.users
    → Credited q i amount l l2
    → total l2.users ≡ total l.users + amount
unfolding book_topup
Credited-total q i amount l l2 unique c =
    subst (λ (m : Ledger). total m.users ≡ total l.users + amount) (sym c.booked)
      (total-credit i amount l.users c.owner unique c.owner_row)

-- The balances sum to more by the amount of an approvable request.
pub record GrownBy (q : Request) (selector verifier : List ℕ) (d : Db) (after : ℕ) : Type 0 where
  pub row : TopUpApprovalRequest
  pub approvable : Approvable q selector verifier d.topup_requests row
  pub grown : after ≡ total d.ledger.users + row.amount

module _ (q : Request) (selector verifier : List ℕ) (d : Db) where
  sum_after :
      (r : Result (Unit {0})) (s : Session)
      → UniqueIds d.ledger.users
      → Settled topup_view
          (λ x. money x.0 ≡ money d.ledger)
          (ToppedUp q selector verifier d.ledger d.topup_requests)
          r
          s
      → (total s.committed.ledger.users ≡ total d.ledger.users)
        ⊎ GrownBy q selector verifier d (total s.committed.ledger.users)
  sum_after (ok a) s unique h = inr (record {
    row = h.0.row;
    approvable = h.0.approvable;
    grown =
        Credited-total q h.0.row.user_id h.0.row.amount d.ledger s.committed.ledger unique
          h.0.credited;
  })
  sum_after (err e) s unique h =
      inl (
        total-accounts_eq s.committed.ledger.users d.ledger.users
          (ap (λ (m : Money). m.balances) h))

-- With unique user ids, the sum of all committed balances after an approval, whatever it answers,
-- is the sum before, or that sum and the amount of a request that was pending, not expired and
-- named by the token.
pub topup_approve_submit-total :
    (q : Request) (factor : SecondFactor) (selector verifier : List ℕ) (form_valid : Bool) (d : Db)
    → UniqueIds d.ledger.users
    → (total (topup_run q factor selector verifier form_valid d).1.committed.ledger.users
        ≡ total d.ledger.users)
      ⊎ GrownBy q selector verifier d
          (total (topup_run q factor selector verifier form_valid d).1.committed.ledger.users)
topup_approve_submit-total q factor selector verifier form_valid d unique =
    sum_after q selector verifier d (topup_run q factor selector verifier form_valid d).0
      (topup_run q factor selector verifier form_valid d).1 unique
      (topup_approve_submit-Settled q factor selector verifier form_valid d)
