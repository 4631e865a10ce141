-- ===== src/Bank/History/Books.antt =====
-- The books balance after any sequence of requests.
use sitbank.Base.{
  ◌≡◌, ℕ, ◌+◌, ap, sym, subst, List, ◌∙◌, ◌∷◌, [], refl, inr, arith, inl, Bool-cases,
}
use sitbank.Bank.Types.{User, TopUpCredit, TransactionType, Cents, Instant}
use sitbank.Bank.Store.{
  Db, Ledger, Result, Session, ok, err, calls, add_balance, commit, begin, ledger_fits,
}
use sitbank.Bank.Money.{money, accounts, Money, total-accounts_eq, UniqueIds-accounts}
use sitbank.Bank.Request.{Request}
use sitbank.Bank.History.{
  ◌⟶◌, local_transfer_request, ◌⟶*◌, payup_transfer_request, topup_request, topup_approval, after,
  here,
}
use sitbank.Bank.Transfer.Conservation.{
  total, UniqueIds, Transferred-total, Transferred-UniqueIds, total-credit, update-UniqueIds,
}
use sitbank.Bank.TopUp.{book_topup, generate_topup_token, token_parts}
use sitbank.Bank.Request.Keeps.{IsView}
use sitbank.Bank.Transfer.{move}
use sitbank.Bank.TopUp.Accounting.{Credited, ToppedUp}
use sitbank.Bank.Transfer.Entry.{Transferred}
use sitbank.Bank.Rules.{Settled}
use sitbank.Bank.Local.Accounting.{local_view-IsView, Done}
use sitbank.Bank.Local.Outcome.{local_run, execute_local_transfer-Settled}
use sitbank.Bank.Payup.Accounting.{PayupDone}
use sitbank.Bank.Payup.Steps.{payup_view-IsView}
use sitbank.Bank.Payup.Outcome.{payup_run, execute_payup_transfer-Settled}
use sitbank.Bank.TopUp.Steps.{topup_view-IsView}
use sitbank.Bank.TopUp.Outcome.{topup_run, topup_approve_submit-Settled}

abbrev pub sum_of_credits : List TopUpCredit → ℕ
sum_of_credits [] = 0
sum_of_credits (c ∷ cs) = c.amount + sum_of_credits cs

-- Balances, less what top-ups have credited, sum to the opening amount; user ids are unique.
abbrev pub Books : ℕ → Ledger → Type 0
Books opening l = (total l.users ≡ opening + sum_of_credits l.topup_credits) × UniqueIds l.users

Transferred-Books :
    (ty : TransactionType) (limit : User → Cents) (day_start : Instant) (sender_id opening : ℕ)
    (l l2 : Ledger)
    → Transferred ty limit day_start sender_id l l2
    → Books opening l
    → Books opening l2
unfolding move
Transferred-Books ty limit day_start sender_id opening l l2 moved books =
    let same : l2.topup_credits ≡ l.topup_credits =
      ap (λ (m : Ledger). m.topup_credits) moved.booked in
    (rw same (Transferred-total moved books.1 ∙ books.0), Transferred-UniqueIds moved books.1)

Credited-Books :
    (q : Request) (i : ℕ) (amount : Cents) (opening : ℕ) (l l2 : Ledger)
    → Credited q i amount l l2
    → Books opening l
    → Books opening l2
unfolding book_topup
Credited-Books q i amount opening l l2 c books = subst (Books opening) (sym c.booked) (
  ground
      (arith, total-credit i amount l.users c.owner books.1 c.owner_row, c.credit_amount, books.0),
  update-UniqueIds (add_balance amount) (λ _. refl) i l.users books.1,
)

module _ {V : Type 0} {view : Db → V} (i : IsView view) {A : Type 0} (Safe P : V → Type 0)
    (opening : ℕ) (safe : (x : V) → Safe x → Books opening (i.ledger_of x))
    (is : (x : V) → P x → Books opening (i.ledger_of x)) where
  Settled-Books :
      (r : Result A) (s : Session) → Settled view Safe P r s → Books opening s.committed.ledger
  Settled-Books (ok a) s h = subst (Books opening) (sym (i.shows_ledger s.committed)) (is _ h.0)
  Settled-Books (err e) s h = subst (Books opening) (sym (i.shows_ledger s.committed)) (safe _ h)

same-Books : (opening : ℕ) (l l2 : Ledger) → l2 ≡ l → Books opening l → Books opening l2
same-Books opening l l2 e books = subst (Books opening) (sym e) books

money-Books :
    (opening : ℕ) (l l2 : Ledger) → money l2 ≡ money l → Books opening l → Books opening l2
money-Books opening l l2 e books =
    let users : accounts l2.users ≡ accounts l.users = ap (λ (m : Money). m.balances) e in
    let credits : l2.topup_credits ≡ l.topup_credits = ap (λ (m : Money). m.topup_credits) e in
    (
      total-accounts_eq l2.users l.users users
          ∙ books.0
          ∙ ap (λ (cs : List TopUpCredit). opening + sum_of_credits cs) (sym credits),
      UniqueIds-accounts l.users l2.users (sym users) books.1,
    )

generate_topup_token-ledger :
    (q : Request) (selector verifier : List ℕ) (user : ℕ) (amount : Cents) (d : Db)
    → (generate_topup_token q selector verifier user amount (begin d)).1.committed.ledger ≡ d.ledger
unfolding generate_topup_token calls commit
generate_topup_token-ledger q selector verifier user amount d =
    elim (Bool-cases (ledger_fits d.ledger)) [ inl good ↦ rw good refl | inr bad ↦ rw bad refl ]

step-Books : (opening : ℕ) {d e : Db} → d ⟶ e → Books opening d.ledger → Books opening e.ledger
step-Books opening (local_transfer_request q sender payee token d) books =
    Settled-Books local_view-IsView (λ x. x.0 ≡ d.ledger)
      (Done q sender payee token d.ledger d.pending_transfers) opening
      (λ x h. same-Books opening d.ledger x.0 h books)
      (λ x h. Transferred-Books _ _ _ _ opening d.ledger x.0 h.0 books)
      (local_run q sender payee token d).0 (local_run q sender payee token d).1
      (execute_local_transfer-Settled q sender payee token d)
step-Books opening (payup_transfer_request q sender token authorized d) books =
    Settled-Books payup_view-IsView (λ x. x.0 ≡ d.ledger)
      (PayupDone q sender token d.ledger d.payup_pending_transfers authorized) opening
      (λ x h. same-Books opening d.ledger x.0 h books)
      (λ x h. Transferred-Books _ _ _ _ opening d.ledger x.0 h.0.moved books)
      (payup_run q sender token authorized d).0 (payup_run q sender token authorized d).1
      (execute_payup_transfer-Settled q sender token authorized d)
step-Books opening (topup_request q selector verifier user amount d) books =
    subst (Books opening) (sym (generate_topup_token-ledger q selector verifier user amount d))
      books
step-Books opening (topup_approval q factor raw form_valid d) books =
    let selector = (token_parts raw).0 in
    let verifier = (token_parts raw).1 in
    Settled-Books topup_view-IsView (λ x. money x.0 ≡ money d.ledger)
      (ToppedUp q selector verifier d.ledger d.topup_requests) opening
      (λ x h. money-Books opening d.ledger x.0 h books)
      (λ x h. Credited-Books q h.row.user_id h.row.amount opening d.ledger x.0 h.credited books)
      (topup_run q factor selector verifier form_valid d).0
      (topup_run q factor selector verifier form_valid d).1
      (topup_approve_submit-Settled q factor selector verifier form_valid d)

-- After any sequence of requests for transfers, top-ups and approvals, failed ones included, the
-- committed balances sum to the opening amount and all that the credit rows of top-ups record,
-- and user ids are unique, when this was so at first.
pub history-Books :
    (opening : ℕ) {d e : Db} → d ⟶* e → Books opening d.ledger → Books opening e.ledger
history-Books opening here books = books
history-Books opening (after earlier last) books =
    step-Books opening last (history-Books opening earlier books)
