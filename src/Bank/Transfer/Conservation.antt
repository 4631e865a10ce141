-- ===== src/Bank/Transfer/Conservation.antt =====
-- What a transferred amount does to the balances: the sum stays, two rows change, usage grows.
use sitbank.Base.{◌≡◌, none, List, ◌∷◌, some, arith, ℕ, [], ◌≢◌, refl, ◌≤◌, ◌+◌, subst, sym, ◌∙◌}
use sitbank.Bank.Request.Keeps.{IsView}
use sitbank.Bank.Rules.{Settled}
use sitbank.Bank.Types.{User, Cents, TransactionType, Instant}
use sitbank.Bank.Store.{
  find_user, update_user, add_balance, sub_balance, Ledger, Db, Result, Session, ok, err,
}
use sitbank.Bank.Transfer.Entry.{Transferred}
use sitbank.Bank.Transfer.{move}
use sitbank.Bank.Usage.{amount_used_today}

-- The primary key of the users table.
abbrev pub UniqueIds : List User → Type 0
UniqueIds [] = Unit
UniqueIds (u ∷ us) = (find_user u.id us ≡ none) × UniqueIds us

abbrev pub total : List User → ℕ
total [] = 0
total (u ∷ us) = u.balance + total us

module _ (f : User → User) (same_id : (u : User) → (f u).id ≡ u.id) where
  pub find-update_self :
      (i : ℕ) (us : List User) (u : User)
      → find_user i us ≡ some u
      → find_user i (update_user i f us) ≡ some (f u)
  find-update_self i [] u h = cc
  find-update_self i (v ∷ us) u h = ground (arith, find-update_self i us u, same_id v)

  find-update_ne :
      (i j : ℕ) (us : List User) → j ≢ i → find_user j (update_user i f us) ≡ find_user j us
  find-update_ne i j [] ne = refl
  find-update_ne i j (v ∷ us) ne = ground (arith, find-update_ne i j us ne, same_id v)

  update-absent : (i : ℕ) (us : List User) → find_user i us ≡ none → update_user i f us ≡ us
  update-absent i [] h = refl
  update-absent i (v ∷ us) h = ground (arith, update-absent i us)

  find-update_none :
      (i j : ℕ) (us : List User) → find_user j us ≡ none → find_user j (update_user i f us) ≡ none
  find-update_none i j [] h = refl
  find-update_none i j (v ∷ us) h = ground (arith, find-update_none i j us, same_id v)

  pub update-UniqueIds : (i : ℕ) (us : List User) → UniqueIds us → UniqueIds (update_user i f us)
  update-UniqueIds i [] h = tt
  update-UniqueIds i (v ∷ us) h =
      ground (arith, update-UniqueIds i us h.1, find-update_none i v.id us h.0, same_id v)

pub total-credit :
    (i : ℕ) (c : Cents) (us : List User) (u : User)
    → UniqueIds us
    → find_user i us ≡ some u
    → total (update_user i (add_balance c) us) ≡ total us + c
total-credit i c [] u unique h = cc
total-credit i c (v ∷ us) u unique h = ground (
  arith,
  total-credit i c us u unique.1,
  update-absent (add_balance c) (λ _. refl) i us,
  unique.0,
)

total-debit :
    (i : ℕ) (c : Cents) (us : List User) (u : User)
    → UniqueIds us
    → find_user i us ≡ some u
    → c ≤ u.balance
    → total (update_user i (sub_balance c) us) + c ≡ total us
total-debit i c [] u unique h covered = cc
total-debit i c (v ∷ us) u unique h covered =
    ground (
      arith,
      total-debit i c us u unique.1,
      update-absent (sub_balance c) (λ _. refl) i us,
      unique.0,
    )

module _ {ty : TransactionType} {limit : User → Cents} {day_start : Instant} {sender_id : ℕ}
    {l l' : Ledger} (moved : Transferred ty limit day_start sender_id l l') where
  open moved use {sender, recipient, amount, entry, sender_row, recipient_row, distinct, booked}

  recipient_after_debit :
      find_user recipient.id (update_user sender_id (sub_balance amount) l.users) ≡ some recipient
  recipient_after_debit =
      find-update_ne (sub_balance amount) (λ _. refl) sender_id recipient.id l.users distinct
      ∙ recipient_row

  pub Transferred-UniqueIds : UniqueIds l.users → UniqueIds l'.users
  unfolding move
  Transferred-UniqueIds unique =
      subst (λ (m : Ledger). UniqueIds m.users) (sym booked)
        (update-UniqueIds (add_balance amount) (λ _. refl) recipient.id _
          (update-UniqueIds (sub_balance amount) (λ _. refl) sender_id l.users unique))

  pub Transferred-total : UniqueIds l.users → total l'.users ≡ total l.users
  unfolding move
  Transferred-total unique =
      subst (λ (m : Ledger). total m.users ≡ total l.users) (sym booked)
        (total-credit recipient.id amount _ recipient
            (update-UniqueIds (sub_balance amount) (λ _. refl) sender_id l.users unique)
            recipient_after_debit
          ∙ total-debit sender_id amount l.users sender unique sender_row moved.covered)

  -- The two rows after the transfer, and every other row.
  pub Transferred-rows :
      (find_user sender_id l'.users ≡ some (sub_balance amount sender))
      × (find_user recipient.id l'.users ≡ some (add_balance amount recipient))
      × ((j : ℕ) → j ≢ sender_id → j ≢ recipient.id → find_user j l'.users ≡ find_user j l.users)
  unfolding move
  Transferred-rows =
      subst
        (λ (m : Ledger).
          (find_user sender_id m.users ≡ some (sub_balance amount sender))
          × (find_user recipient.id m.users ≡ some (add_balance amount recipient))
          × ((j : ℕ)
              → j ≢ sender_id
              → j ≢ recipient.id
              → find_user j m.users ≡ find_user j l.users))
        (sym booked)
        (
          find-update_ne (add_balance amount) (λ _. refl) recipient.id sender_id _
                (λ e. distinct (sym e))
              ∙ find-update_self (sub_balance amount) (λ _. refl) sender_id l.users sender
                  sender_row,
          find-update_self (add_balance amount) (λ _. refl) recipient.id _ recipient
              recipient_after_debit,
          λ j js jr.
              find-update_ne (add_balance amount) (λ _. refl) recipient.id j _ jr
              ∙ find-update_ne (sub_balance amount) (λ _. refl) sender_id j l.users js,
        )

  -- What the sender has sent since the day began is still within the limit.
  pub Transferred-usage : amount_used_today ty sender_id day_start l'.transactions ≤ limit sender
  unfolding move amount_used_today
  Transferred-usage =
      subst (λ (m : Ledger). amount_used_today ty sender_id day_start m.transactions ≤ limit sender)
        (sym booked) (ground (arith, moved.within_limit, moved.recorded_amount))

-- The outcomes of a transfer, of which the second is a failure that leaves the ledger.
module _ {V : Type 0} {view : Db → V} (i : IsView view) {A : Type 0} (ty : TransactionType)
    (limit : User → Cents) (day_start : Instant) (sender_id : ℕ) (l : Ledger) (P : V → Type 0)
    (is : (x : V) → P x → Transferred ty limit day_start sender_id l (i.ledger_of x)) where
  pub Settled-total :
      (r : Result A) (s : Session)
      → UniqueIds l.users
      → Settled view (λ x. i.ledger_of x ≡ l) P r s
      → (total s.committed.ledger.users ≡ total l.users) × UniqueIds s.committed.ledger.users
  Settled-total (ok a) s unique h =
      subst (λ (m : Ledger). (total m.users ≡ total l.users) × UniqueIds m.users)
        (sym (i.shows_ledger s.committed))
        (Transferred-total (is _ h.0) unique, Transferred-UniqueIds (is _ h.0) unique)
  Settled-total (err e) s unique h =
      subst (λ (m : Ledger). (total m.users ≡ total l.users) × UniqueIds m.users)
        (sym (i.shows_ledger s.committed ∙ h)) (refl, unique)
