-- ===== src/Bank/Transfer/Entry.antt =====
-- The specification of a transfer as a change of the ledger, and what follows from it.
use sitbank.Base.{
  ◌≡◌, ℕ, ◌+◌, ◌≢◌, some, ◌≤◌, ◌∷◌, arith, Option, [], ◌∙◌, false, List, ap, ltb, ◌==◌, subst, sym,
  ltb_false→le,
}
use sitbank.Bank.Types.{User, TransactionType, Instant, Transaction, StoredDecimal, nan}
use sitbank.Bank.Store.{Ledger, find_user}
use sitbank.Bank.Transfer.{
  move, Cents, min_transaction_amount, max_transaction_amount, completed, Request, cents_in_range,
  new_transaction, units, negsuc, pos,
}
use sitbank.Bank.Usage.{amount_used_today, sgt_day_start_utc}

-- From `l` to `l'`: a double entry of an amount that the sender covers, that lies within the
-- sender's daily limit with what was sent since `day_start`, and that the new row records.
pub record Transferred (ty : TransactionType) (limit : User → Cents) (day_start : Instant)
    (sender_id : ℕ) (l l' : Ledger) : Type 0 where
  pub sender : User
  pub recipient : User
  pub amount : Cents
  pub entry : Transaction
  pub sender_row : find_user sender_id l.users ≡ some sender
  pub recipient_row : find_user recipient.id l.users ≡ some recipient
  pub sender_named : sender.id ≡ sender_id
  pub distinct : recipient.id ≢ sender_id
  pub positive : min_transaction_amount ≤ amount
  pub bounded : amount ≤ max_transaction_amount
  pub covered : amount ≤ sender.balance
  pub within_limit : amount_used_today ty sender_id day_start l.transactions + amount ≤ limit sender
  pub recorded_amount : entry.amount ≡ amount
  pub recorded_type : entry.transaction_type ≡ ty
  pub recorded_status : entry.status ≡ completed
  pub recorded_sender : entry.sender_id ≡ sender_id
  pub recorded_recipient : entry.recipient_id ≡ recipient.id
  pub booked : l' ≡ move sender_id recipient.id amount entry l

pub find_user-id : (i : ℕ) (us : List User) (u : User) → find_user i us ≡ some u → u.id ≡ i
find_user-id i [] u h = cc
find_user-id i (v ∷ us) u h = ground (arith, find_user-id i us u)

pub cents_in_range_bounds :
    (d : StoredDecimal) {c : Cents}
    → cents_in_range d ≡ some c
    → (min_transaction_amount ≤ c) × (c ≤ max_transaction_amount)
unfolding cents_in_range
cents_in_range_bounds nan h = cc
cents_in_range_bounds (units (negsuc n)) h = cc
cents_in_range_bounds (units (pos n)) h = ground arith

-- The checks that a transfer has passed when it makes its entry give the specification.
module _ (q : Request) (ty : TransactionType) (limit : User → Cents) (l : Ledger)
    (sender_id recipient_id : ℕ) (rows : User × User) (amount : Cents) where
  unfoldable pub Transferred-intro :
      (d : StoredDecimal) (payee : Option ℕ) (reference : List ℕ) (t : Transaction)
      → (recipient_id == sender_id) ≡ false
      → (find_user sender_id l.users ≡ some rows.0) × (find_user recipient_id l.users ≡ some rows.1)
      → cents_in_range d ≡ some amount
      → ltb rows.0.balance amount ≡ false
      → ltb
          (limit rows.0)
          (amount_used_today ty rows.0.id (sgt_day_start_utc q.day_now) l.transactions + amount)
        ≡ false
      → t ≡ record (new_transaction q ty rows.0.id rows.1.id payee amount reference) {
        transaction_hash = t.transaction_hash;
      }
      → Transferred ty limit
          (sgt_day_start_utc q.day_now)
          sender_id
          l
          (move rows.0.id rows.1.id amount t l)
  unfolding new_transaction
  Transferred-intro d payee reference t other found in_range covered within signed =
      let s_id : rows.0.id ≡ sender_id = find_user-id sender_id l.users rows.0 found.0 in
      let r_id : rows.1.id ≡ recipient_id = find_user-id recipient_id l.users rows.1 found.1 in
      record {
        sender = rows.0;
        recipient = rows.1;
        amount = amount;
        entry = t;
        sender_row = found.0;
        recipient_row = subst (λ (k : ℕ). find_user k l.users ≡ some rows.1) (sym r_id) found.1;
        sender_named = s_id;
        distinct = ground arith;
        positive = (cents_in_range_bounds d in_range).0;
        bounded = (cents_in_range_bounds d in_range).1;
        covered = ground arith;
        within_limit = ltb_false→le _ _ (
            subst
              (λ (k : ℕ).
                ltb (limit rows.0)
                  (amount_used_today ty k (sgt_day_start_utc q.day_now) l.transactions + amount)
                ≡ false)
              s_id within);
        recorded_amount = ap (λ (u : Transaction). u.amount) signed;
        recorded_type = ap (λ (u : Transaction). u.transaction_type) signed;
        recorded_status = ap (λ (u : Transaction). u.status) signed;
        recorded_sender = ap (λ (u : Transaction). u.sender_id) signed ∙ s_id;
        recorded_recipient = ap (λ (u : Transaction). u.recipient_id) signed;
        booked = ap (λ (i : ℕ). move i rows.1.id amount t l) s_id;
      }
