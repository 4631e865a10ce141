-- ===== src/Bank/Money.antt =====
-- What a ledger says of money, without the flags of its users.
use sitbank.Base.{
  ◌≡◌, refl, ℕ, List, [], ◌∷◌, ◌+◌, ap, arith, none, ◌∙◌, sym, subst, Bool, false, ◌||◌, ◌==◌,
}
use sitbank.Bank.Types.{User, Transaction, TopUpCredit, Cents}
use sitbank.Bank.Store.{Ledger, find_user}
use sitbank.Bank.Transfer.Conservation.{total, UniqueIds}

-- The ids and balances of the users.
abbrev pub accounts : List User → List (ℕ × Cents)
accounts [] = []
accounts (u ∷ us) = (u.id, u.balance) ∷ accounts us

pub record Money : Type 0 where
  pub balances : List (ℕ × Cents)
  pub transactions : List Transaction
  pub topup_credits : List TopUpCredit

abbrev pub money : Ledger → Money
money l = record {
  balances = accounts l.users;
  transactions = l.transactions;
  topup_credits = l.topup_credits;
}

total_of : List (ℕ × Cents) → ℕ
total_of [] = 0
total_of (a ∷ rest) = a.1 + total_of rest

total-accounts : (us : List User) → total us ≡ total_of (accounts us)
unfolding total_of
total-accounts [] = refl
total-accounts (u ∷ us) = ap (λ (n : ℕ). u.balance + n) (total-accounts us)

pub total-accounts_eq : (us vs : List User) → accounts us ≡ accounts vs → total us ≡ total vs
total-accounts_eq us vs h = total-accounts us ∙ ap total_of h ∙ sym (total-accounts vs)

has_id : ℕ → List (ℕ × Cents) → Bool
has_id i [] = false
has_id i (a ∷ rest) = (a.0 == i) || has_id i rest

-- As `UniqueIds`, of ids and balances.
DistinctIds : List (ℕ × Cents) → Type 0
DistinctIds [] = Unit
DistinctIds (a ∷ rest) = (has_id a.0 rest ≡ false) × DistinctIds rest

has_id-find : (i : ℕ) (us : List User) → find_user i us ≡ none → has_id i (accounts us) ≡ false
unfolding has_id
has_id-find i [] h = refl
has_id-find i (u ∷ us) h = ground (arith, has_id-find i us)

find-has_id : (i : ℕ) (us : List User) → has_id i (accounts us) ≡ false → find_user i us ≡ none
unfolding has_id
find-has_id i [] h = refl
find-has_id i (u ∷ us) h = ground (arith, find-has_id i us)

distinct : (us : List User) → UniqueIds us → DistinctIds (accounts us)
unfolding DistinctIds
distinct [] h = tt
distinct (u ∷ us) h = (has_id-find u.id us h.0, distinct us h.1)

unique : (us : List User) → DistinctIds (accounts us) → UniqueIds us
unfolding DistinctIds
unique [] h = tt
unique (u ∷ us) h = (find-has_id u.id us h.0, unique us h.1)

pub UniqueIds-accounts :
    (us vs : List User) → accounts us ≡ accounts vs → UniqueIds us → UniqueIds vs
UniqueIds-accounts us vs h unique_us = unique vs (subst DistinctIds h (distinct us unique_us))
