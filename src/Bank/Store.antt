-- ===== src/Bank/Store.antt =====
-- The tables behind the banking services, and the unit of work of one request: what is committed,
-- and what the request's open transaction sees (app/extensions.py's `db.session`).
use sitbank.Base.{
  ℕ, ◌+◌, ◌-◌, String, Bool, true, false, not, ◌&&◌, Option, none, some, List, [], ◌∷◌, ltb, ◌==◌,
  str_eq, if◌then◌else◌, find, update_where, all,
}
use sitbank.Auth.Rows.{AttemptRow, TotpReplayRecord, ServerSideSession, RecoveryCode}
use sitbank.Bank.Types.{
  User, Payee, PendingTransfer, Transaction, TopUpCredit, TopUpApprovalRequest, AuditEvent, Error,
  integrity_error, Cents, PublicTransactionIdempotency, PersonIdentityLink,
}

-- The tables that hold money.
pub record Ledger : Type 0 where
  pub users : List User
  pub transactions : List Transaction
  pub topup_credits : List TopUpCredit

pub record Db : Type 0 where
  pub ledger : Ledger
  pub payees : List Payee
  pub pending_transfers : List PendingTransfer
  pub payup_pending_transfers : List PendingTransfer
  pub topup_requests : List TopUpApprovalRequest
  pub reservations : List PublicTransactionIdempotency
  pub attempts : List AttemptRow
  pub totp_replays : List TotpReplayRecord
  pub sessions : List ServerSideSession
  pub recovery_codes : List RecoveryCode
  pub identity_links : List PersonIdentityLink
  pub audit : List AuditEvent

pub record Session : Type 0 where
  pub committed : Db
  pub working : Db

abbrev pub begin : Db → Session
begin d = record { committed = d; working = d }

pub data Result {ℓ} (A : Type ℓ) : Type ℓ where
  ok : A → Result A
  err : Error → Result A

-- A service call: an exception leaves what was written in the open transaction.
abbrev pub Action : Type 0 → Type 0
Action A = Session → Result A × Session

unfoldable pub pure : {A : Type 0} → A → Action A
pure a s = (ok a, s)

unfoldable pub raise : {A : Type 0} → Error → Action A
raise e s = (err e, s)

-- What follows a call that ended so.
abbrev pub resume : {A B : Type 0} → (A → Action B) → Result A → Session → Result B × Session
resume f (ok a) s = f a s
resume f (err e) s = (err e, s)

infixl 5 ◌>>=◌ ◌>>◌
unfoldable pub ◌>>=◌ : {A B : Type 0} → Action A → (A → Action B) → Action B
◌>>=◌ m f s = resume f (m s).0 (m s).1

abbrev pub ◌>>◌ : {A B : Type 0} → Action A → Action B → Action B
m >> k = m >>= λ _. k

unfoldable pub when : Bool → Action (Unit {0}) → Action (Unit {0})
when true m s = m s
when false m s = (ok tt, s)

unfoldable pub gets : {A : Type 0} → (Db → A) → Action A
gets f s = (ok (f s.working), s)

unfoldable pub modify : (Db → Db) → Action (Unit {0})
modify f s = (ok tt, record s { working = f s.working })

-- `or_raise` of an optional row.
unfoldable pub or_else : {A : Type 0} → Option A → Action A → Action A
or_else none m s = m s
or_else (some a) m s = (ok a, s)

-- What a flush checks: `User.balance` is `Numeric(12, 2)`, `Transaction.amount` positive and
-- `Transaction.transaction_ref` unique.
abbrev pub balance_bound : Cents
balance_bound = 1_000_000_000_000

unfoldable pub balance_fits : User → Bool
balance_fits u = ltb u.balance balance_bound

fresh_ref : String → List Transaction → Bool
fresh_ref r [] = true
fresh_ref r (t ∷ ts) = not (str_eq t.transaction_ref r) && fresh_ref r ts

transactions_fit : List Transaction → Bool
transactions_fit [] = true
transactions_fit (t ∷ ts) = ltb 0 t.amount && fresh_ref t.transaction_ref ts && transactions_fit ts

unfoldable pub ledger_fits : Ledger → Bool
unfolding balance_fits fresh_ref transactions_fit
ledger_fits l = all balance_fits l.users && transactions_fit l.transactions

abbrev pub fits : Db → Bool
fits d = ledger_fits d.ledger

unfoldable pub rollback : Action (Unit {0})
rollback s = (ok tt, begin s.committed)

-- `db.session.commit()`; a failing flush rolls the transaction back and raises.
unfoldable pub commit : Action (Unit {0})
commit s =
    if fits s.working then (ok tt, begin s.working) else (err integrity_error, begin s.committed)

-- A flush of what is pending; a failing one rolls the transaction back and raises.
unfoldable pub flush : Action (Unit {0})
flush s = if fits s.working then (ok tt, s) else (err integrity_error, begin s.committed)

-- `try: m except …: handler`
abbrev pub recover : {A : Type 0} → (Error → Action A) → Result A → Session → Result A × Session
recover handler (ok a) s = (ok a, s)
recover handler (err e) s = handler e s

unfoldable pub catch : {A : Type 0} → Action A → (Error → Action A) → Action A
catch m handler s = recover handler (m s).0 (m s).1

abbrev pub add_audit : AuditEvent → Db → Db
add_audit e d = record d { audit = e ∷ d.audit }

abbrev pub find_user : ℕ → List User → Option User
find_user i = find (λ u. u.id == i)

abbrev pub add_balance : Cents → User → User
add_balance amount u = record u { balance = u.balance + amount }

-- `-` on ℕ stops at 0: every debit stands behind a test that the balance covers it.
abbrev pub sub_balance : Cents → User → User
sub_balance amount u = record u { balance = u.balance - amount }

abbrev pub update_user : ℕ → (User → User) → List User → List User
update_user i f = update_where (λ u. u.id == i) f

abbrev pub set_ledger : (Ledger → Ledger) → Db → Db
set_ledger f d = record d { ledger = f d.ledger }

-- The ways to compose calls; a proof that runs one names `calls` alone.
unfoldable pub calls : Unit {0}
unfolding pure raise ◌>>=◌ when gets modify or_else catch
calls = tt
