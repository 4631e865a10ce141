-- ===== src/Bank/Transfer.antt =====
-- What the two kinds of transfer share in app/banking/services.py: the amount of a pending
-- transfer, the locked rows, the double entry, its signature and audit, and the last steps.
pub mod Keeps
pub mod Pending
pub mod Entry
pub mod Runs
pub mod Conservation
use sitbank.Base.{
  ℕ, ◌+◌, ◌/◌, ◌%◌, String, Bool, false, ◌||◌, Option, str_eq, none, List, some, ltb, take, ◌==◌,
  update_where, ◌∷◌, if◌then◌else◌,
}
use sitbank.Bank.Types.{
  Instant, Cents, User, StoredDecimal, nan, units, PendingTransfer, Error, Transaction,
  TransactionType, completed, success, no_such_row, signing_error, audit_write_error,
}
use sitbank.Bank.Request.{
  Request, audit_outbound_transfer, safe_send_notification, send_transfer_notification,
  maybe_send_daily_limit_warning,
}
use sitbank.Bank.Store.{
  Action, catch, ◌>>=◌, Ledger, ◌>>◌, update_user, rollback, gets, commit, or_else, add_balance,
  raise, find_user, sub_balance, pure,
}
use sitbank.Base.Int.{negsuc, pos}

-- `MIN_TRANSACTION_AMOUNT` and `MAX_TRANSACTION_AMOUNT` (app/banking/schemas.py).
abbrev pub min_transaction_amount : Cents
min_transaction_amount = 1

abbrev pub max_transaction_amount : Cents
max_transaction_amount = 5_000_000

-- An amount after `normalize()`: is it finite with at most two decimals, and its whole cents.
unfoldable pub has_cent_precision : StoredDecimal → Bool
has_cent_precision nan = false
has_cent_precision (units (pos n)) = n % 1000 == 0
has_cent_precision (units (negsuc n)) = (n + 1) % 1000 == 0

-- `quantize(Decimal("0.01"))` and the range test; none is out of range.
unfoldable pub cents_in_range : StoredDecimal → Option Cents
cents_in_range nan = none
cents_in_range (units (negsuc n)) = none
cents_in_range (units (pos n)) =
    let c = n / 1000 in
    if ltb c min_transaction_amount || ltb max_transaction_amount c then none else some c

-- `(pending.reference or "")[:128]`
abbrev pub reference_of : PendingTransfer → List ℕ
reference_of p = take 128 p.reference

-- A write to the loaded pending transfer, found by its unique token.
abbrev pub update_pending :
    String → (PendingTransfer → PendingTransfer) → List PendingTransfer → List PendingTransfer
update_pending token f = update_where (λ p. str_eq p.token token) f

unfoldable pub consume : Instant → PendingTransfer → PendingTransfer
consume now p = record p { consumed_at = some now }

unfoldable pub set_consumed_ref : String → PendingTransfer → PendingTransfer
set_consumed_ref ref p = record p { consumed_transaction_ref = some ref }

-- `_lock_transfer_participants`: both rows, or the `KeyError` of the dictionary. A row lock
-- changes no table, so what is left of the locking is the read.
unfoldable pub lock_transfer_participants : ℕ → ℕ → Action (User × User)
lock_transfer_participants sender recipient = do
  users ← gets (λ d. d.ledger.users)
  s ← or_else (find_user sender users) (raise no_such_row)
  r ← or_else (find_user recipient users) (raise no_such_row)
  pure (s, r)

-- The debit, the credit and the new row of the transactions table.
unfoldable pub move : ℕ → ℕ → Cents → Transaction → Ledger → Ledger
move sender recipient amount t l = record l {
  users =
      update_user recipient (add_balance amount) (update_user sender (sub_balance amount) l.users);
  transactions = t ∷ l.transactions;
}

-- `except AuditWriteError: db.session.rollback(); raise`; other errors pass through.
unfoldable pub on_audit_error : {A : Type 0} → Error → Action A
on_audit_error audit_write_error = do rollback; raise audit_write_error
on_audit_error e = raise e

module _ (q : Request) where
  -- The row that a transfer inserts, before and after it is signed.
  unfoldable pub new_transaction : TransactionType → ℕ → ℕ → Option ℕ → Cents → List ℕ → Transaction
  new_transaction ty sender recipient payee amount reference = record {
    transaction_ref = q.new_ref;
    transaction_hash = "";
    sender_id = sender;
    recipient_id = recipient;
    payee_id = payee;
    amount = amount;
    reference = reference;
    status = completed;
    transaction_type = ty;
    created_at = q.txn_created_at;
  }

  -- `sign_transaction_integrity`, which raises on a misconfigured keyring.
  unfoldable pub sign_transaction : Transaction → Action Transaction
  sign_transaction t = do
    hash ← or_else (q.sign t) (raise signing_error)
    pure (record t { transaction_hash = hash })

  -- `_audit_local_transfer_success`; only `AuditWriteError` is caught.
  unfoldable pub audit_transfer_success : User → Action (Unit {0})
  audit_transfer_success sender =
      catch (audit_outbound_transfer q sender success none) on_audit_error

  -- The commit, the two notifications and the warning, after which the reference is returned.
  unfoldable pub finish_transfer : User → User → Cents → Cents → Cents → Action String
  finish_transfer sender locked_recipient used amount limit = do
    commit
    safe_send_notification (send_transfer_notification q sender)
    safe_send_notification (send_transfer_notification q locked_recipient)
    safe_send_notification (maybe_send_daily_limit_warning q sender used amount limit)
    pure q.new_ref
