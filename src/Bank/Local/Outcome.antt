-- ===== src/Bank/Local/Outcome.antt =====
-- What a request for a local transfer leaves in the committed tables, run from committed tables.
use sitbank.Base.{◌≡◌, refl, String}
use sitbank.Bank.Types.{User, Payee, local_transfer}
use sitbank.Bank.Store.{begin, Db, ok, Result, Session}
use sitbank.Bank.Request.{Request}
use sitbank.Bank.Local.{execute_local_transfer}
use sitbank.Bank.Local.Accounting.{
  Done, local_view-IsView, local_view, execute_local_transfer-Settles, execute_local_transfer-none,
}
use sitbank.Bank.Transfer.Conservation.{total, UniqueIds, Settled-total}
use sitbank.Bank.Rules.{Settled, Failed}
use sitbank.Bank.Rules.Steps.{Settled-ok, Failed-of-Settled}
use sitbank.Bank.Usage.{sgt_day_start_utc}

abbrev pub local_run : Request → User → Payee → String → Db → Result String × Session
local_run q sender payee token d = execute_local_transfer q sender payee token (begin d)

-- When a request for a local transfer returns, the committed ledger is the old one with one double
-- entry: an amount between one cent and 50,000 dollars that the sender's balance covers, that stays
-- within the sender's daily limit with what was sent since the day began, and that the new row of
-- the transactions records; and the query for the confirmation finds no open row any more; no
-- change of the ledger or of the confirmations is left open. When it raises, whatever the cause,
-- the committed ledger is the old one.
pub execute_local_transfer-Settled :
    (q : Request) (sender : User) (payee : Payee) (token : String) (d : Db)
    → Settled local_view
        (λ x. x.0 ≡ d.ledger)
        (Done q sender payee token d.ledger d.pending_transfers)
        (local_run q sender payee token d).0
        (local_run q sender payee token d).1
execute_local_transfer-Settled q sender payee token d =
    (execute_local_transfer-Settles q sender payee token d.ledger d.pending_transfers).settle refl
      refl (begin d) (refl, refl)

-- With unique user ids, a request for a local transfer leaves the sum of all committed balances
-- as it was, and the ids unique, whether it returns or raises.
pub execute_local_transfer-total :
    (q : Request) (sender : User) (payee : Payee) (token : String) (d : Db)
    → UniqueIds d.ledger.users
    → (total (local_run q sender payee token d).1.committed.ledger.users ≡ total d.ledger.users)
      × UniqueIds (local_run q sender payee token d).1.committed.ledger.users
execute_local_transfer-total q sender payee token d unique =
    Settled-total local_view-IsView local_transfer (λ u. u.local_transfer_daily_limit)
      (sgt_day_start_utc q.day_now) sender.id d.ledger
      (Done q sender payee token d.ledger d.pending_transfers) (λ _ h. h.0)
      (local_run q sender payee token d).0 (local_run q sender payee token d).1 unique
      (execute_local_transfer-Settled q sender payee token d)

-- A second request with the same confirmation, for the same sender and payee and with the same
-- token key, raises and leaves the committed ledger as the first one made it.
pub execute_local_transfer-once :
    (q q2 : Request) (sender sender2 : User) (payee payee2 : Payee) (token ref : String) (d : Db)
    → q2.local_token_verifier token ≡ q.local_token_verifier token
    → sender2.id ≡ sender.id
    → payee2.id ≡ payee.id
    → (local_run q sender payee token d).0 ≡ ok ref
    → let d2 = (local_run q sender payee token d).1.committed in
      Failed local_view
        (λ x. x.0 ≡ d2.ledger)
        (local_run q2 sender2 payee2 token d2).0
        (local_run q2 sender2 payee2 token d2).1
execute_local_transfer-once q q2 sender sender2 payee payee2 token ref d same_key same_sender
      same_payee first =
    let d2 = (local_run q sender payee token d).1.committed in
    let closed =
      (Settled-ok local_view (λ x. x.0 ≡ d.ledger)
        (Done q sender payee token d.ledger d.pending_transfers)
        (local_run q sender payee token d).0 (local_run q sender payee token d).1 ref first
        (execute_local_transfer-Settled q sender payee token d)).1 in
    Failed-of-Settled local_view (λ x. x.0 ≡ d2.ledger) (λ _. ⊥)
      (local_run q2 sender2 payee2 token d2).0 (local_run q2 sender2 payee2 token d2).1
      ((execute_local_transfer-none q2 sender2 payee2 token d2.ledger d2.pending_transfers
          (rw same_key (rw same_sender (rw same_payee closed)))).settle
        refl refl (begin d2) (refl, refl))
