-- ===== src/Bank/Payup/Outcome.antt =====
-- What a request for a PayUp transfer leaves in the committed tables, run from committed tables.
use sitbank.Base.{◌≡◌, refl, String, Bool}
use sitbank.Bank.Types.{User, payup}
use sitbank.Bank.Store.{begin, Db, Result, ok, Session}
use sitbank.Bank.Request.{Request}
use sitbank.Bank.Rules.{Settled, Failed}
use sitbank.Bank.Rules.Steps.{Settled-ok, Failed-of-Settled}
use sitbank.Bank.Payup.{execute_payup_transfer}
use sitbank.Bank.Payup.Accounting.{
  PayupDone, execute_payup_transfer-Settles, execute_payup_transfer-none,
}
use sitbank.Bank.Payup.Steps.{payup_view, payup_view-IsView}
use sitbank.Bank.Transfer.Conservation.{total, UniqueIds, Settled-total}
use sitbank.Bank.Usage.{sgt_day_start_utc}

abbrev pub payup_run : Request → User → String → Bool → Db → Result String × Session
payup_run q sender token authorized d = execute_payup_transfer q sender token authorized (begin d)

-- When a request for a PayUp transfer returns, the committed ledger is the old one with one double
-- entry that the sender's balance covers, that stays within the sender's PayUp limit of the day and
-- that the new row records; the sender has PayUp and a second factor enabled, in a stable session
-- that is young enough; without a code, amount and day's sum are within the quick caps; and the
-- query for the confirmation finds no open row any more; no change of the ledger or of the
-- confirmations is left open. When it raises, the committed ledger is the old one.
pub execute_payup_transfer-Settled :
    (q : Request) (sender : User) (token : String) (authorized : Bool) (d : Db)
    → Settled payup_view
        (λ x. x.0 ≡ d.ledger)
        (PayupDone q sender token d.ledger d.payup_pending_transfers authorized)
        (payup_run q sender token authorized d).0
        (payup_run q sender token authorized d).1
execute_payup_transfer-Settled q sender token authorized d =
    (execute_payup_transfer-Settles q sender token d.ledger d.payup_pending_transfers
        authorized).settle
      refl refl (begin d) (refl, refl)

-- With unique user ids, a request for a PayUp transfer leaves the sum of all committed balances
-- as it was, and the ids unique, whether it returns or raises.
pub execute_payup_transfer-total :
    (q : Request) (sender : User) (token : String) (authorized : Bool) (d : Db)
    → UniqueIds d.ledger.users
    → (total (payup_run q sender token authorized d).1.committed.ledger.users
        ≡ total d.ledger.users)
      × UniqueIds (payup_run q sender token authorized d).1.committed.ledger.users
execute_payup_transfer-total q sender token authorized d unique =
    Settled-total payup_view-IsView payup (λ u. u.payup_daily_limit) (sgt_day_start_utc q.day_now)
      sender.id d.ledger (PayupDone q sender token d.ledger d.payup_pending_transfers authorized)
      (λ _ h. h.0.moved) (payup_run q sender token authorized d).0
      (payup_run q sender token authorized d).1 unique
      (execute_payup_transfer-Settled q sender token authorized d)

-- A second request with the same PayUp confirmation, for the same sender and with the same
-- token key, raises and leaves the committed ledger as the first one made it.
pub execute_payup_transfer-once :
    (q q2 : Request) (sender sender2 : User) (token ref : String) (authorized authorized2 : Bool)
    (d : Db)
    → q2.payup_token_verifier token ≡ q.payup_token_verifier token
    → sender2.id ≡ sender.id
    → (payup_run q sender token authorized d).0 ≡ ok ref
    → let d2 = (payup_run q sender token authorized d).1.committed in
      Failed payup_view
        (λ x. x.0 ≡ d2.ledger)
        (payup_run q2 sender2 token authorized2 d2).0
        (payup_run q2 sender2 token authorized2 d2).1
execute_payup_transfer-once q q2 sender sender2 token ref authorized authorized2 d same_key
      same_sender first =
    let d2 = (payup_run q sender token authorized d).1.committed in
    let closed =
      (Settled-ok payup_view (λ x. x.0 ≡ d.ledger)
        (PayupDone q sender token d.ledger d.payup_pending_transfers authorized)
        (payup_run q sender token authorized d).0 (payup_run q sender token authorized d).1 ref
        first (execute_payup_transfer-Settled q sender token authorized d)).1 in
    Failed-of-Settled payup_view (λ x. x.0 ≡ d2.ledger) (λ _. ⊥)
      (payup_run q2 sender2 token authorized2 d2).0 (payup_run q2 sender2 token authorized2 d2).1
      ((execute_payup_transfer-none q2 sender2 token d2.ledger d2.payup_pending_transfers
          authorized2 (rw same_key (rw same_sender closed))).settle
        refl refl (begin d2) (refl, refl))
