-- ===== src/Bank/Local/Success.antt =====
-- When a request for a local transfer returns.
use sitbank.Base.{◌≡◌, String, arith, some, ◌*◌, true, ◌≤◌, ◌+◌, ◌≢◌, false, find, refl}
use sitbank.Bank.Types.{
  User, Payee, PendingTransfer, Transaction, Cents, local_transfer, outbound_transfer,
}
use sitbank.Bank.Request.{Request, is_blocked}
use sitbank.Bank.Store.{Session, Db, Ledger, ok, begin, find_user, ledger_fits}
use sitbank.Bank.Local.{
  load_pending_local_transfer, local_transfer_amount, ensure_local_transfer_balance,
  execute_local_transfer, ensure_payee_cooldown_elapsed, ensure_local_transfer_daily_limit,
  local_transfer_recipient, has_number, can_receive, is_pending_for,
}
use sitbank.Bank.Transfer.{
  sign_transaction, move, cents_in_range, has_cent_precision, lock_transfer_participants,
  new_transaction, reference_of,
}
use sitbank.Bank.Usage.{sgt_day_start_utc, amount_used_today}
use sitbank.Bank.Local.Outcome.{local_run}
use sitbank.Bank.Rules.Runs.{
  Gives, Passes, Gives-bind, Passes-bind, when-Passes, gets-Passes, or_else-Passes, pure-Passes,
  modify-Passes,
}
use sitbank.Bank.Transfer.Runs.{ensure_banking_action_allowed-Passes, conclude-Gives, success_event}

-- All that a local transfer asks for: an account that is not frozen, a payee of the sender past
-- its cooldown, whose account can receive, an open confirmation of an amount in range, a
-- balance and a daily limit that cover it, and a signature, an audit row and columns that take it.
pub record LocalReady (q : Request) (sender : User) (payee : Payee) (token : String) (d : Db)
    : Type 0 where
  pub recipient : User
  pub pending : PendingTransfer
  pub amount : Cents
  pub pair : User × User
  pub hash : String
  pub not_blocked : is_blocked sender ≡ false
  pub owns_payee : payee.user_id ≡ sender.id
  pub has_account : find (has_number payee.account_number) d.ledger.users ≡ some recipient
  pub is_other : recipient.id ≢ sender.id
  pub open_account : can_receive recipient.account_status ≡ true
  pub cooled : payee.created_at + q.payee_cooldown_seconds * 1_000_000 ≤ q.now
  pub confirmed :
      find (is_pending_for (q.local_token_verifier token) sender.id payee.id) d.pending_transfers
      ≡ some pending
  pub not_expired : q.now ≤ pending.expires_at
  pub precise : has_cent_precision pending.amount ≡ true
  pub in_range : cents_in_range pending.amount ≡ some amount
  pub sender_row : find_user sender.id d.ledger.users ≡ some pair.0
  pub recipient_row : find_user recipient.id d.ledger.users ≡ some pair.1
  pub covered : amount ≤ pair.0.balance
  pub within_limit :
      amount_used_today local_transfer pair.0.id (sgt_day_start_utc q.day_now) d.ledger.transactions
        + amount
      ≤ pair.0.local_transfer_daily_limit
  pub signed :
      q.sign (
        new_transaction q local_transfer pair.0.id pair.1.id
          (some payee.id)
          amount
          (reference_of pending))
      ≡ some hash
  pub logged : q.audit_ok (success_event q sender) ≡ true
  pub fitting :
      ledger_fits (
        move pair.0.id pair.1.id amount
          (record (new_transaction q local_transfer pair.0.id pair.1.id
            (some payee.id)
            amount
            (reference_of pending)) { transaction_hash = hash })
          d.ledger)
      ≡ true

module _ (q : Request) (sender : User) (payee : Payee) (token : String) (s : Session)
    (ready : LocalReady q sender payee token s.working) where
  recipient-Passes : Passes (local_transfer_recipient q sender payee) s ready.recipient s
  unfolding local_transfer_recipient
  recipient-Passes = Passes-bind _ (when-Passes _ (ground (arith, ready.owns_payee))) (
      Passes-bind _ (gets-Passes _) (
        Passes-bind _ (or_else-Passes _ ready.has_account) (
          Passes-bind _ (when-Passes _ (ground (arith, ready.is_other)))
            (Passes-bind _ (when-Passes _ (ground (arith, ready.open_account))) (pure-Passes _)))))

  pending-Passes : Passes (load_pending_local_transfer q sender payee token) s ready.pending s
  unfolding load_pending_local_transfer
  pending-Passes = Passes-bind _ (gets-Passes _) (
      Passes-bind _ (or_else-Passes _ ready.confirmed)
        (Passes-bind _ (when-Passes _ (ground (arith, ready.not_expired))) (pure-Passes _)))

  cooldown-Passes : Passes (ensure_payee_cooldown_elapsed q sender payee) s tt s
  unfolding ensure_payee_cooldown_elapsed
  cooldown-Passes = when-Passes _ (ground (arith, ready.cooled))

  abbrev unsigned : Transaction
  unsigned =
      new_transaction q local_transfer ready.pair.0.id ready.pair.1.id (some payee.id) ready.amount
        (reference_of ready.pending)

  amount-Passes :
      (t : Session) → Passes (local_transfer_amount q sender ready.pending) t ready.amount t
  unfolding local_transfer_amount
  amount-Passes t =
      Passes-bind _ (when-Passes _ (ground (arith, ready.precise)))
        (or_else-Passes _ ready.in_range)

  lock-Passes :
      (t : Session)
      → t.working.ledger ≡ s.working.ledger
      → Passes (lock_transfer_participants sender.id ready.recipient.id) t ready.pair t
  unfolding lock_transfer_participants
  lock-Passes t same = Passes-bind _ (gets-Passes _) (
      Passes-bind _ (or_else-Passes _ (rw same ready.sender_row))
        (Passes-bind _ (or_else-Passes _ (rw same ready.recipient_row)) (pure-Passes _)))

  balance-Passes :
      (t : Session)
      → Passes (ensure_local_transfer_balance q sender ready.pair.0 ready.amount) t tt t
  unfolding ensure_local_transfer_balance
  balance-Passes t = when-Passes _ (ground (arith, ready.covered))

  abbrev used : Ledger → Cents
  used l =
      amount_used_today local_transfer ready.pair.0.id (sgt_day_start_utc q.day_now) l.transactions

  limit-Passes :
      (t : Session)
      → t.working.ledger ≡ s.working.ledger
      → Passes
          (ensure_local_transfer_daily_limit q sender ready.pair.0 ready.amount)
          t
          (used t.working.ledger)
          t
  unfolding ensure_local_transfer_daily_limit
  limit-Passes t same =
      Passes-bind _ (gets-Passes _) (
        Passes-bind _ (when-Passes _ (rw same (ground (arith, ready.within_limit))))
          (pure-Passes _))

  sign-Passes :
      (t : Session)
      → Passes (sign_transaction q unsigned) t (record unsigned { transaction_hash = ready.hash }) t
  unfolding sign_transaction
  sign-Passes t = Passes-bind _ (or_else-Passes _ ready.signed) (pure-Passes _)

  execute_local_transfer-Gives :
      Gives (execute_local_transfer q sender payee token) s (ok q.new_ref)
  unfolding execute_local_transfer
  execute_local_transfer-Gives =
      Gives-bind _
        (ensure_banking_action_allowed-Passes q outbound_transfer sender s ready.not_blocked)
        (Gives-bind _ recipient-Passes (
          Gives-bind _ cooldown-Passes (
            Gives-bind _ pending-Passes (
              Gives-bind _ (modify-Passes _) (
                Gives-bind _ (amount-Passes _) (
                  Gives-bind _ (lock-Passes _ refl) (
                    Gives-bind _ (balance-Passes _) (
                      Gives-bind _ (limit-Passes _ refl) (
                        Gives-bind _ (sign-Passes _) (
                          Gives-bind _ (modify-Passes _) (
                            Gives-bind _ (modify-Passes _) (
                              conclude-Gives q sender ready.pair.1 _ _ _ _ ready.logged
                                ready.fitting))))))))))))

-- A request for a local transfer that has all it asks for returns the reference of the new
-- transaction.
pub execute_local_transfer-returns :
    (q : Request) (sender : User) (payee : Payee) (token : String) (d : Db)
    → LocalReady q sender payee token d
    → (local_run q sender payee token d).0 ≡ ok q.new_ref
execute_local_transfer-returns q sender payee token d ready =
    (execute_local_transfer-Gives q sender payee token (begin d) ready).gives
