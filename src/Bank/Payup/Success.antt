-- ===== src/Bank/Payup/Success.antt =====
-- When a request for a PayUp transfer returns.
use sitbank.Base.{◌≡◌, false, some, ◌≢◌, Bool, ◌≤◌, inl, none, arith, inr, ◌⊎◌, String, true, find}
use sitbank.Bank.Types.{User, Cents, Transaction, PendingTransfer, payup, outbound_transfer}
use sitbank.Bank.Store.{Ledger, begin, Session, Db, ok, find_user, ledger_fits}
use sitbank.Bank.Request.{Request, is_blocked}
use sitbank.Bank.Rules.Runs.{
  Gives-bind, Gives, Passes, Passes-bind, or_else-Passes, when-Passes, gets-Passes, modify-Passes,
  pure-Passes,
}
use sitbank.Bank.Payup.{
  execute_payup_transfer, apply_risk, validate_payup_amount, on_payup_pending,
  load_payup_pending_transfer, validate_payup_recipient, has_nickname, is_payup_pending_for,
  can_receive_payup,
}
use sitbank.Bank.Transfer.{
  has_cent_precision, lock_transfer_participants, sign_transaction, move, new_transaction, consume,
  reference_of, cents_in_range,
}
use sitbank.Bank.Risk.{
  block, requires_step_up, PayupRiskDecision, blocks, step_up, allow, evaluate_payup_risk,
}
use sitbank.Bank.Usage.{amount_used_today, sgt_day_start_utc}
use sitbank.Bank.Payup.Outcome.{payup_run}
use sitbank.Bank.Transfer.Runs.{conclude-Gives, ensure_banking_action_allowed-Passes, success_event}

-- What a PayUp transfer sent today, as the locked sender's row names it.
abbrev pub payup_used : Request → User → Ledger → Cents
payup_used q u l = amount_used_today payup u.id (sgt_day_start_utc q.day_now) l.transactions

-- All that a PayUp transfer asks for: an account that is not frozen and has a nickname, an open
-- confirmation of an amount in range, another user with a phone number who can receive, a risk
-- decision that allows the transfer or asks for a code that was given, a balance that covers the
-- amount, and a signature, an audit row and columns that take it.
pub record PayupReady (q : Request) (sender : User) (token : String) (authorized : Bool) (d : Db)
    : Type 0 where
  pub recipient : User
  pub pending : PendingTransfer
  pub amount : Cents
  pub pair : User × User
  pub hash : String
  pub not_blocked : is_blocked sender ≡ false
  pub named : has_nickname sender.payup_nickname ≡ true
  pub confirmed :
      find (is_payup_pending_for (q.payup_token_verifier token) sender.id) d.payup_pending_transfers
      ≡ some pending
  pub not_expired : q.now ≤ pending.expires_at
  pub precise : has_cent_precision pending.amount ≡ true
  pub in_range : cents_in_range pending.amount ≡ some amount
  pub is_user : find_user pending.target_id d.ledger.users ≡ some recipient
  pub is_other : recipient.id ≢ sender.id
  pub receives : can_receive_payup recipient ≡ true
  pub sender_row : find_user sender.id d.ledger.users ≡ some pair.0
  pub recipient_row : find_user recipient.id d.ledger.users ≡ some pair.1
  pub unblocked :
      blocks (evaluate_payup_risk q pair.0 amount (payup_used q pair.0 d.ledger) d.audit) ≡ false
  pub stepped_up :
      (requires_step_up (evaluate_payup_risk q pair.0 amount (payup_used q pair.0 d.ledger) d.audit)
        ≡ false)
      ⊎ (authorized ≡ true)
  pub covered : amount ≤ pair.0.balance
  pub signed :
      q.sign (new_transaction q payup pair.0.id pair.1.id none amount (reference_of pending))
      ≡ some hash
  pub logged : q.audit_ok (success_event q sender) ≡ true
  pub fitting :
      ledger_fits (
        move pair.0.id pair.1.id amount
          (record (new_transaction q payup pair.0.id pair.1.id none amount (reference_of pending)) {
            transaction_hash = hash;
          })
          d.ledger)
      ≡ true

apply_risk-Passes :
    (q : Request) (sender : User) (authorized : Bool) (d : PayupRiskDecision) (t : Session)
    → blocks d ≡ false
    → (requires_step_up d ≡ false) ⊎ (authorized ≡ true)
    → Passes (apply_risk q sender authorized d) t tt t
unfolding apply_risk
apply_risk-Passes q sender authorized (block reason) t h k = cc
apply_risk-Passes q sender authorized (step_up reasons) t h (inl quick) = cc
apply_risk-Passes q sender authorized (step_up reasons) t h (inr given) =
    when-Passes _ (ground (arith, given))
apply_risk-Passes q sender authorized allow t h k = pure-Passes _

module _ (q : Request) (sender : User) (token : String) (authorized : Bool) (s : Session)
    (ready : PayupReady q sender token authorized s.working) where
  abbrev consumed : Session
  consumed = record s { working = on_payup_pending ready.pending.token (consume q.now) s.working }

  pending-Passes : Passes (load_payup_pending_transfer q sender token) s ready.pending consumed
  unfolding load_payup_pending_transfer
  pending-Passes = Passes-bind _ (gets-Passes _) (
      Passes-bind _ (or_else-Passes _ ready.confirmed) (
        Passes-bind _ (when-Passes _ (ground (arith, ready.not_expired)))
          (Passes-bind _ (modify-Passes _) (pure-Passes _))))

  amount-Passes :
      (t : Session) → Passes (validate_payup_amount q sender ready.pending) t ready.amount t
  unfolding validate_payup_amount
  amount-Passes t =
      Passes-bind _ (when-Passes _ (ground (arith, ready.precise)))
        (or_else-Passes _ ready.in_range)

  recipient-Passes :
      Passes
        (validate_payup_recipient q sender ready.pending.target_id)
        consumed
        ready.recipient
        consumed
  unfolding validate_payup_recipient
  recipient-Passes = Passes-bind _ (gets-Passes _) (
      Passes-bind _ (or_else-Passes _ ready.is_user) (
        Passes-bind _ (when-Passes _ (ground (arith, ready.is_other)))
          (Passes-bind _ (when-Passes _ (ground (arith, ready.receives))) (pure-Passes _))))

  lock-Passes :
      Passes (lock_transfer_participants sender.id ready.recipient.id) consumed ready.pair consumed
  unfolding lock_transfer_participants
  lock-Passes = Passes-bind _ (gets-Passes _) (
      Passes-bind _ (or_else-Passes _ ready.sender_row)
        (Passes-bind _ (or_else-Passes _ ready.recipient_row) (pure-Passes _)))

  abbrev unsigned : Transaction
  unsigned =
      new_transaction q payup ready.pair.0.id ready.pair.1.id none ready.amount
        (reference_of ready.pending)

  sign-Passes :
      (t : Session)
      → Passes (sign_transaction q unsigned) t (record unsigned { transaction_hash = ready.hash }) t
  unfolding sign_transaction
  sign-Passes t = Passes-bind _ (or_else-Passes _ ready.signed) (pure-Passes _)

  execute_payup_transfer-Gives :
      Gives (execute_payup_transfer q sender token authorized) s (ok q.new_ref)
  unfolding execute_payup_transfer
  execute_payup_transfer-Gives =
      Gives-bind _
        (ensure_banking_action_allowed-Passes q outbound_transfer sender s ready.not_blocked)
        (Gives-bind _ (when-Passes _ (ground (arith, ready.named))) (
          Gives-bind _ pending-Passes (
            Gives-bind _ (amount-Passes _) (
              Gives-bind _ recipient-Passes (
                Gives-bind _ lock-Passes (
                  Gives-bind _ (gets-Passes _) (
                    Gives-bind _ (gets-Passes _) (
                      Gives-bind _
                        (apply_risk-Passes q sender authorized _ _ ready.unblocked ready.stepped_up)
                        (Gives-bind _ (when-Passes _ (ground (arith, ready.covered))) (
                          Gives-bind _ (sign-Passes _) (
                            Gives-bind _ (modify-Passes _) (
                              Gives-bind _ (modify-Passes _) (
                                conclude-Gives q sender ready.pair.1 _ _ _ _ ready.logged
                                  ready.fitting)))))))))))))

-- A request for a PayUp transfer that has all it asks for returns the reference of the new
-- transaction.
pub execute_payup_transfer-returns :
    (q : Request) (sender : User) (token : String) (authorized : Bool) (d : Db)
    → PayupReady q sender token authorized d
    → (payup_run q sender token authorized d).0 ≡ ok q.new_ref
execute_payup_transfer-returns q sender token authorized d ready =
    (execute_payup_transfer-Gives q sender token authorized (begin d) ready).gives
