-- ===== src/Bank/Payup/Accounting.antt =====
-- A PayUp transfer commits exactly one covered double entry and consumes its confirmation, or
-- commits no change of the ledger.
use sitbank.Base.{
  ◌≡◌, refl, arith, Bool, List, String, none, eq_iff, ℕ, some, false, ◌==◌, find-true, find, true,
  ◌+◌, ◌≤◌, ltb, sym, ◌⊎◌, inl, inr, Bool-cases,
}
use sitbank.Bank.Types.{
  User, PendingTransfer, payup, outbound_transfer, payup_nickname_required,
  confirmation_token_not_found, confirmation_token_expired, insufficient_funds, Cents, AuditEvent,
  StoredDecimal, Transaction,
}
use sitbank.Bank.Store.{Ledger, find_user}
use sitbank.Bank.Request.{Request}
use sitbank.Bank.Rules.{Settles, Settles-bind, Changes, Changes-bind, Settles-bind_change}
use sitbank.Bank.Rules.Steps.{
  when-Keeps, gets-Keeps_any, gets-Keeps, or_else-Keeps, modify-Changes, Settles-of-Concludes,
  modify-Concludes,
}
use sitbank.Bank.Payup.{execute_payup_transfer, is_payup_pending_for, load_payup_pending_transfer}
use sitbank.Bank.Transfer.{
  new_transaction, set_consumed_ref, cents_in_range, update_pending, consume, move, reference_of,
}
use sitbank.Bank.Risk.Policy.{
  Eligible-of-unblocked, IsFresh, within_caps-of-risk, within_limit-of-risk,
}
use sitbank.Bank.Risk.{blocks, requires_step_up, evaluate_payup_risk}
use sitbank.Bank.Request.Keeps.{ensure_banking_action_allowed-Keeps}
use sitbank.Bank.Transfer.Entry.{Transferred, Transferred-intro, find_user-id}
use sitbank.Bank.Transfer.Pending.{IsQuery, find-consumed}
use sitbank.Bank.Usage.{sgt_day_start_utc, amount_used_today}
use sitbank.Bank.Transfer.Keeps.{
  lock_transfer_participants-Keeps, sign_transaction-Keeps, conclude-Concludes,
}
use sitbank.Bank.Payup.Steps.{
  payup_view, payup_view-IsView, reject-Refuses, amount-Keeps, recipient-Keeps, risk-Keeps,
}

is_payup_pending_for-IsQuery :
    (token : String) (user : ℕ) → IsQuery token (is_payup_pending_for token user)
unfolding is_payup_pending_for
is_payup_pending_for-IsQuery token user = record {
  wants_token = λ r h. ground (arith, eq_iff r.token token);
  wants_open = λ r at h. ground arith;
}

-- A PayUp transfer of the ledger `l` to `l'`. Without a code of the second factor, its amount is
-- at most the quick cap, and what was sent since the day began at most the quick daily cap.
pub record PayupTransferred (q : Request) (sender_id : ℕ) (authorized : Bool) (l l' : Ledger)
    : Type 0 where
  pub moved :
      Transferred payup (λ u. u.payup_daily_limit) (sgt_day_start_utc q.day_now) sender_id l l'
  pub quick :
      (authorized ≡ true)
      ⊎ ((moved.amount ≤ q.payup_quick_transfer_cap)
          × (amount_used_today payup sender_id (sgt_day_start_utc q.day_now) l.transactions
                + moved.amount
              ≤ q.payup_quick_daily_cap))
  pub policy :
      (moved.sender.payup_enabled ≡ true)
      × (moved.sender.mfa_enabled ≡ true)
      × (q.session_is_stable ≡ true)
      × IsFresh q.session_age_seconds q.payup_quick_session_max_age_seconds

module _ (q : Request) (l : Ledger) (sender_id recipient_id : ℕ) (pair : User × User)
    (amount used : Cents) (audit : List AuditEvent) where
  PayupTransferred-intro :
      (d : StoredDecimal) (reference : List ℕ) (t : Transaction) (authorized : Bool)
      → (recipient_id == sender_id) ≡ false
      → (find_user sender_id l.users ≡ some pair.0) × (find_user recipient_id l.users ≡ some pair.1)
      → cents_in_range d ≡ some amount
      → ltb pair.0.balance amount ≡ false
      → used ≡ amount_used_today payup pair.0.id (sgt_day_start_utc q.day_now) l.transactions
      → (blocks (evaluate_payup_risk q pair.0 amount used audit) ≡ false)
        × (authorized ≡ false
            → requires_step_up (evaluate_payup_risk q pair.0 amount used audit) ≡ false)
      → t ≡ record (new_transaction q payup pair.0.id pair.1.id none amount reference) {
        transaction_hash = t.transaction_hash;
      }
      → PayupTransferred q sender_id authorized l (move pair.0.id pair.1.id amount t l)
  unfolding Transferred-intro
  PayupTransferred-intro d reference t authorized other locked in_range covered is_used passes
        signed =
      let e = Eligible-of-unblocked q pair.0 amount used audit passes.0 in
      let same : pair.0.id ≡ sender_id = find_user-id sender_id l.users pair.0 locked.0 in
      record {
        moved =
            Transferred-intro q payup (λ u. u.payup_daily_limit) l sender_id recipient_id pair
              amount d none reference t other locked in_range covered
              (rw is_used at (within_limit-of-risk q pair.0 amount used audit passes.0)) signed;
        quick = elim (Bool-cases authorized) [
          | inl given ↦ inl given
          | inr no_code ↦
              let caps =
                within_caps-of-risk q pair.0 amount used audit passes.0 (passes.1 no_code) in
              inr (caps.0, rw (sym same) (rw is_used at (caps.1)))
        ];
        policy = (e.enabled, e.enrolled, e.stable, e.fresh);
      }

module _ (q : Request) (sender : User) (token : String) (l : Ledger)
    (rows : List PendingTransfer) where
  abbrev pub payup_query : PendingTransfer → Bool
  payup_query = is_payup_pending_for (q.payup_token_verifier token) sender.id

  -- The tables after a transfer: the entry is made and the confirmation used up.
  abbrev pub PayupDone : Bool → Ledger × List PendingTransfer → Type 0
  PayupDone authorized x =
      PayupTransferred q sender.id authorized l x.0 × (find payup_query x.1 ≡ none)

  abbrev consumed_view : PendingTransfer → Ledger × List PendingTransfer
  consumed_view p = (l, update_pending p.token (consume q.now) rows)

  pending-Changes :
      {v : Ledger × List PendingTransfer}
      → Changes payup_view
          (λ x. x.0 ≡ l)
          v
          (l, rows)
          consumed_view
          (λ p. find payup_query rows ≡ some p)
          (load_payup_pending_transfer q sender token)
  unfolding load_payup_pending_transfer
  pending-Changes =
      Changes-bind (gets-Keeps _ (λ (x : Ledger × List PendingTransfer). x.1) (λ _. refl))
        λ found_rows e.
          Changes-bind (or_else-Keeps (reject-Refuses q sender 409 confirmation_token_not_found))
            λ p found.
              Changes-bind (when-Keeps (reject-Refuses q sender 409 confirmation_token_expired))
                λ _ _.
                  modify-Changes _ (λ x. (x.0, update_pending p.token (consume q.now) x.1)) p
                    (λ _. refl) (rw e at found) refl

  payup_consumed :
      (p : PendingTransfer)
      → find payup_query rows ≡ some p
      → find payup_query (
          update_pending p.token
            (set_consumed_ref q.new_ref)
            (update_pending p.token (consume q.now) rows))
        ≡ none
  payup_consumed p found =
      let is = is_payup_pending_for-IsQuery (q.payup_token_verifier token) sender.id in
      let same : p.token ≡ q.payup_token_verifier token =
        is.wants_token p (find-true _ rows p found) in
      rw same (find-consumed (q.payup_token_verifier token) q.now q.new_ref _ is rows)

  pub execute_payup_transfer-Settles :
      (authorized : Bool)
      → Settles payup_view
          (λ x. x.0 ≡ l)
          (l, rows)
          (l, rows)
          (PayupDone authorized)
          (execute_payup_transfer q sender token authorized)
  unfolding execute_payup_transfer
  execute_payup_transfer-Settles authorized =
      Settles-bind
        (ensure_banking_action_allowed-Keeps q payup_view-IsView outbound_transfer sender)
        λ _ _.
          Settles-bind (when-Keeps (reject-Refuses q sender 403 payup_nickname_required)) λ _ _.
            Settles-bind_change pending-Changes (λ _ _. refl)
              λ p found. Settles-bind (amount-Keeps q sender p) λ amount in_range.
                Settles-bind (recipient-Keeps q sender p.target_id) λ recipient other.
                  Settles-bind
                    (lock_transfer_participants-Keeps payup_view-IsView sender.id recipient.id)
                    λ pair locked.
                      Settles-bind
                        (gets-Keeps _
                          (λ (x : Ledger × List PendingTransfer).
                            amount_used_today payup pair.0.id (sgt_day_start_utc q.day_now)
                              x.0.transactions)
                          (λ _. refl))
                        λ used is_used. Settles-bind (gets-Keeps_any _) λ audit _.
                          Settles-bind (risk-Keeps q sender authorized _) λ _ passes.
                            Settles-bind
                              (when-Keeps (reject-Refuses q sender 400 insufficient_funds))
                              λ _ covered. Settles-bind (sign_transaction-Keeps q _) λ t signed.
                                Settles-of-Concludes (
                                  modify-Concludes _
                                    (λ x. (move pair.0.id pair.1.id amount t x.0, x.1)) (λ _. refl)
                                    (modify-Concludes _
                                      (λ x. (
                                        x.0,
                                        update_pending p.token (set_consumed_ref q.new_ref) x.1,
                                      ))
                                      (λ _. refl)
                                      (conclude-Concludes q payup_view-IsView _ _ _
                                        (PayupDone authorized) sender pair.1 used amount
                                        pair.0.payup_daily_limit
                                        (
                                          PayupTransferred-intro q l sender.id recipient.id pair
                                              amount used audit p.amount (reference_of p) t
                                              authorized other locked in_range covered is_used
                                              passes signed,
                                          payup_consumed p found,
                                        ))))

  -- Without an open confirmation a transfer always fails, and commits no change of the ledger.
  pub execute_payup_transfer-none :
      (authorized : Bool)
      → find payup_query rows ≡ none
      → Settles payup_view
          (λ x. x.0 ≡ l)
          (l, rows)
          (l, rows)
          (λ _. ⊥)
          (execute_payup_transfer q sender token authorized)
  unfolding execute_payup_transfer
  execute_payup_transfer-none authorized closed =
      Settles-bind
        (ensure_banking_action_allowed-Keeps q payup_view-IsView outbound_transfer sender)
        λ _ _.
          Settles-bind (when-Keeps (reject-Refuses q sender 403 payup_nickname_required))
            λ _ _. Settles-bind_change pending-Changes (λ _ _. refl) λ p found. cc
