-- ===== src/Bank/Tests/TopUps.antt =====
-- Runs of top-ups, and of a sequence of requests.
use sitbank.Bank.Money.{money}
use sitbank.Base.{◌≡◌, refl, ◌⊎◌, arith, true, ◌∷◌, [], codes_eq}
use sitbank.Bank.Tests.{bank, steps, request, bank-UniqueIds, ann, ben_payee}
use sitbank.Bank.Local.Outcome.{local_run}
use sitbank.Bank.Transfer.Conservation.{total}
use sitbank.Bank.History.{here, ◌⟶*◌, after, local_transfer_request, topup_approval}
use sitbank.Bank.History.Books.{history-Books, Books}
use sitbank.Bank.TopUp.Outcome.{
  topup_run, topup_approve_submit-once, GrownBy, topup_approve_submit-Settled,
  topup_approve_submit-total,
}
use sitbank.Bank.Rules.{Settled, Failed}
use sitbank.Bank.Rules.Steps.{pure-Keeps}
use sitbank.Bank.Store.{Db, pure, begin, ok}
use sitbank.Bank.TopUp.{
  SecondFactor, topup_view, token_parts, generate_topup_token, approve_token, topup_approve_submit,
  load_topup_request, new_request, is_pending, has_selector, topup_owner_is_eligible,
  complete_topup, credit_account_topup, new_credit, book_topup, on_topup_request, complete,
  has_token_shape,
}
use sitbank.Bank.TopUp.Accounting.{ToppedUp}
use sitbank.Bank.TopUp.Steps.{Approvable}
use sitbank.Bank.TopUp.Token.{generate_topup_token-Approvable}

-- A second factor that takes every code.
abbrev accepting : SecondFactor
accepting = record { verify_totp = λ u. pure true; verify_keeps = λ u m v. pure-Keeps true tt }

topup_returns : (topup_run request accepting (97 ∷ 98 ∷ []) (99 ∷ []) true bank).0 ≡ ok tt
unfolding steps topup_approve_submit load_topup_request is_pending has_selector
    topup_owner_is_eligible complete_topup credit_account_topup new_credit book_topup
    on_topup_request complete codes_eq
topup_returns = refl

topup_approve_submit-Settled_example :
    Settled topup_view
      (λ x. money x.0 ≡ money bank.ledger)
      (ToppedUp request (97 ∷ 98 ∷ []) (99 ∷ []) bank.ledger bank.topup_requests)
      (topup_run request accepting (97 ∷ 98 ∷ []) (99 ∷ []) true bank).0
      (topup_run request accepting (97 ∷ 98 ∷ []) (99 ∷ []) true bank).1
topup_approve_submit-Settled_example =
    topup_approve_submit-Settled request accepting (97 ∷ 98 ∷ []) (99 ∷ []) true bank

topup_approve_submit-once_example :
    let d2 = (topup_run request accepting (97 ∷ 98 ∷ []) (99 ∷ []) true bank).1.committed in
    Failed topup_view
      (λ x. money x.0 ≡ money d2.ledger)
      (topup_run request accepting (97 ∷ 98 ∷ []) (99 ∷ []) true d2).0
      (topup_run request accepting (97 ∷ 98 ∷ []) (99 ∷ []) true d2).1
topup_approve_submit-once_example =
    topup_approve_submit-once request request accepting accepting (97 ∷ 98 ∷ []) (99 ∷ []) true bank
      topup_returns

topup_approve_submit-total_example :
    (total (topup_run request accepting (97 ∷ 98 ∷ []) (99 ∷ []) true bank).1.committed.ledger.users
      ≡ 95_000)
    ⊎ GrownBy request (97 ∷ 98 ∷ []) (99 ∷ []) bank (
        total
          (topup_run request accepting (97 ∷ 98 ∷ []) (99 ∷ []) true bank).1.committed.ledger.users)
topup_approve_submit-total_example =
    topup_approve_submit-total request accepting (97 ∷ 98 ∷ []) (99 ∷ []) true bank bank-UniqueIds

generated :
    (generate_topup_token request (97 ∷ 98 ∷ []) (99 ∷ []) 2 500 (begin bank)).0
    ≡ ok (97 ∷ 98 ∷ 46 ∷ 99 ∷ [])
unfolding steps generate_topup_token
generated = refl

abbrev with_request : Db
with_request =
    (generate_topup_token request (97 ∷ 98 ∷ []) (99 ∷ []) 2 500 (begin bank)).1.committed

generate_topup_token-Approvable_example :
    (token_parts (97 ∷ 98 ∷ 46 ∷ 99 ∷ []) ≡ (97 ∷ 98 ∷ [], 99 ∷ []))
    × Approvable request
        (97 ∷ 98 ∷ [])
        (99 ∷ [])
        with_request.topup_requests
        (new_request request (97 ∷ 98 ∷ []) (99 ∷ []) 2 500)
    × (load_topup_request request
          (token_parts (97 ∷ 98 ∷ 46 ∷ 99 ∷ [])).0
          (token_parts (97 ∷ 98 ∷ 46 ∷ 99 ∷ [])).1
          (begin with_request)
        ≡ (ok (new_request request (97 ∷ 98 ∷ []) (99 ∷ []) 2 500), begin with_request))
unfolding has_token_shape
generate_topup_token-Approvable_example =
    generate_topup_token-Approvable request request (97 ∷ 98 ∷ []) (99 ∷ [])
      (97 ∷ 98 ∷ 46 ∷ 99 ∷ []) 2 500 bank refl refl refl (ground arith) generated

-- A local transfer, then the approval of a top-up.
abbrev after_transfer : Db
after_transfer = (local_run request ann ben_payee "t" bank).1.committed

abbrev after_approval : Db
after_approval =
    (approve_token request accepting (97 ∷ 98 ∷ 46 ∷ 99 ∷ []) true
      (begin after_transfer)).1.committed

abbrev two_requests : bank ⟶* after_approval
two_requests =
    after (after here (local_transfer_request request ann ben_payee "t" bank))
      (topup_approval request accepting (97 ∷ 98 ∷ 46 ∷ 99 ∷ []) true after_transfer)

history-Books_example : Books 95_000 after_approval.ledger
history-Books_example = history-Books 95_000 two_requests (refl, bank-UniqueIds)
