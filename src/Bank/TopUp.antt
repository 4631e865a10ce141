-- ===== src/Bank/TopUp.antt =====
-- Top-ups: the approval of a request by QR code, `topup_approve_submit` of app/banking/routes.py,
-- with app/banking/topup_tokens.py and `credit_account_topup` of app/banking/services.py.
pub mod Steps
pub mod Accounting
pub mod Outcome
pub mod Token
use sitbank.Base.{
  ℕ, Bool, true, false, not, ◌&&◌, Option, none, some, List, [], ◌∷◌, leb, ◌==◌, if◌then◌else◌,
  length, str_eq, String, find, update_where, ◌+◌, ◌*◌, ◌++◌, ◌≡◌, codes_eq,
}
use sitbank.Bank.Types.{
  User, TopUpApprovalRequest, TopUpStatus, AccountType, AccountStatus, Cents, TopUpCredit, active,
  customer, pending, responded, Transaction, expired, Error, failed, Instant, completed,
  account_topup_approval, auth, no_such_row, blocked, frozen_account, mfa_success,
  account_frozen_topup, signing_error, audit_write_error, owner_ineligible, topup, account_topup,
  success, locked, failure,
}
use sitbank.Bank.Store.{
  Action, Db, Ledger, raise, ◌>>◌, when, ◌>>=◌, gets, update_user, or_else, add_balance, modify,
  commit, pure, find_user, rollback, catch, set_ledger,
}
use sitbank.Bank.Money.{money, Money}
use sitbank.Bank.Request.{
  Request, audit_event_required, event, audit_event, safe_send_notification, is_blocked,
  send_transfer_notification,
}
use sitbank.Bank.Transfer.{new_transaction, sign_transaction}
use sitbank.Bank.Rules.{Keeps}

-- `partition(".")` on code points: what stands before the first dot, and after it if there is one.
unfoldable pub partition_dot : List ℕ → List ℕ × Option (List ℕ)
partition_dot [] = ([], none)
partition_dot (c ∷ cs) =
    let (before, after) = partition_dot cs in if c == 46 then ([], some cs) else (c ∷ before, after)

-- The selector and the verifier of a token; without a dot the verifier is empty, which
-- `has_token_shape` refuses.
unfoldable pub token_parts : List ℕ → List ℕ × List ℕ
unfolding partition_dot
token_parts raw =
    let (before, after) = partition_dot raw in
    (before, elim after [ none ↦ [] | some verifier ↦ verifier ])

-- Neither part is empty or too long.
unfoldable pub has_token_shape : List ℕ → List ℕ → Bool
has_token_shape selector verifier =
    not (length selector == 0)
    && not (length verifier == 0)
    && leb (length selector) 64
    && leb (length verifier) 128

unfoldable pub is_pending : TopUpStatus → Bool
is_pending pending = true
is_pending _ = false

is_customer : AccountType → Bool
is_customer customer = true
is_customer _ = false

is_active : AccountStatus → Bool
is_active active = true
is_active _ = false

no_reason : Option String → Bool
no_reason none = true
no_reason (some r) = str_eq r ""

-- `_topup_owner_is_eligible`
unfoldable pub topup_owner_is_eligible : User → Bool
unfolding is_customer is_active no_reason
topup_owner_is_eligible u =
    is_customer u.account_type
    && is_active u.account_status
    && not u.is_frozen
    && no_reason u.security_lock_reason

unfoldable pub has_selector : List ℕ → TopUpApprovalRequest → Bool
unfolding codes_eq
has_selector selector r = codes_eq r.selector selector

-- A write to the loaded request, found by its unique selector.
unfoldable pub on_topup_request : List ℕ → (TopUpApprovalRequest → TopUpApprovalRequest) → Db → Db
unfolding has_selector
on_topup_request selector f d = record d {
  topup_requests = update_where (has_selector selector) f d.topup_requests;
}

set_status : TopUpStatus → TopUpApprovalRequest → TopUpApprovalRequest
set_status st r = record r { status = st }

-- `_TOPUP_APPROVAL_MAX_FAILURES`
abbrev pub topup_approval_max_failures : ℕ
topup_approval_max_failures = 5

-- The credit, with its rows in both tables.
unfoldable pub book_topup : ℕ → Cents → TopUpCredit → Transaction → Ledger → Ledger
book_topup user amount credit t l = record l {
  users = update_user user (add_balance amount) l.users;
  transactions = t ∷ l.transactions;
  topup_credits = credit ∷ l.topup_credits;
}

-- The id in an audit row that names no user.
abbrev no_user : ℕ
no_user = 0

-- A response that ends the handler before the credit is made.
abbrev respond : {A : Type 0} → ℕ → Action A
respond code = raise (responded code)

-- What top-ups read and write.
abbrev pub topup_view : Db → Ledger × List TopUpApprovalRequest
topup_view d = (d.ledger, d.topup_requests)

-- `verify_totp_code_for_user` with the form's code, as the handler sees it: it answers or raises,
-- and may commit. When it answers, the ledger and the requests are as they were; when it raises
-- it may have locked the user, but has moved no money.
pub record SecondFactor : Type 0 where
  pub verify_totp : User → Action Bool
  pub verify_keeps :
      (u : User) (m : Money) (v : Ledger × List TopUpApprovalRequest)
      → Keeps topup_view (λ x. money x.0 ≡ m) v v (λ _. Unit {0}) (verify_totp u)

unfoldable pub complete : Instant → String → TopUpApprovalRequest → TopUpApprovalRequest
complete at ref r = record r { status = completed; approved_at = some at; credit_ref = some ref }

count_failure : TopUpApprovalRequest → TopUpApprovalRequest
count_failure r = record r { failure_count = r.failure_count + 1 }

-- `except AuthError` around the verification answers; other errors pass through.
unfoldable pub on_verification_error : {A : Type 0} → Error → Action A
on_verification_error (auth code reason) = respond code
on_verification_error (frozen_account a) = respond 403
on_verification_error account_frozen_topup = respond 403
on_verification_error e = raise e

module _ (q : Request) where
  -- `load_topup_request_for_approval`, of which `_lazily_expire` commits the expiry.
  unfoldable pub load_topup_request : List ℕ → List ℕ → Action TopUpApprovalRequest
  unfolding has_token_shape has_selector is_pending set_status
  load_topup_request selector verifier = do
    when (not (has_token_shape selector verifier)) (respond 404)
    rows ← gets (λ (d : Db). d.topup_requests)
    row ← or_else (find (has_selector selector) rows) (respond 404)
    when (not (str_eq row.verifier_hmac (q.topup_verifier_hmac verifier))) (respond 404)
    when (is_pending row.status && leb row.expires_at q.now)
        (do modify (on_topup_request selector (set_status expired)); commit; respond 404)
    when (not (is_pending row.status)) (respond 404)
    pure row

  -- The row of the credit before it is signed.
  unfoldable pub new_credit : ℕ → Cents → TopUpCredit
  new_credit user amount = record {
    credit_ref = q.new_ref;
    credit_hash = "";
    user_id = user;
    amount = amount;
    created_at = q.txn_created_at;
  }

  -- `credit_account_topup`
  unfoldable pub credit_account_topup : User → Cents → Action TopUpCredit
  unfolding event
  credit_account_topup user amount = do
    users ← gets (λ (d : Db). d.ledger.users)
    locked_user ← or_else (find_user user.id users) (raise no_such_row)
    when (is_blocked locked_user) (raise account_frozen_topup)
    hash ← or_else (q.sign_credit (new_credit locked_user.id amount)) (raise signing_error)
    t ← sign_transaction q (new_transaction q topup locked_user.id locked_user.id none amount [])
    modify (
        set_ledger (
          book_topup locked_user.id amount
            (record (new_credit locked_user.id amount) { credit_hash = hash }) t))
    audit_event_required q (event q account_topup success locked_user.id none)
    pure (record (new_credit locked_user.id amount) { credit_hash = hash })

  -- The response to an owner that may not top up.
  unfoldable pub refuse_owner : {A : Type 0} → List ℕ → ℕ → Action A
  unfolding set_status
  refuse_owner selector user = do
    modify (on_topup_request selector (set_status failed))
    audit_event q (event q account_topup_approval blocked user (some owner_ineligible))
    commit
    respond 403

  -- The response to a wrong code; `locks` when it is the last one allowed.
  answer_wrong_code : {A : Type 0} → Bool → List ℕ → ℕ → Action A
  unfolding set_status
  answer_wrong_code true selector user = do
    modify (on_topup_request selector (set_status failed))
    commit
    audit_event q (event q account_topup_approval locked user none)
    respond 401
  answer_wrong_code false selector user = do
    commit
    audit_event q (event q account_topup_approval failure user none)
    respond 401

  unfoldable pub refuse_code : {A : Type 0} → TopUpApprovalRequest → ℕ → Action A
  unfolding count_failure answer_wrong_code
  refuse_code row user = do
    modify (on_topup_request row.selector count_failure)
    answer_wrong_code (leb topup_approval_max_failures (row.failure_count + 1)) row.selector user

  -- The `try` block: the audit of the code, the credit and the completed request.
  unfoldable pub complete_topup : User → TopUpApprovalRequest → Action (Unit {0})
  unfolding complete
  complete_topup user row = do
    audit_event_required q (event q account_topup_approval mfa_success user.id none)
    credit ← credit_account_topup user row.amount
    modify (on_topup_request row.selector (complete q.approved_at credit.credit_ref))
    commit

  -- `except AuthError`: the request fails, with the error's status code.
  fail_topup : List ℕ → ℕ → Action (Unit {0})
  unfolding set_status
  fail_topup selector code = do
    rollback
    modify (on_topup_request selector (set_status failed))
    commit
    respond code

  -- The handlers of the block, by the class of the error.
  unfoldable pub on_completion_error : List ℕ → Error → Action (Unit {0})
  unfolding fail_topup
  on_completion_error selector account_frozen_topup = fail_topup selector 403
  on_completion_error selector (frozen_account a) = fail_topup selector 403
  on_completion_error selector (auth code reason) = fail_topup selector code
  on_completion_error selector audit_write_error = do rollback; respond 503
  on_completion_error selector e = do rollback; respond 500

  -- `topup_approve_submit`, which answers 200 when it returns.
  unfoldable pub topup_approve_submit : SecondFactor → List ℕ → List ℕ → Bool → Action (Unit {0})
  topup_approve_submit factor selector verifier form_valid = do
    row ← load_topup_request selector verifier
    when (not form_valid) (respond 400)
    users ← gets (λ (d : Db). d.ledger.users)
    user ← or_else (find_user row.user_id users) (refuse_owner row.selector no_user)
    when (not (topup_owner_is_eligible user)) (refuse_owner row.selector row.user_id)
    verified ← catch (factor.verify_totp user) on_verification_error
    when (not verified) (refuse_code row user.id)
    again ← load_topup_request selector verifier
    catch (complete_topup user again) (on_completion_error again.selector)
    safe_send_notification (send_transfer_notification q user)

  -- The handler on the token of its URL.
  abbrev pub approve_token : SecondFactor → List ℕ → Bool → Action (Unit {0})
  approve_token factor raw form_valid =
      topup_approve_submit factor (token_parts raw).0 (token_parts raw).1 form_valid

  -- The row of a new request.
  unfoldable pub new_request : List ℕ → List ℕ → ℕ → Cents → TopUpApprovalRequest
  new_request selector verifier user amount = record {
    selector = selector;
    verifier_hmac = q.topup_verifier_hmac verifier;
    user_id = user;
    amount = amount;
    status = pending;
    failure_count = 0;
    expires_at = q.now + q.topup_approval_ttl_seconds * 1_000_000;
    approved_at = none;
    credit_ref = none;
  }

  -- `generate_topup_token`, on the two random texts that `secrets.token_urlsafe` gives.
  unfoldable pub generate_topup_token : List ℕ → List ℕ → ℕ → Cents → Action (List ℕ)
  generate_topup_token selector verifier user amount = do
    modify (λ d. record d {
      topup_requests = new_request selector verifier user amount ∷ d.topup_requests;
    })
    commit
    pure (selector ++ 46 ∷ verifier)
