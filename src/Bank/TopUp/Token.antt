-- ===== src/Bank/TopUp/Token.antt =====
-- The token of a new top-up request leads back to it.
use sitbank.Base.{
  ◌≡◌, refl, true, Bool, inl, ◌&&◌, [], List, inr, arith, ◌*◌, not, ◌+◌, some, ◌++◌, ℕ, ◌∷◌, ◌<◌,
  Bool-cases, ◌==◌, subst, false, sym, codes_eq_refl, eq_iff, str_eq, leb,
}
use sitbank.Bank.Store.{begin, calls, commit, Db, ok, ledger_fits}
use sitbank.Bank.Request.{Request}
use sitbank.Bank.TopUp.{
  generate_topup_token, partition_dot, token_parts, new_request, has_selector, is_pending,
  has_token_shape, load_topup_request,
}
use sitbank.Bank.TopUp.Steps.{Approvable}
use sitbank.Bank.Types.{Cents, TopUpApprovalRequest}

-- No dot is among the code points.
abbrev pub has_no_dot : List ℕ → Bool
has_no_dot [] = true
has_no_dot (c ∷ cs) = not (c == 46) && has_no_dot cs

pub partition_dot-append :
    (selector verifier : List ℕ)
    → has_no_dot selector ≡ true
    → partition_dot (selector ++ 46 ∷ verifier) ≡ (selector, some verifier)
unfolding partition_dot
partition_dot-append [] verifier h = refl
partition_dot-append (c ∷ cs) verifier h =
    let rest : partition_dot (cs ++ 46 ∷ verifier) ≡ (cs, some verifier) =
      partition_dot-append cs verifier (ground arith) in
    let other : (c == 46) ≡ false = ground arith in rw rest (rw other refl)

token_parts-append :
    (selector verifier : List ℕ)
    → has_no_dot selector ≡ true
    → token_parts (selector ++ 46 ∷ verifier) ≡ (selector, verifier)
unfolding token_parts
token_parts-append selector verifier h = rw (partition_dot-append selector verifier h) refl

new_request-Approvable :
    (q q2 : Request) (selector verifier : List ℕ) (user : ℕ) (amount : Cents)
    (rows : List TopUpApprovalRequest)
    → has_token_shape selector verifier ≡ true
    → q2.topup_verifier_hmac verifier ≡ q.topup_verifier_hmac verifier
    → q2.now < q.now + q.topup_approval_ttl_seconds * 1_000_000
    → Approvable q2 selector verifier
        (new_request q selector verifier user amount ∷ rows)
        (new_request q selector verifier user amount)
unfolding new_request has_selector is_pending
new_request-Approvable q q2 selector verifier user amount rows shaped same_key early = record {
  shaped = shaped;
  found = rw (codes_eq_refl selector) refl;
  genuine = sym same_key;
  open_request = refl;
  unexpired = early;
}

-- The handler loads a request that may be approved, and changes nothing.
load-Approvable :
    (q : Request) (selector verifier : List ℕ) (row : TopUpApprovalRequest) (d : Db)
    → Approvable q selector verifier d.topup_requests row
    → load_topup_request q selector verifier (begin d) ≡ (ok row, begin d)
unfolding load_topup_request calls
load-Approvable q selector verifier row d a =
    let same : str_eq row.verifier_hmac (q.topup_verifier_hmac verifier) ≡ true =
      (eq_iff row.verifier_hmac (q.topup_verifier_hmac verifier)).1 a.genuine in
    let early : leb row.expires_at q.now ≡ false = ground (arith, a.unexpired) in
    rw (a.shaped, a.found, same, a.open_request, early) refl

-- When a top-up request is generated with a selector without a dot, and selector and verifier are
-- of a legal length, its token splits into the two, and until the request expires they approve
-- it, in a process with the same HMAC of the verifier: the approval's handler finds the stored
-- request by them.
pub generate_topup_token-Approvable :
    (q q2 : Request) (selector verifier token : List ℕ) (user : ℕ) (amount : Cents) (d : Db)
    → has_no_dot selector ≡ true
    → has_token_shape selector verifier ≡ true
    → q2.topup_verifier_hmac verifier ≡ q.topup_verifier_hmac verifier
    → q2.now < q.now + q.topup_approval_ttl_seconds * 1_000_000
    → (generate_topup_token q selector verifier user amount (begin d)).0 ≡ ok token
    → (token_parts token ≡ (selector, verifier))
      × Approvable q2 selector verifier
          (generate_topup_token q selector verifier user amount
            (begin d)).1.committed.topup_requests
          (new_request q selector verifier user amount)
      × (load_topup_request q2
            (token_parts token).0
            (token_parts token).1
            (begin (generate_topup_token q selector verifier user amount (begin d)).1.committed)
          ≡ (
            ok (new_request q selector verifier user amount),
            begin (generate_topup_token q selector verifier user amount (begin d)).1.committed,
          ))
unfolding generate_topup_token calls commit
generate_topup_token-Approvable q q2 selector verifier token user amount d no_dot shaped same_key
      early done =
    elim (Bool-cases (ledger_fits d.ledger)) [
      | inl good ↦
          let same : selector ++ 46 ∷ verifier ≡ token = cc (rw good at done) in
          let parts : token_parts token ≡ (selector, verifier) =
            subst (λ (t : List ℕ). token_parts t ≡ (selector, verifier)) same
              (token_parts-append selector verifier no_dot) in
          let stored =
            new_request-Approvable q q2 selector verifier user amount d.topup_requests shaped
              same_key early in
          rw (good, parts) (refl, stored, load-Approvable q2 selector verifier _ _ stored)
      | inr bad ↦ cc (rw bad at done)
    ]
