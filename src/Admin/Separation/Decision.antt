-- ===== src/Admin/Separation/Decision.antt =====
-- Who may act on whom.
use sitbank.Base.{
  ◌∷◌, inr, inl, ◌≢◌, ℕ, ◌≡◌, true, none, false, [], List, Bool-cases, ==_refl, any, eq_iff, Option,
  str_eq, arith, String, ◌&&◌, ◌⊎◌, not, some, ◌||◌, refl, is_none,
}
use sitbank.Admin.Separation.{
  is_active_link, is_staff, assert_not_self_customer_action, emails_overlap, block_action, blocked,
  actor_id,
}
use sitbank.Bank.Types.{
  verified_email_overlap, staff_self_customer_action_blocked, Reason, AccountType, User,
  PersonIdentityLink, customer, staff, admin, auth, root_admin, actor_not_staff, AuditEvent,
  target_not_customer, explicit_identity_link,
}
use sitbank.Bank.Request.{Request, audit_event, event}
use sitbank.Bank.Store.{Result, Session, calls, err, ok, fits}

-- No link that stands joins the two accounts.
abbrev pub Unlinked : ℕ → ℕ → List PersonIdentityLink → Type 0
Unlinked staff_user customer_user [] = Unit {0}
Unlinked staff_user customer_user (l ∷ links) =
    ((l.staff_user_id ≡ staff_user) × (l.customer_user_id ≡ customer_user) × (l.revoked_at ≡ none)
      → ⊥)
    × Unlinked staff_user customer_user links

-- A staff account and a customer account of another person, as far as links and addresses say.
pub record Apart (q : Request) (actor target : User) (links : List PersonIdentityLink)
    : Type 0 where
  pub is_actor : actor.account_type ≢ customer
  pub is_target : target.account_type ≡ customer
  pub unlinked : Unlinked actor.id target.id links
  pub no_shared_email :
      q.normalized_email target.email ≢ ""
      → (q.normalized_email target.email ≢ q.normalized_email actor.email)
        × (q.normalized_email target.email ≢ q.normalized_email actor.staff_personal_email)

none_of : {A : Type 0} (o : Option A) → is_none o ≡ true → o ≡ none
none_of none h = refl
none_of (some a) h = cc (h)

link_true :
    (i j : ℕ) (l : PersonIdentityLink)
    → is_active_link i j l ≡ true
    → (l.staff_user_id ≡ i) × (l.customer_user_id ≡ j) × (l.revoked_at ≡ none)
unfolding is_active_link
link_true i j l h =
    let unrevoked : is_none l.revoked_at ≡ true = ground arith in
    (ground arith, ground arith, none_of l.revoked_at unrevoked)

link_false :
    (i j : ℕ) (l : PersonIdentityLink)
    → is_active_link i j l ≡ false
    → (l.staff_user_id ≡ i) × (l.customer_user_id ≡ j) × (l.revoked_at ≡ none)
    → ⊥
unfolding is_active_link
link_false i j l h (a, b, c) = cc (rw (a, b, c, ==_refl i, ==_refl j) at h)

Unlinked-of_no_link :
    (i j : ℕ) (links : List PersonIdentityLink)
    → any (is_active_link i j) links ≡ false
    → Unlinked i j links
Unlinked-of_no_link i j [] h = tt
Unlinked-of_no_link i j (l ∷ links) h = elim (Bool-cases (is_active_link i j l)) [
  | inl hit ↦ absurd (cc (rw hit at h))
  | inr miss ↦ (link_false i j l miss, Unlinked-of_no_link i j links (rw miss at h))
]

standing_link :
    (i j : ℕ) (links : List PersonIdentityLink)
    → any (is_active_link i j) links ≡ true
    → Unlinked i j links
    → ⊥
standing_link i j [] h free = cc (h)
standing_link i j (l ∷ links) h (here, past) = elim (Bool-cases (is_active_link i j l)) [
  | inl hit ↦ here (link_true i j l hit)
  | inr miss ↦ standing_link i j links (rw miss at h) past
]

staff_true : (t : AccountType) → is_staff t ≡ true → t ≢ customer
unfolding is_staff
staff_true t h same = cc (rw same at h)

staff_false : (t : AccountType) → is_staff t ≡ false → t ≡ customer
unfolding is_staff
staff_false customer h = refl
staff_false staff h = cc (h)
staff_false admin h = cc (h)
staff_false root_admin h = cc (h)

overlap_false :
    (x a b : String)
    → not (str_eq x "") && (str_eq x a || str_eq x b) ≡ false
    → x ≢ ""
    → (x ≢ a) × (x ≢ b)
overlap_false x a b h full = (
  (λ same. full_lem x full (first x a b h same)),
  (λ same. full_lem x full (second x a b h same)),
)
  where
    first :
        (x a b : String)
        → not (str_eq x "") && (str_eq x a || str_eq x b) ≡ false
        → x ≡ a
        → str_eq x "" ≡ true
    first x a b h same = let eq : str_eq x a ≡ true = (eq_iff x a).1 same in ground (arith)

    second :
        (x a b : String)
        → not (str_eq x "") && (str_eq x a || str_eq x b) ≡ false
        → x ≡ b
        → str_eq x "" ≡ true
    second x a b h same = let eq : str_eq x b ≡ true = (eq_iff x b).1 same in ground (arith)

    full_lem : (x : String) → x ≢ "" → str_eq x "" ≡ true → ⊥
    full_lem x full h = full ((eq_iff x "").0 h)

overlap_true :
    (x a b : String)
    → not (str_eq x "") && (str_eq x a || str_eq x b) ≡ true
    → (x ≢ "" → (x ≢ a) × (x ≢ b))
    → ⊥
overlap_true x a b h apart =
    let full : x ≢ "" =
      λ same. let e : str_eq x "" ≡ true = (eq_iff x "").1 same in ground (arith) in
    elim (Bool-cases (str_eq x a)) [
      | inl eq ↦ (apart full).0 ((eq_iff x a).0 eq)
      | inr ne ↦ let eq : str_eq x b ≡ true = ground (arith) in (apart full).1 ((eq_iff x b).0 eq)
    ]

-- What a refusal answers: the error, with nothing left open.
pub record Blocked (r : Result (Unit {0}) × Session) : Type 0 where
  pub reason : Reason
  pub answer : r.0 ≡ err (auth 403 reason)
  pub closed : r.1.working ≡ r.1.committed

block_action-Blocked :
    (q : Request) (actor : Option User) (reason : Reason) (s : Session)
    → Blocked (block_action q actor reason s)
unfolding block_action audit_event calls
block_action-Blocked q actor reason s =
    let e : AuditEvent =
      event q staff_self_customer_action_blocked blocked (actor_id actor) (some reason) in
    elim (Bool-cases (q.audit_ok e && fits s.working)) [
      | inl done ↦ rw done (record { reason = reason; answer = refl; closed = refl })
      | inr lost ↦ rw lost (record { reason = reason; answer = refl; closed = refl })
    ]

-- A refusal stays one when what follows it is left out.
still : {r : Result (Unit {0}) × Session} (b : Blocked r) → Blocked (err (auth 403 b.reason), r.1)
still b = record { reason = b.reason; answer = refl; closed = b.closed }

-- With both users given, the call passes, and changes nothing, when the actor is staff, the target a customer, no link
-- that stands joins them and they share no address; in every other case it raises 403 and leaves
-- nothing open.
pub assert_not_self_customer_action-Apart :
    (q : Request) (actor target : User) (s : Session)
    → (Apart q actor target s.working.identity_links
        × (assert_not_self_customer_action q (some actor) (some target) s ≡ (ok tt, s)))
      ⊎ ((Apart q actor target s.working.identity_links → ⊥)
          × Blocked (assert_not_self_customer_action q (some actor) (some target) s))
unfolding assert_not_self_customer_action calls
assert_not_self_customer_action-Apart q actor target s =
    elim (Bool-cases (is_staff actor.account_type)) [
      | inr outsider ↦ inr (
        (λ p. p.is_actor (staff_false _ outsider)),
        let b = block_action-Blocked q (some actor) actor_not_staff s in
            rw (outsider, b.answer) (still b),
      )
      | inl insider ↦ elim (Bool-cases (is_staff target.account_type)) [
        | inl colleague ↦ inr (
          (λ p. staff_true _ colleague p.is_target),
          let b = block_action-Blocked q (some actor) target_not_customer s in
              rw (insider, colleague, b.answer) (still b),
        )
        | inr client ↦
            elim (Bool-cases (any (is_active_link actor.id target.id) s.working.identity_links)) [
              | inl linked ↦ inr (
                (λ p. standing_link _ _ _ linked p.unlinked),
                let b = block_action-Blocked q (some actor) explicit_identity_link s in
                    rw (insider, client, linked, b.answer) (still b),
              )
              | inr free ↦ elim (Bool-cases (emails_overlap q actor target)) [
                | inl shared ↦ inr (
                  (λ p. overlap_true _ _ _ shared p.no_shared_email),
                  let b = block_action-Blocked q (some actor) verified_email_overlap s in
                      rw (insider, client, free, shared) b,
                )
                | inr other ↦ inl (
                  record {
                    is_actor = staff_true _ insider;
                    is_target = staff_false _ client;
                    unlinked = Unlinked-of_no_link _ _ _ free;
                    no_shared_email = overlap_false _ _ _ other;
                  },
                  rw (insider, client, free, other) refl,
                )
              ]
            ]
      ]
    ]
