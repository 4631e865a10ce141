-- ===== src/Bank/PublicTransaction/Reserved.antt =====
-- What a validated request leaves: a fresh reservation, or nothing.
use sitbank.Base.{
  String, inl, inr, none, refl, eq_iff, true, Option, some, Bool, List, ◌≡◌, [], ◌∷◌, str_eq, ℕ,
  ◌≤◌, Bool-cases, ==_refl, update_where, find, ap, false, sym, leb→le, leb,
}
use sitbank.Bank.Store.{Db, Ledger}
use sitbank.Bank.PublicTransaction.{
  is_reservation_of, new_reservation, PublicPayload, public_transaction_idempotency_ttl_seconds,
  reject_reservation, take_reservation, reserve_public_transaction_idempotency, answer_payload,
  fail_public, unavailable,
}
use sitbank.Bank.Types.{Reason, User, PublicTransactionIdempotency}
use sitbank.Bank.Request.{Request}
use sitbank.Bank.Request.Keeps.{IsView, audit_banking_action-Stays}
use sitbank.Bank.Rules.Handlers.{Leads, modify-Leads, Leads-bind, Leads-of-Refuses}
use sitbank.Bank.Rules.{Refuses, Refuses-bind}
use sitbank.Bank.Rules.Steps.{raise-Refuses, gets-Keeps_any, or_else-Keeps, when-Keeps, gets-Keeps}
use sitbank.Bank.Rules.Open.{rollback-Stays}

abbrev pub public_view : Db → Ledger × List PublicTransactionIdempotency
public_view d = (d.ledger, d.reservations)

pub public_view-IsView : IsView public_view
public_view-IsView = record {
  ledger_of = λ x. x.0;
  shows_ledger = λ d. refl;
  hides_audit = λ e d. refl;
}

-- The row of a user's idempotency key.
abbrev pub reservation_of :
    Request → ℕ → String → List PublicTransactionIdempotency → Option PublicTransactionIdempotency
reservation_of q user key rows =
    find (is_reservation_of user (q.public_key_fingerprint user key)) rows

-- No reservation of the key is open.
abbrev pub IsFree : Request → Option PublicTransactionIdempotency → Type 0
IsFree q none = Unit
IsFree q (some r) = r.expires_at ≤ q.now

-- The reservation of the user's key by this payload, which was free before: the ledger is the old
-- one, and the row is new, under the active key and with the configured time to live.
pub record Reservation (q : Request) (user : Option User) (p : PublicPayload)
    (old now : Ledger × List PublicTransactionIdempotency) : Type 0 where
  pub owner : User
  pub owned : user ≡ some owner
  pub ttl : ℕ
  pub lives : public_transaction_idempotency_ttl_seconds q ≡ some ttl
  pub same_ledger : now.0 ≡ old.0
  pub free : IsFree q (reservation_of q owner.id p.idempotency_key old.1)
  pub row :
      reservation_of q owner.id p.idempotency_key now.1 ≡ some (new_reservation q owner.id p ttl)

new_reservation-found :
    (q : Request) (user : ℕ) (p : PublicPayload) (ttl : ℕ)
    → is_reservation_of user
        (q.public_key_fingerprint user p.idempotency_key)
        (new_reservation q user p ttl)
      ≡ true
unfolding is_reservation_of new_reservation
new_reservation-found q user p ttl =
    let same : str_eq (q.public_key_fingerprint user p.idempotency_key)
          (q.public_key_fingerprint user p.idempotency_key)
        ≡ true =
      (eq_iff (q.public_key_fingerprint user p.idempotency_key)
          (q.public_key_fingerprint user p.idempotency_key)).1
        refl in
    rw (==_refl user, same) refl

-- A search for what every changed row is finds the first of them.
find-update_all :
    {A : Type 0} (t : A → Bool) (a : A) (xs : List A) (x : A)
    → t a ≡ true
    → find t xs ≡ some x
    → find t (update_where t (λ _. a) xs) ≡ some a
find-update_all t a [] x ta h = cc (h)
find-update_all t a (y ∷ xs) x ta h = elim (Bool-cases (t y)) [
  | inl here ↦ rw (here, ta) refl
  | inr past ↦ rw (past, past) (find-update_all t a xs x ta (rw past at h))
]

module _ (q : Request) {Safe : Ledger × List PublicTransactionIdempotency → Type 0} where
  pub fail_public-Refuses :
      {A : Type 0} (user : Option User) (code : ℕ) (answer reason : Reason)
      → Refuses public_view Safe (fail_public q {A = A} user code answer reason)
  unfolding fail_public
  fail_public-Refuses user code answer reason = Refuses-bind rollback-Stays λ _.
      Refuses-bind (audit_banking_action-Stays q public_view-IsView _ _ _ _ _) λ _. raise-Refuses _

  answer_payload-Refuses :
      {A : Type 0} (u : User) (same : Bool)
      → Refuses public_view Safe (answer_payload q {A = A} u same)
  unfolding answer_payload
  answer_payload-Refuses u true = fail_public-Refuses (some u) _ _ _
  answer_payload-Refuses u false = fail_public-Refuses (some u) _ _ _

  pub unavailable-Refuses : {A : Type 0} → Refuses public_view Safe (unavailable {A = A})
  unfolding unavailable
  unavailable-Refuses = raise-Refuses _

  module _ {v w : Ledger × List PublicTransactionIdempotency} where
    reject_reservation-Leads :
        {A : Type 0} {R : A → Ledger × List PublicTransactionIdempotency → Type 0} (u : User)
        (p : PublicPayload) (r : PublicTransactionIdempotency)
        → Leads public_view Safe v w R (reject_reservation q u p r)
    unfolding reject_reservation
    reject_reservation-Leads u p r = Leads-bind (or_else-Keeps unavailable-Refuses) λ keys _.
        Leads-bind (when-Keeps (fail_public-Refuses (some u) _ _ _)) λ _ _.
          Leads-bind (when-Keeps (fail_public-Refuses (some u) _ _ _))
            λ _ _. Leads-of-Refuses (answer_payload-Refuses u _)

    take_reservation-Leads :
        (user : Option User) (u : User) (p : PublicPayload) (ttl : ℕ)
        (found : Option PublicTransactionIdempotency)
        → user ≡ some u
        → public_transaction_idempotency_ttl_seconds q ≡ some ttl
        → reservation_of q u.id p.idempotency_key w.1 ≡ found
        → Leads public_view Safe v w
            (λ _ x. Reservation q user p w x)
            (take_reservation q u p ttl found)
    unfolding take_reservation
    take_reservation-Leads user u p ttl none owned lives absent =
        modify-Leads _
          (λ (x : Ledger × List PublicTransactionIdempotency).
            (x.0, new_reservation q u.id p ttl ∷ x.1))
          tt (λ d. refl)
          (record {
            owner = u;
            owned = owned;
            ttl = ttl;
            lives = lives;
            same_ledger = refl;
            free = rw absent tt;
            row = rw (new_reservation-found q u.id p ttl) refl;
          })
    take_reservation-Leads user u p ttl (some r) owned lives present =
        elim (Bool-cases (leb r.expires_at q.now)) [
          | inl over ↦ rw over (
              modify-Leads _
                (λ (x : Ledger × List PublicTransactionIdempotency). (
                  x.0,
                  update_where
                      (is_reservation_of u.id (q.public_key_fingerprint u.id p.idempotency_key))
                      (λ _. new_reservation q u.id p ttl) x.1,
                ))
                tt (λ d. refl)
                (record {
                  owner = u;
                  owned = owned;
                  ttl = ttl;
                  lives = lives;
                  same_ledger = refl;
                  free = rw present (leb→le r.expires_at q.now over);
                  row = find-update_all _ _ w.1 r (new_reservation-found q u.id p ttl) present;
                }))
          | inr current ↦ rw current (reject_reservation-Leads u p r)
        ]

    pub reserve-Leads :
        (user : Option User) (p : PublicPayload)
        → Leads public_view Safe v w
            (λ _ x. Reservation q user p w x)
            (reserve_public_transaction_idempotency q user p)
    unfolding reserve_public_transaction_idempotency
    reserve-Leads user p = Leads-bind (gets-Keeps_any _) λ users _.
        Leads-bind (or_else-Keeps (fail_public-Refuses user _ _ _)) λ u owned.
          Leads-bind (or_else-Keeps (fail_public-Refuses user _ _ _)) λ _ _.
            Leads-bind (or_else-Keeps unavailable-Refuses) λ ttl lives.
              Leads-bind (or_else-Keeps unavailable-Refuses) λ _ _.
                Leads-bind
                  (gets-Keeps _ (λ (x : Ledger × List PublicTransactionIdempotency). x.1)
                    (λ _. refl))
                  λ rows e. take_reservation-Leads user u p ttl _ owned lives (
                    ap
                      (λ (l : List PublicTransactionIdempotency).
                        reservation_of q u.id p.idempotency_key l)
                      (sym e))
