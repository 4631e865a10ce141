-- ===== src/Bank/PublicTransaction/Outcome.antt =====
-- What a validated request commits, and that a key is accepted once until it expires.
use sitbank.Bank.PublicTransaction.{
  validate_public_transaction_payload, unavailable, PublicPayload, on_success_audit_error, success,
  new_reservation, public_transaction_idempotency_ttl_seconds, is_reservation_of,
}
use sitbank.Bank.Store.{
  pure, rollback, Db, calls, Ledger, Session, Result, commit, begin, ledger_fits, catch, ◌>>◌, fits,
  ok,
}
use sitbank.Bank.Types.{
  public_transaction_validation, PublicTransactionIdempotency, User, AuditEvent, banking,
}
use sitbank.Base.{
  Option, refl, some, sym, inr, ℕ, true, ◌≡◌, subst, inl, none, List, Bool, Bool-cases, ◌≢◌, ◌*◌,
  ◌+◌, ◌<◌, ap, String, arith, ◌≤◌, ◌∙◌, find,
}
use sitbank.Bank.Request.{Request, audit_banking_action, audit_event_required, event}
use sitbank.Bank.PublicTransaction.Reserved.{
  Reservation, public_view, fail_public-Refuses, public_view-IsView, unavailable-Refuses,
  reserve-Leads, reservation_of, IsFree,
}
use sitbank.Bank.Rules.{Settles, Settled, Settles-bind, Refuses-bind, Concludes}
use sitbank.Bank.Rules.Steps.{when-Keeps, or_else-Keeps, raise-Refuses, Settled-ok}
use sitbank.Bank.Request.Keeps.{audit_banking_action-Stays}
use sitbank.Bank.Rules.Handlers.{Settles-bind_open}

module _ (q : Request) {v x : Ledger × List PublicTransactionIdempotency} where
  -- The success audit commits what is open, or rolls it back and raises.
  success_audit-Concludes :
      {P : Ledger × List PublicTransactionIdempotency → Type 0} (user : ℕ) (p : PublicPayload)
      → P x
      → Concludes public_view
          (λ y. y ≡ v)
          v
          x
          P
          (catch
              (audit_banking_action q true public_transaction_validation success user none)
              on_success_audit_error
            >> pure p)
  unfolding audit_banking_action audit_event_required commit rollback on_success_audit_error
      unavailable calls ledger_fits
  success_audit-Concludes {P} user p good = record {
    conclude = λ sv s h.
        let e : AuditEvent = event q (banking public_transaction_validation) success user none in
        elim (Bool-cases (q.audit_ok e)) [
          | inl done ↦ elim (Bool-cases (fits s.working)) [
            | inl fit ↦ rw (done, fit) (subst P (sym h.1) good, refl)
            | inr bad ↦ rw (done, bad) h.0
          ]
          | inr lost ↦ rw lost h.0
        ];
  }

module _ (q : Request) (v : Ledger × List PublicTransactionIdempotency) (user : Option User)
    (loaded : Option PublicPayload) (pending_state store_given : Bool) where
  -- The reservation of the loaded payload's key.
  abbrev pub KeyAccepted : Ledger × List PublicTransactionIdempotency → Type 0
  KeyAccepted x = (p : PublicPayload) × (loaded ≡ some p) × Reservation q user p v x

  validate-Settles :
      Settles public_view
        (λ y. y ≡ v)
        v
        v
        KeyAccepted
        (validate_public_transaction_payload q user loaded pending_state store_given)
  unfolding validate_public_transaction_payload
  validate-Settles = Settles-bind (when-Keeps (fail_public-Refuses q user _ _ _)) λ _ _.
      Settles-bind
        (or_else-Keeps (
          Refuses-bind (audit_banking_action-Stays q public_view-IsView _ _ _ _ _)
            λ _. raise-Refuses _))
        λ p is_loaded. Settles-bind (or_else-Keeps (unavailable-Refuses q)) λ _ _.
          Settles-bind (when-Keeps (fail_public-Refuses q user _ _ _)) λ _ _.
            Settles-bind_open (reserve-Leads q user p)
              λ _ x taken. success_audit-Concludes q _ p (p, is_loaded, taken)

module _ (q : Request) (user : Option User) (loaded : Option PublicPayload)
    (pending_state store_given : Bool) where
  -- One request on these tables.
  abbrev pub public_run : Db → Result PublicPayload × Session
  public_run d =
      validate_public_transaction_payload q user loaded pending_state store_given (begin d)

  -- When the validation of a public transaction returns, the committed ledger is the old one, and
  -- the payload's key, which no open reservation of the user held, is reserved under the active
  -- HMAC key for the configured time; no change of ledger or reservations is left open. When it
  -- raises, whatever the cause, ledger and reservations are the old ones.
  pub validate_public_transaction_payload-Settled :
      (d : Db)
      → Settled public_view
          (λ x. x ≡ public_view d)
          (KeyAccepted q (public_view d) user loaded pending_state store_given)
          (public_run d).0
          (public_run d).1
  validate_public_transaction_payload-Settled d =
      (validate-Settles q (public_view d) user loaded pending_state store_given).settle refl refl
        (begin d) (refl, refl)

some_injective : {A : Type 0} (a b : A) → some a ≡ some b → a ≡ b
some_injective a b h = cc (h)

-- A row that is open cannot be free.
open-clash :
    (q1 q2 : Request) (o1 o2 : User) (p r : PublicPayload) (ttl : ℕ)
    (rows : List PublicTransactionIdempotency)
    → o2 ≡ o1
    → r.idempotency_key ≡ p.idempotency_key
    → q2.public_key_fingerprint o1.id p.idempotency_key
      ≡ q1.public_key_fingerprint o1.id p.idempotency_key
    → reservation_of q1 o1.id p.idempotency_key rows ≡ some (new_reservation q1 o1.id p ttl)
    → q2.now < q1.now + ttl * 1_000_000
    → IsFree q2 (reservation_of q2 o2.id r.idempotency_key rows)
    → ⊥
unfolding new_reservation
open-clash q1 q2 o1 o2 p r ttl rows same key fingerprint row early free =
    let owner_free : IsFree q2 (reservation_of q2 o1.id p.idempotency_key rows) =
      subst (λ (k : String). IsFree q2 (reservation_of q2 o1.id k rows)) key
        (subst (λ (o : User). IsFree q2 (reservation_of q2 o.id r.idempotency_key rows)) same
          free) in
    let print_free : IsFree q2
        (find (is_reservation_of o1.id (q1.public_key_fingerprint o1.id p.idempotency_key)) rows) =
      subst (λ (f : String). IsFree q2 (find (is_reservation_of o1.id f) rows)) fingerprint
        owner_free in
    let late : q1.now + ttl * 1_000_000 ≤ q2.now = subst (IsFree q2) row print_free in omega arith

module _ (q1 q2 : Request) (user : Option User) (loaded1 loaded2 : Option PublicPayload)
    (pending1 pending2 store1 store2 : Bool) (d1 d2 : Db) where
  -- Once a request of a user with an idempotency key is validated, no other one of the user with
  -- that key is, whatever its payload, before the reservation's time to live has passed, when the
  -- user's fingerprint of the key is the same and the user's reservation of the key is still the
  -- one that was committed, whatever else the table holds.
  pub validate_public_transaction_payload-once :
      (p1 p2 : PublicPayload) (ttl : ℕ) (a1 a2 : PublicPayload)
      → (public_run q1 user loaded1 pending1 store1 d1).0 ≡ ok a1
      → loaded1 ≡ some p1
      → loaded2 ≡ some p2
      → p2.idempotency_key ≡ p1.idempotency_key
      → public_transaction_idempotency_ttl_seconds q1 ≡ some ttl
      → q2.now < q1.now + ttl * 1_000_000
      → ((owner : User)
          → user ≡ some owner
          → q2.public_key_fingerprint owner.id p1.idempotency_key
            ≡ q1.public_key_fingerprint owner.id p1.idempotency_key)
      → ((owner : User)
          → user ≡ some owner
          → reservation_of q1 owner.id p1.idempotency_key d2.reservations
            ≡ reservation_of q1 owner.id p1.idempotency_key
                (public_run q1 user loaded1 pending1 store1 d1).1.committed.reservations)
      → (public_run q2 user loaded2 pending2 store2 d2).0 ≢ ok a2
  unfolding new_reservation
  validate_public_transaction_payload-once p1 p2 ttl a1 a2 good l1 l2 key lives early fingerprint
        kept again =
      let run1 = public_run q1 user loaded1 pending1 store1 d1 in
      let run2 = public_run q2 user loaded2 pending2 store2 d2 in
      let (p, is_p, first) =
        Settled-ok public_view (λ x. x ≡ public_view d1)
          (KeyAccepted q1 (public_view d1) user loaded1 pending1 store1) run1.0 run1.1 a1 good
          (validate_public_transaction_payload-Settled q1 user loaded1 pending1 store1 d1) in
      let (r, is_r, second) =
        Settled-ok public_view (λ x. x ≡ public_view d2)
          (KeyAccepted q2 (public_view d2) user loaded2 pending2 store2) run2.0 run2.1 a2 again
          (validate_public_transaction_payload-Settled q2 user loaded2 pending2 store2 d2) in
      let p_is : p ≡ p1 = some_injective p p1 (sym is_p ∙ l1) in
      let r_key : r.idempotency_key ≡ p.idempotency_key =
        ap (λ (x : PublicPayload). x.idempotency_key) (some_injective r p2 (sym is_r ∙ l2))
        ∙ key
        ∙ ap (λ (x : PublicPayload). x.idempotency_key) (sym p_is) in
      let ttl_is : first.ttl ≡ ttl = some_injective first.ttl ttl (sym first.lives ∙ lives) in
      open-clash q1 q2 first.owner second.owner p r first.ttl d2.reservations
        (some_injective second.owner first.owner (sym second.owned ∙ first.owned)) r_key
        (subst
          (λ (x : PublicPayload).
            q2.public_key_fingerprint first.owner.id x.idempotency_key
            ≡ q1.public_key_fingerprint first.owner.id x.idempotency_key)
          (sym p_is) (fingerprint first.owner first.owned))
        (subst
            (λ (x : PublicPayload).
              reservation_of q1 first.owner.id x.idempotency_key d2.reservations
              ≡ reservation_of q1 first.owner.id x.idempotency_key run1.1.committed.reservations)
            (sym p_is) (kept first.owner first.owned)
          ∙ first.row)
        (subst (λ (n : ℕ). q2.now < q1.now + n * 1_000_000) (sym ttl_is) early) second.free
