-- ===== src/Security/AuditChain/Append.antt =====
-- A chain that verifies still does after an event is appended.
use sitbank.Base.{
  ◌≡◌, refl, true, false, arith, [], ℕ, ◌∷◌, ◌+◌, String, Option, none, Bool, some, List, not, inl,
  subst, str_eq, inr, eq_iff, Bool-cases, if◌then◌else◌, ◌∙◌, ap, sym, Option-cases,
}
use sitbank.Security.AuditChain.{
  Hashing, append_chain_error, SecurityAuditEvent, verify_event, AuditContent,
  verify_audit_hash_chain, append_audit_event, is_set, audit_chain_start_hash, ChainErrorReason,
  verify_hashed_audit_event, latest_audit_event_hash, ChainState, compare_hash, is_hash,
  previous_hash_mismatch, is_unsupported, unsupported_hash_algorithm, compute_audit_event_hash,
  hmac_sha256_v1, HashAlgorithm,
}

pub append_chain_error-nil :
    (b : Bool) (i : ℕ) (r : ChainErrorReason) (errors : List (ℕ × ChainErrorReason))
    → append_chain_error b i r errors ≡ []
    → (b ≡ false) × (errors ≡ [])
unfolding append_chain_error
append_chain_error-nil false i r errors h = (refl, h)
append_chain_error-nil true i r [] h = cc
append_chain_error-nil true i r (x ∷ xs) h = ground arith

module _ (g : Hashing) where
  -- No error is found.
  abbrev pub IsValid : List SecurityAuditEvent → Type 0
  IsValid es = (verify_audit_hash_chain g es).errors ≡ []

  verify_event_nil :
      (e : SecurityAuditEvent) (o : Option String) (st : ChainState)
      → (verify_event g e o st).errors ≡ []
      → st.errors ≡ []
  unfolding verify_event verify_hashed_audit_event
  verify_event_nil e none st h = (append_chain_error-nil _ _ _ _ h).1
  verify_event_nil e (some x) st h =
      compare_nil (compute_audit_event_hash g e.hash_algorithm e.content e.previous_event_hash) h
    where
      compare_nil :
          (o : Option String)
          → compare_hash g e.id o x (
              append_chain_error
                (not (is_hash e.previous_event_hash st.previous_hash))
                e.id
                previous_hash_mismatch
                (append_chain_error
                  (is_unsupported e.hash_algorithm)
                  e.id
                  unsupported_hash_algorithm
                  st.errors))
            ≡ []
          → st.errors ≡ []
      compare_nil none k =
          (append_chain_error-nil _ _ _ _
            (append_chain_error-nil _ _ _ _ (append_chain_error-nil _ _ _ _ k).1).1).1
      compare_nil (some y) k =
          (append_chain_error-nil _ _ _ _
            (append_chain_error-nil _ _ _ _ (append_chain_error-nil _ _ _ _ k).1).1).1

  pub older-IsValid :
      (e : SecurityAuditEvent) (older : List SecurityAuditEvent)
      → IsValid (e ∷ older)
      → IsValid older
  unfolding verify_audit_hash_chain
  older-IsValid e older h =
      verify_event_nil e (is_set e.event_hash) (verify_audit_hash_chain g older) h

  not_started_event :
      (e : SecurityAuditEvent) (o : Option String) (st : ChainState)
      → (st.chain_started ≡ false → st.previous_hash ≡ audit_chain_start_hash)
      → (verify_event g e o st).chain_started ≡ false
      → (verify_event g e o st).previous_hash ≡ audit_chain_start_hash
  unfolding verify_event
  not_started_event e none st k h = k h
  not_started_event e (some x) st k h = cc

  not_started :
      (es : List SecurityAuditEvent)
      → (verify_audit_hash_chain g es).chain_started ≡ false
      → (verify_audit_hash_chain g es).previous_hash ≡ audit_chain_start_hash
  unfolding verify_audit_hash_chain verify_event
  not_started [] h = refl
  not_started (e ∷ older) h =
      not_started_event e (is_set e.event_hash) (verify_audit_hash_chain g older)
        (not_started older) h

  latest_event_lem :
      (e : SecurityAuditEvent) (raw : Option String) (st : ChainState) (rest : String)
      → st.previous_hash ≡ rest
      → (st.chain_started ≡ false → st.previous_hash ≡ audit_chain_start_hash)
      → (verify_event g e (is_set raw) st).errors ≡ []
      → (verify_event g e (is_set raw) st).previous_hash
        ≡ elim raw [ none ↦ rest | some h ↦ if str_eq h "" then audit_chain_start_hash else h ]
  unfolding verify_event
  latest_event_lem e none st rest same k h = same
  latest_event_lem e (some x) st rest same k h = elim (Bool-cases (str_eq x "")) [
    | inl empty ↦
        let errors =
          subst (λ (b : Bool). (verify_event g e (if b then none else some x) st).errors ≡ []) empty
            h in
        rw empty (k (append_chain_error-nil _ _ _ _ errors).0)
    | inr full ↦ rw full refl
  ]

  latest-IsValid :
      (es : List SecurityAuditEvent)
      → IsValid es
      → (verify_audit_hash_chain g es).previous_hash ≡ latest_audit_event_hash g es
  unfolding verify_audit_hash_chain verify_event latest_audit_event_hash
  latest-IsValid [] h = refl
  latest-IsValid (e ∷ older) h =
      latest_event_lem e e.event_hash (verify_audit_hash_chain g older)
        (latest_audit_event_hash g older) (latest-IsValid older (older-IsValid e older h))
        (not_started older) h

  abbrev pub appended_event :
      HashAlgorithm → ℕ → AuditContent → String → String → SecurityAuditEvent
  appended_event a i c p h = record {
    id = i;
    content = c;
    previous_event_hash = some p;
    event_hash = some h;
    hash_algorithm = a;
  }

  verified :
      (a : HashAlgorithm) (i : ℕ) (c : AuditContent) (p h : String)
      → compute_audit_event_hash g a c (some p) ≡ some h
      → is_unsupported a ≡ false
      → verify_hashed_audit_event g (appended_event a i c p h) h p [] ≡ []
  unfolding verify_hashed_audit_event append_chain_error
  verified a i c p h hashed supported =
      rw hashed (rw supported (rw ((eq_iff p p).1 refl) (rw ((eq_iff h h).1 refl) refl)))

  pub append-hashed :
      (a : HashAlgorithm) (i : ℕ) (c : AuditContent) (es : List SecurityAuditEvent) (h : String)
      → IsValid es
      → compute_audit_event_hash g a c (some (latest_audit_event_hash g es)) ≡ some h
      → is_unsupported a ≡ false
      → str_eq h "" ≡ false
      → verify_audit_hash_chain g (appended_event a i c (latest_audit_event_hash g es) h ∷ es)
        ≡ record (verify_audit_hash_chain g es) {
          previous_hash = h;
          chain_started = true;
          verified_event_count = (verify_audit_hash_chain g es).verified_event_count + 1;
          latest_event = some (i, h);
          errors = [];
        }
  unfolding verify_audit_hash_chain verify_event
  append-hashed a i c es h valid hashed supported nonempty =
      let st = verify_audit_hash_chain g es in
      let p = latest_audit_event_hash g es in
      let errors_nil : verify_hashed_audit_event g (appended_event a i c p h) h st.previous_hash
            st.errors
          ≡ [] =
        subst
          (λ (o : String).
            verify_hashed_audit_event g (appended_event a i c p h) h o st.errors ≡ [])
          (sym (latest-IsValid es valid))
          (subst
            (λ (x : List (ℕ × ChainErrorReason)).
              verify_hashed_audit_event g (appended_event a i c p h) h p x ≡ [])
            (sym valid) (verified a i c p h hashed supported)) in
      rw nonempty (
        ap
          (λ (x : List (ℕ × ChainErrorReason)). record st {
            previous_hash = h;
            chain_started = true;
            verified_event_count = st.verified_event_count + 1;
            latest_event = some (i, h);
            errors = x;
          })
          errors_nil)

  append_audit_event-some :
      (i : ℕ) (c : AuditContent) (es fs : List SecurityAuditEvent) (h : String)
      → IsValid es
      → g.hmac_hex (g.dumps c (some (latest_audit_event_hash g es))) ≡ some h
      → appended_event hmac_sha256_v1 i c (latest_audit_event_hash g es) h ∷ es ≡ fs
      → IsValid fs
        × ((verify_audit_hash_chain g fs).verified_event_count
            ≡ 1 + (verify_audit_hash_chain g es).verified_event_count)
        × ((verify_audit_hash_chain g fs).latest_event ≡ some (i, latest_audit_event_hash g fs))
  unfolding latest_audit_event_hash compute_audit_event_hash is_unsupported
  append_audit_event-some i c es fs h valid hashed same =
      let p = latest_audit_event_hash g es in
      let nonempty = g.hmac_nonempty (g.dumps c (some p)) h hashed in
      let st = append-hashed hmac_sha256_v1 i c es h valid hashed refl nonempty in
      subst
        (λ (xs : List SecurityAuditEvent).
          IsValid xs
          × ((verify_audit_hash_chain g xs).verified_event_count
              ≡ 1 + (verify_audit_hash_chain g es).verified_event_count)
          × ((verify_audit_hash_chain g xs).latest_event ≡ some (i, latest_audit_event_hash g xs)))
        same
        (
          ap (λ (x : ChainState). x.errors) st,
          ap (λ (x : ChainState). x.verified_event_count) st ∙ ground arith,
          ap (λ (x : ChainState). x.latest_event) st ∙ rw nonempty refl,
        )

  -- When the chain verifies and the HMAC key is long enough, an appended event leaves it valid,
  -- is counted, and is the latest event.
  pub append_audit_event-IsValid :
      (i : ℕ) (c : AuditContent) (es fs : List SecurityAuditEvent)
      → IsValid es
      → append_audit_event g i c es ≡ some fs
      → IsValid fs
        × ((verify_audit_hash_chain g fs).verified_event_count
            ≡ 1 + (verify_audit_hash_chain g es).verified_event_count)
        × ((verify_audit_hash_chain g fs).latest_event ≡ some (i, latest_audit_event_hash g fs))
  unfolding append_audit_event compute_audit_event_hash
  append_audit_event-IsValid i c es fs valid appended =
      elim (Option-cases (g.hmac_hex (g.dumps c (some (latest_audit_event_hash g es))))) [
        | inl missing ↦ cc (rw (append_audit_event, missing) at appended)
        | inr (h, hashed) ↦
            append_audit_event-some i c es fs h valid hashed
              (cc (rw (append_audit_event, hashed) at appended))
      ]
