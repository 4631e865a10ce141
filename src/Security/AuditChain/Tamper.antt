-- ===== src/Security/AuditChain/Tamper.antt =====
-- Two chains that end in the same hash.
use sitbank.Base.{
  ◌≡◌, false, [], String, ◌∷◌, some, ℕ, Option, List, none, not, str_eq, arith, eq_iff, ap, ◌⊎◌,
  inl, subst, length, ◌∙◌, sym, inr, Bool-cases,
}
use sitbank.Security.AuditChain.{
  Hashing, compare_hash, SecurityAuditEvent, hmac_sha256_v1, is_hash, ChainErrorReason, is_set,
  append_chain_error, previous_hash_mismatch, is_unsupported, unsupported_hash_algorithm,
  verify_audit_hash_chain, compute_audit_event_hash, verify_event, verify_hashed_audit_event,
  HashAlgorithm,
}
use sitbank.Security.AuditChain.Append.{IsValid, older-IsValid, append_chain_error-nil}

module _ (g : Hashing) where
  -- The text of an event that is hashed.
  abbrev pub text_of : SecurityAuditEvent → String
  text_of e = g.dumps e.content e.previous_event_hash

  -- Two texts with one HMAC.
  pub record Collision : Type 0 where
    pub text : String
    pub other_text : String
    pub digest : String
    pub text_digest : g.hmac_hex text ≡ some digest
    pub other_digest : g.hmac_hex other_text ≡ some digest
    pub differ : str_eq text other_text ≡ false

  -- Every event has a hash and the HMAC's algorithm.
  abbrev pub AllHmac : List SecurityAuditEvent → Type 0
  AllHmac [] = Unit
  AllHmac (e ∷ es) =
      (e.hash_algorithm ≡ hmac_sha256_v1)
      × ((h : String) × (is_set e.event_hash ≡ some h))
      × AllHmac es

  -- The chains have the same length and, one by one, the same texts.
  abbrev pub SameTexts : List SecurityAuditEvent → List SecurityAuditEvent → Type 0
  SameTexts [] [] = Unit
  SameTexts (e ∷ es) (f ∷ fs) = (text_of e ≡ text_of f) × SameTexts es fs
  SameTexts _ _ = ⊥

  is_hash-some : (o : Option String) (p : String) → not (is_hash o p) ≡ false → o ≡ some p
  unfolding is_hash
  is_hash-some none p h = cc
  is_hash-some (some x) p h = ground (arith, eq_iff x p)

  checked :
      (e : SecurityAuditEvent) (o : Option String) (h p : String)
      (errors : List (ℕ × ChainErrorReason))
      → compare_hash g e.id o h (
          append_chain_error (not (is_hash e.previous_event_hash p)) e.id previous_hash_mismatch (
            append_chain_error
              (is_unsupported e.hash_algorithm)
              e.id
              unsupported_hash_algorithm
              errors))
        ≡ []
      → (o ≡ some h) × (e.previous_event_hash ≡ some p)
  unfolding compare_hash is_hash
  checked e none h p errors k = cc ((append_chain_error-nil _ _ _ _ k).0)
  checked e (some x) h p errors k =
      let hash_ok = (append_chain_error-nil _ _ _ _ k).0 in
      let previous_ok = (append_chain_error-nil _ _ _ _ (append_chain_error-nil _ _ _ _ k).1).0 in
      (ground (arith, eq_iff h x), is_hash-some e.previous_event_hash p previous_ok)

  -- What a valid chain says of its newest event, whose hash is `h`.
  newest :
      (e : SecurityAuditEvent) (es : List SecurityAuditEvent) (h : String)
      → IsValid g (e ∷ es)
      → is_set e.event_hash ≡ some h
      → (compute_audit_event_hash g e.hash_algorithm e.content e.previous_event_hash ≡ some h)
        × (e.previous_event_hash ≡ some (verify_audit_hash_chain g es).previous_hash)
        × ((verify_audit_hash_chain g (e ∷ es)).previous_hash ≡ h)
  unfolding verify_audit_hash_chain verify_event verify_hashed_audit_event
  newest e es h valid set =
      let st = verify_audit_hash_chain g es in
      let errors = subst (λ (o : Option String). (verify_event g e o st).errors ≡ []) set valid in
      let (hash_ok, previous_ok) = checked e _ h st.previous_hash st.errors errors in
      (hash_ok, previous_ok, ap (λ (o : Option String). (verify_event g e o st).previous_hash) set)

  -- Two chains of events of the HMAC's algorithm that verify, have the same length and end in
  -- the same hash consist of the same hashed texts, or show two texts with one HMAC.
  pub verify_audit_hash_chain-SameTexts :
      (es fs : List SecurityAuditEvent)
      → IsValid g es
      → IsValid g fs
      → AllHmac es
      → AllHmac fs
      → length es ≡ length fs
      → (verify_audit_hash_chain g es).previous_hash ≡ (verify_audit_hash_chain g fs).previous_hash
      → SameTexts es fs ⊎ Collision
  unfolding compute_audit_event_hash
  verify_audit_hash_chain-SameTexts [] [] ve vf ae af len same = inl tt
  verify_audit_hash_chain-SameTexts [] (f ∷ fs) ve vf ae af len same = ground arith
  verify_audit_hash_chain-SameTexts (e ∷ es) [] ve vf ae af len same = ground arith
  verify_audit_hash_chain-SameTexts (e ∷ es) (f ∷ fs) ve vf ae af len same =
      let ne = newest e es ae.1.0 ve ae.1.1 in
      let nf = newest f fs af.1.0 vf af.1.1 in
      let same_hash : ae.1.0 ≡ af.1.0 = sym ne.2 ∙ same ∙ nf.2 in
      let de : g.hmac_hex (text_of e) ≡ some ae.1.0 =
        subst
          (λ (a : HashAlgorithm).
            compute_audit_event_hash g a e.content e.previous_event_hash ≡ some ae.1.0)
          ae.0 ne.0 in
      let df : g.hmac_hex (text_of f) ≡ some af.1.0 =
        subst
          (λ (a : HashAlgorithm).
            compute_audit_event_hash g a f.content f.previous_event_hash ≡ some af.1.0)
          af.0 nf.0 in
      elim (Bool-cases (str_eq (text_of e) (text_of f))) [
        | inr different ↦ inr (record {
          text = text_of e;
          other_text = text_of f;
          digest = ae.1.0;
          text_digest = de;
          other_digest = rw same_hash df;
          differ = different;
        })
        | inl equal ↦
            let texts : text_of e ≡ text_of f = (eq_iff (text_of e) (text_of f)).0 equal in
            let previous =
              g.dumps_previous e.content f.content (verify_audit_hash_chain g es).previous_hash
                (verify_audit_hash_chain g fs).previous_hash
                (sym (ap (g.dumps e.content) ne.1) ∙ texts ∙ ap (g.dumps f.content) nf.1) in
            elim (verify_audit_hash_chain-SameTexts es fs (older-IsValid g e es ve)
              (older-IsValid g f fs vf) ae.2 af.2 (ground arith) previous) [
                | inl rest ↦ inl (texts, rest)
                | inr collision ↦ inr collision
              ]
      ]
