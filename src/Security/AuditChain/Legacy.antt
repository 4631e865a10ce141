-- ===== src/Security/AuditChain/Legacy.antt =====
-- What the legacy algorithm lets through.
use sitbank.Base.{refl, some, ap, [], ◌∷◌, List, ℕ}
use sitbank.Security.AuditChain.{
  Hashing, verify_audit_hash_chain, compute_audit_event_hash, AuditContent, SecurityAuditEvent,
  latest_audit_event_hash, sha256_v1, ChainState, is_unsupported,
}
use sitbank.Security.AuditChain.Append.{appended_event, append-hashed, IsValid}

module _ (g : Hashing) where
  -- A chain of these events, written with the plain digest alone.
  unfoldable pub legacy_chain : List (ℕ × AuditContent) → List SecurityAuditEvent
  legacy_chain [] = []
  legacy_chain ((i, c) ∷ cs) =
      let older = legacy_chain cs in
      let p = latest_audit_event_hash g older in
      appended_event g sha256_v1 i c p (g.sha256_hex (g.dumps c (some p))) ∷ older

  -- Whatever the events say, a chain of them that is hashed with the legacy algorithm, for which
  -- no key is needed, verifies without an error.
  pub legacy_chain-IsValid : (cs : List (ℕ × AuditContent)) → IsValid g (legacy_chain cs)
  unfolding legacy_chain compute_audit_event_hash verify_audit_hash_chain is_unsupported
  legacy_chain-IsValid [] = refl
  legacy_chain-IsValid ((i, c) ∷ cs) =
      let older = legacy_chain cs in
      let p = latest_audit_event_hash g older in
      ap (λ (x : ChainState). x.errors)
        (append-hashed g sha256_v1 i c older (g.sha256_hex (g.dumps c (some p)))
          (legacy_chain-IsValid cs) refl refl (g.sha256_nonempty (g.dumps c (some p))))
