-- ===== src/Security/Tests/Chain.antt =====
-- Runs of the audit chain, with digests that mark their text.
use sitbank.Base.{◌≡◌, refl, false, ◌∷◌, String, some, [], ◌+◌, none, List, str_eq, subst, ◌⊎◌}
use sitbank.Security.AuditChain.{
  Hashing, verify_audit_hash_chain, append_audit_event, AuditContent, SecurityAuditEvent,
  latest_audit_event_hash, compute_audit_event_hash, hmac_sha256_v1, verify_event,
  audit_chain_start_hash, verify_hashed_audit_event, append_chain_error,
}
use sitbank.Security.AuditChain.Append.{append_audit_event-IsValid, IsValid, appended_event}
use sitbank.Security.AuditChain.Legacy.{legacy_chain-IsValid, legacy_chain}
use sitbank.Security.AuditChain.Tamper.{SameTexts, Collision, verify_audit_hash_chain-SameTexts}

mark_is_set : (h : String) → some "hmac" ≡ some h → str_eq h "" ≡ false
mark_is_set h e =
    let same : "hmac" ≡ h = cc e in subst (λ (x : String). str_eq x "" ≡ false) same refl

abbrev marking : Hashing
marking = record {
  dumps = λ c p. elim p [ none ↦ "null" | some h ↦ h ];
  dumps_previous = λ c d p r e. e;
  hmac_hex = λ t. some "hmac";
  sha256_hex = λ t. "sha";
  hmac_nonempty = λ t h e. mark_is_set h e;
  sha256_nonempty = λ t. refl;
}

abbrev login : AuditContent
login = record {
  event_type = "login";
  outcome = "success";
  user_id = some 1;
  ip_address = "127.0.0.1";
  user_agent = "test";
  correlation_id = "c";
  session_ref = none;
  event_metadata = "{}";
  created_at = "2026-01-01T00:00:00Z";
}

abbrev chain : List SecurityAuditEvent
chain = legacy_chain marking ((1, login) ∷ [])

legacy_chain-IsValid_example : IsValid marking chain
legacy_chain-IsValid_example = legacy_chain-IsValid marking ((1, login) ∷ [])

abbrev longer : List SecurityAuditEvent
longer =
    appended_event marking hmac_sha256_v1 2 login (latest_audit_event_hash marking chain) "hmac"
    ∷ chain

appends : append_audit_event marking 2 login chain ≡ some longer
unfolding append_audit_event compute_audit_event_hash
appends = refl

append_audit_event-IsValid_example :
    IsValid marking longer
    × ((verify_audit_hash_chain marking longer).verified_event_count
        ≡ 1 + (verify_audit_hash_chain marking chain).verified_event_count)
    × ((verify_audit_hash_chain marking longer).latest_event
        ≡ some (2, latest_audit_event_hash marking longer))
append_audit_event-IsValid_example =
    append_audit_event-IsValid marking 2 login chain longer
      (legacy_chain-IsValid marking ((1, login) ∷ [])) appends

abbrev one_event : List SecurityAuditEvent
one_event = appended_event marking hmac_sha256_v1 1 login audit_chain_start_hash "hmac" ∷ []

abbrev other_event : List SecurityAuditEvent
other_event =
    appended_event marking hmac_sha256_v1 9 (record login { outcome = "failure" })
      audit_chain_start_hash "hmac"
    ∷ []

one_event-IsValid : IsValid marking one_event
unfolding verify_audit_hash_chain verify_event verify_hashed_audit_event compute_audit_event_hash
    append_chain_error
one_event-IsValid = refl

other_event-IsValid : IsValid marking other_event
unfolding verify_audit_hash_chain verify_event verify_hashed_audit_event compute_audit_event_hash
    append_chain_error
other_event-IsValid = refl

same_end :
    (verify_audit_hash_chain marking one_event).previous_hash
    ≡ (verify_audit_hash_chain marking other_event).previous_hash
unfolding verify_audit_hash_chain verify_event
same_end = refl

verify_audit_hash_chain-SameTexts_example :
    SameTexts marking one_event other_event ⊎ Collision marking
verify_audit_hash_chain-SameTexts_example =
    verify_audit_hash_chain-SameTexts marking one_event other_event one_event-IsValid
      other_event-IsValid (refl, ("hmac", refl), tt) (refl, ("hmac", refl), tt) refl same_end
