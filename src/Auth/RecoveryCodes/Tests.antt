-- ===== src/Auth/RecoveryCodes/Tests.antt =====
-- Runs of the recovery codes on the bank of the banking tests.
use sitbank.Bank.Tests.{bank, request, ann}
use sitbank.Base.{ℕ, List, ◌+◌, [], ◌≡◌, str_eq, true, refl, false, ◌∷◌, any, length, codes_eq, ◌≢◌}
use sitbank.Auth.RecoveryCodes.{
  unused_recovery_code_count, group_by_eight, count_where, generate_recovery_codes_for_user,
  recovery_code_hmac, is_match, new_recovery_codes, replace_codes, add_rows, new_row, is_unused,
  mark_used, on_recovery_codes, normalize_recovery_code, keep_alnum, consume_recovery_code,
  is_countable, answer_match,
}
use sitbank.Bank.Store.{commit, calls, ledger_fits, Db, balance_fits, ok, rollback}
use sitbank.Auth.RecoveryCodes.Generated.{generate_run}
use sitbank.Auth.RecoveryCodes.Single.{
  consume_run, consume_recovery_code-once, consume_recovery_code-exact,
}
use sitbank.Auth.RecoveryCodes.Usable.{
  generate_recovery_codes_for_user-count, generate_recovery_codes_for_user-consume,
}
use sitbank.Bank.Request.{audit_event}

-- Each token is one character.
abbrev token : ℕ → List ℕ
token i = (48 + i) ∷ []

abbrev codes : List (List ℕ)
codes = (48 ∷ []) ∷ (49 ∷ []) ∷ []

abbrev with_codes : Db
with_codes = (generate_run request ann token 2 "totp_recovery" true bank).1.committed

unfoldable recovering : Unit {0}
unfolding calls generate_recovery_codes_for_user new_recovery_codes group_by_eight replace_codes
    add_rows new_row is_unused mark_used on_recovery_codes recovery_code_hmac
    normalize_recovery_code keep_alnum consume_recovery_code is_match is_countable answer_match
    commit rollback ledger_fits balance_fits audit_event codes_eq
recovering = tt

generated_run : (generate_run request ann token 2 "totp_recovery" true bank).0 ≡ ok codes
unfolding recovering
generated_run = refl

consumed_run : (consume_run request ann (49 ∷ []) "totp_recovery" with_codes).0 ≡ ok true
unfolding recovering
consumed_run = refl

unknown_run : (consume_run request ann (46 ∷ []) "totp_recovery" with_codes).0 ≡ ok false
unfolding recovering
unknown_run = refl

dashes :
    group_by_eight 0 (1 ∷ 2 ∷ 3 ∷ 4 ∷ 5 ∷ 6 ∷ 7 ∷ 8 ∷ 9 ∷ [])
    ≡ 1 ∷ 2 ∷ 3 ∷ 4 ∷ 5 ∷ 6 ∷ 7 ∷ 8 ∷ 45 ∷ 9 ∷ []
unfolding group_by_eight
dashes = refl

generate_recovery_codes_for_user-count_example :
    (cs : List (List ℕ)) × ((generate_run request ann token 2 "totp_recovery" true bank).0 ≡ ok cs)
    × (length cs ≡ 2)
    × (unused_recovery_code_count 1 "totp_recovery" with_codes ≡ 2)
unfolding ledger_fits balance_fits
generate_recovery_codes_for_user-count_example =
    generate_recovery_codes_for_user-count request ann token 2 "totp_recovery" true bank refl refl

generate_recovery_codes_for_user-consume_example :
    (consume_run request ann (49 ∷ []) "totp_recovery" with_codes).0
    ≡ ok (
        any
          (λ c.
            str_eq
              (recovery_code_hmac request 1 "totp_recovery" c)
              (recovery_code_hmac request 1 "totp_recovery" (49 ∷ [])))
          codes)
unfolding ledger_fits balance_fits
generate_recovery_codes_for_user-consume_example =
    generate_recovery_codes_for_user-consume request ann token 2 "totp_recovery" true bank codes
      request (49 ∷ []) refl refl generated_run refl

consume_recovery_code-once_example :
    (consume_run request ann
      (49 ∷ [])
      "totp_recovery"
      (consume_run request ann (49 ∷ []) "totp_recovery" with_codes).1.committed).0
    ≡ ok false
consume_recovery_code-once_example =
    consume_recovery_code-once request request ann (49 ∷ []) "totp_recovery" with_codes consumed_run
      refl

-- The other of the two codes, whose HMAC differs.
other_hmac :
    recovery_code_hmac request 1 "totp_recovery" (48 ∷ [])
    ≢ recovery_code_hmac request 1 "totp_recovery" (49 ∷ [])
unfolding recovering
other_hmac same = cc (same)

consume_recovery_code-exact_example :
    (unused_recovery_code_count 1 "totp_recovery" with_codes
      ≡ count_where (is_match request 1 "totp_recovery" (49 ∷ [])) with_codes.recovery_codes
        + unused_recovery_code_count 1 "totp_recovery"
            (consume_run request ann (49 ∷ []) "totp_recovery" with_codes).1.committed)
    × ((consume_run request ann
          (48 ∷ [])
          "totp_recovery"
          (consume_run request ann (49 ∷ []) "totp_recovery" with_codes).1.committed).0
        ≡ (consume_run request ann (48 ∷ []) "totp_recovery" with_codes).0)
consume_recovery_code-exact_example =
    consume_recovery_code-exact request request ann ann (49 ∷ []) (48 ∷ []) "totp_recovery"
      "totp_recovery" with_codes consumed_run other_hmac
