-- ===== src/Auth/RecoveryCodes/Usable.antt =====
-- What can be used after new recovery codes were made.
use sitbank.Base.{
  String, false, ◌&&◌, ap, arith, ℕ, str_eq, List, Bool, ◌||◌, ◌≡◌, ◌∙◌, true, ltb, leb, length,
  any,
}
use sitbank.Bank.Request.{Request}
use sitbank.Bank.Types.{User}
use sitbank.Auth.RecoveryCodes.{
  unused_recovery_code_count, replace_codes, recovery_code_hmac, new_recovery_codes, count_where,
  is_countable, is_match,
}
use sitbank.Bank.Store.{Db, fits, ok}
use sitbank.Auth.RecoveryCodes.Generated.{
  generate_run, generated, new_recovery_codes-length, generated-fits, count-add_rows,
  old_codes-unused, any-replace_codes,
}
use sitbank.Auth.RecoveryCodes.Single.{consume_run, same_match, consume-answers}

module _ (q : Request) (u : User) (token : ℕ → List ℕ) (count : ℕ) (purpose : String)
    (audits : Bool) where
  -- Where the tables accept a flush, a call for 1 to 20 codes returns that many, whatever the
  -- audit answers, and the user then has that many unused codes for the purpose: the old ones are
  -- used up.
  pub generate_recovery_codes_for_user-count :
      (d : Db)
      → leb 1 count && leb count 20 ≡ true
      → fits d ≡ true
      → (codes : List (List ℕ)) × ((generate_run q u token count purpose audits d).0 ≡ ok codes)
        × (length codes ≡ count)
        × (unused_recovery_code_count u.id purpose
              (generate_run q u token count purpose audits d).1.committed
            ≡ count)
  unfolding unused_recovery_code_count replace_codes
  generate_recovery_codes_for_user-count d size fit =
      let small : (ltb count 1 || ltb 20 count) ≡ false = ground arith in
      let (returned, tables) = generated q u token count purpose audits d small fit in
      let codes = new_recovery_codes token 0 count in
      let many = new_recovery_codes-length token 0 count in
      (
        codes,
        returned,
        many,
        ap (λ v. count_where (is_countable u.id purpose) v.1) tables
            ∙ count-add_rows q u.id purpose codes _
            ∙ rw (many, old_codes-unused q u.id purpose q.now d.recovery_codes) (omega arith),
      )

  -- What `generate_recovery_codes_for_user` returned and stored, tables that accept a flush given,
  -- is what can be used: a later attempt under the same HMAC answers whether the code has the
  -- HMAC of one of the returned codes, so each of them is accepted and no older code is.
  pub generate_recovery_codes_for_user-consume :
      (d : Db) (codes : List (List ℕ)) (q2 : Request) (code : List ℕ)
      → leb 1 count && leb count 20 ≡ true
      → fits d ≡ true
      → (generate_run q u token count purpose audits d).0 ≡ ok codes
      → recovery_code_hmac q2 u.id purpose code ≡ recovery_code_hmac q u.id purpose code
      → (consume_run q2 u code purpose
          (generate_run q u token count purpose audits d).1.committed).0
        ≡ ok (
            any
              (λ c.
                str_eq
                  (recovery_code_hmac q u.id purpose c)
                  (recovery_code_hmac q u.id purpose code))
              codes)
  generate_recovery_codes_for_user-consume d codes q2 code size fit good same =
      let small : (ltb count 1 || ltb 20 count) ≡ false = ground arith in
      let (returned, tables) = generated q u token count purpose audits d small fit in
      let those : codes ≡ new_recovery_codes token 0 count = cc in
      let answers =
        consume-answers q2 u code purpose
          (generate_run q u token count purpose audits d).1.committed
          (generated-fits q u token count purpose audits d small fit) in
      let rows = ap (λ v. any (is_match q2 u.id purpose code) v.1) tables in
      rw those (
        answers
        ∙ ap ok (
            rows
            ∙ rw (same_match q q2 u.id purpose code same) (
                any-replace_codes q u.id purpose code (new_recovery_codes token 0 count)
                  d.recovery_codes)))
