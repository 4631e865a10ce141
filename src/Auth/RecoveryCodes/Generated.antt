-- ===== src/Auth/RecoveryCodes/Generated.antt =====
-- New recovery codes replace the old ones, and each of them can be used.
use sitbank.Base.{
  inr, Bool, ◌≡◌, str_eq, zero, false, inl, true, ◌∷◌, refl, suc, ℕ, String, arith, ◌+◌, ap, eq_iff,
  ◌∙◌, [], List, Bool-cases, ==_refl, update_where, length, any, ◌||◌, none, ltb,
}
use sitbank.Bank.Request.{Request, audit_event, event}
use sitbank.Auth.RecoveryCodes.{
  new_recovery_codes, add_rows, is_match, is_countable, count_where, is_unused, new_row,
  recovery_code_hmac, mark_used, replace_codes, generate_recovery_codes_for_user, on_recovery_codes,
  success,
}
use sitbank.Bank.Store.{
  commit, when, Db, Ledger, Result, Session, begin, calls, fits, ok, ledger_fits,
}
use sitbank.Bank.Types.{recovery_codes_generated, User}
use sitbank.Auth.Rows.{RecoveryCode}
use sitbank.Bank.Request.Keeps.{IsView, audit_event-Returns}
use sitbank.Bank.Rules.{Returns}

or_false : (b : Bool) → (b || false) ≡ b
or_false b = ground arith

pub new_recovery_codes-length :
    (token : ℕ → List ℕ) (i n : ℕ) → length (new_recovery_codes token i n) ≡ n
unfolding new_recovery_codes
new_recovery_codes-length token i zero = refl
new_recovery_codes-length token i (suc n) = ap suc (new_recovery_codes-length token (suc i) n)

module _ (q : Request) (user : ℕ) (purpose : String) where
  new_row-countable :
      (code : List ℕ) → is_countable user purpose (new_row q user purpose code) ≡ true
  unfolding is_countable is_unused new_row
  new_row-countable code =
      let same : str_eq purpose purpose ≡ true = (eq_iff purpose purpose).1 refl in
      rw (==_refl user, same) refl

  pub count-add_rows :
      (codes : List (List ℕ)) (rows : List RecoveryCode)
      → count_where (is_countable user purpose) (add_rows q user purpose codes rows)
        ≡ length codes + count_where (is_countable user purpose) rows
  unfolding count_where add_rows
  count-add_rows [] rows = omega arith
  count-add_rows (c ∷ codes) rows =
      count-add_rows codes (new_row q user purpose c ∷ rows)
      ∙ rw (new_row-countable c) (omega arith)

  unused_marked : (t : ℕ) (x : RecoveryCode) → is_unused user purpose (mark_used t x) ≡ false
  unfolding is_unused mark_used
  unused_marked t x = ground arith

  pub old_codes-unused :
      (now : ℕ) (rows : List RecoveryCode)
      → count_where
          (is_countable user purpose)
          (update_where (is_unused user purpose) (mark_used now) rows)
        ≡ 0
  unfolding count_where is_countable
  old_codes-unused now [] = refl
  old_codes-unused now (r ∷ rows) = elim (Bool-cases (is_unused user purpose r)) [
    | inl unused ↦ rw (unused, unused_marked now r) (old_codes-unused now rows)
    | inr used ↦ rw (used, used) (old_codes-unused now rows)
  ]

  any-add_rows :
      (p : RecoveryCode → Bool) (codes : List (List ℕ)) (rows : List RecoveryCode)
      → any p (add_rows q user purpose codes rows)
        ≡ (any (λ c. p (new_row q user purpose c)) codes || any p rows)
  unfolding add_rows
  any-add_rows p [] rows = refl
  any-add_rows p (c ∷ codes) rows =
      let rest = any-add_rows p codes (new_row q user purpose c ∷ rows) in rest ∙ ground arith

  new_row-match :
      (code c : List ℕ)
      → is_match q user purpose code (new_row q user purpose c)
        ≡ str_eq (recovery_code_hmac q user purpose c) (recovery_code_hmac q user purpose code)
  unfolding is_match new_row
  new_row-match code c = rw (new_row-countable c) refl

  no_old_match :
      (code : List ℕ) (now : ℕ) (rows : List RecoveryCode)
      → any
          (is_match q user purpose code)
          (update_where (is_unused user purpose) (mark_used now) rows)
        ≡ false
  unfolding is_match is_countable
  no_old_match code now [] = refl
  no_old_match code now (r ∷ rows) = elim (Bool-cases (is_unused user purpose r)) [
    | inl unused ↦ rw (unused, unused_marked now r) (no_old_match code now rows)
    | inr used ↦ rw (used, used) (no_old_match code now rows)
  ]

  -- The new codes, and no others, are found.
  pub any-replace_codes :
      (code : List ℕ) (codes : List (List ℕ)) (rows : List RecoveryCode)
      → any (is_match q user purpose code) (replace_codes q user purpose codes rows)
        ≡ any
            (λ c.
              str_eq (recovery_code_hmac q user purpose c) (recovery_code_hmac q user purpose code))
            codes
  unfolding replace_codes
  any-replace_codes code codes rows =
      any-add_rows (is_match q user purpose code) codes _
      ∙ rw (no_old_match code q.now rows) (or_false _)
      ∙ ap (λ p. any p codes) (λ i c. new_row-match code c i)

-- The codes and what they leave to the flush.
abbrev pub recovery_view : Db → Ledger × List RecoveryCode
recovery_view d = (d.ledger, d.recovery_codes)

recovery_view-IsView : IsView recovery_view
recovery_view-IsView = record {
  ledger_of = λ v. v.0;
  shows_ledger = λ d. refl;
  hides_audit = λ e d. refl;
}

module _ (q : Request) (u : User) (token : ℕ → List ℕ) (count : ℕ) (purpose : String)
    (audits : Bool) where
  -- One call that commits.
  abbrev pub generate_run : Db → Result (List (List ℕ)) × Session
  generate_run d = generate_recovery_codes_for_user q u token count purpose true audits (begin d)

  audit_generated-Returns :
      {v : Ledger × List RecoveryCode}
      → Returns recovery_view v tt
          (when audits (audit_event q (event q recovery_codes_generated success u.id none)))
  unfolding when
  audit_generated-Returns = elim (Bool-cases audits) [
    | inl on ↦ rw on (audit_event-Returns q recovery_view-IsView _)
    | inr off ↦ record { return = λ s h. rw off (refl, h) }
  ]

  pub generated :
      (d : Db)
      → (ltb count 1 || ltb 20 count) ≡ false
      → fits d ≡ true
      → ((generate_run d).0 ≡ ok (new_recovery_codes token 0 count))
        × (recovery_view (generate_run d).1.committed ≡ (
          d.ledger,
          replace_codes q u.id purpose (new_recovery_codes token 0 count) d.recovery_codes,
        ))
  unfolding generate_recovery_codes_for_user on_recovery_codes commit calls
  generated d size fit =
      let after : Db =
        on_recovery_codes (replace_codes q u.id purpose (new_recovery_codes token 0 count)) d in
      let (returned, (tables, _)) = audit_generated-Returns.return (begin after) (refl, refl) in
      rw (size, fit, returned) (refl, tables)

  -- Tables that accept a flush before the call accept one after it.
  pub generated-fits :
      (d : Db)
      → (ltb count 1 || ltb 20 count) ≡ false
      → fits d ≡ true
      → fits (generate_run d).1.committed ≡ true
  generated-fits d size fit =
      let (_, tables) = generated d size fit in ap (λ v. ledger_fits v.0) tables ∙ fit
