-- ===== src/Auth/Totp/Steps.antt =====
-- Which time step a code is accepted for.
use sitbank.Base.{
  ◌≡◌, ℕ, String, ◌<◌, Option, some, ◌≢◌, true, ◌+◌, inl, none, ◌*◌, inr, refl, zero, List, arith,
  ◌-◌, suc, ◌≤◌, ◌/◌, Bool-cases, ltb, codes_eq, false, subst, ≡-cases, codes_eq-same,
  codes_eq_refl, sym,
}
use sitbank.Bank.Request.{Request}
use sitbank.Auth.Totp.{accepted_from, compare_digest, is_ascii, accepted_totp_step}

-- The step `k` is the first one, at most `window` away from the current one, whose code is this.
pub record FirstStep (q : Request) (secret : String) (code : List ℕ) (now window k : ℕ)
    : Type 0 where
  pub matches : q.totp_at secret (k * 30) ≡ code
  pub not_early : now / 30 ≤ k + window
  pub not_late : k ≤ now / 30 + window
  pub first : (j : ℕ) → now / 30 ≤ j + window → j < k → q.totp_at secret (j * 30) ≢ code

module _ (q : Request) (secret : String) (code : List ℕ) (current window : ℕ) where
  -- What the loop still finds from offset `i` on.
  abbrev Finds : ℕ → ℕ → Option ℕ → Type 0
  Finds i n none =
      (j : ℕ)
      → current + i ≤ j + window
      → j + window < current + i + n
      → q.totp_at secret (j * 30) ≢ code
  Finds i n (some k) =
      (q.totp_at secret (k * 30) ≡ code)
      × (current + i ≤ k + window)
      × (k + window < current + i + n)
      × ((j : ℕ) → current + i ≤ j + window → j < k → q.totp_at secret (j * 30) ≢ code)

  Finds-later :
      (i n : ℕ) (r : Option ℕ)
      → ((j : ℕ) → j + window ≡ current + i → q.totp_at secret (j * 30) ≢ code)
      → Finds (suc i) n r
      → Finds i (suc n) r
  Finds-later i n none miss rest = λ j low high. elim (≡-cases (j + window) (current + i)) [
    | inl here ↦ miss j here
    | inr past ↦ rest j (omega arith) (omega arith)
  ]
  Finds-later i n (some k) miss rest = (
    rest.0,
    omega arith,
    omega arith,
    λ j low early. elim (≡-cases (j + window) (current + i)) [
      | inl here ↦ miss j here
      | inr past ↦ rest.3 j (omega arith) early
    ],
  )

  miss :
      (i j : ℕ)
      → j + window ≡ current + i
      → codes_eq (q.totp_at secret ((current + i - window) * 30)) code ≡ false
      → q.totp_at secret (j * 30) ≢ code
  miss i j h other same =
      let here : current + i - window ≡ j = ground arith in
      let equal : codes_eq code code ≡ false =
        subst (λ (c : List ℕ). codes_eq c code ≡ false) same (rw here at other) in
      absurd (cc (equal, codes_eq_refl code))

  accepted_from-Finds :
      (i n : ℕ)
      → is_ascii code ≡ true
      → (r : Option ℕ) × (accepted_from q secret code current window i n ≡ some r) × Finds i n r
  unfolding accepted_from compare_digest
  accepted_from-Finds i zero ascii = (none, refl, λ j low high. absurd (omega (arith, low, high)))
  accepted_from-Finds i (suc n) ascii =
      let (r, e, found) = accepted_from-Finds (suc i) n ascii in
      elim (Bool-cases (ltb (current + i) window)) [
        | inl below ↦
            (r, rw (below, e) refl, Finds-later i n r (λ j h. absurd (ground arith)) found)
        | inr inside ↦
            elim (Bool-cases (codes_eq (q.totp_at secret ((current + i - window) * 30)) code)) [
              | inl same ↦ (
                some (current + i - window),
                rw (inside, ascii, same) refl,
                (
                  codes_eq-same _ _ same,
                  ground arith,
                  ground arith,
                  λ j low early. absurd (ground arith),
                ),
              )
              | inr other ↦ (
                r,
                rw (inside, ascii, other) e,
                Finds-later i n r (λ j h. miss i j h other) found,
              )
            ]
      ]

  type_error_from :
      (i n : ℕ)
      → is_ascii code ≡ false
      → i ≤ window
      → window < i + n
      → accepted_from q secret code current window i n ≡ none
  unfolding accepted_from compare_digest
  type_error_from i zero odd l h = absurd (omega arith)
  type_error_from i (suc n) odd l h = elim (Bool-cases (ltb (current + i) window)) [
    | inl below ↦ rw (below, type_error_from (suc i) n odd (ground arith) (omega arith)) refl
    | inr inside ↦ rw (inside, odd) refl
  ]

module _ (q : Request) (secret : String) (code : List ℕ) (now window : ℕ) where
  -- What is accepted: a comparison fails exactly when the code is not ASCII; otherwise the first
  -- step of the window with this code is taken, or no step of the window has it.
  abbrev pub Accepted : Option (Option ℕ) → Type 0
  Accepted none = is_ascii code ≡ false
  Accepted (some none) =
      (is_ascii code ≡ true)
      × ((j : ℕ) → now / 30 ≤ j + window → j ≤ now / 30 + window → q.totp_at secret (j * 30) ≢ code)
  Accepted (some (some k)) = (is_ascii code ≡ true) × FirstStep q secret code now window k

  Accepted-of-Finds :
      (r : Option ℕ)
      → is_ascii code ≡ true
      → Finds q secret code (now / 30) window 0 (2 * window + 1) r
      → Accepted (some r)
  Accepted-of-Finds none ascii found = (ascii, λ j low high. found j (omega arith) (omega arith))
  Accepted-of-Finds (some k) ascii found = (
    ascii,
    record {
      matches = found.0;
      not_early = omega arith;
      not_late = omega arith;
      first = λ j low early. found.3 j (omega arith) early;
    },
  )

  -- The step that is accepted for a code is the first one, within the window on both sides of
  -- the current step, whose code this is; no step is accepted when none of them has it; and the
  -- comparison raises exactly when the code is not ASCII.
  pub accepted_totp_step-Accepted : Accepted (accepted_totp_step q secret code now window)
  unfolding accepted_totp_step
  accepted_totp_step-Accepted = elim (Bool-cases (is_ascii code)) [
    | inl ascii ↦
        let (r, e, found) =
          accepted_from-Finds q secret code (now / 30) window 0 (2 * window + 1) ascii in
        subst Accepted (sym e) (Accepted-of-Finds r ascii found)
    | inr odd ↦
        subst Accepted
          (sym (
            type_error_from q secret code (now / 30) window 0 (2 * window + 1) odd (omega arith)
              (omega arith)))
          odd
  ]
