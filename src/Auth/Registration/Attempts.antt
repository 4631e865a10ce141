-- ===== src/Auth/Registration/Attempts.antt =====
-- Wrong codes use a challenge up.
use sitbank.Base.{
  ◌<◌, Bool, Option, String, none, some, ◌≡◌, [], ◌+◌, ◌≤◌, ◌⊎◌, str_eq, false, List, ℕ, inr, refl,
  ◌∷◌, inl, Option-cases, Bool-cases, leb, find, update_where, arith, true, length, suc, subst,
}
use sitbank.Auth.Registration.{
  RegistrationHmac, remove_where, OtpCall, is_challenge_of, Registration, verify_registration_otp,
  load_otp_challenge, RegistrationOtpChallenge, RegistrationSession, drop_expired, answer_code,
  count_attempt, delete_challenge, registration_otp_max_attempts, raised, generic_otp_error,
  on_verified, set_verified, session_reference, returned, email_verified,
}

pub find-remove : {A : Type 0} (p : A → Bool) (xs : List A) → find p (remove_where p xs) ≡ none
find-remove p [] = refl
find-remove p (x ∷ xs) = elim (Bool-cases (p x)) [
  | inl hit ↦ rw hit (find-remove p xs)
  | inr miss ↦ rw (miss, miss) (find-remove p xs)
]

-- What is found after an update comes from what was found before.
pub find-update :
    {A : Type 0} (p : A → Bool) (f : A → A) (xs : List A)
    → ((x : A) → p (f x) ≡ p x)
    → (y : A) → find p (update_where p f xs) ≡ some y
    → (x : A) × (find p xs ≡ some x) × (y ≡ f x)
find-update p f [] keeps y found = cc
find-update p f (x ∷ xs) keeps y found = elim (Bool-cases (p x)) [
  | inl hit ↦ (x, rw hit refl, cc (rw (hit, keeps x, hit) at found))
  | inr miss ↦ rw miss (find-update p f xs keeps y (rw (miss, miss) at found))
]

module _ (h : RegistrationHmac) (email : String) where
  -- The challenge of the session and the address, expired or not.
  abbrev pub challenge_of : Registration → Option RegistrationOtpChallenge
  challenge_of s = find (is_challenge_of h s.keys email) s.challenges

  -- Attempts one after the other.
  abbrev pub try_codes : List (OtpCall × String) → Registration → Registration
  try_codes [] s = s
  try_codes (t ∷ tries) s = try_codes tries (verify_registration_otp h t.0 (some email) t.1 s).1

  -- None of the codes is the one of this HMAC.
  abbrev pub AllWrong : String → List (OtpCall × String) → Type 0
  AllWrong sent [] = Unit {0}
  AllWrong sent (t ∷ tries) =
      (str_eq sent (h.otp_hmac email (h.strip t.1)) ≡ false) × AllWrong sent tries

  -- What is left after `n` wrong attempts at the code of this HMAC.
  pub record Tried (sent : String) (n : ℕ) (s : Registration) : Type 0 where
    pub left :
        (c : RegistrationOtpChallenge)
        → challenge_of s ≡ some c
        → (c.otp_hmac ≡ sent) × (n ≤ c.attempt_count) × ((c.attempt_count < 5) ⊎ (n ≡ 0))

  update_keeps :
      (e : OtpCall) (k : RegistrationSession) (n : ℕ) (c : RegistrationOtpChallenge)
      → is_challenge_of h k email (record c { attempt_count = n; updated_at = e.now })
        ≡ is_challenge_of h k email c
  unfolding is_challenge_of
  update_keeps e k n c = refl

  at_most : (n m : ℕ) → n ≤ m → n + 1 ≤ m + 1
  at_most n m le = omega arith

  below : (m : ℕ) → leb 5 (m + 1) ≡ false → m + 1 < 5
  below m more = ground arith

  over : (n m : ℕ) → leb 5 n ≡ true → 0 + n ≤ m → (m < 5) ⊎ (0 + n ≡ 0) → ⊥
  over n m many le (inl less) = ground arith
  over n m many le (inr nothing) = ground arith

  -- One wrong attempt more.
  verify-Tried :
      (sent : String) (n : ℕ) (e : OtpCall) (code : String) (s : Registration)
      → Tried sent n s
      → str_eq sent (h.otp_hmac email (h.strip code)) ≡ false
      → Tried sent (n + 1) (verify_registration_otp h e (some email) code s).1
  unfolding verify_registration_otp load_otp_challenge drop_expired answer_code count_attempt
      delete_challenge
  verify-Tried sent n e code s tried wrong = elim (Option-cases (challenge_of s)) [
    | inl absent ↦ rw absent (record { left = λ c found. absurd (cc) })
    | inr (c, loaded) ↦ elim (Bool-cases (leb c.expires_at e.loaded_at)) [
      | inl late ↦
          rw (loaded, late)
            (record {
              left =
                  λ x hit. absurd (cc (find-remove (is_challenge_of h s.keys email) s.challenges));
            })
      | inr live ↦ elim (Bool-cases (leb 5 (c.attempt_count + 1))) [
        | inl last ↦
            rw (loaded, live, (tried.left c loaded).0, wrong, last)
              (record {
                left = λ x hit.
                    absurd (cc (find-remove (is_challenge_of h s.keys email) s.challenges));
              })
        | inr more ↦
            rw (loaded, live, (tried.left c loaded).0, wrong, more)
              (record {
                left = λ x hit.
                    let (r, was, changed) =
                      find-update (is_challenge_of h s.keys email) _ s.challenges
                        (λ a. update_keeps e s.keys (c.attempt_count + 1) a) x hit in
                    rw changed (
                      (tried.left r was).0,
                      at_most n c.attempt_count (tried.left c loaded).1,
                      inl (below c.attempt_count more),
                    );
              })
      ]
    ]
  ]

  pub tries-Tried :
      (sent : String) (n : ℕ) (tries : List (OtpCall × String)) (s : Registration)
      → Tried sent n s
      → AllWrong sent tries
      → Tried sent (n + length tries) (try_codes tries s)
  tries-Tried sent n [] s tried wrong =
      let same : n ≡ n + 0 = omega arith in subst (λ m. Tried sent m s) same tried
  tries-Tried sent n (t ∷ tries) s tried wrong =
      let moved : (n + 1) + length tries ≡ n + suc (length tries) = omega arith in
      subst (λ m. Tried sent m (try_codes (t ∷ tries) s)) moved
        (tries-Tried sent (n + 1) tries _ (verify-Tried sent n t.0 t.1 s tried wrong.0) wrong.1)

  -- After five wrong codes, whenever they were tried, the challenge of the session and the address
  -- is gone: any further code is refused, the one that was sent included.
  pub verify_registration_otp-locks :
      (c : RegistrationOtpChallenge) (tries : List (OtpCall × String)) (e : OtpCall) (code : String)
      (s : Registration)
      → challenge_of s ≡ some c
      → AllWrong c.otp_hmac tries
      → leb registration_otp_max_attempts (length tries) ≡ true
      → (verify_registration_otp h e (some email) code (try_codes tries s)).0
        ≡ raised generic_otp_error 400 none
  unfolding verify_registration_otp load_otp_challenge drop_expired answer_code
  verify_registration_otp-locks c tries e code s found wrong many =
      let tried : Tried c.otp_hmac 0 s = record {
        left = λ x hit.
            (let same : c ≡ x = cc in
              subst
                (λ z.
                  (z.otp_hmac ≡ c.otp_hmac)
                  × (0 ≤ z.attempt_count)
                  × ((z.attempt_count < 5) ⊎ ◌≡◌ {A = ℕ} 0 0))
                same (refl, omega arith, inr refl));
      } in
      let left = tries-Tried c.otp_hmac 0 tries s tried wrong in
      elim (Option-cases (challenge_of (try_codes tries s))) [
        | inl absent ↦ rw absent refl
        | inr (x, hit) ↦
            absurd
              (over (length tries) x.attempt_count many (left.left x hit).1 (left.left x hit).2)
      ]

  -- An accepted code is accepted once: whatever code the same browser sends next for the address is
  -- refused, until another is requested.
  pub verify_registration_otp-once :
      (e1 e2 : OtpCall) (code1 code2 : String) (s : Registration)
      → (verify_registration_otp h e1 (some email) code1 s).0 ≡ returned email_verified
      → (verify_registration_otp h e2
          (some email)
          code2
          (verify_registration_otp h e1 (some email) code1 s).1).0
        ≡ raised generic_otp_error 400 none
  unfolding verify_registration_otp load_otp_challenge drop_expired answer_code on_verified
      delete_challenge set_verified is_challenge_of session_reference
  verify_registration_otp-once e1 e2 code1 code2 s good = elim (Option-cases (challenge_of s)) [
    | inl absent ↦ absurd (cc (rw absent at good))
    | inr (c, found) ↦ elim (Bool-cases (leb c.expires_at e1.loaded_at)) [
      | inl late ↦ absurd (cc (rw (found, late) at good))
      | inr live ↦ elim (Bool-cases (str_eq c.otp_hmac (h.otp_hmac email (h.strip code1)))) [
        | inl right ↦
            rw (found, live, right, find-remove (is_challenge_of h s.keys email) s.challenges) refl
        | inr wrong ↦ absurd (cc (rw (found, live, wrong) at good))
      ]
    ]
  ]
