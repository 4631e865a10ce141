-- ===== src/Auth/RecoveryCodes/Single.antt =====
-- A recovery code is used once.
use sitbank.Base.{
  inr, ◌∷◌, refl, arith, ℕ, ◌≡◌, String, [], false, List, ◌+◌, none, inl, Bool-cases, update_where,
  find, true, Bool, some, Option-cases, str_eq, ◌&&◌, ap, eq_iff, ◌∙◌, sym, not, ◌≢◌, is_none, any,
}
use sitbank.Bank.Request.{Request}
use sitbank.Auth.Rows.{RecoveryCode}
use sitbank.Auth.RecoveryCodes.{
  count_where, is_match, mark_used, is_countable, is_unused, consume_recovery_code, answer_match,
  on_recovery_codes, recovery_code_hmac, unused_recovery_code_count,
}
use sitbank.Bank.Store.{commit, Db, Result, Session, begin, rollback, calls, ok, fits}
use sitbank.Bank.Types.{User}

module _ (q : Request) (user : ℕ) (purpose : String) (code : List ℕ) where
  marked_match :
      (now : ℕ) (r : RecoveryCode) → is_match q user purpose code (mark_used now r) ≡ false
  unfolding is_match is_countable is_unused mark_used
  marked_match now r = ground arith

  -- After the update no row is found any more.
  find-marked :
      (now : ℕ) (rows : List RecoveryCode)
      → find
          (is_match q user purpose code)
          (update_where (is_match q user purpose code) (mark_used now) rows)
        ≡ none
  find-marked now [] = refl
  find-marked now (r ∷ rows) = elim (Bool-cases (is_match q user purpose code r)) [
    | inl hit ↦ rw (hit, marked_match now r) (find-marked now rows)
    | inr miss ↦ rw (miss, miss) (find-marked now rows)
  ]

  countable_hit :
      (r : RecoveryCode)
      → is_match q user purpose code r ≡ true
      → is_countable user purpose r ≡ true
  unfolding is_match
  countable_hit r h = ground arith

  countable_marked :
      (now : ℕ) (r : RecoveryCode) → is_countable user purpose (mark_used now r) ≡ false
  unfolding is_countable is_unused mark_used
  countable_marked now r = ground arith

  -- One fewer can be used, for each row that matched.
  count-marked :
      (now : ℕ) (rows : List RecoveryCode)
      → count_where (is_countable user purpose) rows
        ≡ count_where (is_match q user purpose code) rows
          + count_where
              (is_countable user purpose)
              (update_where (is_match q user purpose code) (mark_used now) rows)
  unfolding count_where
  count-marked now [] = refl
  count-marked now (r ∷ rows) = elim (Bool-cases (is_match q user purpose code r)) [
    | inl hit ↦
        rw (hit, countable_hit r hit, countable_marked now r) (omega (arith, count-marked now rows))
    | inr miss ↦ elim (Bool-cases (is_countable user purpose r)) [
      | inl usable ↦ rw (miss, usable) (omega (arith, count-marked now rows))
      | inr other ↦ rw (miss, other) (count-marked now rows)
    ]
  ]

module _ (q : Request) (u : User) (code : List ℕ) (purpose : String) where
  -- One attempt on these tables, committed.
  abbrev pub consume_run : Db → Result Bool × Session
  consume_run d = consume_recovery_code q u code purpose true (begin d)

  -- An attempt that answers true has found a row and marked every row that matched.
  consumed :
      (d : Db)
      → (consume_run d).0 ≡ ok true
      → ((r : RecoveryCode) × (find (is_match q u.id purpose code) d.recovery_codes ≡ some r))
        × ((consume_run d).1
            ≡ begin (record d {
              recovery_codes =
                  update_where (is_match q u.id purpose code) (mark_used q.now) d.recovery_codes;
            }))
  unfolding consume_recovery_code answer_match on_recovery_codes commit rollback calls
  consumed d good = elim (Option-cases (find (is_match q u.id purpose code) d.recovery_codes)) [
    | inl absent ↦ absurd (cc (rw absent at good))
    | inr (r, found) ↦ elim (Bool-cases (fits d)) [
      | inl fit ↦ rw (found, fit) ((r, refl), refl)
      | inr bad ↦ absurd (cc (rw (found, bad) at good))
    ]
  ]

  -- Only tables that pass the flush accept a code.
  consumed-fits : (d : Db) → (consume_run d).0 ≡ ok true → fits d ≡ true
  unfolding consume_recovery_code answer_match on_recovery_codes commit rollback calls
  consumed-fits d good =
      elim (Option-cases (find (is_match q u.id purpose code) d.recovery_codes)) [
        | inl absent ↦ absurd (cc (rw absent at good))
        | inr (r, found) ↦ elim (Bool-cases (fits d)) [
          | inl fit ↦ fit
          | inr bad ↦ absurd (cc (rw (found, bad) at good))
        ]
      ]

pub same_match :
    (q1 q2 : Request) (user : ℕ) (purpose : String) (code : List ℕ)
    → recovery_code_hmac q2 user purpose code ≡ recovery_code_hmac q1 user purpose code
    → is_match q2 user purpose code ≡ is_match q1 user purpose code
unfolding is_match
same_match q1 q2 user purpose code same =
    ap {B = RecoveryCode → Bool}
      (λ (h : String) (r : RecoveryCode). is_countable user purpose r && str_eq r.code_hmac h) same

-- When a recovery code is accepted, no later attempt with it succeeds on what was committed, when
-- its HMAC is still the same: the attempt answers false.
pub consume_recovery_code-once :
    (q1 q2 : Request) (u : User) (code : List ℕ) (purpose : String) (d : Db)
    → (consume_run q1 u code purpose d).0 ≡ ok true
    → recovery_code_hmac q2 u.id purpose code ≡ recovery_code_hmac q1 u.id purpose code
    → (consume_run q2 u code purpose (consume_run q1 u code purpose d).1.committed).0 ≡ ok false
unfolding consume_recovery_code answer_match rollback calls
consume_recovery_code-once q1 q2 u code purpose d good same =
    let (found, left) = consumed q1 u code purpose d good in
    let absent : find (is_match q2 u.id purpose code)
          (update_where (is_match q1 u.id purpose code) (mark_used q1.now) d.recovery_codes)
        ≡ none =
      rw (same_match q1 q2 u.id purpose code same)
        (find-marked q1 u.id purpose code q1.now d.recovery_codes) in
    rw (left, absent) refl

find-any : {A : Type 0} (p : A → Bool) (xs : List A) → any p xs ≡ not (is_none (find p xs))
find-any p [] = refl
find-any p (x ∷ xs) = elim (Bool-cases (p x)) [
  | inl here ↦ rw here refl
  | inr past ↦ rw past (find-any p xs)
]

-- Consumption answers whether a row is found.
pub consume-answers :
    (q : Request) (u : User) (code : List ℕ) (purpose : String) (d : Db)
    → fits d ≡ true
    → (consume_run q u code purpose d).0 ≡ ok (any (is_match q u.id purpose code) d.recovery_codes)
unfolding consume_recovery_code answer_match on_recovery_codes commit rollback calls
consume-answers q u code purpose d fit =
    rw (find-any (is_match q u.id purpose code) d.recovery_codes)
      (elim (Option-cases (find (is_match q u.id purpose code) d.recovery_codes)) [
        | inl absent ↦ rw absent refl
        | inr (r, found) ↦ rw (found, fit) refl
      ])

-- A row that matches a code has the HMAC of the code.
match-hmac :
    (q : Request) (user : ℕ) (purpose : String) (code : List ℕ) (r : RecoveryCode)
    → is_match q user purpose code r ≡ true
    → r.code_hmac ≡ recovery_code_hmac q user purpose code
unfolding is_match
match-hmac q user purpose code r hit =
    let same : str_eq r.code_hmac (recovery_code_hmac q user purpose code) ≡ true = ground arith in
    (eq_iff _ _).0 same

-- Marking the rows of one HMAC changes no search for another.
any-others :
    (q q2 : Request) (user user2 : ℕ) (purpose purpose2 : String) (code code2 : List ℕ)
    (rows : List RecoveryCode)
    → recovery_code_hmac q2 user2 purpose2 code2 ≢ recovery_code_hmac q user purpose code
    → any
        (is_match q2 user2 purpose2 code2)
        (update_where (is_match q user purpose code) (mark_used q.now) rows)
      ≡ any (is_match q2 user2 purpose2 code2) rows
any-others q q2 user user2 purpose purpose2 code code2 [] differ = refl
any-others q q2 user user2 purpose purpose2 code code2 (r ∷ rows) differ =
    let rest = any-others q q2 user user2 purpose purpose2 code code2 rows differ in
    elim (Bool-cases (is_match q user purpose code r)) [
      | inl hit ↦ elim (Bool-cases (is_match q2 user2 purpose2 code2 r)) [
        | inl both ↦ absurd (
            differ (
              sym (match-hmac q2 user2 purpose2 code2 r both)
              ∙ match-hmac q user purpose code r hit))
        | inr only ↦ rw (hit, only, marked_match q2 user2 purpose2 code2 q.now r) rest
      ]
      | inr miss ↦ rw (miss, rest) refl
    ]

-- An accepted code is the only one that is used up: the user's unused codes of the purpose are
-- fewer by the rows that matched, and any attempt with a code of another HMAC, by this user or
-- another one and for whatever purpose, answers after it what it would have answered before.
pub consume_recovery_code-exact :
    (q q2 : Request) (u u2 : User) (code code2 : List ℕ) (purpose purpose2 : String) (d : Db)
    → (consume_run q u code purpose d).0 ≡ ok true
    → recovery_code_hmac q2 u2.id purpose2 code2 ≢ recovery_code_hmac q u.id purpose code
    → (unused_recovery_code_count u.id purpose d
        ≡ count_where (is_match q u.id purpose code) d.recovery_codes
          + unused_recovery_code_count u.id purpose (consume_run q u code purpose d).1.committed)
      × ((consume_run q2 u2 code2 purpose2 (consume_run q u code purpose d).1.committed).0
          ≡ (consume_run q2 u2 code2 purpose2 d).0)
unfolding unused_recovery_code_count
consume_recovery_code-exact q q2 u u2 code code2 purpose purpose2 d good differ =
    let (found, left) = consumed q u code purpose d good in
    let fit = consumed-fits q u code purpose d good in
    let after : Db = record d {
      recovery_codes =
          update_where (is_match q u.id purpose code) (mark_used q.now) d.recovery_codes;
    } in
    (
      rw left (count-marked q u.id purpose code q.now d.recovery_codes),
      rw left (
          consume-answers q2 u2 code2 purpose2 after fit
          ∙ ap ok (any-others q q2 u.id u2.id purpose purpose2 code code2 d.recovery_codes differ)
          ∙ sym (consume-answers q2 u2 code2 purpose2 d fit)),
    )
