-- ===== src/Bank/Rules/Ensures.antt =====
-- What a call that returns has committed, whatever session it started from.
use sitbank.Bank.Store.{ok, err, pure, calls, Db, Action, Result, ◌>>=◌, Session, resume}
use sitbank.Base.{subst, ◌≡◌}

-- What holds of the committed tables when the call returns, from any session.
abbrev pub Ensured : {A : Type 0} → (A → Db → Type 0) → Result A → Session → Type 0
Ensured R (ok a) s = R a s.committed
Ensured R (err e) s = Unit

pub record Ensures {A : Type 0} (R : A → Db → Type 0) (m : Action A) : Type 0 where
  pub ensure : (s : Session) → Ensured R (m s).0 (m s).1

module _ {A : Type 0} where
  Ensured-map :
      (R S : A → Db → Type 0) (r : Result A) (s : Session)
      → ((a : A) (d : Db) → R a d → S a d)
      → Ensured R r s
      → Ensured S r s
  Ensured-map R S (ok a) s f h = f a s.committed h
  Ensured-map R S (err e) s f h = tt

  pub Ensures-map :
      {R S : A → Db → Type 0} {m : Action A}
      → ((a : A) (d : Db) → R a d → S a d)
      → Ensures R m
      → Ensures S m
  Ensures-map {R} {S} {m} f k = record {
    ensure = λ s. Ensured-map R S (m s).0 (m s).1 f (k.ensure s);
  }

  pub pure-Ensures : {R : A → Db → Type 0} (a : A) → ((d : Db) → R a d) → Ensures R (pure a)
  unfolding calls
  pure-Ensures a p = record { ensure = λ s. p s.committed }

module _ {A B : Type 0} where
  Ensured-resume :
      (R : B → Db → Type 0) (f : A → Action B) (r : Result A) (s : Session)
      → ((a : A) → Ensures R (f a))
      → Ensured R (resume f r s).0 (resume f r s).1
  Ensured-resume R f (ok a) s kf = (kf a).ensure s
  Ensured-resume R f (err e) s kf = tt

  -- Whatever came before.
  pub Ensures-after :
      {R : B → Db → Type 0} (m : Action A) {f : A → Action B}
      → ((a : A) → Ensures R (f a))
      → Ensures R (m >>= f)
  unfolding calls
  Ensures-after {R} m {f} kf = record { ensure = λ s. Ensured-resume R f (m s).0 (m s).1 kf }

  Ensured-pure :
      (R : A → Db → Type 0) (S : B → Db → Type 0) (f : A → B) (r : Result A) (s : Session)
      → ((a : A) (d : Db) → R a d → S (f a) d)
      → Ensured R r s
      → Ensured S (resume (λ a. pure (f a)) r s).0 (resume (λ a. pure (f a)) r s).1
  unfolding calls
  Ensured-pure R S f (ok a) s g h = g a s.committed h
  Ensured-pure R S f (err e) s g h = tt

  pub Ensures-pure :
      {R : A → Db → Type 0} {S : B → Db → Type 0} {m : Action A} (f : A → B)
      → Ensures R m
      → ((a : A) (d : Db) → R a d → S (f a) d)
      → Ensures S (m >>= λ a. pure (f a))
  unfolding calls
  Ensures-pure {R} {S} {m} f k g = record {
    ensure = λ s. Ensured-pure R S f (m s).0 (m s).1 g (k.ensure s);
  }

-- What a result that is returned says of the tables.
pub Ensured-ok :
    {A : Type 0} (R : A → Db → Type 0) (r : Result A) (s : Session) (a : A)
    → Ensured R r s
    → r ≡ ok a
    → R a s.committed
Ensured-ok {A} R (ok b) s a h e =
    let same : b ≡ a = cc (e) in subst (λ (c : A). R c s.committed) same h
Ensured-ok R (err x) s a h e = cc (e)
