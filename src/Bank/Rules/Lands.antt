-- ===== src/Bank/Rules/Lands.antt =====
-- What a call that returns has committed, by its result; nothing is said of one that raises.
use sitbank.Base.{◌≡◌, refl, ◌∙◌, sym, subst}
use sitbank.Bank.Store.{Db, Session, Action, Result, ok, err, calls, resume, ◌>>=◌, pure}
use sitbank.Bank.Rules.{Keeps, Ends, Holds}

module _ {V : Type 0} (view : Db → V) where
  abbrev pub Landed : {A : Type 0} → (A → V → Type 0) → Result A → Session → Type 0
  Landed R (ok a) s = R a (view s.committed) × (view s.working ≡ view s.committed)
  Landed R (err e) s = Unit

  -- From a session with nothing open in view, the call leaves nothing open, and `R` relates its
  -- result to what is committed.
  pub record Lands {A : Type 0} (v : V) (R : A → V → Type 0) (m : Action A) : Type 0 where
    pub land : (s : Session) → Holds view v v s → Landed R (m s).0 (m s).1

module _ {V : Type 0} (view : Db → V) {A : Type 0} where
  Landed-of-Ends :
      (v : V) (Q : A → Type 0) (r : Result A) (s : Session)
      → Ends view (λ _. Unit) v v Q r s
      → Landed view (λ a x. Q a × (x ≡ v)) r s
  Landed-of-Ends v Q (ok a) s h = ((h.0, h.1.0), h.1.1 ∙ sym h.1.0)
  Landed-of-Ends v Q (err e) s h = tt

  Landed-map :
      (R S : A → V → Type 0) (r : Result A) (s : Session)
      → ((a : A) (x : V) → R a x → S a x)
      → Landed view R r s
      → Landed view S r s
  Landed-map R S (ok a) s f h = (f a (view s.committed) h.0, h.1)
  Landed-map R S (err e) s f h = tt

  -- What a result that is returned says of the tables.
  pub Landed-ok :
      (R : A → V → Type 0) (r : Result A) (s : Session) (a : A)
      → Landed view R r s
      → r ≡ ok a
      → R a (view s.committed)
  Landed-ok R (ok b) s a h e = subst (λ (c : A). R c (view s.committed)) (ok_injective b a e) h.0
    where
      ok_injective : (x y : A) → ok x ≡ ok y → x ≡ y
      ok_injective x y e = cc
  Landed-ok R (err x) s a h e = cc

module _ {V : Type 0} (view : Db → V) {A B : Type 0} where
  Landed-resume :
      (R : A → V → Type 0) (S : B → V → Type 0) (f : A → Action B) (r : Result A) (s : Session)
      → ((a : A) (x : V) → R a x → Lands view x S (f a))
      → Landed view R r s
      → Landed view S (resume f r s).0 (resume f r s).1
  Landed-resume R S f (ok a) s kf h = (kf a (view s.committed) h.0).land s (refl, h.1)
  Landed-resume R S f (err e) s kf h = tt

module _ {V : Type 0} {view : Db → V} {A : Type 0} {v : V} where
  pub Lands-of-Keeps :
      {Q : A → Type 0} {m : Action A}
      → Keeps view (λ _. Unit) v v Q m
      → Lands view v (λ a x. Q a × (x ≡ v)) m
  Lands-of-Keeps {Q} {m} k = record {
    land = λ s h. Landed-of-Ends view v Q (m s).0 (m s).1 (k.keep tt tt s h);
  }

  pub Lands-map :
      {R S : A → V → Type 0} {m : Action A}
      → ((a : A) (x : V) → R a x → S a x)
      → Lands view v R m
      → Lands view v S m
  Lands-map {R} {S} {m} f k = record {
    land = λ s h. Landed-map view R S (m s).0 (m s).1 f (k.land s h);
  }

  pub pure-Lands : {R : A → V → Type 0} (a : A) → R a v → Lands view v R (pure a)
  unfolding calls
  pure-Lands {R} a p = record { land = λ s h. (subst (R a) (sym h.0) p, h.1 ∙ sym h.0) }

module _ {V : Type 0} {view : Db → V} {A B : Type 0} {v : V} where
  pub Lands-bind :
      {R : A → V → Type 0} {S : B → V → Type 0} {m : Action A} {f : A → Action B}
      → Lands view v R m
      → ((a : A) (x : V) → R a x → Lands view x S (f a))
      → Lands view v S (m >>= f)
  unfolding calls
  Lands-bind {R} {S} {m} {f} km kf = record {
    land = λ s h. Landed-resume view R S f (m s).0 (m s).1 kf (km.land s h);
  }

  -- After a call that changes nothing in view.
  pub Lands-bind_keep :
      {Q : A → Type 0} {S : B → V → Type 0} {m : Action A} {f : A → Action B}
      → Keeps view (λ _. Unit) v v Q m
      → ((a : A) → Q a → Lands view v S (f a))
      → Lands view v S (m >>= f)
  Lands-bind_keep {S} {f} k kf =
      Lands-bind (Lands-of-Keeps k)
        λ a x h. subst (λ (y : V). Lands view y S (f a)) (sym h.1) (kf a h.0)
