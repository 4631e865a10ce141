-- ===== src/Bank/Rules/Steps.antt =====
-- What the single steps of a call do in view: tests, reads, writes and what fails.
use sitbank.Base.{◌≡◌, refl, false, Bool, ◌∙◌, some, subst, sym, true, none, ap, Option}
use sitbank.Bank.Store.{
  Db, calls, gets, pure, Result, Action, or_else, Session, modify, when, raise, ok, ◌>>◌, err,
}
use sitbank.Bank.Rules.{Keeps, Settled, Failed, Ends, Refuses, Returns, Changes, Settles, Concludes}
use sitbank.Bank.Types.{Error}

pub raise-Refuses :
    {V : Type 0} {view : Db → V} {Safe : V → Type 0} {A : Type 0} (e : Error)
    → Refuses view Safe (raise {A = A} e)
unfolding calls
raise-Refuses e = record { refuse = λ s sc sw. sc }

module _ {V : Type 0} (view : Db → V) (Safe : V → Type 0) (v w : V) {A : Type 0}
    (Q : A → Type 0) where
  pub Ends-of-Failed :
      (r : Result A) (s : Session) → Failed view Safe r s → Ends view Safe v w Q r s
  Ends-of-Failed (ok a) s h = absurd h
  Ends-of-Failed (err e) s h = h

  Ends-map :
      (R : A → Type 0) (r : Result A) (s : Session)
      → ((a : A) → Q a → R a)
      → Ends view Safe v w Q r s
      → Ends view Safe v w R r s
  Ends-map R (ok a) s f e = (f a e.0, e.1)
  Ends-map R (err x) s f e = e

module _ {V : Type 0} {view : Db → V} {Safe : V → Type 0} {v w : V} where
  pub Keeps-of-Refuses :
      {A : Type 0} {Q : A → Type 0} {m : Action A} → Refuses view Safe m → Keeps view Safe v w Q m
  Keeps-of-Refuses {Q} {m} k = record {
    keep = λ sv sw s h.
        Ends-of-Failed view Safe v w Q (m s).0 (m s).1
          (k.refuse s (subst Safe (sym h.0) sv) (subst Safe (sym h.1) sw));
  }

  pub Keeps-map :
      {A : Type 0} {Q R : A → Type 0} {m : Action A}
      → ((a : A) → Q a → R a)
      → Keeps view Safe v w Q m
      → Keeps view Safe v w R m
  Keeps-map {Q} {R} {m} f k = record {
    keep = λ sv sw s h. Ends-map view Safe v w Q R (m s).0 (m s).1 f (k.keep sv sw s h);
  }

  -- `if test: reject` lets only the other case through.
  pub when-Keeps :
      {b : Bool} {m : Action (Unit {0})}
      → Refuses view Safe m
      → Keeps view Safe v w (λ _. b ≡ false) (when b m)
  unfolding calls
  when-Keeps {b = true} {m} k = record { keep = (Keeps-of-Refuses k).keep }
  when-Keeps {b = false} k = record { keep = λ sv sw s h. (refl, h) }

  pub or_else-Keeps :
      {A : Type 0} {o : Option A} {m : Action A}
      → Refuses view Safe m
      → Keeps view Safe v w (λ a. o ≡ some a) (or_else o m)
  unfolding calls
  or_else-Keeps {o = none} {m} k = record { keep = (Keeps-of-Refuses k).keep }
  or_else-Keeps {o = some a} k = record { keep = λ sv sw s h. (refl, h) }

  -- A read of what is in view, and of anything else.
  pub gets-Keeps :
      {A : Type 0} (f : Db → A) (g : V → A)
      → ((d : Db) → f d ≡ g (view d))
      → Keeps view Safe v w (λ a. a ≡ g w) (gets f)
  unfolding calls
  gets-Keeps f g e = record { keep = λ sv sw s h. (e s.working ∙ ap g h.1, h) }

  pub gets-Keeps_any : {A : Type 0} (f : Db → A) → Keeps view Safe v w (λ _. Unit {0}) (gets f)
  unfolding calls
  gets-Keeps_any f = record { keep = λ sv sw s h. (tt, h) }

  pub pure-Keeps : {A : Type 0} {Q : A → Type 0} (a : A) → Q a → Keeps view Safe v w Q (pure a)
  unfolding calls
  pure-Keeps a p = record { keep = λ sv sw s h. (p, h) }

  -- A write that changes the view of the open transaction.
  pub modify-Settles :
      {A : Type 0} (f : Db → Db) (g : V → V) {P : V → Type 0} {k : Action A}
      → ((d : Db) → view (f d) ≡ g (view d))
      → Safe (g w)
      → Settles view Safe v (g w) P k
      → Settles view Safe v w P (modify f >> k)
  unfolding calls
  modify-Settles f g e safe k = record {
    settle = λ sv sw s h.
        k.settle sv safe (record s { working = f s.working }) (h.0, e s.working ∙ ap g h.1);
  }

  pub modify-Changes :
      {A : Type 0} (f : Db → Db) (g : V → V) {w' : A → V} {Q : A → Type 0} (a : A)
      → ((d : Db) → view (f d) ≡ g (view d))
      → Q a
      → g w ≡ w' a
      → Changes view Safe v w w' Q (modify f >> pure a)
  unfolding calls
  modify-Changes f g a e p same = record {
    change = λ sv sw s h. (p, (h.0, e s.working ∙ ap g h.1 ∙ same));
  }

  -- A write after which only the conclusion follows.
  pub modify-Concludes :
      {A : Type 0} (f : Db → Db) (g : V → V) {P : V → Type 0} {k : Action A}
      → ((d : Db) → view (f d) ≡ g (view d))
      → Concludes view Safe v (g w) P k
      → Concludes view Safe v w P (modify f >> k)
  unfolding calls
  modify-Concludes f g e k = record {
    conclude =
        λ sv s h. k.conclude sv (record s { working = f s.working }) (h.0, e s.working ∙ ap g h.1);
  }

  pub Settles-of-Concludes :
      {A : Type 0} {P : V → Type 0} {m : Action A}
      → Concludes view Safe v w P m
      → Settles view Safe v w P m
  Settles-of-Concludes k = record { settle = λ sv sw s h. k.conclude sv s h }

module _ {V : Type 0} {view : Db → V} {v : V} where
  pub pure-Returns : {A : Type 0} (a : A) → Returns view v a (pure a)
  unfolding calls
  pure-Returns a = record { return = λ s h. (refl, h) }

module _ {V : Type 0} (view : Db → V) (Safe P : V → Type 0) {A : Type 0} where
  -- What a call that returned has committed.
  pub Settled-ok :
      (r : Result A) (s : Session) (a : A)
      → r ≡ ok a
      → Settled view Safe P r s
      → P (view s.committed)
  Settled-ok (ok b) s a e h = h.0
  Settled-ok (err x) s a e h = cc

  -- What a call that raised has committed.
  pub Settled-err :
      (r : Result A) (s : Session) (e : Error)
      → r ≡ err e
      → Settled view Safe P r s
      → Safe (view s.committed)
  Settled-err (ok b) s e h kept = cc
  Settled-err (err x) s e h kept = kept

  pub Failed-of-Settled :
      (r : Result A) (s : Session) → Settled view Safe (λ _. ⊥) r s → Failed view Safe r s
  Failed-of-Settled (ok b) s h = h.0
  Failed-of-Settled (err x) s h = h
