-- ===== src/Bank/Rules/Handlers.antt =====
-- Rules for `try` blocks and for writes on the way to a failure.
use sitbank.Base.{◌≡◌, refl, subst, ◌∙◌, sym, ap}
use sitbank.Bank.Types.{Error}
use sitbank.Bank.Store.{
  Db, Session, Action, Result, ok, err, recover, catch, calls, modify, resume, ◌>>=◌, ◌>>◌, pure,
}
use sitbank.Bank.Rules.{
  Settled, Failed, Settles, Stays, Ends, Holds, Concludes, Returns, Keeps, Refuses,
}
use sitbank.Bank.Rules.Steps.{Ends-of-Failed}

-- A write that leaves the tables in view safe.
pub modify-Stays :
    {V : Type 0} {view : Db → V} {Safe : V → Type 0} (f : Db → Db)
    → ((d : Db) → Safe (view d) → Safe (view (f d)))
    → Stays view Safe (modify f)
unfolding calls
modify-Stays f k = record { stay = λ s sc sw. (sc, k s.working sw) }

module _ {V : Type 0} (view : Db → V) (Safe : V → Type 0) {A : Type 0} where
  Settled-of-Failed :
      (P : V → Type 0) (r : Result A) (t : Session) → Failed view Safe r t → Settled view Safe P r t
  Settled-of-Failed P (ok a) t k = absurd k
  Settled-of-Failed P (err e) t k = k

  Settled-recover :
      (P : V → Type 0) (v : V) (handler : Error → Action A) (r : Result A) (s : Session)
      → ((e : Error) (t : Session)
          → view t.committed ≡ v
          → Failed view Safe (handler e t).0 (handler e t).1)
      → Settled view (λ x. x ≡ v) P r s
      → Settled view Safe P (recover handler r s).0 (recover handler r s).1
  Settled-recover P v handler (ok a) s rescue h = h
  Settled-recover P v handler (err e) s rescue h =
      Settled-of-Failed P (handler e s).0 (handler e s).1 (rescue e s h)

module _ {V : Type 0} {view : Db → V} {Safe : V → Type 0} {A : Type 0} {v : V} where
  -- A call that commits what satisfies `P` or nothing, with a handler that always fails safely.
  pub catch-Settles :
      (P : V → Type 0) (m : Action A) (handler : Error → Action A)
      → Settles view (λ x. x ≡ v) v v P m
      → ((e : Error) (t : Session)
          → view t.committed ≡ v
          → Failed view Safe (handler e t).0 (handler e t).1)
      → Settles view Safe v v P (catch m handler)
  unfolding calls
  catch-Settles P m handler km rescue = record {
    settle = λ sv sw s h.
        Settled-recover view Safe P v handler (m s).0 (m s).1 rescue (km.settle refl refl s h);
  }

module _ {V : Type 0} (view : Db → V) (Safe : V → Type 0) {A : Type 0} (v w : V) where
  Ends-recover :
      (Q : A → Type 0) (handler : Error → Action A) (r : Result A) (s : Session)
      → ((e : Error) (t : Session)
          → Safe (view t.committed)
          → Failed view Safe (handler e t).0 (handler e t).1)
      → Ends view Safe v w Q r s
      → Ends view Safe v w Q (recover handler r s).0 (recover handler r s).1
  Ends-recover Q handler (ok a) s rescue h = h
  Ends-recover Q handler (err e) s rescue h =
      Ends-of-Failed view Safe v w Q (handler e s).0 (handler e s).1 (rescue e s h)

module _ {V : Type 0} {view : Db → V} {Safe : V → Type 0} {A : Type 0} {v w : V} where
  pub catch-Keeps :
      {Q : A → Type 0} {m : Action A} (handler : Error → Action A)
      → Keeps view Safe v w Q m
      → ((e : Error) (t : Session)
          → Safe (view t.committed)
          → Failed view Safe (handler e t).0 (handler e t).1)
      → Keeps view Safe v w Q (catch m handler)
  unfolding calls
  catch-Keeps {Q} {m} handler km rescue = record {
    keep = λ sv sw s h.
        Ends-recover view Safe v w Q handler (m s).0 (m s).1 rescue (km.keep sv sw s h);
  }

module _ {V : Type 0} (view : Db → V) (Safe : V → Type 0) {A B : Type 0} where
  Settled-then :
      (P : V → Type 0) (b : B) (n : Action B) (r : Result A) (s : Session)
      → ((x : V) → Returns view x b n)
      → Settled view Safe P r s
      → Settled view Safe P (resume (λ _. n) r s).0 (resume (λ _. n) r s).1
  Settled-then P b n (ok a) s returns h =
      let (e, k) = (returns (view s.committed)).return s (refl, h.1) in
      rw e (subst P (sym k.0) h.0, k.1 ∙ sym k.0)
  Settled-then P b n (err x) s returns h = h

module _ {V : Type 0} {view : Db → V} {Safe : V → Type 0} {A B : Type 0} {v w : V} where
  -- What follows and cannot fail changes nothing.
  pub Settles-then :
      {P : V → Type 0} {m : Action A} (b : B) (n : Action B)
      → Settles view Safe v w P m
      → ((x : V) → Returns view x b n)
      → Settles view Safe v w P (m >> n)
  unfolding calls
  Settles-then {P} {m} b n km returns = record {
    settle =
        λ sv sw s h. Settled-then view Safe P b n (m s).0 (m s).1 returns (km.settle sv sw s h);
  }

module _ {V : Type 0} (view : Db → V) (Safe : V → Type 0) where
  abbrev pub Led : {A : Type 0} → V → (A → V → Type 0) → Result A → Session → Type 0
  Led v R (ok a) s = R a (view s.working) × (view s.committed ≡ v)
  Led v R (err e) s = Safe (view s.committed)

  -- The call commits nothing in view, and `R` relates its result to the open transaction's view;
  -- a failure is safe.
  pub record Leads {A : Type 0} (v w : V) (R : A → V → Type 0) (m : Action A) : Type 0 where
    pub lead : Safe v → Safe w → (s : Session) → Holds view v w s → Led v R (m s).0 (m s).1

module _ {V : Type 0} {view : Db → V} {Safe : V → Type 0} {A B : Type 0} {v : V} where
  Settled-resume_open :
      (R : A → V → Type 0) (f : A → Action B) (P : V → Type 0) (r : Result A) (s : Session)
      → Safe v
      → ((a : A) (x : V) → R a x → Concludes view Safe v x P (f a))
      → Led view Safe v R r s
      → Settled view Safe P (resume f r s).0 (resume f r s).1
  Settled-resume_open R f P (ok a) s sv kf e = (kf a (view s.working) e.0).conclude sv s (e.1, refl)
  Settled-resume_open R f P (err x) s sv kf e = e

module _ {V : Type 0} {view : Db → V} {Safe : V → Type 0} {A B : Type 0} {v w : V} where
  Led-resume :
      {Q : A → Type 0} (f : A → Action B) (R : B → V → Type 0) (r : Result A) (s : Session)
      → Safe v
      → Safe w
      → ((a : A) → Q a → Leads view Safe v w R (f a))
      → Ends view Safe v w Q r s
      → Led view Safe v R (resume f r s).0 (resume f r s).1
  Led-resume f R (ok a) s sv sw kf e = (kf a e.0).lead sv sw s e.1
  Led-resume f R (err x) s sv sw kf e = e

module _ {V : Type 0} {view : Db → V} {Safe : V → Type 0} {A B : Type 0} {v w : V} {m : Action A}
    {f : A → Action B} where
  pub Leads-bind :
      {Q : A → Type 0} {R : B → V → Type 0}
      → Keeps view Safe v w Q m
      → ((a : A) → Q a → Leads view Safe v w R (f a))
      → Leads view Safe v w R (m >>= f)
  unfolding calls
  Leads-bind {Q} {R} km kf = record {
    lead = λ sv sw s h. Led-resume f R (m s).0 (m s).1 sv sw kf (km.keep sv sw s h);
  }

  pub Settles-bind_open :
      {R : A → V → Type 0} {P : V → Type 0}
      → Leads view Safe v w R m
      → ((a : A) (x : V) → R a x → Concludes view Safe v x P (f a))
      → Settles view Safe v w P (m >>= f)
  unfolding calls
  Settles-bind_open {R} {P} km kf = record {
    settle = λ sv sw s h. Settled-resume_open R f P (m s).0 (m s).1 sv kf (km.lead sv sw s h);
  }

module _ {V : Type 0} (view : Db → V) (Safe : V → Type 0) (v : V) where
  Led-of-Failed :
      {A : Type 0} (R : A → V → Type 0) (r : Result A) (s : Session)
      → Failed view Safe r s
      → Led view Safe v R r s
  Led-of-Failed R (ok a) s h = absurd h
  Led-of-Failed R (err e) s h = h

module _ {V : Type 0} {view : Db → V} {Safe : V → Type 0} {v w : V} where
  pub modify-Leads :
      {A : Type 0} {R : A → V → Type 0} (f : Db → Db) (g : V → V) (a : A)
      → ((d : Db) → view (f d) ≡ g (view d))
      → R a (g w)
      → Leads view Safe v w R (modify f >> pure a)
  unfolding calls
  modify-Leads {R} f g a e p = record {
    lead = λ sv sw s h. (subst (R a) (sym (e s.working ∙ ap g h.1)) p, h.0);
  }

  pub Leads-of-Refuses :
      {A : Type 0} {R : A → V → Type 0} {m : Action A}
      → Refuses view Safe m
      → Leads view Safe v w R m
  Leads-of-Refuses {R} {m} k = record {
    lead = λ sv sw s h.
        Led-of-Failed view Safe v R (m s).0 (m s).1
          (k.refuse s (subst Safe (sym h.0) sv) (subst Safe (sym h.1) sw));
  }
