-- ===== src/Bank/Rules/Open.antt =====
-- Calls that keep what is committed and what is open safe, composed; and single steps that
-- change nothing in view, whatever the result.
use sitbank.Base.{◌≡◌, sym, subst, ◌∙◌, Bool, true, false, Bool-cases, inl, inr, refl}
use sitbank.Bank.Types.{Error}
use sitbank.Bank.Store.{
  Db, Session, Action, Result, ok, err, calls, resume, recover, ◌>>=◌, when, gets, pure, raise,
  modify, commit, flush, catch, fits, rollback,
}
use sitbank.Bank.Rules.{Stays, Keeps, Ends, Refuses, Returns}
use sitbank.Bank.Rules.Steps.{Ends-of-Failed}

module _ {V : Type 0} {view : Db → V} {Safe : V → Type 0} where
  Stays-resume :
      {A B : Type 0} (f : A → Action B) (r : Result A) (s : Session)
      → Safe (view s.committed) × Safe (view s.working)
      → ((a : A) → Stays view Safe (f a))
      → Safe (view (resume f r s).1.committed) × Safe (view (resume f r s).1.working)
  Stays-resume f (ok a) s safe kf = (kf a).stay s safe.0 safe.1
  Stays-resume f (err e) s safe kf = safe

  pub Stays-bind :
      {A B : Type 0} {m : Action A} {f : A → Action B}
      → Stays view Safe m
      → ((a : A) → Stays view Safe (f a))
      → Stays view Safe (m >>= f)
  unfolding calls
  Stays-bind {m} {f} km kf = record {
    stay = λ s sc sw. Stays-resume f (m s).0 (m s).1 (km.stay s sc sw) kf;
  }

  pub when-Stays :
      (b : Bool) {m : Action (Unit {0})} → Stays view Safe m → Stays view Safe (when b m)
  unfolding calls
  when-Stays true k = record { stay = k.stay }
  when-Stays false k = record { stay = λ s sc sw. (sc, sw) }

  pub gets-Stays : {A : Type 0} (f : Db → A) → Stays view Safe (gets f)
  unfolding calls
  gets-Stays f = record { stay = λ s sc sw. (sc, sw) }

  pub pure-Stays : {A : Type 0} (a : A) → Stays view Safe (pure a)
  unfolding calls
  pure-Stays a = record { stay = λ s sc sw. (sc, sw) }

  pub raise-Stays : {A : Type 0} (e : Error) → Stays view Safe (raise {A = A} e)
  unfolding calls
  raise-Stays e = record { stay = λ s sc sw. (sc, sw) }

  pub flush-Stays : Stays view Safe flush
  unfolding flush
  flush-Stays = record {
    stay = λ s sc sw. elim (Bool-cases (fits s.working)) [
      | inl good ↦ rw good (sc, sw)
      | inr bad ↦ rw bad (sc, sc)
    ];
  }

module _ {V : Type 0} {view : Db → V} {Safe : V → Type 0} {v w : V} where
  pub modify-Keeps :
      (f : Db → Db)
      → ((d : Db) → view (f d) ≡ view d)
      → Keeps view Safe v w (λ _. Unit {0}) (modify f)
  unfolding calls
  modify-Keeps f e = record { keep = λ sv sw s h. (tt, (h.0, e s.working ∙ h.1)) }

  pub flush-Keeps : Keeps view Safe v w (λ _. Unit {0}) flush
  unfolding flush
  flush-Keeps = record {
    keep = λ sv sw s h. elim (Bool-cases (fits s.working)) [
      | inl good ↦ rw good (tt, h)
      | inr bad ↦ rw bad (subst Safe (sym h.0) sv)
    ];
  }

  pub when-Keeps_open :
      (b : Bool) {m : Action (Unit {0})}
      → Keeps view Safe v w (λ _. Unit {0}) m
      → Keeps view Safe v w (λ _. Unit {0}) (when b m)
  unfolding calls
  when-Keeps_open true k = record { keep = k.keep }
  when-Keeps_open false k = record { keep = λ sv sw s h. (tt, h) }

module _ {V : Type 0} {view : Db → V} {Safe : V → Type 0} {v : V} where
  pub commit-Keeps : Keeps view Safe v v (λ _. Unit {0}) commit
  unfolding commit
  commit-Keeps = record {
    keep = λ sv sw s h. elim (Bool-cases (fits s.working)) [
      | inl good ↦ rw good (tt, (h.1, h.1))
      | inr bad ↦ rw bad (subst Safe (sym h.0) sv)
    ];
  }

  pub Keeps-of-Returns :
      {A : Type 0} {a : A} {m : Action A}
      → Returns view v a m
      → Keeps view Safe v v (λ _. Unit {0}) m
  Keeps-of-Returns k = record {
    keep = λ sv sw s h. let (e, holds) = k.return s h in rw e (tt, holds);
  }

module _ {V : Type 0} (view : Db → V) (Safe : V → Type 0) {A : Type 0} (v w : V) where
  Ends-recover_safe :
      (Q : A → Type 0) (handler : Error → Action A) (r : Result A) (s : Session)
      → Safe (view s.committed)
      → Safe (view s.working)
      → ((e : Error) → Refuses view Safe (handler e))
      → Ends view Safe v w Q r s
      → Ends view Safe v w Q (recover handler r s).0 (recover handler r s).1
  Ends-recover_safe Q handler (ok a) s sc sw rescue h = h
  Ends-recover_safe Q handler (err e) s sc sw rescue h =
      Ends-of-Failed view Safe v w Q (handler e s).0 (handler e s).1 ((rescue e).refuse s sc sw)

module _ {V : Type 0} {view : Db → V} {Safe : V → Type 0} {A : Type 0} {v w : V} where
  -- A handler that fails after more writes of its own.
  pub catch-Keeps_refuse :
      {Q : A → Type 0} {m : Action A} (handler : Error → Action A)
      → Keeps view Safe v w Q m
      → Stays view Safe m
      → ((e : Error) → Refuses view Safe (handler e))
      → Keeps view Safe v w Q (catch m handler)
  unfolding calls
  catch-Keeps_refuse {Q} {m} handler km sm rescue = record {
    keep = λ sv sw s h.
        let safe = sm.stay s (subst Safe (sym h.0) sv) (subst Safe (sym h.1) sw) in
        Ends-recover_safe view Safe v w Q handler (m s).0 (m s).1 safe.0 safe.1 rescue
          (km.keep sv sw s h);
  }

module _ {V : Type 0} (view : Db → V) (Safe : V → Type 0) {A : Type 0} (v w : V) where
  Ends-recover_from :
      (Q : A → Type 0) (handler : Error → Action A) (r : Result A) (s : Session)
      → ((e : Error) (t : Session)
          → view t.committed ≡ v
          → Ends view Safe v w Q (handler e t).0 (handler e t).1)
      → Ends view (λ x. x ≡ v) v w Q r s
      → Ends view Safe v w Q (recover handler r s).0 (recover handler r s).1
  Ends-recover_from Q handler (ok a) s rescue h = h
  Ends-recover_from Q handler (err e) s rescue h = rescue e s h

module _ {V : Type 0} {view : Db → V} {Safe : V → Type 0} {A : Type 0} {v : V} where
  -- A handler that may answer: it starts from what was committed before the block.
  pub catch-Keeps_from :
      {Q : A → Type 0} {m : Action A} (handler : Error → Action A)
      → Keeps view (λ x. x ≡ v) v v Q m
      → ((e : Error) (t : Session)
          → view t.committed ≡ v
          → Ends view Safe v v Q (handler e t).0 (handler e t).1)
      → Keeps view Safe v v Q (catch m handler)
  unfolding calls
  catch-Keeps_from {Q} {m} handler km rescue = record {
    keep = λ sv sw s h.
        Ends-recover_from view Safe v v Q handler (m s).0 (m s).1 rescue (km.keep refl refl s h);
  }

module _ {V : Type 0} {view : Db → V} {Safe : V → Type 0} where
  pub rollback-Stays : Stays view Safe rollback
  unfolding rollback
  rollback-Stays = record { stay = λ s sc sw. (sc, sc) }
