-- ===== src/Bank/Rules.antt =====
-- Rules for service calls. A proof follows one view of the tables, such as the ledger: what the
-- committed tables show (`v`), what the open transaction shows (`w`), and what must be true of
-- the committed tables when the call fails (`Safe`).
pub mod Steps
pub mod Runs
pub mod Handlers
pub mod Open
pub mod Lands
pub mod Ensures
use sitbank.Base.{◌≡◌}
use sitbank.Bank.Store.{Db, Session, Result, calls, Action, resume, ◌>>=◌, ok, err}

module _ {V : Type 0} (view : Db → V) where
  abbrev pub Holds : V → V → Session → Type 0
  Holds v w s = (view s.committed ≡ v) × (view s.working ≡ w)

  module _ (Safe : V → Type 0) where
    abbrev pub Ends : {A : Type 0} → V → V → (A → Type 0) → Result A → Session → Type 0
    Ends v w Q (ok a) s = Q a × Holds v w s
    Ends v w Q (err e) s = Safe (view s.committed)

    -- The call changes nothing in view, and a result satisfies `Q`; a failure is safe.
    pub record Keeps {A : Type 0} (v w : V) (Q : A → Type 0) (m : Action A) : Type 0 where
      pub keep : Safe v → Safe w → (s : Session) → Holds v w s → Ends v w Q (m s).0 (m s).1

    abbrev pub Settled : {A : Type 0} → (V → Type 0) → Result A → Session → Type 0
    Settled P (ok a) s = P (view s.committed) × (view s.working ≡ view s.committed)
    Settled P (err e) s = Safe (view s.committed)

    -- The call commits what satisfies `P` and leaves nothing open, or fails safely.
    pub record Settles {A : Type 0} (v w : V) (P : V → Type 0) (m : Action A) : Type 0 where
      pub settle : Safe v → Safe w → (s : Session) → Holds v w s → Settled P (m s).0 (m s).1

    -- The same when the open transaction is no longer safe to commit by itself.
    pub record Concludes {A : Type 0} (v w : V) (P : V → Type 0) (m : Action A) : Type 0 where
      pub conclude : Safe v → (s : Session) → Holds v w s → Settled P (m s).0 (m s).1

    abbrev pub Turns : {A : Type 0} → V → (A → V) → (A → Type 0) → Result A → Session → Type 0
    Turns v w' Q (ok a) s = Q a × Holds v (w' a) s
    Turns v w' Q (err e) s = Safe (view s.committed)

    -- The call turns the view `w` of the open transaction to `w'`, or fails safely.
    pub record Changes {A : Type 0} (v w : V) (w' : A → V) (Q : A → Type 0) (m : Action A)
        : Type 0 where
      pub change : Safe v → Safe w → (s : Session) → Holds v w s → Turns v w' Q (m s).0 (m s).1

    -- The call may commit or roll back, but what it leaves is safe, both as it ends and as it
    -- fails.
    pub record Stays {A : Type 0} (m : Action A) : Type 0 where
      pub stay :
          (s : Session)
          → Safe (view s.committed)
          → Safe (view s.working)
          → Safe (view (m s).1.committed) × Safe (view (m s).1.working)

    abbrev pub Failed : {A : Type 0} → Result A → Session → Type 0
    Failed (ok a) s = ⊥
    Failed (err e) s = Safe (view s.committed)

    -- The call always fails, safely.
    pub record Refuses {A : Type 0} (m : Action A) : Type 0 where
      pub refuse :
          (s : Session) → Safe (view s.committed) → Safe (view s.working) → Failed (m s).0 (m s).1

  -- The call cannot fail: it returns `a` and changes nothing in view.
  pub record Returns {A : Type 0} (v : V) (a : A) (m : Action A) : Type 0 where
    pub return : (s : Session) → Holds v v s → ((m s).0 ≡ ok a) × Holds v v (m s).1

module _ {V : Type 0} {view : Db → V} {Safe : V → Type 0} {A B : Type 0} {v w : V} where
  Ends-resume :
      {Q : A → Type 0} (f : A → Action B) (R : B → Type 0) (r : Result A) (s : Session)
      → Safe v
      → Safe w
      → ((a : A) → Q a → Keeps view Safe v w R (f a))
      → Ends view Safe v w Q r s
      → Ends view Safe v w R (resume f r s).0 (resume f r s).1
  Ends-resume f R (ok a) s sv sw kf e = (kf a e.0).keep sv sw s e.1
  Ends-resume f R (err x) s sv sw kf e = e

  Settled-resume :
      {Q : A → Type 0} (f : A → Action B) (P : V → Type 0) (r : Result A) (s : Session)
      → Safe v
      → Safe w
      → ((a : A) → Q a → Settles view Safe v w P (f a))
      → Ends view Safe v w Q r s
      → Settled view Safe P (resume f r s).0 (resume f r s).1
  Settled-resume f P (ok a) s sv sw kf e = (kf a e.0).settle sv sw s e.1
  Settled-resume f P (err x) s sv sw kf e = e

  Turns-resume :
      {Q : A → Type 0} (f : A → Action B) (w' : B → V) (R : B → Type 0) (r : Result A) (s : Session)
      → Safe v
      → Safe w
      → ((a : A) → Q a → Changes view Safe v w w' R (f a))
      → Ends view Safe v w Q r s
      → Turns view Safe v w' R (resume f r s).0 (resume f r s).1
  Turns-resume f w' R (ok a) s sv sw kf e = (kf a e.0).change sv sw s e.1
  Turns-resume f w' R (err x) s sv sw kf e = e

module _ {V : Type 0} {view : Db → V} {Safe : V → Type 0} {A B : Type 0} {v : V} where
  Settled-resume_change :
      {Q : A → Type 0} (f : A → Action B) (w' : A → V) (P : V → Type 0) (r : Result A) (s : Session)
      → Safe v
      → ((a : A) → Q a → Safe (w' a))
      → ((a : A) → Q a → Settles view Safe v (w' a) P (f a))
      → Turns view Safe v w' Q r s
      → Settled view Safe P (resume f r s).0 (resume f r s).1
  Settled-resume_change f w' P (ok a) s sv safe kf e = (kf a e.0).settle sv (safe a e.0) s e.1
  Settled-resume_change f w' P (err x) s sv safe kf e = e

module _ {V : Type 0} {view : Db → V} {Safe : V → Type 0} {A B : Type 0} {v w : V} {Q : A → Type 0}
    {m : Action A} {f : A → Action B} where
  pub Keeps-bind :
      {R : B → Type 0}
      → Keeps view Safe v w Q m
      → ((a : A) → Q a → Keeps view Safe v w R (f a))
      → Keeps view Safe v w R (m >>= f)
  unfolding calls
  Keeps-bind {R} km kf = record {
    keep = λ sv sw s h. Ends-resume f R (m s).0 (m s).1 sv sw kf (km.keep sv sw s h);
  }

  pub Settles-bind :
      {P : V → Type 0}
      → Keeps view Safe v w Q m
      → ((a : A) → Q a → Settles view Safe v w P (f a))
      → Settles view Safe v w P (m >>= f)
  unfolding calls
  Settles-bind {P} km kf = record {
    settle = λ sv sw s h. Settled-resume f P (m s).0 (m s).1 sv sw kf (km.keep sv sw s h);
  }

  pub Changes-bind :
      {w' : B → V} {R : B → Type 0}
      → Keeps view Safe v w Q m
      → ((a : A) → Q a → Changes view Safe v w w' R (f a))
      → Changes view Safe v w w' R (m >>= f)
  unfolding calls
  Changes-bind {w'} {R} km kf = record {
    change = λ sv sw s h. Turns-resume f w' R (m s).0 (m s).1 sv sw kf (km.keep sv sw s h);
  }

  pub Settles-bind_change :
      {w' : A → V} {P : V → Type 0}
      → Changes view Safe v w w' Q m
      → ((a : A) → Q a → Safe (w' a))
      → ((a : A) → Q a → Settles view Safe v (w' a) P (f a))
      → Settles view Safe v w P (m >>= f)
  unfolding calls
  Settles-bind_change {w'} {P} km safe kf = record {
    settle =
        λ sv sw s h. Settled-resume_change f w' P (m s).0 (m s).1 sv safe kf (km.change sv sw s h);
  }

module _ {V : Type 0} {view : Db → V} {A B : Type 0} {v : V} {a : A} {b : B} {m : Action A}
    (f : A → Action B) where
  pub Returns-bind : Returns view v a m → Returns view v b (f a) → Returns view v b (m >>= f)
  unfolding calls
  Returns-bind km kf = record {
    return = λ s h. rw (km.return s h).0 (kf.return (m s).1 (km.return s h).1);
  }

module _ {V : Type 0} {view : Db → V} {Safe : V → Type 0} {A B : Type 0} where
  Failed-resume :
      (f : A → Action B) (r : Result A) (s : Session)
      → Safe (view s.committed)
      → Safe (view s.working)
      → ((a : A) → Refuses view Safe (f a))
      → Failed view Safe (resume f r s).0 (resume f r s).1
  Failed-resume f (ok a) s sc sw kf = (kf a).refuse s sc sw
  Failed-resume f (err x) s sc sw kf = sc

  pub Refuses-bind :
      {m : Action A} {f : A → Action B}
      → Stays view Safe m
      → ((a : A) → Refuses view Safe (f a))
      → Refuses view Safe (m >>= f)
  unfolding calls
  Refuses-bind {m} {f} km kf = record {
    refuse =
        λ s sc sw. let safe = km.stay s sc sw in Failed-resume f (m s).0 (m s).1 safe.0 safe.1 kf;
  }
