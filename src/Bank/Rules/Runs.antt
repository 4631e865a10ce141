-- ===== src/Bank/Rules/Runs.antt =====
-- Steps that pass: a call that returns hands its result and session to the rest.
use sitbank.Base.{◌≡◌, refl, some, false, Bool, Option}
use sitbank.Bank.Store.{
  Action, Session, Result, ok, calls, ◌>>=◌, when, or_else, pure, Db, gets, modify,
}

-- From session `s` the call returns `a` and leaves `t`.
pub record Passes {A : Type 0} (m : Action A) (s : Session) (a : A) (t : Session) : Type 0 where
  pub passes : m s ≡ (ok a, t)

-- From session `s` the call ends with the result `x`.
pub record Gives {A : Type 0} (m : Action A) (s : Session) (x : Result A) : Type 0 where
  pub gives : (m s).0 ≡ x

pub Gives-bind :
    {A B : Type 0} {m : Action A} (f : A → Action B) {s t : Session} {a : A} {x : Result B}
    → Passes m s a t
    → Gives (f a) t x
    → Gives (m >>= f) s x
unfolding calls
Gives-bind f e h = record { gives = rw e.passes h.gives }

pub Passes-bind :
    {A B : Type 0} {m : Action A} (f : A → Action B) {s t u : Session} {a : A} {b : B}
    → Passes m s a t
    → Passes (f a) t b u
    → Passes (m >>= f) s b u
unfolding calls
Passes-bind f e h = record { passes = rw e.passes h.passes }

pub when-Passes :
    {b : Bool} (m : Action (Unit {0})) {s : Session} → b ≡ false → Passes (when b m) s tt s
unfolding calls
when-Passes m h = record { passes = rw h refl }

pub or_else-Passes :
    {A : Type 0} {o : Option A} (m : Action A) {a : A} {s : Session}
    → o ≡ some a
    → Passes (or_else o m) s a s
unfolding calls
or_else-Passes m h = record { passes = rw h refl }

pub gets-Passes : {A : Type 0} (f : Db → A) {s : Session} → Passes (gets f) s (f s.working) s
unfolding calls
gets-Passes f = record { passes = refl }

pub modify-Passes :
    (f : Db → Db) {s : Session} → Passes (modify f) s tt (record s { working = f s.working })
unfolding calls
modify-Passes f = record { passes = refl }

pub pure-Passes : {A : Type 0} (a : A) {s : Session} → Passes (pure a) s a s
unfolding calls
pure-Passes a = record { passes = refl }
