-- ===== src/Repository/Frame.antt =====
-- What the actions over internal/repository keep: a relation between the database before and after,
-- carried from the single queries to the bodies that compose them.
use gitlab_elt.Common.{Bool, true, false, Option, none, some, if◌then◌else◌}
use gitlab_elt.Repository.Connection.{
  Db, Action, Result, ok, err, Err, pure, raise, attempt, or_raise, continue, returned, handle,
  on_error, ◌>>=◌,
}

-- A relation that may be carried along a sequence of calls.
pub record IsFrame (R : Db → Db → Type 0) : Type 0 where
  pub same : (d : Db) → R d d
  pub then_also : (d e f : Db) → R d e → R e f → R d f

pub record Keeps {A : Type 0} (R : Db → Db → Type 0) (m : Action A) : Type 0 where
  pub holds : (d : Db) → R d (m d).1

module _ {R : Db → Db → Type 0} (frame : IsFrame R) {A B : Type 0} where
  continue-Keeps :
      (d : Db) (r : Result A × Db) (f : A → Action B)
      → R d r.1
      → ((a : A) → Keeps R (f a))
      → R d (continue r f).1
  continue-Keeps d (ok a, d') f h k = frame.then_also d d' (f a d').1 h ((k a).holds d')
  continue-Keeps d (err e, d') f h k = h

  pub >>=-Keeps :
      {m : Action A} {f : A → Action B} → Keeps R m → ((a : A) → Keeps R (f a)) → Keeps R (m >>= f)
  >>=-Keeps {m} {f} h k = record { holds = λ d. continue-Keeps d (m d) f (h.holds d) k }

module _ {R : Db → Db → Type 0} (frame : IsFrame R) where
  pub raise-Keeps : (A : Type 0) (e : Err) → Keeps {A = A} R (raise e)
  raise-Keeps A e = record { holds = λ d. frame.same d }

module _ {R : Db → Db → Type 0} (frame : IsFrame R) {A : Type 0} where
  pub pure-Keeps : (a : A) → Keeps R (pure a)
  pure-Keeps a = record { holds = λ d. frame.same d }

  or_raise_keeps : (o : Option A) (e : Err) (d : Db) → R d (or_raise o e d).1
  or_raise_keeps none e d = frame.same d
  or_raise_keeps (some a) e d = frame.same d

  pub or_raise-Keeps : (o : Option A) (e : Err) → Keeps R (or_raise o e)
  or_raise-Keeps o e = record { holds = or_raise_keeps o e }

  attempt_result : (d : Db) (r : Result A × Db) → R d r.1 → R d (returned r).1
  attempt_result d (r, d') h = h

  pub attempt-Keeps : {m : Action A} → Keeps R m → Keeps R (attempt m)
  attempt-Keeps {m} h = record { holds = λ d. attempt_result d (m d) (h.holds d) }

  handle-Keeps :
      (d : Db) (r : Result A × Db) (f : Err → Action A)
      → R d r.1
      → ((e : Err) → Keeps R (f e))
      → R d (handle r f).1
  handle-Keeps d (ok a, d') f h k = h
  handle-Keeps d (err e, d') f h k = frame.then_also d d' (f e d').1 h ((k e).holds d')

  pub on_error-Keeps :
      {m : Action A} {f : Err → Action A}
      → Keeps R m
      → ((e : Err) → Keeps R (f e))
      → Keeps R (on_error m f)
  on_error-Keeps {m} {f} h k = record { holds = λ d. handle-Keeps d (m d) f (h.holds d) k }

  pub if-Keeps : (b : Bool) {m n : Action A} → Keeps R m → Keeps R n → Keeps R (if b then m else n)
  if-Keeps true h k = h
  if-Keeps false h k = k
