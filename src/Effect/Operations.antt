-- ===== src/Effect/Operations.antt =====
-- Programs by the operations that they may make, on any path.
use inride_worker_manager.Prelude.{Bool, true, false, if◌then◌else◌}
use inride_worker_manager.Effect.{
  Exn, Result, ok, raised, Op, Reply, Prog, pure, raise, perform, done, call, ◌>>=◌, catch, when,
}

module _ (P : Op → Type 0) where
  abbrev pub Makes : {A : Type 0} → Prog A → Type 0
  Makes (done r) = Unit
  Makes (call o k) = P o × ((r : Result (Reply o)) → Makes (k r))

  -- Every operation of the program, on every path, is one of these.
  pub record MakesOnly {A : Type 0} (m : Prog A) : Type 0 where
    pub at : Makes m

  Makes-bind :
      {A B : Type 0} (m : Prog A) (f : A → Prog B)
      → Makes m
      → ((a : A) → MakesOnly (f a))
      → Makes (m >>= f)
  unfolding ◌>>=◌
  Makes-bind (done (ok a)) f h g = (g a).at
  Makes-bind (done (raised e)) f h g = tt
  Makes-bind (call o k) f h g = (h.0, λ r. Makes-bind (k r) f (h.1 r) g)

  Makes-catch :
      {A : Type 0} (m : Prog A) (handler : Exn → Prog A)
      → Makes m
      → ((e : Exn) → MakesOnly (handler e))
      → Makes (catch m handler)
  unfolding catch
  Makes-catch (done (ok a)) handler h g = tt
  Makes-catch (done (raised e)) handler h g = (g e).at
  Makes-catch (call o k) handler h g = (h.0, λ r. Makes-catch (k r) handler (h.1 r) g)

module _ {P : Op → Type 0} where
  pub MakesOnly-pure : {A : Type 0} (a : A) → MakesOnly P (pure a)
  MakesOnly-pure a = record { at = tt }

  pub MakesOnly-raise : {A : Type 0} (e : Exn) → MakesOnly P (raise {A = A} e)
  MakesOnly-raise e = record { at = tt }

  pub MakesOnly-bind :
      {A B : Type 0} (m : Prog A) (f : A → Prog B)
      → MakesOnly P m
      → ((a : A) → MakesOnly P (f a))
      → MakesOnly P (m >>= f)
  MakesOnly-bind m f h g = record { at = Makes-bind P m f h.at g }

  pub MakesOnly-perform : (o : Op) → P o → MakesOnly P (perform o)
  MakesOnly-perform o h = record { at = (h, λ r. tt) }

  -- one such operation, and then the rest
  pub MakesOnly-step :
      {B : Type 0} (o : Op) (f : Reply o → Prog B)
      → P o
      → ((a : Reply o) → MakesOnly P (f a))
      → MakesOnly P (perform o >>= f)
  MakesOnly-step o f h g = MakesOnly-bind (perform o) f (MakesOnly-perform o h) g

  pub MakesOnly-catch :
      {A : Type 0} (m : Prog A) (handler : Exn → Prog A)
      → MakesOnly P m
      → ((e : Exn) → MakesOnly P (handler e))
      → MakesOnly P (catch m handler)
  MakesOnly-catch m handler h g = record { at = Makes-catch P m handler h.at g }

  pub MakesOnly-if :
      {A : Type 0} (b : Bool) (m n : Prog A)
      → MakesOnly P m
      → MakesOnly P n
      → MakesOnly P (if b then m else n)
  MakesOnly-if true m n h k = h
  MakesOnly-if false m n h k = k

  pub MakesOnly-when : (b : Bool) (m : Prog (Unit {0})) → MakesOnly P m → MakesOnly P (when b m)
  MakesOnly-when true m h = h
  MakesOnly-when false m h = MakesOnly-pure tt

pub ruleset only_rules =
    (MakesOnly-pure, MakesOnly-raise, MakesOnly-bind, MakesOnly-catch, MakesOnly-if, MakesOnly-when)

module _ {P Q : Op → Type 0} (weaker : (o : Op) → P o → Q o) where
  Makes-weaken : {A : Type 0} (m : Prog A) → Makes P m → Makes Q m
  Makes-weaken (done r) h = tt
  Makes-weaken (call o k) h = (weaker o h.0, λ r. Makes-weaken (k r) (h.1 r))

  -- A program that makes only some operations makes only operations of a larger kind.
  pub MakesOnly-weaken : {A : Type 0} (m : Prog A) → MakesOnly P m → MakesOnly Q m
  MakesOnly-weaken m h = record { at = Makes-weaken m h.at }
