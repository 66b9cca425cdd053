-- ===== src/Protocol/Rules.antt =====
-- How the discipline composes: one rule for each way to build a program.
use inride_worker_manager.Prelude.{Bool, true, false, if◌then◌else◌}
use inride_worker_manager.Effect.{
  Exn, Result, ok, raised, Op, Reply, Prog, pure, raise, perform, done, call, ◌>>=◌, catch, when,
}
use inride_worker_manager.Protocol.{Phase, Obeys, Allowed, Anyhow, IsFree, next}

module _ {A B : Type 0} (Q : Phase → Result A → Type 0) (R : Phase → Result B → Type 0) where
  pub Obeys-bind :
      (p : Phase) (m : Prog A) (f : A → Prog B)
      → Obeys Q p m
      → ((q : Phase) (a : A) → Q q (ok a) → Obeys R q (f a))
      → ((q : Phase) (e : Exn) → Q q (raised e) → R q (raised e))
      → Obeys R p (m >>= f)
  unfolding ◌>>=◌
  Obeys-bind p (done (ok a)) f h g x = g p a h
  Obeys-bind p (done (raised e)) f h g x = x p e h
  Obeys-bind p (call o k) f h g x = (h.0, λ r. Obeys-bind (next p o r) (k r) f (h.1 r) g x)

module _ {A : Type 0} (Q R : Phase → Result A → Type 0) where
  pub Obeys-catch :
      (p : Phase) (m : Prog A) (handler : Exn → Prog A)
      → Obeys Q p m
      → ((q : Phase) (a : A) → Q q (ok a) → R q (ok a))
      → ((q : Phase) (e : Exn) → Q q (raised e) → Obeys R q (handler e))
      → Obeys R p (catch m handler)
  unfolding catch
  Obeys-catch p (done (ok a)) handler h g x = g p a h
  Obeys-catch p (done (raised e)) handler h g x = x p e h
  Obeys-catch p (call o k) handler h g x =
      (h.0, λ r. Obeys-catch (next p o r) (k r) handler (h.1 r) g x)

pub IsFree-pure : {A : Type 0} (a : A) → IsFree (pure a)
IsFree-pure a = record { at = λ p. tt }

pub IsFree-raise : {A : Type 0} (e : Exn) → IsFree (raise {A = A} e)
IsFree-raise e = record { at = λ p. tt }

pub IsFree-bind :
    {A B : Type 0} (m : Prog A) (f : A → Prog B)
    → IsFree m
    → ((a : A) → IsFree (f a))
    → IsFree (m >>= f)
IsFree-bind m f h g = record {
  at = λ p. Obeys-bind Anyhow Anyhow p m f (h.at p) (λ q a _. (g a).at q) (λ q e _. tt);
}

-- an operation that any phase allows, and then the rest
pub IsFree-step :
    {B : Type 0} (o : Op) (f : Reply o → Prog B)
    → ((p : Phase) → Allowed p o)
    → ((a : Reply o) → IsFree (f a))
    → IsFree (perform o >>= f)
unfolding ◌>>=◌
IsFree-step o f h g = record {
  at = λ p.
      Obeys-bind Anyhow Anyhow p (perform o) f (h p, λ r. tt) (λ q a _. (g a).at q) (λ q e _. tt);
}

pub IsFree-catch :
    {A : Type 0} (m : Prog A) (handler : Exn → Prog A)
    → IsFree m
    → ((e : Exn) → IsFree (handler e))
    → IsFree (catch m handler)
IsFree-catch m handler h g = record {
  at = λ p. Obeys-catch Anyhow Anyhow p m handler (h.at p) (λ q a _. tt) (λ q e _. (g e).at q);
}

pub IsFree-if :
    {A : Type 0} (b : Bool) (m n : Prog A) → IsFree m → IsFree n → IsFree (if b then m else n)
IsFree-if true m n h k = h
IsFree-if false m n h k = k

pub IsFree-when : (b : Bool) (m : Prog (Unit {0})) → IsFree m → IsFree (when b m)
IsFree-when true m h = h
IsFree-when false m h = IsFree-pure tt

pub ruleset free_rules =
    (IsFree-pure, IsFree-raise, IsFree-bind, IsFree-catch, IsFree-if, IsFree-when)
