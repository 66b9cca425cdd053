-- ===== src/Effect/Settles.antt =====
-- Programs by the acks and nacks they may make: none on any path, or at most one.
pub mod Runs
use inride_worker_manager.Effect.Operations.{Makes, MakesOnly, MakesOnly-bind}
use inride_worker_manager.Prelude.{Bool, true, false, if◌then◌else◌, ◌≡◌, ◌⊎◌, inl, inr}
use inride_worker_manager.Effect.{
  ack, nack, Result, ok, raised, Op, Reply, Prog, perform, done, call, ◌>>=◌,
}

abbrev pub is_settling : Op → Bool
is_settling (ack m) = true
is_settling (nack m) = true
is_settling o = false

abbrev pub Spares : Op → Type 0
Spares o = is_settling o ≡ false

abbrev pub Quiet : {A : Type 0} → Prog A → Type 0
Quiet m = Makes Spares m

-- No path acks or nacks anything.
abbrev pub IsQuiet : {A : Type 0} → Prog A → Type 0
IsQuiet m = MakesOnly Spares m

abbrev pub Once : {A : Type 0} → Prog A → Type 0
Once (done r) = Unit
Once (call o k) =
    ((r : Result (Reply o)) → Quiet (k r))
    ⊎ ((is_settling o ≡ false) × ((r : Result (Reply o)) → Once (k r)))

-- No path acks or nacks more than once.
pub record SettlesOnce {A : Type 0} (m : Prog A) : Type 0 where
  pub at : Once m

Once-bind :
    {A B : Type 0} (m : Prog A) (f : A → Prog B)
    → Quiet m
    → ((a : A) → SettlesOnce (f a))
    → Once (m >>= f)
unfolding ◌>>=◌
Once-bind (done (ok a)) f h g = (g a).at
Once-bind (done (raised e)) f h g = tt
Once-bind (call o k) f h g = inr (h.0, λ r. Once-bind (k r) f (h.1 r) g)

Once-Quiet : {A : Type 0} (m : Prog A) → Quiet m → Once m
Once-Quiet (done r) h = tt
Once-Quiet (call o k) h = inl h.1

Once-then :
    {A B : Type 0} (m : Prog A) (f : A → Prog B)
    → Once m
    → ((a : A) → IsQuiet (f a))
    → Once (m >>= f)
unfolding ◌>>=◌
Once-then (done (ok a)) f h g = Once-Quiet (f a) (g a).at
Once-then (done (raised e)) f h g = tt
Once-then (call o k) f (inl h) g = inl (λ r. (MakesOnly-bind (k r) f (record { at = h r }) g).at)
Once-then (call o k) f (inr h) g = inr (h.0, λ r. Once-then (k r) f (h.1 r) g)

pub SettlesOnce-bind :
    {A B : Type 0} (m : Prog A) (f : A → Prog B)
    → IsQuiet m
    → ((a : A) → SettlesOnce (f a))
    → SettlesOnce (m >>= f)
SettlesOnce-bind m f h g = record { at = Once-bind m f h.at g }

pub SettlesOnce-then :
    {A B : Type 0} (m : Prog A) (f : A → Prog B)
    → SettlesOnce m
    → ((a : A) → IsQuiet (f a))
    → SettlesOnce (m >>= f)
SettlesOnce-then m f h g = record { at = Once-then m f h.at g }

pub SettlesOnce-perform : (o : Op) → SettlesOnce (perform o)
SettlesOnce-perform o = record { at = inl (λ r. tt) }

pub SettlesOnce-if :
    {A : Type 0} (b : Bool) (m n : Prog A)
    → SettlesOnce m
    → SettlesOnce n
    → SettlesOnce (if b then m else n)
SettlesOnce-if true m n h k = h
SettlesOnce-if false m n h k = k
