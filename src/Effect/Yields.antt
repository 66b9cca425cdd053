-- ===== src/Effect/Yields.antt =====
-- Runs under any schedule of failures: what holds if a program returns, nothing being said of one
-- that raises.
use inride_worker_manager.Effect.{Exn, catch, pure, ◌>>=◌}
use inride_worker_manager.Db.{Db}
use inride_worker_manager.Prelude.{Bool, false, if◌then◌else◌, refl, true, ◌≡◌}
use inride_worker_manager.Effect.{
  Op, Prog, Reply, Result, call, done, increment, ok, perform, publish, raised,
}
use inride_worker_manager.Effect.World.{
  Answer, World, answered, effect, exec, fails_after, fails_before, fine, later_answers,
  next_answer, respond,
}
use inride_worker_manager.Effect.Relates.{respond-Relates, tables}
use inride_worker_manager.Effect.Laws.{continue, exec-bind, exec-catch, recover}
use inride_worker_manager.Effect.Operations.{Makes, MakesOnly}

abbrev pub IfReturned : {A : Type 0} → (A → World → Type 0) → Result A × World → Type 0
IfReturned Q (ok a, v) = Q a v
IfReturned Q (raised e, v) = Unit

pub record Yields {A : Type 0} (Q : A → World → Type 0) (m : Prog A) (w : World) : Type 0 where
  pub at : IfReturned Q (exec m w)

IfReturned-continue :
    {A B : Type 0} (Q : A → World → Type 0) (R : B → World → Type 0) (x : Result A × World)
    (f : A → Prog B)
    → IfReturned Q x
    → ((a : A) (v : World) → Q a v → Yields R (f a) v)
    → IfReturned R (continue x f)
IfReturned-continue Q R (ok a, v) f h g = (g a v h).at
IfReturned-continue Q R (raised e, v) f h g = tt

pub Yields-bind :
    {A B : Type 0} (Q : A → World → Type 0) {R : B → World → Type 0} (m : Prog A) (f : A → Prog B)
    (w : World)
    → Yields Q m w
    → ((a : A) (v : World) → Q a v → Yields R (f a) v)
    → Yields R (m >>= f) w
Yields-bind Q {R = R} m f w h g = record {
  at = rw (exec-bind m f w) (IfReturned-continue Q R (exec m w) f h.at g);
}

abbrev pub Anything : {A : Type 0} → A → World → Type 0
Anything a v = Unit

pub anything : {A : Type 0} (x : Result A × World) → IfReturned Anything x
anything (ok a, v) = tt
anything (raised e, v) = tt

-- after a program of which nothing is known
pub Yields-after :
    {A B : Type 0} {R : B → World → Type 0} (m : Prog A) (f : A → Prog B) (w : World)
    → ((a : A) (v : World) → Yields R (f a) v)
    → Yields R (m >>= f) w
Yields-after m f w g =
    Yields-bind Anything m f w (record { at = anything (exec m w) }) (λ a v u. g a v)

pub Yields-if :
    {A : Type 0} {Q : A → World → Type 0} (b : Bool) (m n : Prog A) (w : World)
    → Yields Q m w
    → Yields Q n w
    → Yields Q (if b then m else n) w
Yields-if true m n w h k = h
Yields-if false m n w h k = k

IfReturned-recover :
    {A : Type 0} (Q : A → World → Type 0) (x : Result A × World) (handler : Exn → Prog A)
    → IfReturned Q x
    → ((e : Exn) (v : World) → Yields Q (handler e) v)
    → IfReturned Q (recover x handler)
IfReturned-recover Q (ok a, v) handler h g = h
IfReturned-recover Q (raised e, v) handler h g = (g e v).at

pub Yields-catch :
    {A : Type 0} {Q : A → World → Type 0} (m : Prog A) (handler : Exn → Prog A) (w : World)
    → Yields Q m w
    → ((e : Exn) (v : World) → Yields Q (handler e) v)
    → Yields Q (catch m handler) w
Yields-catch {Q = Q} m handler w h g = record {
  at = rw (exec-catch m handler w) (IfReturned-recover Q (exec m w) handler h.at g);
}

pub Yields-pure :
    {A : Type 0} {Q : A → World → Type 0} (a : A) (w : World) → Q a w → Yields Q (pure a) w
unfolding exec
Yields-pure a w h = record { at = h }

-- An operation that returns took effect, and returned what its effect does.
answered-yields :
    (o : Op) (a : Answer) (w : World) (Q : Reply o → World → Type 0)
    → Q (effect o w).0 (effect o w).1
    → IfReturned Q (answered o a w)
answered-yields o fine w Q h = h
answered-yields o (fails_before e) w Q h = tt
answered-yields o (fails_after e) w Q h = tt

-- What the tables were, the effect of an operation sees: the schedules are not in the tables.
pub Yields-perform :
    (o : Op) (w : World) (Q : Reply o → World → Type 0)
    → ((v : World) → v.db ≡ w.db → Q (effect o v).0 (effect o v).1)
    → Yields Q (perform o) w
unfolding exec respond
Yields-perform (increment key n) w Q h = record {
  at = answered-yields (increment key n) fine w Q (h w refl);
}
Yields-perform (publish c l d m) w Q h = record {
  at =
      answered-yields (publish c l d m) (next_answer w.expo)
        (record w { expo = later_answers w.expo }) Q (h _ refl);
}
Yields-perform o w Q h = record {
  at =
      answered-yields o (next_answer w.answers) (record w { answers = later_answers w.answers }) Q
        (h _ refl);
}

-- What every operation of a program keeps of the tables, its run keeps, whatever fails.
module _ (P : Op → Type 0) (K : Db → Type 0)
    (step : (o : Op) (w : World) → P o → K w.db → K (effect o w).1.db) where
  Makes-keeps : {A : Type 0} (m : Prog A) (w : World) → Makes P m → K w.db → K (exec m w).1.db
  unfolding exec
  Makes-keeps (done r) w h k = k
  Makes-keeps (call o f) w h k =
      let kept = respond-Relates tables (λ a b. K a → K b) (λ db x. x) o (λ v. step o v h.0) w k in
      let (r, u) = respond o w in Makes-keeps (f r) u (h.1 r) kept

  pub MakesOnly-keeps :
      {A : Type 0} (m : Prog A) (w : World) → MakesOnly P m → K w.db → K (exec m w).1.db
  MakesOnly-keeps m w h = Makes-keeps m w h.at

  IfReturned-world :
      {A : Type 0} (Q : World → Type 0) (x : Result A × World) → Q x.1 → IfReturned (λ a v. Q v) x
  IfReturned-world Q (ok a, v) h = h
  IfReturned-world Q (raised e, v) h = tt

  pub Yields-kept :
      {A : Type 0} (m : Prog A) (w : World) → MakesOnly P m → K w.db → Yields (λ a v. K v.db) m w
  Yields-kept m w h k = record {
    at = IfReturned-world (λ v. K v.db) (exec m w) (MakesOnly-keeps m w h k);
  }
