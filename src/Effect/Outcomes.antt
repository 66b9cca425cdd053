-- ===== src/Effect/Outcomes.antt =====
-- Runs under any schedule of failures: what holds of the world after a program, whether it returns
-- or raises.
use inride_worker_manager.Effect.World.{World, exec}
use inride_worker_manager.Effect.{Prog, Result, ok, raised, ◌>>=◌}
use inride_worker_manager.Effect.Yields.{IfReturned}
use inride_worker_manager.Effect.Laws.{continue, exec-bind}

abbrev pub Outcome :
    {A : Type 0} → (A → World → Type 0) → (World → Type 0) → Result A × World → Type 0
Outcome Q E (ok a, v) = Q a v
Outcome Q E (raised e, v) = E v

pub Outcome-of :
    {A : Type 0} (Q : A → World → Type 0) (N : World → Type 0) (x : Result A × World)
    → IfReturned Q x
    → N x.1
    → Outcome (λ a v. N v × Q a v) N x
Outcome-of Q N (ok a, v) h n = (n, h)
Outcome-of Q N (raised e, v) h n = n

Outcome-continue :
    {A B : Type 0} (Q : A → World → Type 0) (E G : World → Type 0) (x : Result A × World)
    (f : A → Prog B)
    → Outcome Q E x
    → ((a : A) (v : World) → Q a v → G (exec (f a) v).1)
    → ((v : World) → E v → G v)
    → G (continue x f).1
Outcome-continue Q E G (ok a, v) f h g k = g a v h
Outcome-continue Q E G (raised e, v) f h g k = k v h

-- after a program with this outcome, and what follows if it returns
pub Outcome-bind :
    {A B : Type 0} (Q : A → World → Type 0) (E G : World → Type 0) (m : Prog A) (f : A → Prog B)
    (w : World)
    → Outcome Q E (exec m w)
    → ((a : A) (v : World) → Q a v → G (exec (f a) v).1)
    → ((v : World) → E v → G v)
    → G (exec (m >>= f) w).1
Outcome-bind Q E G m f w h g k = rw (exec-bind m f w) (Outcome-continue Q E G (exec m w) f h g k)
