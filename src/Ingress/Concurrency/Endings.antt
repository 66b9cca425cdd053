-- ===== src/Ingress/Concurrency/Endings.antt =====
-- That the semaphore of app/main.py keeps no coroutine from its end.
use mathlib.Core.Path.{subst}
use inride_worker_manager.Domain.{DeliveryPolicy}
use inride_worker_manager.Ingress.PubsubSubscriber.{Codec}
use inride_worker_manager.Core.{Config}
use inride_worker_manager.Effect.World.{World, respond}
use inride_worker_manager.Effect.{Prog, call, done}
use inride_worker_manager.Prelude.{
  ◌∙◌, All, List, [], arith, count, refl, suc, zero, ℕ, ◌+◌, ◌<◌, ◌∷◌, ◌≡◌,
}
use inride_worker_manager.Ingress.Concurrency.{
  Coroutine, Loop, LoopEvent, ended, inside, loop_events, resume, resume_at, waits,
}
use inride_worker_manager.Ingress.Concurrency.Turns.{empty_loop, inside_bounded, is_inside}

abbrev pub LoopState : Type 0
LoopState = (ℕ × World) × List Coroutine

-- the state after some turns
pub data Goes : LoopState → LoopState → Type 0 where
  stays : (s : LoopState) → Goes s s
  goes :
      (i permits : ℕ) (w : World) (cs : List Coroutine) (t : LoopState)
      → Goes (resume_at i permits w cs) t
      → Goes ((permits, w), cs) t

Goes-trans : {s t u : LoopState} → Goes s t → Goes t u → Goes s u
Goes-trans (stays s) h = h
Goes-trans (goes i p w cs t g) h = goes i p w cs _ (Goes-trans g h)

-- turns of the later coroutines leave the first one
Goes-tail : (c : Coroutine) {s t : LoopState} → Goes s t → Goes (s.0, c ∷ s.1) (t.0, c ∷ t.1)
unfolding resume_at
Goes-tail c (stays s) = stays (s.0, c ∷ s.1)
Goes-tail c (goes i p w cs t g) = goes (suc i) p w (c ∷ cs) (t.0, c ∷ t.1) (Goes-tail c g)

-- a body that is inside comes to its end, whatever its operations answer
inside-ends :
    (body : Prog (Unit {0})) (p : ℕ) (w : World) (cs : List Coroutine)
    → (v : World) × Goes ((p, w), inside body ∷ cs) ((suc p, v), ended ∷ cs)
unfolding resume_at resume
inside-ends (done r) p w cs =
    (w, goes 0 p w (inside (done r) ∷ cs) ((suc p, w), ended ∷ cs) (stays ((suc p, w), ended ∷ cs)))
inside-ends (call o k) p w cs =
    let (v, g) = inside-ends (k ((respond o w).0)) p ((respond o w).1) cs in
    (v, goes 0 p w (inside (call o k) ∷ cs) ((suc p, v), ended ∷ cs) g)

-- one that waits comes to its end, if a permit is left
waits-ends :
    (body : Prog (Unit {0})) (p : ℕ) (w : World) (cs : List Coroutine)
    → (v : World) × Goes ((suc p, w), waits body ∷ cs) ((suc p, v), ended ∷ cs)
unfolding resume_at resume
waits-ends body p w cs =
    let (v, g) = inside-ends body p w cs in
    (v, goes 0 (suc p) w (waits body ∷ cs) ((suc p, v), ended ∷ cs) g)

-- Those inside can all be brought to their end, and give their permits back.
leave_all :
    (p : ℕ) (w : World) (cs : List Coroutine)
    → (q : ℕ) × (v : World) × (ds : List Coroutine) × Goes ((p, w), cs) ((q, v), ds)
      × (q ≡ p + count is_inside cs)
      × (count is_inside ds ≡ 0)
unfolding count
leave_all p w [] = (p, w, [], stays ((p, w), []), omega arith, refl)
leave_all p w (waits body ∷ cs) =
    let (q, v, ds, g, e, z) = leave_all p w cs in
    (q, v, waits body ∷ ds, Goes-tail (waits body) g, omega (arith, e), omega (arith, z))
leave_all p w (inside body ∷ cs) =
    let (u, h) = inside-ends body p w cs in
    let (q, v, ds, g, e, z) = leave_all (suc p) u cs in
    (q, v, ended ∷ ds, Goes-trans h (Goes-tail ended g), omega (arith, e), omega (arith, z))
leave_all p w (ended ∷ cs) =
    let (q, v, ds, g, e, z) = leave_all p w cs in
    (q, v, ended ∷ ds, Goes-tail ended g, omega (arith, e), omega (arith, z))

abbrev pub AllEnded : List Coroutine → Type 0
AllEnded cs = All (λ c. c ≡ ended) cs

-- Those that wait can be brought to their end one after the other.
serve_all :
    (p : ℕ) (w : World) (cs : List Coroutine)
    → count is_inside cs ≡ 0
    → (v : World) × (ds : List Coroutine) × Goes ((suc p, w), cs) ((suc p, v), ds) × AllEnded ds
unfolding count
serve_all p w [] h = (w, [], stays ((suc p, w), []), tt)
serve_all p w (waits body ∷ cs) h =
    let (u, k) = waits-ends body p w cs in
    let (v, ds, g, a) = serve_all p u cs (omega (arith, h)) in
    (v, ended ∷ ds, Goes-trans k (Goes-tail ended g), (refl, a))
serve_all p w (inside body ∷ cs) h = absurd (omega (arith, h))
serve_all p w (ended ∷ cs) h =
    let (v, ds, g, a) = serve_all p w cs (omega (arith, h)) in
    (v, ended ∷ ds, Goes-tail ended g, (refl, a))

-- the state of the loop
abbrev pub state_of : Loop → LoopState
state_of l = ((l.gate.permits, l.world), l.coroutines)

by_permits :
    (p : ℕ) (w : World) (cs : List Coroutine)
    → 0 < p
    → count is_inside cs ≡ 0
    → (v : World) × (ds : List Coroutine) × Goes ((p, w), cs) ((p, v), ds) × AllEnded ds
by_permits zero w cs h z = absurd (omega (arith, h))
by_permits (suc p) w cs h z = serve_all p w cs z

-- what turns from this state can come to, with these permits
abbrev CanEnd : LoopState → ℕ → Type 0
CanEnd s n = (v : World) × (cs : List Coroutine) × Goes s ((n, v), cs) × AllEnded cs

ends_from :
    (n p : ℕ) (w : World) (cs : List Coroutine)
    → 0 < n
    → p + count is_inside cs ≡ n
    → CanEnd ((p, w), cs) n
ends_from n p w cs h e =
    let (q, u, ds, g, k, z) = leave_all p w cs in
    subst (CanEnd ((p, w), cs)) (k ∙ e) (
      let (v, es, r, a) = by_permits q u ds (omega (arith, h, e, k)) z in
      (v, es, Goes-trans g r, a))

-- With at least one permit: whatever jobs and messages have come, whatever turns the event loop has
-- given and whatever the operations answered, there are further turns after which every coroutine
-- has ended and all permits are back. So no state is a deadlock.
pub can_end :
    (cfg : Config) (policy : DeliveryPolicy) (codec : Codec) (n : ℕ) (w : World)
    (es : List LoopEvent)
    → 0 < n
    → (v : World) × (cs : List Coroutine) × Goes
        (state_of (loop_events cfg policy codec es (empty_loop n w)))
        ((n, v), cs)
      × AllEnded cs
can_end cfg policy codec n w es h =
    let l = loop_events cfg policy codec es (empty_loop n w) in
    ends_from n l.gate.permits l.world l.coroutines h ((inside_bounded cfg policy codec n w es).1)
