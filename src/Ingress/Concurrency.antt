-- ===== src/Ingress/Concurrency.antt =====
-- The semaphore of app/main.py that bounds how many notifications are handled at once: `_run` in
-- app/ingress/pending_poller.py and `_handle` in app/ingress/pubsub_subscriber.py do their work
-- inside `async with self.semaphore`.
pub mod Turns
pub mod Endings
use inride_worker_manager.Prelude.{
  negsuc, pos, ℤ, ℕ, zero, suc, Option, none, some, List, [], ◌∷◌, ◌++◌,
}
use inride_worker_manager.Core.{Config}
use inride_worker_manager.Domain.{DeliveryJob, DeliveryPolicy, Uuid}
use inride_worker_manager.Effect.{Prog, call, done}
use inride_worker_manager.Effect.World.{World, respond}
use inride_worker_manager.Ingress.PendingPoller.{run_job}
use inride_worker_manager.Ingress.PubsubSubscriber.{Codec, Message, handle}

-- asyncio.Semaphore: the permits that are left
pub record Semaphore : Type 0 where
  pub permits : ℕ

abbrev pub semaphore : ℕ → Semaphore
semaphore n = record { permits = n }

-- `asyncio.Semaphore(value)`: `none` is a ValueError
unfoldable pub new_semaphore : ℤ → Option Semaphore
new_semaphore (pos n) = some (semaphore n)
new_semaphore (negsuc n) = none

-- A coroutine waits at `async with` with its body, is inside with what is left of the body, or has
-- ended.
pub data Coroutine : Type 0 where
  waits : Prog (Unit {0}) → Coroutine
  inside : Prog (Unit {0}) → Coroutine
  ended : Coroutine

-- The event loop: the shared semaphore, the world that the bodies work on, and the coroutines in
-- the order in which they were created.
pub record Loop : Type 0 where
  pub gate : Semaphore
  pub world : World
  pub coroutines : List Coroutine

abbrev pub entered : ℕ → World → Prog (Unit {0}) → (ℕ × World) × Coroutine
entered zero w body = ((zero, w), waits body)
entered (suc permits) w body = ((permits, w), inside body)

-- A turn of a coroutine: it gets a permit or goes on waiting; it makes the next operation of its
-- body; or, where the body has returned or raised, it gives the permit back.
unfoldable pub resume : ℕ → World → Coroutine → (ℕ × World) × Coroutine
resume permits w (waits body) = entered permits w body
resume permits w (inside (done r)) = ((suc permits, w), ended)
resume permits w (inside (call o k)) = let (r, v) = respond o w in ((permits, v), inside (k r))
resume permits w ended = ((permits, w), ended)

-- the turn of the coroutine at this place; where there is none, nothing happens
unfoldable pub resume_at : ℕ → ℕ → World → List Coroutine → (ℕ × World) × List Coroutine
unfolding resume
resume_at i permits w [] = ((permits, w), [])
resume_at zero permits w (c ∷ cs) = let (s, d) = resume permits w c in (s, d ∷ cs)
resume_at (suc i) permits w (c ∷ cs) = let (s, ds) = resume_at i permits w cs in (s, c ∷ ds)

-- a job of a tick, or a message that names a notification
pub data Work : Type 0 where
  job_work : DeliveryJob → Work
  message_work : Message → Uuid → Work

pub data LoopEvent : Type 0 where
  comes : Work → LoopEvent
  turn : ℕ → LoopEvent

module _ (cfg : Config) (policy : DeliveryPolicy) (codec : Codec) where
  -- `_run(job)` and `_handle()`: the body stands under `async with self.semaphore`
  unfoldable pub coroutine_of : Work → Coroutine
  coroutine_of (job_work job) = waits (run_job cfg policy job)
  coroutine_of (message_work m id) = waits (handle cfg policy codec m id)

  unfoldable pub loop_event : LoopEvent → Loop → Loop
  unfolding coroutine_of resume_at
  loop_event (comes work) l = record l { coroutines = l.coroutines ++ coroutine_of work ∷ [] }
  loop_event (turn i) l =
      let ((permits, w), cs) = resume_at i l.gate.permits l.world l.coroutines in
      record { gate = semaphore permits; world = w; coroutines = cs }

  unfoldable pub loop_events : List LoopEvent → Loop → Loop
  unfolding loop_event
  loop_events [] l = l
  loop_events (e ∷ es) l = loop_events es (loop_event e l)
