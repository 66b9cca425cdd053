-- ===== src/Ingress/Concurrency/Turns.antt =====
-- How many jobs and messages are handled at once under the semaphore of app/main.py.
use inride_worker_manager.Ingress.PubsubSubscriber.{Codec}
use inride_worker_manager.Effect.World.{World}
use inride_worker_manager.Effect.{call, done}
use inride_worker_manager.Domain.{DeliveryPolicy}
use inride_worker_manager.Core.{Config}
use inride_worker_manager.Prelude.{
  Bool, List, [], arith, count, count-append, false, one_if, refl, suc, true, zero, ℕ, ◌+◌, ◌∙◌,
  ◌∷◌, ◌≡◌, ◌≤◌,
}
use inride_worker_manager.Ingress.Concurrency.{
  Coroutine, Loop, LoopEvent, loop_event, loop_events, comes, coroutine_of, ended, inside, job_work,
  message_work, resume, resume_at, semaphore, turn, waits,
}

abbrev pub is_inside : Coroutine → Bool
is_inside (waits body) = false
is_inside (inside body) = true
is_inside ended = false

abbrev pub is_waiting : Coroutine → Bool
is_waiting (waits body) = true
is_waiting (inside body) = false
is_waiting ended = false

-- the event loop before the first coroutine
abbrev pub empty_loop : ℕ → World → Loop
empty_loop n w = record { gate = semaphore n; world = w; coroutines = [] }

-- the permits that are left and those that are held
abbrev all_permits : Loop → ℕ
all_permits l = l.gate.permits + count is_inside l.coroutines

permits-resume :
    (permits : ℕ) (w : World) (c : Coroutine)
    → (resume permits w c).0.0 + one_if (is_inside ((resume permits w c).1))
      ≡ permits + one_if (is_inside c)
unfolding resume
permits-resume zero w (waits body) = refl
permits-resume (suc permits) w (waits body) = omega arith
permits-resume permits w (inside (done r)) = omega arith
permits-resume permits w (inside (call o k)) = refl
permits-resume permits w ended = refl

permits-resume_at :
    (i permits : ℕ) (w : World) (cs : List Coroutine)
    → (resume_at i permits w cs).0.0 + count is_inside ((resume_at i permits w cs).1)
      ≡ permits + count is_inside cs
unfolding resume_at count
permits-resume_at i permits w [] = refl
permits-resume_at zero permits w (c ∷ cs) = ground (arith, permits-resume permits w c)
permits-resume_at (suc i) permits w (c ∷ cs) = omega (arith, permits-resume_at i permits w cs)

module _ (cfg : Config) (policy : DeliveryPolicy) (codec : Codec) where
  permits-event :
      (e : LoopEvent) (l : Loop) → all_permits (loop_event cfg policy codec e l) ≡ all_permits l
  unfolding loop_event coroutine_of count
  permits-event (comes (job_work job)) l = omega (arith, count-append is_inside l.coroutines _)
  permits-event (comes (message_work m id)) l = omega (arith, count-append is_inside l.coroutines _)
  permits-event (turn i) l = permits-resume_at i l.gate.permits l.world l.coroutines

  permits-events :
      (es : List LoopEvent) (l : Loop)
      → all_permits (loop_events cfg policy codec es l) ≡ all_permits l
  unfolding loop_events
  permits-events [] l = refl
  permits-events (e ∷ es) l =
      permits-events es (loop_event cfg policy codec e l) ∙ permits-event e l

  -- However jobs and messages come and the event loop gives its turns, at most as many of them are
  -- inside as the semaphore has permits, and those inside and the permits left add up to it.
  pub inside_bounded :
      (n : ℕ) (w : World) (es : List LoopEvent)
      → let l = loop_events cfg policy codec es (empty_loop n w) in
        (count is_inside l.coroutines ≤ n) × (l.gate.permits + count is_inside l.coroutines ≡ n)
  unfolding count
  inside_bounded n w es =
      let kept = permits-events es (empty_loop n w) in (omega (arith, kept), omega (arith, kept))
