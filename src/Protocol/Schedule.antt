-- ===== src/Protocol/Schedule.antt =====
-- Interleavings as explicit sequences: a schedule names the thread that makes each next operation.
use inride_worker_manager.Protocol.Ledger.{Steps, one_more}
use inride_worker_manager.Domain.{DeliveryPolicy}
use inride_worker_manager.Core.{Config}
use inride_worker_manager.Ingress.PubsubSubscriber.{Codec}
use inride_worker_manager.Prelude.{List, [], refl, ℕ, ◌∷◌, ◌≡◌}
use inride_worker_manager.Effect.{Prog, call, done}
use inride_worker_manager.Protocol.System.{act, Reach, System, advance, later}

unfoldable pub step_thread : System → ℕ → Prog (Unit {0}) → System
step_thread s i (done r) = s
step_thread s i (call o k) = advance s i o k

unfoldable pub run : List ℕ → System → System
unfolding step_thread
run [] s = s
run (i ∷ is) s = run is (step_thread s i (s.prog i))

module _ {cfg : Config} {policy : DeliveryPolicy} {codec : Codec} where
  step_thread-Reach :
      (s : System) (i : ℕ) (m : Prog (Unit {0}))
      → Reach cfg policy codec s
      → s.prog i ≡ m
      → Reach cfg policy codec (step_thread s i m)
  unfolding step_thread
  step_thread-Reach s i (done r) h e = h
  step_thread-Reach s i (call o k) h e = later h (act s i o k e)

  -- Every schedule leads from a reachable state to a reachable state.
  pub run-Reach :
      (schedule : List ℕ) (s : System)
      → Reach cfg policy codec s
      → Reach cfg policy codec (run schedule s)
  unfolding run
  run-Reach [] s h = h
  run-Reach (i ∷ is) s h = run-Reach is _ (step_thread-Reach s i (s.prog i) h refl)

  step_thread-Steps :
      (r s : System) (i : ℕ) (m : Prog (Unit {0}))
      → Steps cfg policy codec r s
      → s.prog i ≡ m
      → Steps cfg policy codec r (step_thread s i m)
  unfolding step_thread
  step_thread-Steps r s i (done x) h e = h
  step_thread-Steps r s i (call o k) h e = one_more h (act s i o k e)

  -- every schedule makes steps
  pub run-Steps :
      (schedule : List ℕ) (r s : System)
      → Steps cfg policy codec r s
      → Steps cfg policy codec r (run schedule s)
  unfolding run
  run-Steps [] r s h = h
  run-Steps (i ∷ is) r s h = run-Steps is r _ (step_thread-Steps r s i (s.prog i) h refl)
