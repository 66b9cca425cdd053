-- ===== src/Ingress/PendingPoller.antt =====
-- app/ingress/pending_poller.py: one tick of the fallback poller, and its loop over `rounds` ticks.
-- The jobs of a tick run one after another here, and interleaved with everything else in Protocol.
use inride_worker_manager.Prelude.{ℕ, zero, suc, List, [], ◌∷◌}
use inride_worker_manager.Domain.{DeliveryJob, DeliveryPolicy}
use inride_worker_manager.Core.{Config}
use inride_worker_manager.Effect.{Prog, pure, ◌>>=◌, ◌>>◌, catch}
use inride_worker_manager.Pipeline.Claimer.{claim_pending_batch}
use inride_worker_manager.Pipeline.Runner.{process_job}
use inride_worker_manager.Ingress.Reclaim.{reclaim_stale}

module _ (cfg : Config) (policy : DeliveryPolicy) where
  -- `_run(job)` under `gather(…, return_exceptions=True)`: its result or exception is dropped
  unfoldable pub run_job : DeliveryJob → Prog (Unit {0})
  run_job job = catch (do result ← process_job cfg policy job; pure tt) (λ e. pure tt)

  unfoldable pub run_jobs : List DeliveryJob → Prog (Unit {0})
  unfolding run_job
  run_jobs [] = pure tt
  run_jobs (job ∷ jobs) = do run_job job; run_jobs jobs

  unfoldable pub tick : Prog (Unit {0})
  unfolding run_jobs
  tick = do
    reclaimed ← reclaim_stale cfg.reclaim_after_seconds
    jobs ← claim_pending_batch cfg.batch_size
    run_jobs jobs

  -- `_loop`: a tick that raises is logged, and the loop goes on
  unfoldable pub poll : ℕ → Prog (Unit {0})
  unfolding tick
  poll zero = pure tt
  poll (suc rounds) = do catch tick (λ e. pure tt); poll rounds
