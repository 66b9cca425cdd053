-- ===== src/Application/Lifespan/Release.antt =====
-- What the end of the application leaves of what its start created.
use inride_worker_manager.Ingress.StreamingPull.Balance.{Balanced}
use inride_worker_manager.Ingress.PollerTask.Loops.{running_loops}
use inride_worker_manager.Application.Lifespan.{App}
use inride_worker_manager.Effect.{Result, ok}
use inride_worker_manager.Db.Postgres.{unopened}
use inride_worker_manager.Core.Settings.{Settings}
use inride_worker_manager.Ingress.StreamingPull.{PullCall, StreamingPull}
use inride_worker_manager.Prelude.{[], false, ◌≡◌}

-- What the end leaves: no exception, no running loop of the poller, no client and no pull of
-- Pub/Sub (each that was opened is closed), no engine, and no count that is not logged.
pub record Released (answers : PullCall → Result (Unit {0})) (r : Result (Unit {0}) × App)
    : Type 0 where
  pub returned : r.0 ≡ ok tt
  pub no_loop : running_loops r.1.poller ≡ 0
  pub no_subscriber : r.1.pull.has_subscriber ≡ false
  pub no_future : r.1.pull.has_future ≡ false
  pub balanced : Balanced answers r.1.pull
  pub no_engine : r.1.client ≡ unopened
  pub cleared : r.1.counters ≡ []
