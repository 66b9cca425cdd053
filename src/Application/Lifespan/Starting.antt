-- ===== src/Application/Lifespan/Starting.antt =====
-- What a start of the application that succeeds has brought up.
use inride_worker_manager.Ingress.Concurrency.{Semaphore, new_semaphore}
use inride_worker_manager.Ingress.StreamingPull.Balance.{start_pull-Balanced, Balanced}
use inride_worker_manager.Ingress.PollerTask.Loops.{Switched}
use inride_worker_manager.Application.Lifespan.{
  after_semaphore, App, after_initialize, after_pull, startup,
}
use inride_worker_manager.Effect.{Exn, Result, ok, raised}
use inride_worker_manager.Db.Postgres.Lifecycle.{holding_engine}
use inride_worker_manager.Ingress.PollerTask.{start_task, unstarted}
use inride_worker_manager.Db.Postgres.{PoolConfig, PostgresClient, pool_config, Engine, initialize}
use inride_worker_manager.Core.Settings.{Settings}
use inride_worker_manager.Ingress.StreamingPull.{start_pull, PullCall, StreamingPull, unsubscribed}
use inride_worker_manager.Application.Lifespan.Serving.{total_of, AppServes}
use mathlib.Core.Path.{subst}
use inride_worker_manager.Prelude.{
  String, Bool-cases, inl, inr, none, str_eq, sym, Option, count, some, Bool, true, ◌≡◌, refl,
}

-- what `initialize` comes to: an engine, or an exception
data Initialized : Result (Unit {0}) × PostgresClient → Type 0 where
  opens_engine : (e : Engine) → Initialized (ok tt, holding_engine (some e))
  fails : (x : Exn) (s : PostgresClient) → Initialized (raised x, s)

initialize-Initialized :
    (created : Result (Unit {0})) (c : PoolConfig) (o : Option Engine)
    → Initialized (initialize created c (holding_engine o))
unfolding initialize
initialize-Initialized created c (some e) = opens_engine e
initialize-Initialized (ok u) c none = elim (Bool-cases (str_eq c.url "")) [
  | inl e ↦ rw e (fails _ _)
  | inr e ↦ rw e (opens_engine _)
]
initialize-Initialized (raised x) c none = elim (Bool-cases (str_eq c.url "")) [
  | inl e ↦ rw e (fails _ _)
  | inr e ↦ rw e (fails _ _)
]

module _ {F : Type 0} (cfg : Settings F) (created : Result (Unit {0})) (library_present : Bool)
    (answers : PullCall → Result (Unit {0})) where
  pulled :
      (r : Result (Unit {0}) × StreamingPull) (app : App) (e : Engine)
      → Balanced answers (r.1)
      → app.client ≡ holding_engine (some e)
      → Switched true app.poller
      → (after_pull cfg created library_present answers app r).0 ≡ ok tt
      → AppServes answers ((after_pull cfg created library_present answers app r).1)
  pulled (raised x, s) app e b o p h = cc h
  pulled (ok u, s) app e b o p h = record { engine = e; opened = o; polls = p; balanced = b }

  unsubscribed-Balanced : Balanced answers unsubscribed
  unfolding count
  unsubscribed-Balanced = record { clients = refl; pulls = refl }

  first_loop : Switched true (start_task unstarted)
  unfolding start_task count
  first_loop = record { live = refl; left = refl; unstopped = λ _. refl }

  by_semaphore :
      (app : App) (e : Engine) (gate : Option Semaphore)
      → (after_semaphore cfg created library_present answers app (holding_engine (some e)) gate).0
        ≡ ok tt
      → AppServes answers (
          (after_semaphore cfg created library_present answers app
            (holding_engine (some e))
            gate).1)
  by_semaphore app e none h = cc h
  by_semaphore app e (some gate) h =
      pulled (start_pull answers library_present cfg unsubscribed)
        (record app {
          client = holding_engine (some e);
          gate = gate;
          poller = start_task unstarted;
        })
        e
        (start_pull-Balanced answers library_present cfg unsubscribed refl refl
          unsubscribed-Balanced)
        refl first_loop h

  by_client :
      (app : App) {r : Result (Unit {0}) × PostgresClient}
      → Initialized r
      → (after_initialize cfg created library_present answers app r).0 ≡ ok tt
      → AppServes answers ((after_initialize cfg created library_present answers app r).1)
  by_client app (opens_engine e) h =
      by_semaphore app e (new_semaphore cfg.max_concurrent_notifications) h
  by_client app (fails x s) h = cc h

  pub startup-AppServes :
      (app : App) (o : Option Engine)
      → app.client ≡ holding_engine o
      → (startup cfg created library_present answers app).0 ≡ ok tt
      → AppServes answers ((startup cfg created library_present answers app).1)
  unfolding startup
  startup-AppServes app o c = by_client app (
      subst (λ s. Initialized (initialize created (pool_config cfg) s)) (sym c)
        (initialize-Initialized created (pool_config cfg) o))

  after_pull-total :
      (key : String) (app : App) (r : Result (Unit {0}) × StreamingPull)
      → total_of key ((after_pull cfg created library_present answers app r).1) ≡ total_of key app
  after_pull-total key app (ok u, s) = refl
  after_pull-total key app (raised e, s) = refl

  after_semaphore-total :
      (key : String) (app : App) (c : PostgresClient) (gate : Option Semaphore)
      → total_of key ((after_semaphore cfg created library_present answers app c gate).1)
        ≡ total_of key app
  after_semaphore-total key app c none = refl
  after_semaphore-total key app c (some gate) =
      after_pull-total key (record app { client = c; gate = gate; poller = start_task unstarted })
        (start_pull answers library_present cfg unsubscribed)

  after_initialize-total :
      (key : String) (app : App) (r : Result (Unit {0}) × PostgresClient)
      → total_of key ((after_initialize cfg created library_present answers app r).1)
        ≡ total_of key app
  after_initialize-total key app (raised e, c) = refl
  after_initialize-total key app (ok u, c) =
      after_semaphore-total key app c (new_semaphore cfg.max_concurrent_notifications)

  pub startup-total :
      (key : String) (app : App)
      → total_of key ((startup cfg created library_present answers app).1) ≡ total_of key app
  unfolding startup
  startup-total key app =
      after_initialize-total key app (initialize created (pool_config cfg) app.client)
