-- ===== src/Application/Lifespan.antt =====
-- app/main.py: `lifespan`, from the start of the parts to their end. What happens in between is a
-- list of events. The objects that the start creates are those of this state.
pub mod Serving
pub mod Starting
pub mod Release
pub mod Failing
use inride_worker_manager.Prelude.{
  String, ℕ, Bool, true, false, Option, none, some, List, [], ◌∷◌, if◌then◌else◌,
}
use inride_worker_manager.Core.Settings.{Settings}
use inride_worker_manager.Effect.{other, Result, ok, raised}
use inride_worker_manager.Effect.World.{add_to}
use inride_worker_manager.Monitoring.{Counters, log_summary}
use inride_worker_manager.Db.Postgres.{PostgresClient, initialize, close, pool_config}
use inride_worker_manager.Ingress.Concurrency.{Semaphore, new_semaphore}
use inride_worker_manager.Ingress.PollerTask.{
  PollerTask, start_task, stop_task, check_stop, unstarted,
}
use inride_worker_manager.Ingress.StreamingPull.{
  StreamingPull, PullCall, start_pull, stop_pull, unsubscribed,
}

pub record App : Type 0 where
  pub client : PostgresClient
  -- the semaphore that the poller and the subscriber share
  pub gate : Semaphore
  pub poller : PollerTask
  pub pull : StreamingPull
  -- `app.state.summary_stop`, absent until the summary loop begins, and whether the loop goes on
  pub summary_stop : Option Bool
  pub summary_live : Bool
  pub counters : Counters
  -- the summaries, newest first
  pub logged : List Counters

abbrev pub with_logged : Option Counters × Counters → App → App
with_logged (none, cleared) app = record app { counters = cleared }
with_logged (some snap, cleared) app = record app { counters = cleared; logged = snap ∷ app.logged }

unfoldable pub log_now : App → App
unfolding log_summary
log_now app = with_logged (log_summary app.counters) app

-- `if stop_event is not None: stop_event.set()`
abbrev pub stop_set : Option Bool → Option Bool
stop_set none = none
stop_set (some b) = some true

module _ {F : Type 0} (cfg : Settings F) (created : Result (Unit {0})) (library_present : Bool)
    (answers : PullCall → Result (Unit {0})) where
  abbrev pub after_pull : App → Result (Unit {0}) × StreamingPull → Result (Unit {0}) × App
  after_pull app (raised e, s) = (raised e, record app { pull = s })
  after_pull app (ok _, s) =
      (ok tt, record app { pull = s; summary_stop = none; summary_live = true })

  -- `asyncio.Semaphore(value)` refuses a negative value
  abbrev pub after_semaphore : App → PostgresClient → Option Semaphore → Result (Unit {0}) × App
  after_semaphore app c none =
      (raised (other "Semaphore initial value must be >= 0"), record app { client = c })
  after_semaphore app c (some gate) =
      after_pull (record app { client = c; gate = gate; poller = start_task unstarted })
        (start_pull answers library_present cfg unsubscribed)

  abbrev pub after_initialize : App → Result (Unit {0}) × PostgresClient → Result (Unit {0}) × App
  after_initialize app (raised e, c) = (raised e, record app { client = c })
  after_initialize app (ok _, c) =
      after_semaphore app c (new_semaphore cfg.max_concurrent_notifications)

  -- up to the `yield`
  unfoldable pub startup : App → Result (Unit {0}) × App
  unfolding start_task start_pull initialize new_semaphore
  startup app = after_initialize app (initialize created (pool_config cfg) app.client)

  abbrev pub after_stop_pull :
      (in_time : Bool) → App → Result (Unit {0}) × StreamingPull → Result (Unit {0}) × App
  after_stop_pull in_time app (raised e, s) = (raised e, record app { pull = s })
  after_stop_pull in_time app (ok _, s) =
      let logged_app = log_now (record app { pull = s; poller = stop_task in_time app.poller }) in
      (ok tt, record logged_app { client = close logged_app.client })

  -- the `finally` block: the poller's task ends within its ten seconds or not
  unfoldable pub shutdown : (in_time : Bool) → App → Result (Unit {0}) × App
  unfolding stop_pull stop_task log_now close
  shutdown in_time app =
      let stopping = record app {
        summary_stop = stop_set app.summary_stop;
        summary_live = false;
      } in
      after_stop_pull in_time stopping (stop_pull answers app.pull)

-- what happens while the application serves
pub data AppEvent : Type 0 where
  increments : String → ℕ → AppEvent
  -- `_summary_loop` reaches its first wait
  summary_begins : AppEvent
  -- its wait times out
  summary_times_out : AppEvent
  poller_checks : AppEvent

-- `_summary_loop` while it lives: its event is not set before the shutdown
unfoldable pub app_event : AppEvent → App → App
unfolding add_to log_now check_stop
app_event (increments key n) app = record app { counters = add_to key n app.counters }
app_event summary_begins app = record app { summary_stop = some false }
app_event summary_times_out app = if app.summary_live then log_now app else app
app_event poller_checks app = record app { poller = check_stop app.poller }

unfoldable pub app_events : List AppEvent → App → App
unfolding app_event
app_events [] app = app
app_events (e ∷ es) app = app_events es (app_event e app)
