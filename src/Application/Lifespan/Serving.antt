-- ===== src/Application/Lifespan/Serving.antt =====
-- What holds of the application while it serves, and the totals of its counters.
use inride_worker_manager.Ingress.PollerTask.{PollerTask}
use inride_worker_manager.Effect.{Result}
use inride_worker_manager.Db.Postgres.Lifecycle.{holding_engine}
use inride_worker_manager.Ingress.StreamingPull.Balance.{Balanced}
use inride_worker_manager.Ingress.StreamingPull.{StreamingPull, PullCall}
use inride_worker_manager.Ingress.PollerTask.Loops.{after_event, Switched, Switched-event, checks}
use inride_worker_manager.Db.Postgres.{PostgresClient, Engine}
use inride_worker_manager.Application.Lifespan.{
  App, AppEvent, app_event, app_events, increments, log_now, poller_checks, summary_begins,
  summary_times_out, with_logged,
}
use inride_worker_manager.Monitoring.{Counters, log_summary, nonempty, snapshot_and_reset}
use inride_worker_manager.Monitoring.Counting.{count_of, count_of-add_to, amount}
use inride_worker_manager.Prelude.{
  Option, none, Bool, false, if◌then◌else◌, some, true, List, String, [], sum_over, ℕ, ◌+◌, ◌∷◌,
  ◌≡◌, refl, arith,
}

-- the increments of a counter among the events
abbrev pub event_amount : String → AppEvent → ℕ
event_amount key (increments k n) = amount key (k, n)
event_amount key _ = 0

-- what a counter holds, and what its summaries held
abbrev pub total_of : String → App → ℕ
total_of key app = count_of key app.counters + sum_over (count_of key) app.logged

pub total-log_now : (key : String) (app : App) → total_of key (log_now app) ≡ total_of key app
unfolding log_now log_summary snapshot_and_reset sum_over count_of
total-log_now key app = by_counters app.counters
  where
    by_counters :
        (c : Counters)
        → total_of key (with_logged (nonempty c, []) app)
          ≡ count_of key c + sum_over (count_of key) app.logged
    by_counters [] = refl
    by_counters (kn ∷ rest) = omega arith

pub log_now-cleared : (app : App) → (log_now app).counters ≡ []
unfolding log_now log_summary snapshot_and_reset
log_now-cleared app = by_counters app.counters
  where
    by_counters : (c : Counters) → (with_logged (nonempty c, []) app).counters ≡ []
    by_counters [] = refl
    by_counters (kn ∷ rest) = refl

total-log_if :
    (key : String) (live : Bool) (app : App)
    → total_of key (if live then log_now app else app) ≡ total_of key app
total-log_if key true app = total-log_now key app
total-log_if key false app = refl

total-event :
    (key : String) (e : AppEvent) (app : App)
    → total_of key (app_event e app) ≡ total_of key app + event_amount key e
unfolding app_event
total-event key (increments k n) app = omega (arith, count_of-add_to key k n app.counters)
total-event key summary_begins app = omega arith
total-event key summary_times_out app = omega (arith, total-log_if key app.summary_live app)
total-event key poller_checks app = omega arith

pub total-events :
    (key : String) (es : List AppEvent) (app : App)
    → total_of key (app_events es app) ≡ total_of key app + sum_over (event_amount key) es
unfolding app_events sum_over
total-events key [] app = omega arith
total-events key (e ∷ es) app =
    omega (arith, total-events key es (app_event e app), total-event key e app)

-- what holds from the start to the end: the engine is open, the loop runs, and the pull is balanced
pub record Serving (answers : PullCall → Result (Unit {0})) (client : PostgresClient)
    (poller : PollerTask) (pull : StreamingPull) : Type 0 where
  pub engine : Engine
  pub opened : client ≡ holding_engine (some engine)
  pub polls : Switched true poller
  pub balanced : Balanced answers pull

abbrev pub AppServes : (PullCall → Result (Unit {0})) → App → Type 0
AppServes answers app = Serving answers app.client app.poller app.pull

AppServes-logged :
    (answers : PullCall → Result (Unit {0})) (o : Option Counters) (c : Counters) (app : App)
    → AppServes answers app
    → AppServes answers (with_logged (o, c) app)
AppServes-logged answers none c app h = h
AppServes-logged answers (some snap) c app h = h

AppServes-log_if :
    (answers : PullCall → Result (Unit {0})) (live : Bool) (app : App)
    → AppServes answers app
    → AppServes answers (if live then log_now app else app)
unfolding log_now
AppServes-log_if answers true app h =
    AppServes-logged answers ((log_summary app.counters).0) ((log_summary app.counters).1) app h
AppServes-log_if answers false app h = h

AppServes-event :
    (answers : PullCall → Result (Unit {0})) (e : AppEvent) (app : App)
    → AppServes answers app
    → AppServes answers (app_event e app)
unfolding app_event after_event
AppServes-event answers (increments k n) app h = h
AppServes-event answers summary_begins app h = h
AppServes-event answers summary_times_out app h = AppServes-log_if answers app.summary_live app h
AppServes-event answers poller_checks app h = record {
  engine = h.engine;
  opened = h.opened;
  polls = Switched-event checks true app.poller h.polls;
  balanced = h.balanced;
}

pub AppServes-events :
    (answers : PullCall → Result (Unit {0})) (es : List AppEvent) (app : App)
    → AppServes answers app
    → AppServes answers (app_events es app)
unfolding app_events
AppServes-events answers [] app h = h
AppServes-events answers (e ∷ es) app h =
    AppServes-events answers es (app_event e app) (AppServes-event answers e app h)
