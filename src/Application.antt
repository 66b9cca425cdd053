-- ===== src/Application.antt =====
-- app/main.py: the endpoints of the application. Its start and end are in Application/Lifespan.
use inride_worker_manager.Monitoring.{Counters, snapshot}
use Prim.Native.String.{◌++◌}
pub mod Probe
pub mod Lifespan
use inride_worker_manager.Prelude.{String, Bool, not, ◌&&◌, ℕ, str_eq, if◌then◌else◌}
use inride_worker_manager.Core.Settings.{Settings}
use inride_worker_manager.Effect.{Result, ok, raised, message}
use inride_worker_manager.Db.Postgres.{PostgresClient}
use inride_worker_manager.Db.Session.{SessionCall, executes, Log, on_session, session_scope}

-- the reply of `/ready`, or the status and the detail of its HTTPException
pub data ReadyReply : Type 0 where
  is_ready : (service : String) → (pubsub_configured : Bool) → ReadyReply
  http_exception : (status_code : ℕ) → (detail : String) → ReadyReply

-- the status and the service in the reply of `/health`
unfoldable pub health : {F : Type 0} → Settings F → String × String
health cfg = ("ok", cfg.service_name)

-- `bool(config.PROJECT_ID and config.NOTIFICATION_PUBSUB_TOPIC_NAME)`
unfoldable pub pubsub_configured : {F : Type 0} → Settings F → Bool
pubsub_configured cfg =
    not (str_eq cfg.project_id "") && not (str_eq cfg.notification_pubsub_topic_name "")

module _ {F : Type 0} (cfg : Settings F) (answers : SessionCall → Result (Unit {0})) where
  abbrev pub configured_reply : Bool → ReadyReply
  configured_reply pubsub_ok =
      if not (str_eq cfg.env "dev") && not pubsub_ok
      then http_exception 503 "pubsub_not_configured"
      else is_ready cfg.service_name pubsub_ok

  abbrev pub reply_of : Result (Unit {0}) × Log → ReadyReply × Log
  reply_of (raised e, log) = (http_exception 503 ("database_unavailable: " ++ message e), log)
  reply_of (ok _, log) = (configured_reply (pubsub_configured cfg), log)

  unfoldable pub ready : PostgresClient → Log → ReadyReply × Log
  unfolding session_scope on_session pubsub_configured
  ready client log =
      reply_of (session_scope answers client (on_session answers (executes "SELECT 1")) log)

-- `/metrics/snapshot`: what is replied, and the counters after it
unfoldable pub metrics_snapshot : Counters → Counters × Counters
unfolding snapshot
metrics_snapshot c = snapshot c
