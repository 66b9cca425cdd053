-- ===== src/Application/Probe.antt =====
-- When `/ready` of app/main.py answers that the worker is ready, and that it leaves no session
-- open.
use inride_worker_manager.Db.Postgres.{PostgresClient, session}
use inride_worker_manager.Application.{
  ReadyReply, http_exception, is_ready, pubsub_configured, ready,
}
use inride_worker_manager.Core.Settings.{Settings}
use inride_worker_manager.Db.Session.{
  Log, SessionCall, executes, on_session, rolls_back, closes, session_scope,
}
use inride_worker_manager.Effect.{Result, ok, raised}
use inride_worker_manager.Prelude.{
  one_if, arith, count, none, not, some, str_eq, ◌&&◌, ◌||◌, Bool, true, false, ◌≡◌, ◌+◌,
}

abbrev pub says_ready : ReadyReply → Bool
says_ready (is_ready service b) = true
says_ready (http_exception code detail) = false

abbrev pub is_open : PostgresClient → Bool
is_open client = elim client.session_factory [ none ↦ false | some e ↦ true ]

abbrev pub returns : Result (Unit {0}) → Bool
returns (ok _) = true
returns (raised e) = false

abbrev pub probed : (SessionCall → Result (Unit {0})) → Bool
probed answers = returns (answers (executes "SELECT 1"))

abbrev pub is_close : SessionCall → Bool
is_close closes = true
is_close _ = false

abbrev pub is_rollback : SessionCall → Bool
is_rollback rolls_back = true
is_rollback _ = false

-- The worker says that it is ready exactly if it has an engine, the probe and the close of its
-- session succeed, and it is in development or has a project and a topic. An open session is
-- closed once on every path, and rolled back exactly if the probe failed.
pub ready_lem :
    {F : Type 0} (cfg : Settings F) (answers : SessionCall → Result (Unit {0}))
    (client : PostgresClient) (log : Log)
    → (says_ready ((ready cfg answers client log).0) ≡ (
        is_open client
        && (probed answers && returns (answers closes))
        && (str_eq cfg.env "dev" || pubsub_configured cfg)))
      × (count is_close ((ready cfg answers client log).1)
          ≡ one_if (is_open client) + count is_close log)
      × (count is_rollback ((ready cfg answers client log).1)
          ≡ one_if (is_open client && not (probed answers)) + count is_rollback log)
unfolding ready session_scope on_session session count
ready_lem cfg answers client log = ground arith
