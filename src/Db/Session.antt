-- ===== src/Db/Session.antt =====
-- app/db/session.py: `session_scope`, and `get_db` of app/db/postgres.py, around a body that may
-- raise. A session is the log of the calls on it, newest first; what the database answers to each
-- is a parameter.
use inride_worker_manager.Prelude.{String, List, ◌∷◌}
use inride_worker_manager.Effect.{Exn, Result, ok, raised}
use inride_worker_manager.Db.Postgres.{PostgresClient, Engine, session}

pub data SessionCall : Type 0 where
  executes : String → SessionCall
  rolls_back : SessionCall
  closes : SessionCall

abbrev pub Log : Type 0
Log = List SessionCall

module _ (answers : SessionCall → Result (Unit {0})) where
  unfoldable pub on_session : SessionCall → Log → Result (Unit {0}) × Log
  on_session c log = (answers c, c ∷ log)

  -- `except Exception: try: rollback … except Exception: pass; raise`
  abbrev pub reraise : {A : Type 0} → Exn → Result (Unit {0}) × Log → Result A × Log
  reraise e (ok _, log) = (raised e, log)
  reraise e (raised _, log) = (raised e, log)

  abbrev pub rolled_back : {A : Type 0} → Result A × Log → Result A × Log
  rolled_back (ok a, log) = (ok a, log)
  rolled_back (raised e, log) = reraise e (on_session rolls_back log)

  -- `finally: session.close()`, whose own exception takes the place of the result
  abbrev pub with_close : {A : Type 0} → Result A → Result (Unit {0}) × Log → Result A × Log
  with_close r (ok _, log) = (r, log)
  with_close r (raised e, log) = (raised e, log)

  abbrev pub closed : {A : Type 0} → Result A × Log → Result A × Log
  closed (r, log) = with_close r (on_session closes log)

  abbrev pub scope_from :
      {A : Type 0} → Result Engine → (Log → Result A × Log) → Log → Result A × Log
  scope_from (raised e) body log = (raised e, log)
  scope_from (ok engine) body log = closed (rolled_back (body log))

  unfoldable pub session_scope :
      {A : Type 0} → PostgresClient → (Log → Result A × Log) → Log → Result A × Log
  unfolding on_session session
  session_scope client body log = scope_from (session client) body log

  -- `PostgresClient.get_db`, around the body of its consumer
  abbrev pub db_from : {A : Type 0} → Result Engine → (Log → Result A × Log) → Log → Result A × Log
  db_from (raised e) body log = (raised e, log)
  db_from (ok engine) body log = closed (body log)

  unfoldable pub get_db :
      {A : Type 0} → PostgresClient → (Log → Result A × Log) → Log → Result A × Log
  unfolding on_session session
  get_db client body log = db_from (session client) body log
