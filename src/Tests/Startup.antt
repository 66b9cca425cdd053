-- ===== src/Tests/Startup.antt =====
-- The settings, the start and the end of the application, and the readers of numbers at concrete
-- inputs.
use inride_worker_manager.Application.Lifespan.Failing.{FailedStart, startup_fails}
use inride_worker_manager.Ingress.Concurrency.{new_semaphore, semaphore}
use inride_worker_manager.Application.Probe.{
  is_close, is_open, is_rollback, probed, ready_lem, returns, says_ready,
}
use inride_worker_manager.Application.{pubsub_configured, ready}
use inride_worker_manager.Db.Session.{closes, SessionCall}
use inride_worker_manager.Core.Settings.{Settings, load_settings}
use inride_worker_manager.Text.Numerals.RoundTrip.{parse_int-int_text}
use inride_worker_manager.Effect.{other, raised, Result, ok}
use inride_worker_manager.Core.Secrets.{Secrets}
use inride_worker_manager.Ingress.PollerTask.{unstarted}
use inride_worker_manager.Ingress.StreamingPull.{
  subscribes, PullCall, is_configured, start_pull, unsubscribed,
}
use inride_worker_manager.Db.Postgres.{
  PostgresClient, create_engine, engine_ready, initialize, is_transaction_pooler, null_pool,
  pool_config, pool_of, unopened,
}
use inride_worker_manager.Core.Env.{EnvFiles, Environment, get_env, get_project_id}
use inride_worker_manager.Text.Numerals.{decimal, decimal_digits, int_digits, int_text, parse_int}
use inride_worker_manager.Text.{begins_with, contains, is_space, lstrip, rstrip, strip}
use inride_worker_manager.Application.Lifespan.{
  App, AppEvent, increments, poller_checks, startup, summary_begins, summary_times_out,
}
use inride_worker_manager.Prelude.{
  negsuc, pos, ℤ, count, not, ◌&&◌, ◌||◌, one_if, String, true, false, Option, none, some, List, [],
  ◌∷◌, str_eq, if◌then◌else◌, refl, ◌≡◌, ◌+◌,
}
use inride_worker_manager.Core.Env.Loading.{Loads, load_env_files_lem}
use inride_worker_manager.Core.Settings.Reading.{Given, Gives, described, load_settings_reads}

-- a deployment that sets the batch size and asks for a pool
abbrev pub environ : Environment
environ key =
    if str_eq key "BATCH_SIZE"
    then some "10"
    else if str_eq key "PG_USE_NULL_POOL"
    then some "0"
    else if str_eq key "PG_DB_URL"
    then some "postgresql://db"
    else if str_eq key "EXPO_ACCESS_TOKEN_KEY"
    then some " token "
    else if str_eq key "PROJECT_ID"
    then some "courier"
    else if str_eq key "ENV"
    then some "QA"
    else none

abbrev given : Given
given = record {
  numbers = λ key.
      if str_eq key "BATCH_SIZE"
      then some (pos 10)
      else if str_eq key "PG_USE_NULL_POOL"
      then some (pos 0)
      else none;
  url = "postgresql://db";
  token = "token";
}

environ-Gives : Gives environ given
unfolding int_text decimal decimal_digits get_env strip lstrip rstrip is_space
environ-Gives = record {
  prints = (
    refl,
    (
      refl,
      (
        refl,
        (refl, (refl, (refl, (refl, (refl, (refl, (refl, (refl, (refl, (refl, (refl, tt))))))))))),
      ),
    ),
  );
  has_url = refl;
  url_nonempty = refl;
  has_token = refl;
  token_nonempty = refl;
}

abbrev no_client : String → Option String
no_client name = none

abbrev no_secrets : Secrets
no_secrets = record { cache = []; requests = [] }

-- seconds are read as whole numbers
load_settings_reads_example :
    load_settings parse_int environ no_client no_secrets
    ≡ (ok (described (λ z. z) environ given), no_secrets)
load_settings_reads_example =
    load_settings_reads parse_int (λ z. z) parse_int-int_text environ no_client given no_secrets
      environ-Gives

abbrev cfg : Settings ℤ
cfg = described (λ z. z) environ given

default_is_null_pool : pool_of (pool_config (record cfg { pg_use_null_pool = true })) ≡ null_pool
unfolding pool_of is_transaction_pooler contains begins_with
default_is_null_pool = refl

signed_int : parse_int " -1_0 " ≡ some (negsuc 9)
unfolding parse_int int_digits strip lstrip rstrip is_space
signed_int = refl

abbrev files : EnvFiles
files = record {
  root_dir = "/srv";
  is_file = λ path. str_eq path "/srv/.env";
  entries = λ path key. if str_eq key "PORT" then some "9000" else none;
}

load_env_files_lem_example : Loads files environ "ENV"
load_env_files_lem_example = load_env_files_lem files environ "ENV"

abbrev library_answers : PullCall → Result (Unit {0})
library_answers c = ok tt

abbrev app : App
app = record {
  client = unopened;
  gate = semaphore 0;
  poller = unstarted;
  pull = unsubscribed;
  summary_stop = none;
  summary_live = false;
  counters = ("k", 1) ∷ [];
  logged = [];
}

abbrev events : List AppEvent
events =
    summary_begins ∷ increments "k" 2 ∷ summary_times_out ∷ poller_checks ∷ increments "k" 4 ∷ []

abbrev database_answers : SessionCall → Result (Unit {0})
database_answers c = ok tt

abbrev opened_client : PostgresClient
opened_client = engine_ready (create_engine (pool_config cfg))

ready_lem_example :
    (says_ready ((ready cfg database_answers opened_client []).0) ≡ (
      is_open opened_client
      && (probed database_answers && returns (database_answers closes))
      && (str_eq cfg.env "dev" || pubsub_configured cfg)))
    × (count is_close ((ready cfg database_answers opened_client []).1)
        ≡ one_if (is_open opened_client) + count is_close [])
    × (count is_rollback ((ready cfg database_answers opened_client []).1)
        ≡ one_if (is_open opened_client && not (probed database_answers)) + count is_rollback [])
ready_lem_example = ready_lem cfg database_answers opened_client []

-- a library that refuses to subscribe
abbrev refusing_answers : PullCall → Result (Unit {0})
refusing_answers (subscribes p n) = raised (other "not found")
refusing_answers c = ok tt

unsubscribable : (startup cfg (ok tt) true refusing_answers app).0 ≡ raised (other "not found")
unfolding startup initialize start_pull new_semaphore is_configured get_env get_project_id strip
    lstrip rstrip is_space
unsubscribable = refl

startup_fails_example :
    FailedStart cfg
      (ok tt)
      true
      refusing_answers
      app
      ((startup cfg (ok tt) true refusing_answers app).1)
startup_fails_example =
    startup_fails cfg (ok tt) true refusing_answers app (other "not found") refl unsubscribable
