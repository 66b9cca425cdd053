-- ===== src/Tests/Services.antt =====
-- The secrets, the database client and the counters at concrete inputs.
use inride_worker_manager.Core.Secrets.Again.{get_secret_again, is_ok}
use inride_worker_manager.Core.Secrets.Cache.{IsCoherent, get_secret_uncached, secret_of}
use inride_worker_manager.Text.{is_space, lstrip, rstrip, strip}
use inride_worker_manager.Effect.{Result, ok}
use inride_worker_manager.Core.Secrets.{
  Secrets, access_secret_version, cached, fetch_secret, get_secret, version_name,
}
use inride_worker_manager.Prelude.{
  pos, List, Option, String, [], ap, false, if◌then◌else◌, none, refl, some, str_eq, sum_over, ℕ,
  ◌∷◌, ◌≡◌,
}
use inride_worker_manager.Core.Env.{Environment, get_env}
use inride_worker_manager.Db.Postgres.Lifecycle.{
  Call, after_calls, closes, held_engine, opens, session-after_calls, spec_calls,
}
use inride_worker_manager.Db.Postgres.{PoolConfig, session, unopened}
use inride_worker_manager.Monitoring.Counting.{amount, count_of, summaries, summaries-count}

-- One secret is named in the environment, with white space around its name.
abbrev environment : Environment
environment key =
    if str_eq key "PG_DB_URL_NAME"
    then some " db-url "
    else if str_eq key "PROJECT_NUMBER"
    then some "42"
    else none

abbrev client : String → Option String
client name =
    if str_eq name "projects/42/secrets/db-url/versions/latest"
    then some "postgresql://db"
    else none

abbrev no_secrets : Secrets
no_secrets = record { cache = []; requests = [] }

no_secrets-IsCoherent : IsCoherent environment client no_secrets
unfolding cached
no_secrets-IsCoherent = record { at = λ id v h. cc h }

abbrev fetched_once : Result String × Secrets
fetched_once = get_secret environment client "PG_DB_URL" none "" no_secrets

fetched : fetched_once.0 ≡ ok "postgresql://db"
unfolding get_secret access_secret_version fetch_secret version_name cached get_env strip lstrip
    rstrip is_space
fetched = refl

get_secret_uncached_example :
    (fetched_once.0 ≡ secret_of environment client "PG_DB_URL" none "")
    × IsCoherent environment client fetched_once.1
get_secret_uncached_example =
    get_secret_uncached environment client "PG_DB_URL" none "" no_secrets no_secrets-IsCoherent

get_secret_again_example :
    get_secret environment client "PG_DB_URL" none "" fetched_once.1 ≡ fetched_once
get_secret_again_example =
    get_secret_again environment client "PG_DB_URL" none "" no_secrets (ap is_ok fetched)

abbrev pooled : String → PoolConfig
pooled url = record {
  url = url;
  use_null_pool = false;
  pool_size = pos 3;
  max_overflow = pos 2;
  pool_recycle = pos 300;
}

-- opened with no URL, opened, opened again, closed, and opened with the other URL
abbrev calls : List Call
calls =
    opens (ok tt) (pooled "")
    ∷ opens (ok tt) (pooled "postgresql://a:6543/db")
    ∷ opens (ok tt) (pooled "postgresql://b:5432/db")
    ∷ closes
    ∷ opens (ok tt) (pooled "postgresql://b:5432/db")
    ∷ []

session-after_calls_example :
    session (after_calls calls unopened) ≡ held_engine (spec_calls calls none)
session-after_calls_example = session-after_calls calls

abbrev periods : List (List (String × ℕ))
periods = (("a", 2) ∷ ("b", 1) ∷ ("a", 3) ∷ []) ∷ [] ∷ (("a", 5) ∷ []) ∷ []

summaries-count_example :
    sum_over (count_of "a") (summaries periods []) ≡ sum_over (sum_over (amount "a")) periods
summaries-count_example = summaries-count "a" periods
