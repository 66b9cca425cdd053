-- ===== src/Db/Postgres.antt =====
-- app/db/postgres.py: the engine and the session factory of the process. SQLAlchemy's
-- `create_engine` and `sessionmaker` are records of what they are called with. Whether
-- `create_engine` accepts its arguments or raises is a parameter of the call: it refuses a URL that
-- it cannot parse or whose driver is not there. `sessionmaker` does not fail.
pub mod Lifecycle
use inride_worker_manager.Core.Settings.{Settings}
use inride_worker_manager.Effect.{Result, ok, raised, other}
use inride_worker_manager.Prelude.{
  pos, ℤ, String, Bool, ◌||◌, Option, none, some, str_eq, if◌then◌else◌,
}
use inride_worker_manager.Text.{contains}

pub record PoolConfig : Type 0 where
  pub url : String
  pub use_null_pool : Bool
  pub pool_size : ℤ
  pub max_overflow : ℤ
  pub pool_recycle : ℤ

-- the fields of the settings that the client reads
abbrev pub pool_config : {F : Type 0} → Settings F → PoolConfig
pool_config s = record {
  url = s.pg_db_url;
  use_null_pool = s.pg_use_null_pool;
  pool_size = s.pg_pool_size;
  max_overflow = s.pg_max_overflow;
  pool_recycle = s.pg_pool_recycle;
}

pub data Pool : Type 0 where
  null_pool : Pool
  queue_pool : (size max_overflow recycle timeout : ℤ) → Pool

pub record Engine : Type 0 where
  pub url : String
  pub pool : Pool

-- `_engine` and `_session_factory`, the latter as the engine that it is bound to
pub record PostgresClient : Type 0 where
  pub engine : Option Engine
  pub session_factory : Option Engine

unfoldable pub is_transaction_pooler : String → Bool
unfolding contains
is_transaction_pooler url = contains ":6543" url

unfoldable pub pool_of : PoolConfig → Pool
unfolding is_transaction_pooler
pool_of c =
    if c.use_null_pool || is_transaction_pooler c.url
    then null_pool
    else queue_pool c.pool_size c.max_overflow c.pool_recycle (pos 30)

unfoldable pub create_engine : PoolConfig → Engine
unfolding pool_of
create_engine c = record { url = c.url; pool = pool_of c }

abbrev pub engine_ready : Engine → PostgresClient
engine_ready e = record { engine = some e; session_factory = some e }

abbrev pub engine_created :
    Result (Unit {0}) → PoolConfig → PostgresClient → Result (Unit {0}) × PostgresClient
engine_created (raised e) c s = (raised e, s)
engine_created (ok _) c s = (ok tt, engine_ready (create_engine c))

abbrev pub initialize_closed :
    Result (Unit {0}) → PoolConfig → PostgresClient → Result (Unit {0}) × PostgresClient
initialize_closed created c s =
    if str_eq c.url ""
    then (raised (other "PG_DB_URL is required"), s)
    else engine_created created c s

abbrev pub initialize_from :
    Result (Unit {0})
    → PoolConfig
    → PostgresClient
    → Option Engine
    → Result (Unit {0}) × PostgresClient
initialize_from created c s none = initialize_closed created c s
initialize_from created c s (some e) = (ok tt, s)

-- `created` is what the library does with the call of `create_engine`, if there is one
unfoldable pub initialize :
    (created : Result (Unit {0})) → PoolConfig → PostgresClient → Result (Unit {0}) × PostgresClient
unfolding create_engine
initialize created c s = initialize_from created c s s.engine

abbrev session_from : Option Engine → Result Engine
session_from none = raised (other "PostgresClient not initialized")
session_from (some e) = ok e

-- the engine that the session is bound to
unfoldable pub session : PostgresClient → Result Engine
session s = session_from s.session_factory

abbrev close_from : PostgresClient → Option Engine → PostgresClient
close_from s none = s
close_from s (some e) = record { engine = none; session_factory = none }

unfoldable pub close : PostgresClient → PostgresClient
close s = close_from s s.engine

abbrev pub unopened : PostgresClient
unopened = record { engine = none; session_factory = none }
