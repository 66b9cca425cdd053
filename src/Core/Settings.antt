-- ===== src/Core/Settings.antt =====
-- app/core/config.py: `Config.__init__`. The environment and the client of the Secret Manager are
-- parameters, and so is Python's `float` of a text, with its type of numbers.
pub mod Reading
use inride_worker_manager.Prelude.{
  pos, ℤ, String, Bool, true, false, Option, none, some, str_eq, if◌then◌else◌,
}
use inride_worker_manager.Text.{lower}
use inride_worker_manager.Effect.{Exn, other, Result, ok, raised}
use inride_worker_manager.Core.Env.{
  Environment, get_env, get_env_int, get_env_bool, get_env_float, get_project_id,
}
use inride_worker_manager.Core.Secrets.{Secrets, get_secret}

-- the levels of Python's `logging`
pub data LogLevel : Type 0 where
  debug : LogLevel
  info : LogLevel

pub record Settings (F : Type 0) : Type 0 where
  pub env : String
  pub service_name : String
  pub app_host : String
  pub app_port : ℤ
  pub project_id : String
  pub project_number : String
  pub pg_db_url : String
  pub sqlalchemy_echo : Bool
  pub notification_pubsub_topic_name : String
  pub expo_access_token_key : String
  pub poll_interval_seconds : F
  pub batch_size : ℤ
  pub reclaim_after_seconds : ℤ
  pub max_concurrent_notifications : ℤ
  pub pubsub_max_messages : ℤ
  pub pubsub_max_delivery_attempts : ℤ
  pub pubsub_ack_extension_seconds : ℤ
  pub summary_log_interval_seconds : F
  pub pg_use_null_pool : Bool
  pub pg_pool_size : ℤ
  pub pg_max_overflow : ℤ
  pub pg_pool_recycle : ℤ
  pub log_level : LogLevel

-- A step of the constructor: it may raise, and the Secret Manager's cache is its state.
abbrev pub Loading : Type 0 → Type 0
Loading A = Secrets → Result A × Secrets

abbrev pub load_next : {A B : Type 0} → Result A × Secrets → (A → Loading B) → Result B × Secrets
load_next (ok a, s) f = f a s
load_next (raised e, s) f = (raised e, s)

infixl 5 ◌>>=◌
abbrev pub ◌>>=◌ : {A B : Type 0} → Loading A → (A → Loading B) → Loading B
(m >>= f) s = load_next (m s) f

abbrev pub return : {A : Type 0} → A → Loading A
return a s = (ok a, s)

-- the ValueError of `int` and `float`, whose text nothing reads
abbrev pub value_error : Exn
value_error = other "invalid literal"

abbrev pub readable : {A : Type 0} → Option A → Loading A
readable none s = (raised value_error, s)
readable (some a) s = (ok a, s)

module _ {F : Type 0} (to_float : String → Option F) (environ : Environment)
    (client : String → Option String) where
  abbrev pub secret : String → Loading String
  secret key = get_secret environ client key none ""

  abbrev pub int_setting : String → ℤ → Loading ℤ
  int_setting key default = readable (get_env_int environ key default)

  abbrev pub bool_setting : String → Bool → Loading Bool
  bool_setting key default = readable (get_env_bool environ key default)

  abbrev pub float_setting : String → ℤ → Loading F
  float_setting key default = readable (get_env_float to_float environ key default)

  unfoldable pub load_settings : Loading (Settings F)
  unfolding get_env get_project_id
  load_settings = do
    app_port ← int_setting "PORT" (pos 8080)
    pg_db_url ← secret "PG_DB_URL"
    sqlalchemy_echo ← bool_setting "SQLALCHEMY_ECHO" false
    expo_access_token_key ← secret "EXPO_ACCESS_TOKEN_KEY"
    poll_interval_seconds ← float_setting "POLL_INTERVAL_SECONDS" (pos 60)
    batch_size ← int_setting "BATCH_SIZE" (pos 50)
    reclaim_after_seconds ← int_setting "RECLAIM_AFTER_SECONDS" (pos 900)
    max_concurrent_notifications ← int_setting "MAX_CONCURRENT_NOTIFICATIONS" (pos 5)
    pubsub_max_messages ← int_setting "PUBSUB_MAX_MESSAGES" (pos 5)
    pubsub_max_delivery_attempts ← int_setting "PUBSUB_MAX_DELIVERY_ATTEMPTS" (pos 5)
    pubsub_ack_extension_seconds ← int_setting "PUBSUB_ACK_EXTENSION_SECONDS" (pos 600)
    summary_log_interval_seconds ← float_setting "SUMMARY_LOG_INTERVAL_SECONDS" (pos 300)
    pg_use_null_pool ← bool_setting "PG_USE_NULL_POOL" true
    pg_pool_size ← int_setting "PG_POOL_SIZE" (pos 3)
    pg_max_overflow ← int_setting "PG_MAX_OVERFLOW" (pos 2)
    pg_pool_recycle ← int_setting "PG_POOL_RECYCLE" (pos 300)
    return (record {
      env = lower (get_env environ "ENV" "dev");
      service_name = get_env environ "SERVICE_NAME" "ai-agent-notification";
      app_host = get_env environ "APP_HOST" "0.0.0.0";
      app_port = app_port;
      project_id = get_project_id environ;
      project_number = get_env environ "PROJECT_NUMBER" "";
      pg_db_url = pg_db_url;
      sqlalchemy_echo = sqlalchemy_echo;
      notification_pubsub_topic_name =
          get_env environ "NOTIFICATION_PUBSUB_TOPIC_NAME" "notification-pubsub";
      expo_access_token_key = expo_access_token_key;
      poll_interval_seconds = poll_interval_seconds;
      batch_size = batch_size;
      reclaim_after_seconds = reclaim_after_seconds;
      max_concurrent_notifications = max_concurrent_notifications;
      pubsub_max_messages = pubsub_max_messages;
      pubsub_max_delivery_attempts = pubsub_max_delivery_attempts;
      pubsub_ack_extension_seconds = pubsub_ack_extension_seconds;
      summary_log_interval_seconds = summary_log_interval_seconds;
      pg_use_null_pool = pg_use_null_pool;
      pg_pool_size = pg_pool_size;
      pg_max_overflow = pg_max_overflow;
      pg_pool_recycle = pg_pool_recycle;
      log_level = if str_eq (lower (get_env environ "ENV" "dev")) "dev" then debug else info;
    })
