-- ===== src/Core/Settings/Reading.antt =====
-- What the settings are where the environment gives the numbers as whole numbers and the secrets
-- itself.
use inride_worker_manager.Text.{lower}
use inride_worker_manager.Effect.{ok}
use inride_worker_manager.Core.Env.{Environment, get_env, get_project_id}
use inride_worker_manager.Text.Numerals.{int_text}
use inride_worker_manager.Core.Env.Reading.{
  bool_or_default, get_env_bool_reads, get_env_float_reads, get_env_int_reads, or_default, printed,
}
use inride_worker_manager.Core.Settings.{Settings, debug, info, load_settings}
use inride_worker_manager.Core.Secrets.{Secrets, get_secret}
use inride_worker_manager.Prelude.{
  pos, ℤ, All, List, Option, [], false, if◌then◌else◌, none, some, str_eq, true, ℕ, ◌∷◌, String,
  ◌≡◌, refl,
}

abbrev pub number_names : List String
number_names =
    "PORT" ∷ "SQLALCHEMY_ECHO" ∷ "POLL_INTERVAL_SECONDS" ∷ "BATCH_SIZE" ∷ "RECLAIM_AFTER_SECONDS"
    ∷ "MAX_CONCURRENT_NOTIFICATIONS" ∷ "PUBSUB_MAX_MESSAGES" ∷ "PUBSUB_MAX_DELIVERY_ATTEMPTS"
    ∷ "PUBSUB_ACK_EXTENSION_SECONDS" ∷ "SUMMARY_LOG_INTERVAL_SECONDS" ∷ "PG_USE_NULL_POOL"
    ∷ "PG_POOL_SIZE" ∷ "PG_MAX_OVERFLOW" ∷ "PG_POOL_RECYCLE" ∷ []

-- What an environment says: the number of a variable, or none where it is absent, and the two
-- secrets.
pub record Given : Type 0 where
  pub numbers : String → Option ℤ
  pub url : String
  pub token : String

pub record Gives (environ : Environment) (g : Given) : Type 0 where
  pub prints : All (λ key. environ key ≡ printed (g.numbers key)) number_names
  pub has_url : get_env environ "PG_DB_URL" "" ≡ g.url
  pub url_nonempty : str_eq g.url "" ≡ false
  pub has_token : get_env environ "EXPO_ACCESS_TOKEN_KEY" "" ≡ g.token
  pub token_nonempty : str_eq g.token "" ≡ false

module _ {F : Type 0} (of_int : ℤ → F) (environ : Environment) (g : Given) where
  abbrev number : String → ℕ → ℤ
  number key default = or_default (g.numbers key) (pos default)

  -- the settings that the environment describes, with the defaults of the code
  abbrev pub described : Settings F
  described = record {
    env = lower (get_env environ "ENV" "dev");
    service_name = get_env environ "SERVICE_NAME" "ai-agent-notification";
    app_host = get_env environ "APP_HOST" "0.0.0.0";
    app_port = number "PORT" 8080;
    project_id = get_project_id environ;
    project_number = get_env environ "PROJECT_NUMBER" "";
    pg_db_url = g.url;
    sqlalchemy_echo = bool_or_default (g.numbers "SQLALCHEMY_ECHO") false;
    notification_pubsub_topic_name =
        get_env environ "NOTIFICATION_PUBSUB_TOPIC_NAME" "notification-pubsub";
    expo_access_token_key = g.token;
    poll_interval_seconds = of_int (number "POLL_INTERVAL_SECONDS" 60);
    batch_size = number "BATCH_SIZE" 50;
    reclaim_after_seconds = number "RECLAIM_AFTER_SECONDS" 900;
    max_concurrent_notifications = number "MAX_CONCURRENT_NOTIFICATIONS" 5;
    pubsub_max_messages = number "PUBSUB_MAX_MESSAGES" 5;
    pubsub_max_delivery_attempts = number "PUBSUB_MAX_DELIVERY_ATTEMPTS" 5;
    pubsub_ack_extension_seconds = number "PUBSUB_ACK_EXTENSION_SECONDS" 600;
    summary_log_interval_seconds = of_int (number "SUMMARY_LOG_INTERVAL_SECONDS" 300);
    pg_use_null_pool = bool_or_default (g.numbers "PG_USE_NULL_POOL") true;
    pg_pool_size = number "PG_POOL_SIZE" 3;
    pg_max_overflow = number "PG_MAX_OVERFLOW" 2;
    pg_pool_recycle = number "PG_POOL_RECYCLE" 300;
    log_level = if str_eq (lower (get_env environ "ENV" "dev")) "dev" then debug else info;
  }

get_secret_local :
    (environ : Environment) (client : String → Option String) (key text : String) (s : Secrets)
    → get_env environ key "" ≡ text
    → str_eq text "" ≡ false
    → get_secret environ client key none "" s ≡ (ok text, s)
unfolding get_secret
get_secret_local environ client key text s h e = rw (h, e) refl

-- Where the environment holds both secrets and every number is absent or the decimal text of a
-- whole number, the settings load, are the described ones, and the Secret Manager is not asked.
pub load_settings_reads :
    {F : Type 0} (to_float : String → Option F) (of_int : ℤ → F)
    → ((z : ℤ) → to_float (int_text z) ≡ some (of_int z))
    → (environ : Environment) (client : String → Option String) (g : Given) (s : Secrets)
    → Gives environ g
    → load_settings to_float environ client s ≡ (ok (described of_int environ g), s)
unfolding load_settings
load_settings_reads to_float of_int reads environ client g s gives =
    let (h1, (h2, (h3, (h4, (h5, (h6, (h7, (h8, (h9, (h10, (h11, (h12, (h13, (h14, _)))))))))))))) =
      gives.prints in
    let whole = get_env_int_reads environ in
    let flag = get_env_bool_reads environ in
    let decimals = get_env_float_reads to_float of_int reads environ in
    rw
      (
        whole "PORT" (pos 8080) _ h1,
        get_secret_local environ client "PG_DB_URL" g.url s gives.has_url gives.url_nonempty,
        flag "SQLALCHEMY_ECHO" false _ h2,
        get_secret_local environ client "EXPO_ACCESS_TOKEN_KEY" g.token s gives.has_token
            gives.token_nonempty,
        decimals "POLL_INTERVAL_SECONDS" (pos 60) _ h3,
        whole "BATCH_SIZE" (pos 50) _ h4,
        whole "RECLAIM_AFTER_SECONDS" (pos 900) _ h5,
        whole "MAX_CONCURRENT_NOTIFICATIONS" (pos 5) _ h6,
        whole "PUBSUB_MAX_MESSAGES" (pos 5) _ h7,
        whole "PUBSUB_MAX_DELIVERY_ATTEMPTS" (pos 5) _ h8,
        whole "PUBSUB_ACK_EXTENSION_SECONDS" (pos 600) _ h9,
        decimals "SUMMARY_LOG_INTERVAL_SECONDS" (pos 300) _ h10,
        flag "PG_USE_NULL_POOL" true _ h11,
        whole "PG_POOL_SIZE" (pos 3) _ h12,
        whole "PG_MAX_OVERFLOW" (pos 2) _ h13,
        whole "PG_POOL_RECYCLE" (pos 300) _ h14,
      )
      refl
