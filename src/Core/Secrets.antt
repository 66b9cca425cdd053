-- ===== src/Core/Secrets.antt =====
-- app/core/secrets.py and app/services/gcp/secret_manager_client.py. The Google client is a
-- function from the name of a version to its payload, `none` where the call or the decoding
-- raises.
use inride_worker_manager.Core.Env.{Environment, get_env, or_text}
use inride_worker_manager.Effect.{Exn, Result, ok, other, raised}
use inride_worker_manager.Prelude.{
  List, Option, String, [], if◌then◌else◌, none, some, str_eq, text_or, ◌∷◌,
}
use inride_worker_manager.Text.{is_empty, strip}
pub mod Cache
pub mod Again
use Prim.Native.String.{◌++◌}

-- `_cache`, newest first, and the names that the client was asked for
pub record Secrets : Type 0 where
  pub cache : List (String × String)
  pub requests : List String

-- `_cache.get(secret_id)`
unfoldable pub cached : String → List (String × String) → Option String
cached key [] = none
cached key ((k, v) ∷ rest) = if str_eq k key then some v else cached key rest

module _ (env : Environment) (client : String → Option String) where
  unfoldable pub version_name : String → String → String → String
  version_name project id version =
      "projects/" ++ (project ++ ("/secrets/" ++ (id ++ ("/versions/" ++ version))))

  -- the cached value of a fetch, or the exception of the client
  abbrev pub fetched : String → String → Option String → Secrets → Result String × Secrets
  fetched id name none s =
      (raised (other "the client raised"), record s { requests = name ∷ s.requests })
  fetched id name (some v) s =
      (ok v, record s { cache = (id, v) ∷ s.cache; requests = name ∷ s.requests })

  unfoldable pub fetch_secret : String → String → String → Secrets → Result String × Secrets
  unfolding version_name
  fetch_secret id version project s =
      if str_eq project ""
      then (raised (other "PROJECT_NUMBER is required"), s)
      else fetched id (version_name project id version) (client (version_name project id version)) s

  abbrev pub from_cache : String → String → Option String → Secrets → Result String × Secrets
  from_cache id version none s = fetch_secret id version (get_env env "PROJECT_NUMBER" "") s
  from_cache id version (some v) s = (ok v, s)

  abbrev pub no_secret_id : Exn
  no_secret_id = other "No secret id provided"

  unfoldable pub access_secret_version : Option String → String → Secrets → Result String × Secrets
  unfolding fetch_secret cached
  access_secret_version none version s = (raised no_secret_id, s)
  access_secret_version (some secret_id) version s =
      let id = strip secret_id in
      if is_empty id then (raised no_secret_id, s) else from_cache id version (cached id s.cache) s

  -- `access_secret_version(secret_name).strip() or default`
  abbrev pub stripped_or : String → Result String × Secrets → Result String × Secrets
  stripped_or default (ok v, s) = (ok (or_text (strip v) default), s)
  stripped_or default (raised e, s) = (raised e, s)

  abbrev pub name_key_of : String → Option String → String
  name_key_of key name_key = text_or name_key (key ++ "_NAME")

  unfoldable pub get_secret :
      (key : String) (name_key : Option String) (default : String)
      → Secrets
      → Result String × Secrets
  unfolding access_secret_version
  get_secret key name_key default s =
      let from_env = get_env env key "" in
      let secret_name = get_env env (name_key_of key name_key) "" in
      if str_eq from_env ""
      then (if str_eq secret_name ""
          then (ok default, s)
          else stripped_or default (access_secret_version (some secret_name) "latest" s))
      else (ok from_env, s)
