-- ===== src/Core/Env.antt =====
-- app/core/env.py: the readers of the process environment, which is `os.getenv` as a function,
-- after the env file is loaded.
pub mod Reading
pub mod Loading
use Prim.Native.String.{◌++◌}
use inride_worker_manager.Prelude.{
  negsuc, pos, ℤ, Option, String, Bool, true, not, ◌==◌, if◌then◌else◌, none, some, str_eq, text_or,
}
use inride_worker_manager.Text.{strip, lower}
use inride_worker_manager.Text.Numerals.{parse_int, int_text}

abbrev pub Environment : Type 0
Environment = String → Option String

abbrev value_or : String → Option String → String
value_or default none = default
value_or default (some v) = if str_eq v "" then default else strip v

unfoldable pub get_env : Environment → String → String → String
get_env env key default = value_or default (env key)

-- `a or b` on texts
abbrev pub or_text : String → String → String
or_text a b = if str_eq a "" then b else a

unfoldable pub get_project_id : Environment → String
unfolding get_env
get_project_id env =
    or_text (get_env env "PROJECT_ID" "")
      (or_text (get_env env "GOOGLE_CLOUD_PROJECT" "") (get_env env "GCLOUD_PROJECT" ""))

-- `int(get_env(key, str(default)))`: `none` is a ValueError
unfoldable pub get_env_int : Environment → String → ℤ → Option ℤ
unfolding get_env
get_env_int env key default = parse_int (get_env env key (int_text default))

abbrev pub is_nonzero : ℤ → Bool
is_nonzero (pos n) = not (n == 0)
is_nonzero (negsuc n) = true

-- `bool(int(raw))`
abbrev pub truth_of : Option ℤ → Option Bool
truth_of none = none
truth_of (some z) = some (is_nonzero z)

unfoldable pub get_env_bool : Environment → String → Bool → Option Bool
unfolding get_env
get_env_bool env key default =
    let raw = get_env env key (if default then "1" else "0") in truth_of (parse_int raw)

-- `to_float` is Python's `float` of a text; the defaults that the code gives are whole numbers
unfoldable pub get_env_float :
    {F : Type 0} (to_float : String → Option F) → Environment → String → ℤ → Option F
unfolding get_env
get_env_float to_float env key default = to_float (get_env env key (int_text default))

-- `(os.getenv("ENV") or "dev").strip().lower()`
unfoldable pub resolve_env_name : Environment → String
resolve_env_name env = lower (strip (text_or (env "ENV") "dev"))

-- The files beside the program: whether a path is a file, and the variables that python-dotenv
-- reads from it.
pub record EnvFiles : Type 0 where
  pub root_dir : String
  pub is_file : String → Bool
  pub entries : String → Environment

-- The process environment after the load, and LOADED_ENV_FILE.
pub record Loaded : Type 0 where
  pub environment : Environment
  pub loaded_env_file : String

abbrev first_of : Option String → Option String → Option String
first_of none o = o
first_of (some v) o = some v

-- `load_dotenv(path)`: a variable that the process has is left as it is
abbrev pub load_dotenv : EnvFiles → String → Environment → Environment
load_dotenv files path env key = first_of (env key) (files.entries path key)

abbrev pub dotenv_path : EnvFiles → String → String
dotenv_path files env_name =
    files.root_dir ++ (if str_eq env_name "dev" then "/dev.env" else "/.env")

unfoldable pub load_env_files : EnvFiles → Environment → String × Loaded
unfolding resolve_env_name
load_env_files files env =
    let env_name = resolve_env_name env in
    let path = dotenv_path files env_name in
    (
      env_name,
      if files.is_file path
          then record { environment = load_dotenv files path env; loaded_env_file = path }
          else record { environment = env; loaded_env_file = "" },
    )
