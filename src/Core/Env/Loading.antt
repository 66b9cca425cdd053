-- ===== src/Core/Env/Loading.antt =====
-- What `load_env_files` of app/core/env.py brings into the environment.
use inride_worker_manager.Prelude.{
  ap, sym, ◌∙◌, Bool-cases, Option, String, eq_iff, false, if◌then◌else◌, inl, inr, none, refl,
  some, str_eq, text_or, true, ◌≡◌, ◌≢◌, ◌⊎◌,
}
use Prim.Native.String.{◌++◌}
use inride_worker_manager.Text.{is_space, lstrip, rstrip, lower, strip}
use inride_worker_manager.Core.Env.{
  load_dotenv, EnvFiles, Environment, get_env, load_env_files, resolve_env_name, value_or,
}

-- the file of a deployment by its name: `dev.env` for dev, `.env` for any other
pub data FileOf (root : String) (name : String) (path : String) : Type 0 where
  dev_file : name ≡ "dev" → path ≡ (root ++ "/dev.env") → FileOf root name path
  deploy_file : name ≢ "dev" → path ≡ (root ++ "/.env") → FileOf root name path

-- Where the value of a variable comes from, with this file: from the process, which wins; from the
-- file, where there is one; else there is none.
pub data ValueFrom (files : EnvFiles) (env : Environment) (path : String) (key : String)
    (value : Option String) : Type 0 where
  from_process :
      (v : String) → env key ≡ some v → value ≡ some v → ValueFrom files env path key value
  from_file :
      env key ≡ none
      → files.is_file path ≡ true
      → value ≡ files.entries path key
      → ValueFrom files env path key value
  from_nowhere :
      env key ≡ none
      → files.is_file path ≡ false
      → value ≡ none
      → ValueFrom files env path key value

-- What the load does to a variable, and the name that it returns.
pub record Loads (files : EnvFiles) (env : Environment) (key : String) : Type 0 where
  pub path : String
  pub chosen : FileOf files.root_dir ((load_env_files files env).0) path
  pub value : ValueFrom files env path key ((load_env_files files env).1.environment key)
  -- the name is the ENV of the settings, but where the process has none and the file for dev has
  pub named :
      ((load_env_files files env).0
        ≡ lower (get_env ((load_env_files files env).1.environment) "ENV" "dev"))
      ⊎ ((env "ENV" ≡ none) × (files.entries (files.root_dir ++ "/dev.env") "ENV" ≢ none))

same_name : (o : Option String) → lower (strip (text_or o "dev")) ≡ lower (value_or "dev" o)
unfolding strip
same_name none = refl
same_name (some v) = elim (Bool-cases (str_eq v "")) [ inl e ↦ rw e refl | inr e ↦ rw e refl ]

abbrev path_of : EnvFiles → String → String
path_of files name = files.root_dir ++ (if str_eq name "dev" then "/dev.env" else "/.env")

path-FileOf : (files : EnvFiles) (name : String) → FileOf files.root_dir name (path_of files name)
path-FileOf files name = elim (Bool-cases (str_eq name "dev")) [
  | inl e ↦ dev_file ((eq_iff name "dev").0 e) (rw e refl)
  | inr e ↦ deploy_file (λ h. cc (e, (eq_iff name "dev").1 h)) (rw e refl)
]

load-ValueFrom :
    (files : EnvFiles) (env : Environment) (key : String) (o : Option String)
    → env key ≡ o
    → ValueFrom files env
        (path_of files ((load_env_files files env).0))
        key
        ((load_env_files files env).1.environment key)
unfolding load_env_files
load-ValueFrom files env key o h =
    elim (Bool-cases (files.is_file (path_of files (resolve_env_name env)))) [
      | inl f ↦ rw f (in_file o h f)
      | inr f ↦ rw f (no_file o h f)
    ]
  where
    path : String
    path = path_of files (resolve_env_name env)

    in_file :
        (o : Option String)
        → env key ≡ o
        → files.is_file path ≡ true
        → ValueFrom files env path key (load_dotenv files path env key)
    in_file none h f = from_file h f (rw h refl)
    in_file (some v) h f = from_process v h (rw h refl)

    no_file :
        (o : Option String)
        → env key ≡ o
        → files.is_file path ≡ false
        → ValueFrom files env path key (env key)
    no_file none h f = from_nowhere h f h
    no_file (some v) h f = from_process v h h

dev_name : lower (strip "dev") ≡ "dev"
unfolding lower strip lstrip rstrip is_space
dev_name = refl

unset-dev : (env : Environment) → env "ENV" ≡ none → resolve_env_name env ≡ "dev"
unfolding resolve_env_name
unset-dev env h = rw h dev_name

-- the name is that of the settings where the load leaves ENV as it is
name_kept :
    (files : EnvFiles) (env : Environment)
    → (load_env_files files env).1.environment "ENV" ≡ env "ENV"
    → (load_env_files files env).0
      ≡ lower (get_env ((load_env_files files env).1.environment) "ENV" "dev")
unfolding load_env_files resolve_env_name get_env
name_kept files env h = same_name (env "ENV") ∙ ap (λ o. lower (value_or "dev" o)) (sym h)

load-named :
    (files : EnvFiles) (env : Environment)
    → ValueFrom files env
        (path_of files ((load_env_files files env).0))
        "ENV"
        ((load_env_files files env).1.environment "ENV")
    → ((load_env_files files env).0
        ≡ lower (get_env ((load_env_files files env).1.environment) "ENV" "dev"))
      ⊎ ((env "ENV" ≡ none) × (files.entries (files.root_dir ++ "/dev.env") "ENV" ≢ none))
unfolding load_env_files
load-named files env (from_process v h e) = inl (name_kept files env (e ∙ sym h))
load-named files env (from_nowhere h f e) = inl (name_kept files env (e ∙ sym h))
load-named files env (from_file h f e) = brought _ refl
  where
    path : path_of files (resolve_env_name env) ≡ (files.root_dir ++ "/dev.env")
    path = ap (path_of files) (unset-dev env h)

    brought :
        (o : Option String)
        → files.entries (files.root_dir ++ "/dev.env") "ENV" ≡ o
        → ((load_env_files files env).0
            ≡ lower (get_env ((load_env_files files env).1.environment) "ENV" "dev"))
          ⊎ ((env "ENV" ≡ none) × (files.entries (files.root_dir ++ "/dev.env") "ENV" ≢ none))
    brought none k =
        inl (name_kept files env (e ∙ ap (λ p. files.entries p "ENV") path ∙ k ∙ sym h))
    brought (some v) k = inr (h, λ n. cc (k, n))

-- The file of the load is `dev.env` if the name it returns is `dev`, and `.env` if not. After it, a
-- variable that the process has keeps its value, and another one has the value in the file, if the
-- file is there, and none if not. The name is the lower case of the ENV that the settings then
-- read, or the process has no ENV and `dev.env` brings one.
pub load_env_files_lem : (files : EnvFiles) (env : Environment) (key : String) → Loads files env key
load_env_files_lem files env key = record {
  path = path_of files ((load_env_files files env).0);
  chosen = path-FileOf files ((load_env_files files env).0);
  value = load-ValueFrom files env key (env key) refl;
  named = load-named files env (load-ValueFrom files env "ENV" (env "ENV") refl);
}
