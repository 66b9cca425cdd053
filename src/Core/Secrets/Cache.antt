-- ===== src/Core/Secrets/Cache.antt =====
-- The cache of app/services/gcp/secret_manager_client.py is invisible, but for the calls it saves.
use inride_worker_manager.Core.Env.{Environment, get_env, or_text}
use inride_worker_manager.Effect.{Result, ok, other, raised}
use inride_worker_manager.Prelude.{
  ap, eq_iff, ◌∙◌, Bool-cases, Option, String, if◌then◌else◌, inl, inr, none, not, refl, some,
  str_eq, sym, ◌≡◌,
}
use inride_worker_manager.Core.Secrets.{
  access_secret_version, get_secret, stripped_or, Secrets, cached, fetch_secret, fetched,
  from_cache, name_key_of, no_secret_id, version_name,
}
use inride_worker_manager.Text.{is_empty, strip}

module _ (env : Environment) (client : String → Option String) where
  abbrev project : String
  project = get_env env "PROJECT_NUMBER" ""

  abbrev payload : Option String → Result String
  payload none = raised (other "the client raised")
  payload (some v) = ok v

  -- what the client gives, if it is asked each time
  unfoldable pub asked : String → Result String
  asked id =
      if str_eq project ""
      then raised (other "PROJECT_NUMBER is required")
      else payload (client (version_name env client project id "latest"))

  abbrev pub stripped_result : String → Result String → Result String
  stripped_result default (ok v) = ok (or_text (strip v) default)
  stripped_result default (raised e) = raised e

  -- the secret that a program without a cache resolves
  unfoldable pub secret_of : String → Option String → String → Result String
  unfolding asked
  secret_of key name_key default =
      let from_env = get_env env key "" in
      let secret_name = get_env env (name_key_of env client key name_key) "" in
      if not (str_eq from_env "")
      then ok from_env
      else if str_eq secret_name ""
      then ok default
      else stripped_result default (
          if is_empty (strip secret_name)
          then raised (no_secret_id env client)
          else asked (strip secret_name))

  -- Each cached value is what the client gives for the latest version.
  pub record IsCoherent (s : Secrets) : Type 0 where
    pub at : (id v : String) → cached id s.cache ≡ some v → asked id ≡ ok v

  -- the answer is that without a cache, and the cache stays coherent
  abbrev Agrees : Result String → Result String × Secrets → Type 0
  Agrees r x = (x.0 ≡ r) × IsCoherent x.1

  fetched-Agrees :
      (id name : String) (found : Option String) (s : Secrets)
      → IsCoherent s
      → asked id ≡ payload found
      → Agrees (payload found) (fetched env client id name found s)
  unfolding cached
  fetched-Agrees id name none s c e = (refl, record { at = c.at })
  fetched-Agrees id name (some v) s c e = (
    refl,
    record {
      at = λ i u h. elim (Bool-cases (str_eq id i)) [
        | inl x ↦
            (let same : some v ≡ some u = rw x at h in
              ap asked (sym ((eq_iff id i).0 x)) ∙ e ∙ ap payload same)
        | inr x ↦ c.at i u (rw x at h)
      ];
    },
  )

  fetch-Agrees :
      (id : String) (s : Secrets)
      → IsCoherent s
      → Agrees (asked id) (fetch_secret env client id "latest" project s)
  unfolding fetch_secret asked
  fetch-Agrees id s c = elim (Bool-cases (str_eq project "")) [
    | inl x ↦ rw x (refl, c)
    | inr x ↦
        rw x (fetched-Agrees id _ (client (version_name env client project id "latest")) s c (rw x))
  ]

  from_cache-Agrees :
      (id : String) (found : Option String) (s : Secrets)
      → IsCoherent s
      → cached id s.cache ≡ found
      → Agrees (asked id) (from_cache env client id "latest" found s)
  from_cache-Agrees id none s c e = fetch-Agrees id s c
  from_cache-Agrees id (some v) s c e = (sym (c.at id v e), c)

  stripped-Agrees :
      (default : String) (r : Result String) (x : Result String × Secrets)
      → Agrees r x
      → Agrees (stripped_result default r) (stripped_or env client default x)
  stripped-Agrees default r (ok v, s) a = (ap (stripped_result default) a.0, a.1)
  stripped-Agrees default r (raised e, s) a = (ap (stripped_result default) a.0, a.1)

  access-Agrees :
      (default name : String) (s : Secrets)
      → IsCoherent s
      → Agrees
          (stripped_result default (
            if is_empty (strip name) then raised (no_secret_id env client) else asked (strip name)))
          (stripped_or env client default (access_secret_version env client (some name) "latest" s))
  unfolding access_secret_version
  access-Agrees default name s c = elim (Bool-cases (is_empty (strip name))) [
    | inl x ↦ rw x (refl, c)
    | inr x ↦ rw x (
        stripped-Agrees default _ _
          (from_cache-Agrees (strip name) (cached (strip name) s.cache) s c refl))
  ]

  -- Resolving a secret with a coherent cache gives what the environment and the client give
  -- without a cache, exceptions included, and leaves the cache coherent.
  pub get_secret_uncached :
      (key : String) (name_key : Option String) (default : String) (s : Secrets)
      → IsCoherent s
      → ((get_secret env client key name_key default s).0 ≡ secret_of key name_key default)
        × IsCoherent (get_secret env client key name_key default s).1
  unfolding get_secret secret_of
  get_secret_uncached key name_key default s c =
      let secret_name = get_env env (name_key_of env client key name_key) "" in
      elim (Bool-cases (str_eq (get_env env key "") "")) [
        | inl x ↦ rw x (elim (Bool-cases (str_eq secret_name "")) [
          | inl y ↦ rw y (refl, c)
          | inr y ↦ rw y (access-Agrees default secret_name s c)
        ])
        | inr x ↦ rw x (refl, c)
      ]
