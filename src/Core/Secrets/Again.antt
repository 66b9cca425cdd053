-- ===== src/Core/Secrets/Again.antt =====
-- A secret that was resolved once is resolved again without a call of the client.
use inride_worker_manager.Effect.{Result, ok, raised}
use inride_worker_manager.Core.Env.{Environment, get_env}
use inride_worker_manager.Text.{is_empty, strip}
use inride_worker_manager.Core.Secrets.{
  Secrets, access_secret_version, cached, fetch_secret, fetched, from_cache, get_secret,
  name_key_of, stripped_or, version_name,
}
use inride_worker_manager.Prelude.{
  Bool, Bool-cases, Option, String, ap, false, inl, inr, none, refl, some, str_eq, true, ◌≡◌,
}
use text.Mathlib.TextPositions.{eq_refl}

abbrev pub is_ok : Result String → Bool
is_ok (ok v) = true
is_ok (raised e) = false

module _ (env : Environment) (client : String → Option String) where
  fetched-again :
      (id version name : String) (found : Option String) (s : Secrets)
      → is_ok (fetched env client id name found s).0 ≡ true
      → from_cache env client id version
          (cached id (fetched env client id name found s).1.cache)
          (fetched env client id name found s).1
        ≡ fetched env client id name found s
  unfolding cached
  fetched-again id version name none s h = cc h
  fetched-again id version name (some v) s h = rw (eq_refl id)

  fetch-again :
      (id version project : String) (s : Secrets)
      → is_ok (fetch_secret env client id version project s).0 ≡ true
      → from_cache env client id version
          (cached id (fetch_secret env client id version project s).1.cache)
          (fetch_secret env client id version project s).1
        ≡ fetch_secret env client id version project s
  unfolding fetch_secret
  fetch-again id version project s h = elim (Bool-cases (str_eq project "")) [
    | inl x ↦ cc (rw x at h)
    | inr x ↦ rw x (
        fetched-again id version _ (client (version_name env client project id version)) s
          (rw x at h))
  ]

  from_cache-again :
      (id version : String) (found : Option String) (s : Secrets)
      → cached id s.cache ≡ found
      → is_ok (from_cache env client id version found s).0 ≡ true
      → from_cache env client id version
          (cached id (from_cache env client id version found s).1.cache)
          (from_cache env client id version found s).1
        ≡ from_cache env client id version found s
  from_cache-again id version none s e h = fetch-again id version _ s h
  from_cache-again id version (some v) s e h = rw e

  access-again :
      (name version : String) (s : Secrets)
      → is_ok (access_secret_version env client (some name) version s).0 ≡ true
      → access_secret_version env client
          (some name)
          version
          (access_secret_version env client (some name) version s).1
        ≡ access_secret_version env client (some name) version s
  unfolding access_secret_version
  access-again name version s h = elim (Bool-cases (is_empty (strip name))) [
    | inl x ↦ rw x
    | inr x ↦
        rw x
          (from_cache-again (strip name) version (cached (strip name) s.cache) s refl (rw x at h))
  ]

  stripped-again :
      (default : String) (f : Secrets → Result String × Secrets) (x : Result String × Secrets)
      → (is_ok x.0 ≡ true → f x.1 ≡ x)
      → is_ok (stripped_or env client default x).0 ≡ true
      → stripped_or env client default (f (stripped_or env client default x).1)
        ≡ stripped_or env client default x
  stripped-again default f (ok v, s) g h = ap (stripped_or env client default) (g refl)
  stripped-again default f (raised e, s) g h = cc h

  -- After a secret was resolved without an exception, resolving it again gives the same text and
  -- changes neither the cache nor the list of requests: the client is not called.
  pub get_secret_again :
      (key : String) (name_key : Option String) (default : String) (s : Secrets)
      → is_ok (get_secret env client key name_key default s).0 ≡ true
      → get_secret env client key name_key default (get_secret env client key name_key default s).1
        ≡ get_secret env client key name_key default s
  unfolding get_secret
  get_secret_again key name_key default s h =
      let secret_name = get_env env (name_key_of env client key name_key) "" in
      elim (Bool-cases (str_eq (get_env env key "") "")) [
        | inl x ↦ elim (Bool-cases (str_eq secret_name "")) [
          | inl y ↦ rw (x, y)
          | inr y ↦
              rw (x, y)
                (stripped-again default
                  (access_secret_version env client (some secret_name) "latest") _
                  (access-again secret_name "latest" s) (rw (x, y) at h))
        ]
        | inr x ↦ rw x
      ]
