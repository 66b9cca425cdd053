-- ===== src/Pipeline/RecipientResolver/Targets.antt =====
-- Which devices app/pipeline/recipient_resolver.py targets, and in which order.
use inride_worker_manager.Effect.Calm.{exec_calm}
use inride_worker_manager.Effect.World.{World}
use inride_worker_manager.Effect.{ok}
use inride_worker_manager.Text.{is_empty, strip}
use inride_worker_manager.Db.Directory
use inride_worker_manager.Db.{Db, DeviceToken, User}
use inride_worker_manager.Domain.{DeliveryJob, DeliveryTarget, Uuid}
use inride_worker_manager.Pipeline.RecipientResolver.Reads.{
  resolve-reads, resolved, targets_in, actor_in,
}
use inride_worker_manager.Db.Directory.{
  in_tenant, not_excluded, DeviceQuery, false_or_null, insert_row, is_true, join_devices,
  join_users, matches_query, platform_admin, sort_rows, true_or_null,
}
use inride_worker_manager.Prelude.{
  ap, count-same, sum_over-same, ◌∙◌, Bool-cases, false, inl, inr, none, some, Bool, List, Option,
  [], arith, count, count-append, not, opt_eq, refl, str_eq, sum_over, ◌&&◌, ◌==◌, ◌||◌, ◌∷◌, ◌≡◌,
}
use inride_worker_manager.Pipeline.RecipientResolver.{
  resolve, build_query, is_platform_admin, target_of, targets_of,
}

-- the actor's row says that it is a platform admin
abbrev pub by_admin : Option Uuid → Db → Bool
by_admin actor db = is_platform_admin (actor_in actor db)

abbrev pub is_admin : User → Bool
is_admin u = str_eq u.role platform_admin

abbrev pub is_owner : Option Uuid → DeviceToken → Bool
is_owner none d = false
is_owner (some a) d = d.user_id == a

-- Whether the device of the user is to hear of a notification in `tenant` by `actor`.
abbrev pub is_recipient : Uuid → Option Uuid → Db → DeviceToken → User → Bool
is_recipient tenant actor db d u =
    (u.id == d.user_id)
    && (is_true d.is_active && not (is_empty (strip d.token)))
    && (true_or_null u.is_notify_mobile && false_or_null u.is_disabled)
    && (by_admin actor db
        || is_admin u
        || opt_eq u.tenant_id tenant
        || opt_eq u.scope_tenant_id tenant)
    && not (is_owner actor d)

abbrev row_passes : (DeliveryTarget → Bool) → DeviceToken → User → Bool
row_passes q d u = not (is_empty (strip d.token)) && q (target_of d u (strip d.token))

abbrev passes : (DeliveryTarget → Bool) → DeviceToken × User → Bool
passes q (d, u) = row_passes q d u

count-targets_of :
    (q : DeliveryTarget → Bool) (rows : List (DeviceToken × User))
    → count q (targets_of rows) ≡ count (passes q) rows
unfolding count targets_of
count-targets_of q [] = refl
count-targets_of q ((d, u) ∷ rows) = ground (arith, count-targets_of q rows)

module _ (p : DeviceToken × User → Bool) where
  count-insert_row :
      (r : DeviceToken × User) (rows : List (DeviceToken × User))
      → count p (insert_row r rows) ≡ count p (r ∷ rows)
  unfolding count insert_row
  count-insert_row r [] = refl
  count-insert_row r (s ∷ rows) = ground (arith, count-insert_row r rows)

  count-sort_rows : (rows : List (DeviceToken × User)) → count p (sort_rows rows) ≡ count p rows
  unfolding count sort_rows
  count-sort_rows [] = refl
  count-sort_rows (r ∷ rows) =
      omega (arith, count-insert_row r (sort_rows rows), count-sort_rows rows)

  module _ (q : DeviceQuery) where
    count-join_users :
        (d : DeviceToken) (us : List User)
        → count p (join_users q d us) ≡ count (λ u. matches_query q d u && p (d, u)) us
    unfolding count join_users
    count-join_users d [] = refl
    count-join_users d (u ∷ us) = ground (arith, count-join_users d us)

    count-join_devices :
        (ds : List DeviceToken) (us : List User)
        → count p (join_devices q ds us)
          ≡ sum_over (λ d. count (λ u. matches_query q d u && p (d, u)) us) ds
    unfolding count join_devices sum_over
    count-join_devices [] us = refl
    count-join_devices (d ∷ ds) us = omega (
      arith,
      count-append p (join_users q d us) (join_devices q ds us),
      count-join_users d us,
      count-join_devices ds us,
    )

tenant-admits :
    (tenant : Uuid) (actor : Option User) (u : User)
    → in_tenant (build_query tenant none actor).tenant u ≡ (
        is_platform_admin actor
        || is_admin u
        || opt_eq u.tenant_id tenant
        || opt_eq u.scope_tenant_id tenant)
unfolding build_query
tenant-admits tenant actor u = elim (Bool-cases (is_platform_admin actor)) [
  | inl e ↦ rw e
  | inr e ↦ rw e (ground arith)
]

not_excluded-owner :
    (actor : Option Uuid) (d : DeviceToken) → not_excluded actor d ≡ not (is_owner actor d)
not_excluded-owner none d = refl
not_excluded-owner (some a) d = refl

module _ (tenant : Uuid) (actor : Option Uuid) (db : Db) (q : DeliveryTarget → Bool) where
  recipient_pair :
      (d : DeviceToken) (u : User)
      → (matches_query (build_query tenant actor (actor_in actor db)) d u && row_passes q d u)
        ≡ (is_recipient tenant actor db d u && q (target_of d u (strip d.token)))
  unfolding build_query
  recipient_pair d u =
      ground (arith, tenant-admits tenant (actor_in actor db) u, not_excluded-owner actor d)

  count-targets_in :
      count q (targets_in (some tenant) actor db)
      ≡ sum_over
          (λ d.
            count
              (λ u. is_recipient tenant actor db d u && q (target_of d u (strip d.token)))
              db.users)
          db.device_tokens
  unfolding Directory.select_devices
  count-targets_in =
      let query = build_query tenant actor (actor_in actor db) in
      count-targets_of q (sort_rows (join_devices query db.device_tokens db.users))
      ∙ count-sort_rows (passes q) (join_devices query db.device_tokens db.users)
      ∙ count-join_devices (passes q) query db.device_tokens db.users
      ∙ sum_over-same _ _ db.device_tokens (λ d. count-same _ _ db.users (λ u. recipient_pair d u))

-- The resolver of a job that has a tenant reads only, and gives a target for each pair of a
-- device and its user that is to hear of the notification, and no other: counted by any condition
-- on targets.
pub resolve_targets :
    (job : DeliveryJob) (tenant : Uuid) (w : World) (q : DeliveryTarget → Bool)
    → job.tenant_id ≡ some tenant
    → (targets : List DeliveryTarget) × (exec_calm (resolve job) w ≡ (ok targets, w))
      × (count q targets
          ≡ sum_over
              (λ d.
                count
                  (λ u.
                    is_recipient tenant job.actor_user_id w.db d u
                    && q (target_of d u (strip d.token)))
                  w.db.users)
              w.db.device_tokens)
unfolding resolved
resolve_targets job tenant w q e = (
  resolved job w.db,
  resolve-reads job w,
  ap (λ t. count q (targets_in t job.actor_user_id w.db)) e
      ∙ count-targets_in tenant job.actor_user_id w.db q,
)
