-- ===== src/Pipeline/RecipientResolver.antt =====
-- app/pipeline/recipient_resolver.py.
pub mod Reads
pub mod Targets
pub mod Order
use inride_worker_manager.Prelude.{
  String, Bool, false, Option, none, some, List, [], ◌∷◌, str_eq, if◌then◌else◌,
}
use inride_worker_manager.Domain.{Uuid, DeliveryJob, DeliveryTarget}
use inride_worker_manager.Db.{User, DeviceToken}
use inride_worker_manager.Db.Directory.{DeviceQuery, platform_admin}
use inride_worker_manager.Text.{strip, is_empty}
use inride_worker_manager.Effect.{◌>>=◌, Prog, pure, perform, select_user, select_devices}

-- `if exclude_user_id is not None: actor = … .first()`
unfoldable pub find_actor : Option Uuid → Prog (Option User)
find_actor none = pure none
find_actor (some id) = perform (select_user id)

abbrev pub is_platform_admin : Option User → Bool
is_platform_admin none = false
is_platform_admin (some u) = str_eq u.role platform_admin

-- The tenant is left out of the query when the actor is a platform admin.
unfoldable pub build_query : Uuid → Option Uuid → Option User → DeviceQuery
build_query tenant exclude actor = record {
  tenant = if is_platform_admin actor then none else some tenant;
  exclude = exclude;
}

abbrev pub target_of : DeviceToken → User → String → DeliveryTarget
target_of device user token = record {
  device_token_id = device.id;
  push_token = token;
  user_id = some user.id;
  notification_priority = user.notification_priority;
}

-- the loop over the rows: a blank token is passed over
unfoldable pub targets_of : List (DeviceToken × User) → List DeliveryTarget
targets_of [] = []
targets_of ((device, user) ∷ rows) =
    let token = strip device.token in
    let rest = targets_of rows in
    if is_empty token then rest else target_of device user token ∷ rest

unfoldable pub resolve_in : Uuid → Option Uuid → Prog (List DeliveryTarget)
unfolding find_actor
resolve_in tenant exclude = do
  actor ← find_actor exclude
  rows ← perform (select_devices (build_query tenant exclude actor))
  pure (targets_of rows)

abbrev pub resolve_for : Option Uuid → Option Uuid → Prog (List DeliveryTarget)
resolve_for none exclude = pure []
resolve_for (some tenant) exclude = resolve_in tenant exclude

unfoldable pub resolve : DeliveryJob → Prog (List DeliveryTarget)
unfolding resolve_in
resolve job = resolve_for job.tenant_id job.actor_user_id
