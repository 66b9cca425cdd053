-- ===== src/Db/Directory.antt =====
-- The queries on users and device_tokens: app/pipeline/recipient_resolver.py, and the update of
-- `NotificationFinalizer.deactivate_tokens`. A comparison with a null is not true, as in SQL.
pub mod Laws
use inride_worker_manager.Prelude.{
  eq_int, ltb_int, ℕ, String, Bool, true, false, not, ◌&&◌, ◌||◌, Option, none, some, List, [], ◌∷◌,
  ◌++◌, ◌==◌, leb, opt_eq, str_eq, if◌then◌else◌, first, update_where,
}
use inride_worker_manager.Domain.{Uuid}
use inride_worker_manager.Db.{Db, User, DeviceToken}
use inride_worker_manager.Db.Notifications.{member}

abbrev pub platform_admin : String
platform_admin = "platform_admin"

-- `IS TRUE OR IS NULL` and `IS FALSE OR IS NULL`
abbrev pub true_or_null : Option Bool → Bool
true_or_null none = true
true_or_null (some b) = b

abbrev pub false_or_null : Option Bool → Bool
false_or_null none = true
false_or_null (some b) = not b

abbrev pub is_true : Option Bool → Bool
is_true none = false
is_true (some b) = b

-- What the resolver has put into its query: the tenant to stay in, and the user to leave out.
pub record DeviceQuery : Type 0 where
  pub tenant : Option Uuid
  pub exclude : Option Uuid

-- the three conditions that every query has
abbrev pub can_notify : DeviceToken → User → Bool
can_notify d u =
    is_true d.is_active && (true_or_null u.is_notify_mobile && false_or_null u.is_disabled)

abbrev pub in_tenant : Option Uuid → User → Bool
in_tenant none u = true
in_tenant (some t) u =
    ((opt_eq u.tenant_id t || opt_eq u.scope_tenant_id t) && not (str_eq u.role platform_admin))
    || str_eq u.role platform_admin

abbrev pub not_excluded : Option Uuid → DeviceToken → Bool
not_excluded none d = true
not_excluded (some u) d = not (d.user_id == u)

abbrev pub joins : DeviceToken → User → Bool
joins d u = u.id == d.user_id

abbrev pub matches_query : DeviceQuery → DeviceToken → User → Bool
matches_query q d u =
    joins d u && (can_notify d u && (in_tenant q.tenant u && not_excluded q.exclude d))

-- created_at DESC: a null is first, as in PostgreSQL
abbrev pub created_ge : Option ℕ → Option ℕ → Bool
created_ge none b = true
created_ge (some a) none = false
created_ge (some a) (some b) = leb b a

-- ORDER BY notification_priority DESC, created_at DESC
abbrev pub row_first : DeviceToken × User → DeviceToken × User → Bool
row_first (d, u) (e, v) =
    if ltb_int v.notification_priority u.notification_priority
    then true
    else eq_int u.notification_priority v.notification_priority
      && created_ge d.created_at e.created_at

unfoldable pub insert_row :
    DeviceToken × User → List (DeviceToken × User) → List (DeviceToken × User)
insert_row r [] = r ∷ []
insert_row r (s ∷ rows) = if row_first r s then r ∷ s ∷ rows else s ∷ insert_row r rows

-- rows that the order does not tell apart keep the order of the tables, which SQL leaves open
unfoldable pub sort_rows : List (DeviceToken × User) → List (DeviceToken × User)
sort_rows [] = []
sort_rows (r ∷ rows) = insert_row r (sort_rows rows)

-- the users that a device is joined with, under the conditions
unfoldable pub join_users : DeviceQuery → DeviceToken → List User → List (DeviceToken × User)
join_users q d [] = []
join_users q d (u ∷ us) =
    let rest = join_users q d us in if matches_query q d u then (d, u) ∷ rest else rest

unfoldable pub join_devices : DeviceQuery → List DeviceToken → List User → List (DeviceToken × User)
unfolding join_users
join_devices q [] us = []
join_devices q (d ∷ ds) us = join_users q d us ++ join_devices q ds us

unfoldable pub select_devices : DeviceQuery → Db → List (DeviceToken × User)
unfolding join_devices sort_rows insert_row
select_devices q db = sort_rows (join_devices q db.device_tokens db.users)

-- SELECT … FROM users WHERE id = :id LIMIT 1
unfoldable pub select_user : Uuid → Db → Option User
select_user id db = first (λ u. u.id == id) db.users

abbrev pub listed_active : List Uuid → DeviceToken → Bool
listed_active ids d = member ids d.id && is_true d.is_active

-- UPDATE device_tokens SET is_active = false WHERE id IN (…) AND is_active IS TRUE
abbrev pub deactivated : List Uuid → List DeviceToken → List DeviceToken
deactivated ids tokens =
    update_where (listed_active ids) (λ d. record d { is_active = some false }) tokens

unfoldable pub deactivate_devices : List Uuid → Db → Db
deactivate_devices ids db = record db { device_tokens = deactivated ids db.device_tokens }
