-- ===== src/Db/Notifications.antt =====
-- The statements on public.notifications: app/pipeline/claimer.py, app/pipeline/finalizer.py and
-- app/ingress/reclaim.py, each with the commit that follows it.
pub mod Laws
use inride_worker_manager.Prelude.{
  ℤ, pos, negsuc, suc, ℕ, ◌+◌, ◌*◌, String, Bool, true, false, ◌&&◌, Option, none, some, List, [],
  ◌∷◌, map, ◌==◌, ltb, leb, str_eq, if◌then◌else◌, any, select, first, update_where, count, take,
}
use inride_worker_manager.Domain.{Uuid}
use inride_worker_manager.Db.{Db, Notification, Delivery}
use inride_worker_manager.Db.Deliveries.{as_sent}

abbrev pub has_id : Uuid → Notification → Bool
has_id id n = n.id == id

-- `id IN (…)`
abbrev pub member : List Uuid → Uuid → Bool
member ids id = any (λ i. i == id) ids

abbrev pub is_pending : Notification → Bool
is_pending n = str_eq n.push_status "pending"

-- SET push_status = s, updated_at = NOW(), push_error = e
abbrev pub with_status : String → Option String → ℕ → Notification → Notification
with_status s e now n = record n { push_status = s; push_error = e; updated_at = some now }

abbrev pub claimable : Uuid → Notification → Bool
claimable id n = has_id id n && is_pending n

-- UPDATE … SET push_status = 'processing' … WHERE id = :id AND push_status = 'pending' RETURNING id
unfoldable pub claim_pending : Uuid → Db → Option Uuid × Db
claim_pending id db =
    if any (claimable id) db.notifications
    then (
      some id,
      record db {
        notifications =
            update_where (claimable id) (with_status "processing" none db.now) db.notifications;
      },
    )
    else (none, db)

abbrev status_of : Option Notification → Option String
status_of none = none
status_of (some n) = some n.push_status

-- SELECT push_status … WHERE id = :id
unfoldable pub select_status : Uuid → Db → Option String
select_status id db = status_of (first (has_id id) db.notifications)

-- SELECT … WHERE id = :id; the caller's `.one()` raises where there is no row
unfoldable pub select_notification : Uuid → Db → Option Notification
select_notification id db = first (has_id id) db.notifications

-- ORDER BY created_at ASC: a null is last, as in PostgreSQL
abbrev pub created_le : Option ℕ → Option ℕ → Bool
created_le none none = true
created_le none (some b) = false
created_le (some a) none = true
created_le (some a) (some b) = leb a b

unfoldable pub insert_by_age : Notification → List Notification → List Notification
insert_by_age n [] = n ∷ []
insert_by_age n (m ∷ ms) =
    if created_le n.created_at m.created_at then n ∷ m ∷ ms else m ∷ insert_by_age n ms

-- rows of equal age keep the order of the table, which SQL leaves open
unfoldable pub sort_by_age : List Notification → List Notification
unfolding insert_by_age
sort_by_age [] = []
sort_by_age (n ∷ ns) = insert_by_age n (sort_by_age ns)

abbrev pub id_of : Notification → Uuid
id_of n = n.id

-- the CTE `claimed`: no row is locked between two statements of this model, so none is skipped
unfoldable pub oldest_pending : ℕ → Db → List Uuid
unfolding sort_by_age select
oldest_pending limit db = map id_of (take limit (sort_by_age (select is_pending db.notifications)))

-- UPDATE … SET push_status = 'processing' … FROM claimed WHERE n.id = claimed.id RETURNING n.id
unfoldable pub claim_batch : ℕ → Db → List Uuid × Db
unfolding oldest_pending
claim_batch limit db =
    let ids = oldest_pending limit db in
    let chosen = λ (n : Notification). member ids n.id in
    (
      map id_of (select chosen db.notifications),
      record db {
        notifications = update_where chosen (with_status "processing" none db.now) db.notifications;
      },
    )

-- SELECT … WHERE id IN (…) ORDER BY created_at ASC
unfoldable pub select_notifications : List Uuid → Db → List Notification
unfolding sort_by_age select
select_notifications ids db = sort_by_age (select (λ n. member ids n.id) db.notifications)

-- UPDATE … SET push_status, push_error, updated_at WHERE id = :id
unfoldable pub update_status : Uuid → String → Option String → Db → Db
update_status id s e db = record db {
  notifications = update_where (has_id id) (with_status s e db.now) db.notifications;
}

-- `t < now - make_interval(secs => s)`
abbrev pub before_interval : ℕ → ℤ → ℕ → Bool
before_interval now (pos s) t = ltb (t + s * 1000000) now
before_interval now (negsuc n) t = ltb t (now + suc n * 1000000)

-- `updated_at < NOW() - make_interval(secs => s)`: false on a null
abbrev pub older_than : ℕ → ℤ → Option ℕ → Bool
older_than now seconds none = false
older_than now seconds (some t) = before_interval now seconds t

abbrev pub is_stale : ℕ → ℤ → Notification → Bool
is_stale now seconds n = str_eq n.push_status "processing" && older_than now seconds n.updated_at

abbrev pub sealable : List Uuid → Delivery → Bool
sealable ids d = member ids d.notification_id && str_eq d.status "sending"

-- the statement of `reclaim_stale`: both updates read the state before it
unfoldable pub reclaim_rows : ℤ → Db → (ℕ × ℕ) × Db
reclaim_rows seconds db =
    let stale = is_stale db.now seconds in
    let ids = map id_of (select stale db.notifications) in
    (
      (count stale db.notifications, count (sealable ids) db.deliveries),
      record db {
        notifications = update_where stale (with_status "pending" none db.now) db.notifications;
        deliveries = update_where (sealable ids) (as_sent db.now) db.deliveries;
      },
    )
