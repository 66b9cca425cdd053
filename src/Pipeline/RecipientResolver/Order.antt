-- ===== src/Pipeline/RecipientResolver/Order.antt =====
-- The order in which app/pipeline/recipient_resolver.py lists its targets: by priority.
use inride_worker_manager.Effect.Calm.{exec_calm}
use inride_worker_manager.Db.Directory.{DeviceQuery, join_devices, insert_row, row_first, sort_rows}
use inride_worker_manager.Pipeline.RecipientResolver.Reads.{resolve-reads, resolved, targets_in}
use inride_worker_manager.Pipeline.RecipientResolver.{target_of, resolve, targets_of}
use inride_worker_manager.Effect.World.{World}
use inride_worker_manager.Db.{Db, DeviceToken, User}
use inride_worker_manager.Domain.{DeliveryJob, DeliveryTarget, Uuid}
use inride_worker_manager.Prelude.{
  arith, eq_int-leb_int, leb_int, leb_int_total, leb_int_trans, ℤ, All, Bool-cases, List, Option,
  [], false, inl, inr, none, refl, some, true, ◌∷◌, ◌≡◌,
}
use inride_worker_manager.Text.{is_empty, strip}
use inride_worker_manager.Effect.{ok}
use inride_worker_manager.Db.Directory

-- a row of which every later one has no greater priority
abbrev priority_of : DeviceToken × User → ℤ
priority_of r = r.1.notification_priority

abbrev BelowRow : DeviceToken × User → DeviceToken × User → Type 0
BelowRow r s = leb_int (priority_of s) (priority_of r) ≡ true

abbrev RowsDescend : List (DeviceToken × User) → Type 0
RowsDescend [] = Unit
RowsDescend (r ∷ rows) = All (BelowRow r) rows × RowsDescend rows

abbrev pub Below : DeliveryTarget → DeliveryTarget → Type 0
Below t s = leb_int s.notification_priority t.notification_priority ≡ true

-- no target is followed by one of a greater priority
abbrev pub Descends : List DeliveryTarget → Type 0
Descends [] = Unit
Descends (t ∷ ts) = All (Below t) ts × Descends ts

row_first-below : (r s : DeviceToken × User) → row_first r s ≡ true → BelowRow r s
row_first-below r s h = elim (Bool-cases (leb_int (priority_of r) (priority_of s))) [
  | inl e ↦ eq_int-leb_int (priority_of r) (priority_of s) (ground arith)
  | inr e ↦ leb_int_total (priority_of r) (priority_of s) e
]

not_first-below : (r s : DeviceToken × User) → row_first r s ≡ false → BelowRow s r
not_first-below r s h = elim (Bool-cases (leb_int (priority_of r) (priority_of s))) [
  | inl e ↦ e
  | inr e ↦ cc (h, e)
]

All-below :
    (r s : DeviceToken × User) (rows : List (DeviceToken × User))
    → BelowRow r s
    → All (BelowRow s) rows
    → All (BelowRow r) rows
All-below r s [] h a = tt
All-below r s (x ∷ rows) h a =
    (leb_int_trans (priority_of x) (priority_of s) (priority_of r) a.0 h, All-below r s rows h a.1)

All-insert_row :
    (b r : DeviceToken × User) (rows : List (DeviceToken × User))
    → BelowRow b r
    → All (BelowRow b) rows
    → All (BelowRow b) (insert_row r rows)
unfolding insert_row
All-insert_row b r [] h a = (h, tt)
All-insert_row b r (s ∷ rows) h a = elim (Bool-cases (row_first r s)) [
  | inl e ↦ rw e (h, a)
  | inr e ↦ rw e (a.0, All-insert_row b r rows h a.1)
]

insert_row-RowsDescend :
    (r : DeviceToken × User) (rows : List (DeviceToken × User))
    → RowsDescend rows
    → RowsDescend (insert_row r rows)
unfolding insert_row
insert_row-RowsDescend r [] d = (tt, tt)
insert_row-RowsDescend r (s ∷ rows) d = elim (Bool-cases (row_first r s)) [
  | inl e ↦ rw e ((row_first-below r s e, All-below r s rows (row_first-below r s e) d.0), d)
  | inr e ↦
      rw e (All-insert_row s r rows (not_first-below r s e) d.0, insert_row-RowsDescend r rows d.1)
]

sort_rows-RowsDescend : (rows : List (DeviceToken × User)) → RowsDescend (sort_rows rows)
unfolding sort_rows
sort_rows-RowsDescend [] = tt
sort_rows-RowsDescend (r ∷ rows) =
    insert_row-RowsDescend r (sort_rows rows) (sort_rows-RowsDescend rows)

All-targets_of :
    (r : DeviceToken × User) (t : DeliveryTarget) (rows : List (DeviceToken × User))
    → t.notification_priority ≡ priority_of r
    → All (BelowRow r) rows
    → All (Below t) (targets_of rows)
unfolding targets_of
All-targets_of r t [] p a = tt
All-targets_of r t ((d, u) ∷ rows) p a = elim (Bool-cases (is_empty (strip d.token))) [
  | inl e ↦ rw e (All-targets_of r t rows p a.1)
  | inr e ↦ rw e (rw p a.0, All-targets_of r t rows p a.1)
]

targets_of-Descends :
    (rows : List (DeviceToken × User)) → RowsDescend rows → Descends (targets_of rows)
unfolding targets_of
targets_of-Descends [] d = tt
targets_of-Descends ((e, u) ∷ rows) d = elim (Bool-cases (is_empty (strip e.token))) [
  | inl h ↦ rw h (targets_of-Descends rows d.1)
  | inr h ↦ rw h (
    All-targets_of (e, u) (target_of e u (strip e.token)) rows refl d.0,
    targets_of-Descends rows d.1,
  )
]

select_devices-RowsDescend :
    (q : DeviceQuery) (db : Db) → RowsDescend (Directory.select_devices q db)
unfolding Directory.select_devices
select_devices-RowsDescend q db = sort_rows-RowsDescend (join_devices q db.device_tokens db.users)

targets_in-Descends : (tenant actor : Option Uuid) (db : Db) → Descends (targets_in tenant actor db)
targets_in-Descends none actor db = tt
targets_in-Descends (some t) actor db = targets_of-Descends _ (select_devices-RowsDescend _ db)

-- While the database does not fail, the resolver reads only, and lists the targets by descending
-- priority.
pub resolved-Descends :
    (job : DeliveryJob) (w : World)
    → (targets : List DeliveryTarget) × (exec_calm (resolve job) w ≡ (ok targets, w))
      × Descends targets
unfolding resolved
resolved-Descends job w = (
  resolved job w.db,
  resolve-reads job w,
  targets_in-Descends job.tenant_id job.actor_user_id w.db,
)
