-- ===== src/Db/Notifications/Laws.antt =====
-- What the statements on public.notifications do to the statuses.
use inride_worker_manager.Domain.{Uuid}
use inride_worker_manager.Db.Notifications.{has_id, update_status, with_status}
use inride_worker_manager.Db.{Db, Notification}
use inride_worker_manager.Prelude.{
  update_where, ℕ, Bool, Option, String, any, any-update_clear, arith, false, not, str_eq, ◌&&◌,
  ◌≡◌,
}
use text.Mathlib.TextPositions.{eq_refl}

-- a row of this id in another status
abbrev pub unlike : Uuid → String → Notification → Bool
unlike id s n = has_id id n && not (str_eq n.push_status s)

-- every row of this id has this status
abbrev pub Stored : Uuid → String → Db → Type 0
Stored id s db = any (unlike id s) db.notifications ≡ false

pub Stored-update_status :
    (id : Uuid) (s : String) (e : Option String) (db : Db) → Stored id s (update_status id s e db)
unfolding update_status
Stored-update_status id s e db =
    any-update_clear (unlike id s) (has_id id) (with_status s e db.now) db.notifications
      (λ n h. ground arith) (λ n. ground (arith, eq_refl s))

-- the update that a finalization makes, at some time and with some error
abbrev pub Finalized : Uuid → String → Db → Db → Type 0
Finalized id s before after =
    (e : Option String) × (now : ℕ) × (after.notifications
      ≡ update_where (has_id id) (with_status s e now) before.notifications)
