-- ===== src/Effect/Ledger.antt =====
-- Every operation moves the ledger as Db/Deliveries/Moves allows, whether it fails or not.
use inride_worker_manager.Db.Notifications.{claimable}
use inride_worker_manager.Domain.{Uuid}
use inride_worker_manager.Db.Deliveries.{at_key, in_status, new_row}
use inride_worker_manager.Db.{Db}
use inride_worker_manager.Effect.Relates.{respond-Relates, tables}
use inride_worker_manager.Db.Deliveries.Moves.{LedgerMove, deletes, inserts, marks, stays}
use inride_worker_manager.Effect.World.{World, effect, respond}
use inride_worker_manager.Effect.{
  Op, claim_pending, delete_sending, insert_delivery, mark_delivery_sent, reclaim_rows,
  seal_sending,
}
use inride_worker_manager.Db.Notifications
use inride_worker_manager.Db.Deliveries
use inride_worker_manager.Db.Directory
use inride_worker_manager.Prelude.{Bool-cases, any, inl, inr, refl}

abbrev Moves : World → World → Type 0
Moves v w = LedgerMove v.db.deliveries w.db.deliveries

insert-Moves :
    (l d : Uuid) (db : Db)
    → LedgerMove db.deliveries ((Deliveries.insert_delivery l d db).1.deliveries)
unfolding Deliveries.insert_delivery Deliveries.has_row
insert-Moves l d db = elim (Bool-cases (any (at_key l d) db.deliveries)) [
  | inl e ↦ rw e (stays db.deliveries)
  | inr e ↦ rw e (inserts db.deliveries (new_row db l d) e refl)
]

claim-Moves :
    (id : Uuid) (db : Db)
    → LedgerMove db.deliveries ((Notifications.claim_pending id db).1.deliveries)
unfolding Notifications.claim_pending
claim-Moves id db = elim (Bool-cases (any (claimable id) db.notifications)) [
  | inl e ↦ rw e (stays db.deliveries)
  | inr e ↦ rw e (stays db.deliveries)
]

effect-Moves : (o : Op) (w : World) → Moves w ((effect o w).1)
unfolding effect Notifications.update_status Notifications.claim_batch Notifications.reclaim_rows
    Directory.deactivate_devices Deliveries.mark_delivery_sent Deliveries.seal_sending
    Deliveries.delete_sending
effect-Moves (insert_delivery l d) w = insert-Moves l d w.db
effect-Moves (mark_delivery_sent l d) w = marks w.db.deliveries (at_key l d) w.db.now
effect-Moves (delete_sending l d) w = deletes w.db.deliveries l d
effect-Moves (seal_sending l) w = marks w.db.deliveries (in_status l "sending") w.db.now
effect-Moves (reclaim_rows s) w = marks w.db.deliveries _ w.db.now
effect-Moves (claim_pending id) w = claim-Moves id w.db
effect-Moves o w = stays w.db.deliveries

pub respond-Moves :
    (o : Op) (w : World) → LedgerMove w.db.deliveries ((respond o w).1.db.deliveries)
respond-Moves o w =
    respond-Relates tables (λ (a : Db) (b : Db). LedgerMove a.deliveries b.deliveries)
      (λ db. stays db.deliveries) o (effect-Moves o) w
