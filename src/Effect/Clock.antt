-- ===== src/Effect/Clock.antt =====
-- A program reads the clock of the database and never sets it.
use inride_worker_manager.Db.{Db}
use inride_worker_manager.Effect.Calm.{calm_respond, exec_calm}
use inride_worker_manager.Prelude.{arith, refl, ◌∙◌, ◌≡◌}
use inride_worker_manager.Effect.{
  Client, Op, Prog, PushMessage, call, claim_pending, done, insert_delivery, publish,
}
use inride_worker_manager.Effect.World.{
  Answer, World, answered, effect, fails_after, fails_before, fine, next_answer, unanswered,
}
use inride_worker_manager.Domain.{Uuid}
use inride_worker_manager.Db.Notifications
use inride_worker_manager.Db.Directory
use inride_worker_manager.Db.Deliveries

insert-now : (l d : Uuid) (db : Db) → (Deliveries.insert_delivery l d db).1.now ≡ db.now
unfolding Deliveries.insert_delivery
insert-now l d db = ground arith

claim-now : (id : Uuid) (db : Db) → (Notifications.claim_pending id db).1.now ≡ db.now
unfolding Notifications.claim_pending
claim-now id db = ground arith

effect-now : (o : Op) (w : World) → (effect o w).1.db.now ≡ w.db.now
unfolding effect Notifications.update_status Notifications.claim_batch Notifications.reclaim_rows
    Directory.deactivate_devices Deliveries.mark_delivery_sent Deliveries.seal_sending
    Deliveries.delete_sending
effect-now (insert_delivery l d) w = insert-now l d w.db
effect-now (claim_pending id) w = claim-now id w.db
effect-now o w = refl

push-now :
    (c : Client) (l d : Uuid) (m : PushMessage) (a : Answer) (w : World)
    → (answered (publish c l d m) a w).1.db.now ≡ w.db.now
unfolding effect unanswered
push-now c l d m fine w = refl
push-now c l d m (fails_before e) w = refl
push-now c l d m (fails_after e) w = refl

calm_respond-now : (o : Op) (w : World) → (calm_respond o w).1.db.now ≡ w.db.now
unfolding calm_respond
calm_respond-now (publish c l d m) w = push-now c l d m (next_answer w.expo) _
calm_respond-now o w = effect-now o w

pub exec_calm-now : {A : Type 0} (m : Prog A) (w : World) → (exec_calm m w).1.db.now ≡ w.db.now
unfolding exec_calm
exec_calm-now (done r) w = refl
exec_calm-now (call o k) w =
    let (r, w') = calm_respond o w in exec_calm-now (k r) w' ∙ calm_respond-now o w
