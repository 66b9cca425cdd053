-- ===== src/Ingress/Statuses.antt =====
-- What the operations of the worker do to the status of a notification: app/pipeline/claimer.py,
-- app/pipeline/finalizer.py and app/ingress/reclaim.py.
use inride_worker_manager.Pipeline.Operations.{StoresOnly}
use inride_worker_manager.Core.{Config}
use inride_worker_manager.Pipeline.Runner.{or_failed}
use inride_worker_manager.Effect.World.{World, effect}
use inride_worker_manager.Db.{Db}
use inride_worker_manager.Prelude.{
  ◌||◌, Bool-cases, String, any, any-update_back, any-update_none, arith, eq_iff, false, inl, inr,
  none, refl, str_eq, true, ◌≡◌,
}
use inride_worker_manager.Effect.{
  Op, claim_batch, claim_pending, insert_delivery, reclaim_rows, update_status,
}
use inride_worker_manager.Db.Notifications.{claimable, has_id, with_status}
use inride_worker_manager.Db.Notifications
use inride_worker_manager.Domain.{DeliveryJob, DeliveryPolicy, value, Uuid}
use inride_worker_manager.Db.Directory
use inride_worker_manager.Db.Deliveries
use inride_worker_manager.Ingress.Draining.{claimed-Finished, pending_not_done, reclaimed-Finished}
use inride_worker_manager.Ingress.Operations.{EntryOp}
use inride_worker_manager.Ingress.Progress.{Finished, unfinished}
use inride_worker_manager.Pipeline.Claimer.Undisturbed.{reopens}

abbrev pub FinalStatus : String → Type 0
FinalStatus s = (str_eq s "sent" || str_eq s "failed") ≡ true

-- Under a policy that gives no notification back, jobs store such statuses only.
pub only_final :
    (cfg : Config) (policy : DeliveryPolicy)
    → ((job : DeliveryJob) → FinalStatus (value (or_failed cfg policy (policy.skip_status job))))
    → StoresOnly FinalStatus cfg policy
only_final cfg policy final = record { sent = refl; failed = refl; skipped = final }

-- not a reclaim
abbrev pub NoReclaim : Op → Type 0
NoReclaim (reclaim_rows seconds) = ⊥
NoReclaim o = Unit

module _ (id : Uuid) where
  -- no row of the notification is pending
  abbrev pub NotPending : Db → Type 0
  NotPending db = any (claimable id) db.notifications ≡ false

  claim-Finished :
      (j : Uuid) (db : Db) → Finished id db → Finished id (Notifications.claim_pending j db).1
  unfolding Notifications.claim_pending
  claim-Finished j db h = elim (Bool-cases (any (claimable j) db.notifications)) [
    | inr e ↦ rw e h
    | inl e ↦ rw e (
        any-update_back (unfinished id) (claimable j) (with_status "processing" none db.now)
          db.notifications (λ n p q. ground (arith, pending_not_done n.push_status)) h)
  ]

  insert-Finished :
      (l d : Uuid) (db : Db) → Finished id db → Finished id (Deliveries.insert_delivery l d db).1
  unfolding Deliveries.insert_delivery
  insert-Finished l d db h = elim (Bool-cases (Deliveries.has_row db l d)) [
    | inl e ↦ rw e h
    | inr e ↦ rw e h
  ]

  -- No operation of the worker opens a finished notification again.
  pub effect-Finished :
      (o : Op) (w : World)
      → EntryOp FinalStatus o
      → Finished id w.db
      → Finished id (effect o w).1.db
  unfolding effect Notifications.update_status Directory.deactivate_devices
      Deliveries.mark_delivery_sent Deliveries.seal_sending Deliveries.delete_sending
  effect-Finished (claim_pending j) w a h = claim-Finished j w.db h
  effect-Finished (claim_batch limit) w a h = claimed-Finished limit w.db id h
  effect-Finished (reclaim_rows seconds) w a h = reclaimed-Finished seconds w.db id h
  effect-Finished (insert_delivery l d) w a h = insert-Finished l d w.db h
  effect-Finished (update_status j s e) w a h =
      any-update_none (unfinished id) (has_id j) (with_status s e w.db.now) w.db.notifications
        (λ n. ground (arith, a)) h
  effect-Finished o w a h = h

  final-keeps_closed : (s : String) → FinalStatus s → str_eq s "pending" ≡ false
  final-keeps_closed s h = elim (Bool-cases (str_eq s "pending")) [
    | inr e ↦ e
    | inl e ↦ cc (rw ((eq_iff s "pending").0 e) at h)
  ]

  pub EntryOp-closed : (o : Op) → EntryOp FinalStatus o → NoReclaim o → reopens o ≡ false
  EntryOp-closed (update_status j s e) h n = final-keeps_closed s h
  EntryOp-closed (reclaim_rows seconds) h n = absurd n
  EntryOp-closed o h n = refl
