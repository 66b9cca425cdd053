-- ===== src/Pipeline/Claimer/Undisturbed.antt =====
-- What leaves a claimed notification claimed: all operations but a reclaim and a stored `pending`.
use inride_worker_manager.Domain.{Uuid}
use inride_worker_manager.Db.Notifications.{claimable, has_id, with_status}
use inride_worker_manager.Effect.{
  Op, claim_batch, claim_pending, insert_delivery, reclaim_rows, update_status,
}
use inride_worker_manager.Effect.World.{World, effect, respond}
use inride_worker_manager.Effect.Relates.{respond-Relates, tables}
use inride_worker_manager.Db.{Db, Notification}
use inride_worker_manager.Db.Notifications
use inride_worker_manager.Db.Directory
use inride_worker_manager.Db.Deliveries
use inride_worker_manager.Prelude.{
  Bool-cases, Option, String, any, any-update_none, inl, inr, none, str_eq, update_where, ℕ, Bool,
  true, false, ◌≡◌, arith, List,
}

-- the operations that may make a claimed notification pending again
abbrev pub reopens : Op → Bool
reopens (reclaim_rows seconds) = true
reopens (update_status id s e) = str_eq s "pending"
reopens o = false

abbrev pub IsTaken : Uuid → World → Type 0
IsTaken id w = any (claimable id) w.db.notifications ≡ false

-- Operations of the worker's threads, and of others on the tables, that leave `id` claimed.
pub data Undisturbed (id : Uuid) (w : World) : World → Type 0 where
  at_once : Undisturbed id w w
  operation :
      {v : World} (o : Op)
      → Undisturbed id w v
      → reopens o ≡ false
      → Undisturbed id w ((respond o v).1)
  interference : {v u : World} → Undisturbed id w v → IsTaken id u → Undisturbed id w u

module _ (id : Uuid) where
  abbrev pub Taken : Db → Type 0
  Taken db = any (claimable id) db.notifications ≡ false

  claimed-IsTaken :
      (p : Notification → Bool) (now : ℕ) (ns : List Notification)
      → any (claimable id) ns ≡ false
      → any (claimable id) (update_where p (with_status "processing" none now) ns) ≡ false
  claimed-IsTaken p now ns =
      any-update_none (claimable id) p (with_status "processing" none now) ns (λ n. ground arith)

  stored-IsTaken :
      (p : Notification → Bool) (s : String) (e : Option String) (now : ℕ) (ns : List Notification)
      → str_eq s "pending" ≡ false
      → any (claimable id) ns ≡ false
      → any (claimable id) (update_where p (with_status s e now) ns) ≡ false
  stored-IsTaken p s e now ns h =
      any-update_none (claimable id) p (with_status s e now) ns (λ n. ground (arith, h))

  claim-IsTaken :
      (j : Uuid) (db : Db)
      → any (claimable id) db.notifications ≡ false
      → any (claimable id) ((Notifications.claim_pending j db).1.notifications) ≡ false
  unfolding Notifications.claim_pending
  claim-IsTaken j db h = elim (Bool-cases (any (claimable j) db.notifications)) [
    | inl e ↦ rw e (claimed-IsTaken (claimable j) db.now db.notifications h)
    | inr e ↦ rw e h
  ]

  insert-IsTaken :
      (l d : Uuid) (db : Db)
      → any (claimable id) db.notifications ≡ false
      → any (claimable id) ((Deliveries.insert_delivery l d db).1.notifications) ≡ false
  unfolding Deliveries.insert_delivery
  insert-IsTaken l d db h = elim (Bool-cases (Deliveries.has_row db l d)) [
    | inl e ↦ rw e h
    | inr e ↦ rw e h
  ]

  pub effect-IsTaken :
      (o : Op) (w : World) → reopens o ≡ false → IsTaken id w → IsTaken id ((effect o w).1)
  unfolding effect Notifications.update_status Notifications.claim_batch
      Directory.deactivate_devices Deliveries.mark_delivery_sent Deliveries.seal_sending
      Deliveries.delete_sending
  effect-IsTaken (claim_pending j) w r h = claim-IsTaken j w.db h
  effect-IsTaken (insert_delivery l d) w r h = insert-IsTaken l d w.db h
  effect-IsTaken (claim_batch limit) w r h = claimed-IsTaken _ w.db.now w.db.notifications h
  effect-IsTaken (update_status j s e) w r h =
      stored-IsTaken (has_id j) s e w.db.now w.db.notifications r h
  effect-IsTaken (reclaim_rows s) w r h = cc r
  effect-IsTaken o w r h = h

  respond-IsTaken :
      (o : Op) (w : World) → reopens o ≡ false → IsTaken id w → IsTaken id ((respond o w).1)
  respond-IsTaken o w r =
      respond-Relates tables (λ (a : Db) (b : Db). Taken a → Taken b) (λ db h. h) o
        (λ v. effect-IsTaken o v r) w

  pub Undisturbed-IsTaken : {w v : World} → Undisturbed id w v → IsTaken id w → IsTaken id v
  Undisturbed-IsTaken at_once h = h
  Undisturbed-IsTaken (operation {v} o u r) h = respond-IsTaken o v r (Undisturbed-IsTaken u h)
  Undisturbed-IsTaken (interference u t) h = t
