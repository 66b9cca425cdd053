-- ===== src/Pipeline/Claimer/Draining.antt =====
-- A batch claim whose limit is not below the number of pending rows takes all of them.
use inride_worker_manager.Pipeline.Claimer.Ages.{
  length-sort_by_age, any-select_both, any-sort_by_age, member-map,
}
use inride_worker_manager.Pipeline.Claimer.{claim_pending_batch}
use inride_worker_manager.Effect.World.{World, exec}
use inride_worker_manager.Domain.{DeliveryJob, Uuid}
use inride_worker_manager.Effect.{ok}
use inride_worker_manager.Db.{Db, Notification}
use inride_worker_manager.Db.Notifications.{
  claimable, has_id, id_of, is_pending, member, oldest_pending, sort_by_age, with_status,
}
use inride_worker_manager.Pipeline.Claimer.Batches.{chosen, claim_batch_takes}
use inride_worker_manager.Prelude.{
  pos, any-select_and, any-weaken, ==_iff, List, [], any, any-update_all, ap, arith, false, length,
  map, none, not, refl, select, take-all, true, ℕ, ◌&&◌, ◌∙◌, ◌∷◌, ◌≡◌, ◌≤◌,
}
use inride_worker_manager.Db.Notifications

-- with room for all, the ids taken are those of the pending rows
oldest-all :
    (limit : ℕ) (db : Db) (id : Uuid)
    → length (select is_pending db.notifications) ≤ limit
    → member (oldest_pending limit db) id ≡ any (claimable id) db.notifications
unfolding oldest_pending
oldest-all limit db id h =
    let rows = sort_by_age (select is_pending db.notifications) in
    ap (λ ns. member (map id_of ns) id)
      (take-all limit rows
        (omega (arith, length-sort_by_age (select is_pending db.notifications), h)))
    ∙ member-map id rows
    ∙ any-sort_by_age (has_id id) (select is_pending db.notifications)
    ∙ any-select_both id db.notifications

-- an id that the update was given is returned, if a pending row has it
pub given-returned :
    (limit : ℕ) (db : Db) (id : Uuid)
    → member (oldest_pending limit db) id ≡ true
    → any (claimable id) db.notifications ≡ true
    → member (Notifications.claim_batch limit db).0 id ≡ true
unfolding Notifications.claim_batch
given-returned limit db id given h =
    let oldest = oldest_pending limit db in
    member-map id (select (chosen oldest) db.notifications)
    ∙ any-select_and (has_id id) (chosen oldest) db.notifications
    ∙ any-weaken (claimable id) (λ n. has_id id n && chosen oldest n) db.notifications
        (λ n x. ground (arith, ap (member oldest) ((==_iff n.id id).0 (ground arith)), given)) h

-- no pending row of the list is outside of what all of them name
none-outside :
    (ids : List Uuid) (ms : List Notification)
    → ((id : Uuid) → any (claimable id) ms ≡ true → member ids id ≡ true)
    → any (λ n. is_pending n && not (chosen ids n)) ms ≡ false
unfolding any
none-outside ids [] h = refl
none-outside ids (n ∷ ms) h =
    let rest = none-outside ids ms (λ id e. h id (ground (arith, e))) in
    ground (arith, h n.id, ==_iff n.id n.id, rest)

claim_batch-drains :
    (limit : ℕ) (db : Db)
    → length (select is_pending db.notifications) ≤ limit
    → any is_pending (Notifications.claim_batch limit db).1.notifications ≡ false
unfolding Notifications.claim_batch
claim_batch-drains limit db h =
    any-update_all is_pending (chosen (oldest_pending limit db))
      (with_status "processing" none db.now) db.notifications
      (none-outside (oldest_pending limit db) db.notifications
        (λ id e. oldest-all limit db id h ∙ e))
      (λ n. refl)

-- While the database does not fail, a batch claim with a limit of at least the number of pending
-- notifications returns, and leaves none pending.
pub batch_drains :
    (limit : ℕ) (w : World)
    → w.answers ≡ []
    → length (select is_pending w.db.notifications) ≤ limit
    → (jobs : List DeliveryJob) × (v : World) × (exec (claim_pending_batch (pos limit)) w
        ≡ (ok jobs, v))
      × (any is_pending v.db.notifications ≡ false)
batch_drains limit w e h =
    let (jobs, v, ran, t, bound) = claim_batch_takes limit w e in
    (jobs, v, ran, rw t.tables (claim_batch-drains limit w.db h))
