-- ===== src/Ingress/Finishing.antt =====
-- What ticks of app/ingress/pending_poller.py finish, while the database does not fail.

use inride_worker_manager.Effect.Clock.{exec_calm-now}
use inride_worker_manager.Effect.{catch, ok, pure}
use inride_worker_manager.Ingress.PendingPoller.{poll, tick}
use inride_worker_manager.Effect.Calm.{
  Ends, Ends-also, Ends-bind, Ends-catch, Ends-returns, Ends-weaken, exec_calm,
}
use inride_worker_manager.Ingress.Recovery.{is_stuck, stuck_with_id}
use inride_worker_manager.Core.{Config}
use inride_worker_manager.Db.Notifications.{claimable, is_pending}
use inride_worker_manager.Domain.{DeliveryJob, DeliveryPolicy, Uuid}
use inride_worker_manager.Effect.World.{World, exec}
use inride_worker_manager.Prelude.{
  false, pos, is_negative, [], any-weaken, arith, count-none, count-some, inl, inr, suc, true, zero,
  ℕ, ◌*◌, ◌-◌, ◌<◌, ◌≡◌, ◌≤◌,
}
use inride_worker_manager.Ingress.Draining.{Ticked, tick-Ticked, Waits, waiting}
use inride_worker_manager.Ingress.Progress.{Finished}

module _ (cfg : Config) (policy : DeliveryPolicy)
    (all : (job : DeliveryJob) → policy.should_deliver job ≡ true) where
  -- no notification waits where none is pending or stuck
  Waits-waiting : (w : World) (id : Uuid) → Waits cfg policy all w id → 0 < waiting cfg policy all w
  Waits-waiting w id (inl h) = omega (
    arith,
    count-some is_pending w.db.notifications
        (any-weaken (claimable id) is_pending w.db.notifications (λ n e. ground arith) h),
  )
  Waits-waiting w id (inr h) =
      let stuck = is_stuck cfg.reclaim_after_seconds w.db in
      omega (
        arith,
        count-some stuck w.db.notifications (
            any-weaken (stuck_with_id cfg.reclaim_after_seconds w.db id) stuck w.db.notifications
              (λ n e. ground arith) h),
      )

module _ (cfg : Config) (policy : DeliveryPolicy)
    (all : (job : DeliveryJob) → policy.should_deliver job ≡ true) (batch : ℕ)
    (sized : cfg.batch_size ≡ pos batch)
    (ages : is_negative cfg.reclaim_after_seconds ≡ false) where
  -- with room for all in a tick, those that waited are finished
  Ticked-finishes :
      (w v : World)
      → Ticked cfg policy all batch sized ages w v
      → waiting cfg policy all w ≤ batch
      → (id : Uuid) → Waits cfg policy all w id
      → Finished id v.db
  Ticked-finishes w v t room id h = elim (t.advanced id h) [
    | inl f ↦ f
    | inr left ↦ absurd (
        omega (
          arith,
          t.fewer,
          room,
          count-some is_pending v.db.notifications
              (any-weaken (claimable id) is_pending v.db.notifications (λ n e. ground arith) left),
        ))
  ]

  -- a batch fewer waits after a tick
  waiting-tick :
      (w v : World)
      → Ticked cfg policy all batch sized ages w v
      → v.db.now ≡ w.db.now
      → waiting cfg policy all v ≤ waiting cfg policy all w - batch
  waiting-tick w v t clock = omega (
    arith,
    t.fewer,
    count-none (is_stuck cfg.reclaim_after_seconds v.db) v.db.notifications (rw clock t.unstuck),
  )

  abbrev Polled : World → World → Type 0
  Polled w v =
      ((id : Uuid) → Finished id w.db → Finished id v.db)
      × ((id : Uuid) → Waits cfg policy all w id → Finished id v.db)

  Polled-tick :
      (w u v : World) → Ticked cfg policy all batch sized ages w u → Polled u v → Polled w v
  Polled-tick w u v t p = (
    λ id h. p.0 id (t.finished id h),
    λ id h. elim (t.advanced id h) [ inl f ↦ p.0 id f | inr left ↦ p.1 id (inl left) ],
  )

  poll-Ends :
      (rounds : ℕ) (w : World)
      → waiting cfg policy all w ≤ rounds * batch
      → Ends (λ x v. Polled w v) (poll cfg policy rounds) w
  unfolding poll exec_calm
  poll-Ends zero w room = record {
    at = (λ id h. h, λ id h. absurd (omega (arith, room, Waits-waiting cfg policy all w id h)));
  }
  poll-Ends (suc rounds) w room =
      Ends-bind (λ x u. Ticked cfg policy all batch sized ages w u × (u.db.now ≡ w.db.now)) _ _ w
        (Ends-also (λ u. u.db.now ≡ w.db.now) _ w
          (Ends-catch (tick cfg policy) _ w (tick-Ticked cfg policy all batch sized ages w))
          (exec_calm-now (catch (tick cfg policy) (λ e. pure tt)) w))
        (λ x u t.
          Ends-weaken (λ x v. Polled u v) (poll cfg policy rounds) u
            (poll-Ends rounds u (omega (arith, room, waiting-tick w u t.0 t.1)))
            (λ x v p. Polled-tick w u v t.0 p))

  -- While the database does not fail, the policy delivers every job and the age at which a
  -- notification counts as stuck is not negative, a tick of the poller whose batch size is not
  -- below the number of pending and stuck notifications returns, and each notification that was
  -- pending or stuck is sent or failed after it, whatever Expo answers.
  pub tick_finishes :
      (w : World)
      → w.answers ≡ []
      → waiting cfg policy all w ≤ batch
      → (v : World) × (exec (tick cfg policy) w ≡ (ok tt, v))
        × ((id : Uuid) → Waits cfg policy all w id → Finished id v.db)
  tick_finishes w e room =
      let (x, v, ran, f) =
        Ends-returns (tick cfg policy) w e (tick-Ticked cfg policy all batch sized ages w) in
      (v, ran, Ticked-finishes w v f room)

  -- While the database does not fail, the policy delivers every job and the age at which a
  -- notification counts as stuck is not negative, any number of rounds of the poller that have
  -- room for the pending and stuck notifications, counted with the batch size in each round,
  -- return, and leave each of those notifications sent or failed, whatever Expo answers; one that
  -- was so stays so.
  pub poll_finishes :
      (rounds : ℕ) (w : World)
      → w.answers ≡ []
      → waiting cfg policy all w ≤ rounds * batch
      → (v : World) × (exec (poll cfg policy rounds) w ≡ (ok tt, v))
        × ((id : Uuid) → Finished id w.db → Finished id v.db)
        × ((id : Uuid) → Waits cfg policy all w id → Finished id v.db)
  poll_finishes rounds w e room =
      let (x, v, ran, p) = Ends-returns (poll cfg policy rounds) w e (poll-Ends rounds w room) in
      (v, ran, p.0, p.1)
