-- ===== src/Protocol/Statuses.antt =====
-- What holds of the status of a notification in every interleaving: app/pipeline/claimer.py and
-- app/pipeline/finalizer.py.
use inride_worker_manager.Core.{Config}
use inride_worker_manager.Effect.World.{respond}
use inride_worker_manager.Pipeline.Runner.{or_failed}
use inride_worker_manager.Protocol.System.{Reach, System, advance}
use inride_worker_manager.Ingress.PubsubSubscriber.{Codec}
use inride_worker_manager.Prelude.{any-implied, false, true, ℕ, ◌≡◌}
use inride_worker_manager.Effect.{Op, Prog, Reply, Result, call}
use inride_worker_manager.Db.Notifications.{claimable}
use inride_worker_manager.Domain.{DeliveryJob, DeliveryPolicy, Uuid, value}
use inride_worker_manager.Protocol.Course.{
  Course, Course-keeps, Reach-StoresFinal, advance-StoresFinal,
}
use inride_worker_manager.Ingress.Draining.{pending-unfinished}
use inride_worker_manager.Ingress.Statuses.{
  EntryOp-closed, FinalStatus, NoReclaim, NotPending, effect-Finished,
}
use inride_worker_manager.Ingress.Progress.{Finished, unfinished}
use inride_worker_manager.Pipeline.Claimer.Exclusive.{none-taken, respond-takes-IsTaken, takes}
use inride_worker_manager.Pipeline.Claimer.Undisturbed.{effect-IsTaken}

abbrev pub AnyOp : Op → Type 0
AnyOp o = Unit

module _ {cfg : Config} {policy : DeliveryPolicy} {codec : Codec}
    (final : (job : DeliveryJob)
      → FinalStatus (value (or_failed cfg policy (policy.skip_status job))))
    (id : Uuid) where
  -- In every interleaving, under a policy that gives no notification back to be claimed: a
  -- notification that is sent or failed stays so, whatever operations the threads of the worker
  -- make, reclaims included, as long as others leave it so; and no claim takes it any more.
  pub finished_stays :
      {s t : System}
      → Reach cfg policy codec s
      → Course cfg policy codec AnyOp (Finished id) s t
      → Finished id s.world.db
      → Finished id t.world.db × ((o : Op) → takes id o ((respond o t.world).0) ≡ false)
  finished_stays {s} {t} r c h =
      let (kept, now) =
        Course-keeps cfg policy codec final (Finished id) (λ o w a x. effect-Finished id o w a)
          (λ db x. x) (Reach-StoresFinal cfg policy codec final r) c h in
      (
        kept,
        λ o. none-taken id o t.world (
            any-implied (claimable id) (unfinished id) t.world.db.notifications
              (λ n. pending-unfinished id n) kept),
      )

  -- In every interleaving, under such a policy: after a thread's claim has taken a notification,
  -- no claim of any thread takes it again, as long as no reclaim runs and others do not make it
  -- pending.
  pub claimed_by_one :
      {s t : System} (i : ℕ) (o : Op) (k : Result (Reply o) → Prog (Unit {0}))
      → Reach cfg policy codec s
      → s.prog i ≡ call o k
      → takes id o ((respond o s.world).0) ≡ true
      → Course cfg policy codec NoReclaim (NotPending id) (advance s i o k) t
      → (second : Op) → takes id second ((respond second t.world).0) ≡ false
  claimed_by_one {s} {t} i o k r e taken c second =
      let (kept, now) =
        Course-keeps cfg policy codec final (NotPending id)
          (λ p w a n. effect-IsTaken id p w (EntryOp-closed id p a n)) (λ db x. x)
          (advance-StoresFinal cfg policy codec final s i o k
            (Reach-StoresFinal cfg policy codec final r) e)
          c (respond-takes-IsTaken id o s.world taken) in
      none-taken id second t.world kept
