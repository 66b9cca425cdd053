-- ===== src/Pipeline/Runner/Handling.antt =====
-- `handle_notification_id`, the entry of a Pub/Sub message.

use inride_worker_manager.Pipeline.Runner.Missing.{
  on_miss-delivery, on_miss-finished, on_miss-in_flight, on_miss-unknown,
}
use inride_worker_manager.Db.{Db}
use inride_worker_manager.Pipeline.RecipientResolver.Reads.{resolved}
use inride_worker_manager.Effect.Calm.{
  Ends-weaken, Ends, Ends-bind, Ends-catch, Ends-returns, exec_calm,
}
use inride_worker_manager.Pipeline.Claimer.{claim_by_id}
use inride_worker_manager.Pipeline.Runner.Jobs.{ByTargets, JobSpec, execute_job-JobSpec}
use mathlib.Core.Path.{subst}
use inride_worker_manager.Db.Notifications.Laws.{Stored}
use inride_worker_manager.Pipeline.Claimer.Claims.{
  Missed, Won, claim_by_id-Missed, claim_by_id-Won, is_claimable,
}
use inride_worker_manager.Pipeline.Runner.{
  execute_job, handle_claim, on_miss, handle_notification_id, on_exception,
}
use inride_worker_manager.Core.{Config}
use inride_worker_manager.Effect.World.{World, exec}
use inride_worker_manager.Effect.Laws.{exec-catch, recover}
use inride_worker_manager.Prelude.{
  ◌↔◌, ◌≢◌, ◌⊎◌, Bool-cases, if◌then◌else◌, inl, inr, Bool, List, Option, String, [], true, ◌∷◌,
  false, none, some, refl, ◌≡◌,
}
use inride_worker_manager.Effect.{Result, ok, pure, raised}
use inride_worker_manager.Domain.{
  ack_already_done, ack_in_flight, nack_retry, PushStatus, failed, sent, HandleDisposition,
  DeliveryJob, DeliveryTarget, DeliveryResult, ack_processed, value, DeliveryPolicy, HandleResult,
  Uuid,
}
use inride_worker_manager.Db.Notifications

module _ (cfg : Config) (policy : DeliveryPolicy) (id : Uuid) where
  returns :
      (x : Result HandleResult × World)
      → (result : HandleResult) × (v : World) × (recover x (λ e. pure (on_exception cfg policy e))
          ≡ (ok result, v))
  unfolding exec
  returns (ok a, v) = (a, v, refl)
  returns (raised e, v) = (on_exception cfg policy e, v, refl)

  -- Whatever fails, and in whatever order, the entry returns a result and never raises.
  pub handle_never_raises :
      (w : World)
      → (result : HandleResult) × (v : World) × (exec (handle_notification_id cfg policy id) w
          ≡ (ok result, v))
  unfolding handle_notification_id
  handle_never_raises w = rw (exec-catch _ _ w) (returns (exec _ w))

  JobSpec-Stored :
      (job : DeliveryJob) (b : Bool) (w v : World) (result : DeliveryResult)
      → JobSpec cfg policy job b w result v
      → Stored job.notification_id (value result.notification_status) v.db
  JobSpec-Stored job true w v result spec = by_targets (resolved job w.db) spec
    where
      by_targets :
          (targets : List DeliveryTarget)
          → ByTargets cfg policy job targets w result v
          → Stored job.notification_id (value result.notification_status) v.db
      by_targets [] spec = rw spec.reported spec.stored
      by_targets (t ∷ ts) spec = spec.stored
  JobSpec-Stored job false w v result spec = rw spec.reported spec.stored

  abbrev pub processed : DeliveryResult → HandleResult
  processed delivery = record {
    disposition = ack_processed;
    delivery = some delivery;
    detail = none;
  }

  abbrev pub IsFinal : PushStatus → Type 0
  IsFinal s = (s ≡ sent) ⊎ (s ≡ failed)

  JobSpec-IsFinal :
      (job : DeliveryJob) (b : Bool) (w v : World) (result : DeliveryResult)
      → b ≡ true
      → JobSpec cfg policy job b w result v
      → IsFinal result.notification_status
  JobSpec-IsFinal job true w v result e spec = by_targets (resolved job w.db) spec
    where
      by_targets :
          (targets : List DeliveryTarget)
          → ByTargets cfg policy job targets w result v
          → IsFinal result.notification_status
      by_targets [] spec = inl spec.reported
      by_targets (t ∷ ts) spec = spec.failed_otherwise
  JobSpec-IsFinal job false w v result e spec = cc e

  -- What handling a pending notification returns and leaves behind.
  pub record Processed (w : World) (result : HandleResult) (v : World) : Type 0 where
    pub delivery : DeliveryResult
    pub acked : result ≡ processed delivery
    pub stored : Stored id (value delivery.notification_status) v.db
    pub final :
        ((job : DeliveryJob) → policy.should_deliver job ≡ true)
        → IsFinal delivery.notification_status

  handle_claim-Processed :
      (w u : World) (claim : Option DeliveryJob × Option String)
      → Won id w claim u
      → Ends (Processed w) (handle_claim cfg policy claim) u
  unfolding handle_claim exec_calm
  handle_claim-Processed w u claim won = rw won.claimed (
      Ends-bind (JobSpec cfg policy won.job (policy.should_deliver won.job) u)
        (execute_job cfg policy won.job) _ u (execute_job-JobSpec cfg policy won.job u)
        (λ delivery v spec. record {
          at = record {
            delivery = delivery;
            acked = refl;
            stored =
                subst (λ i. Stored i (value delivery.notification_status) v.db) won.notification
                  (JobSpec-Stored won.job _ u v delivery spec);
            final = λ all. JobSpec-IsFinal won.job _ u v delivery (all won.job) spec;
          };
        }))

  pub handle-Processed :
      (w : World)
      → is_claimable id w.db ≡ true
      → Ends (Processed w) (handle_notification_id cfg policy id) w
  unfolding handle_notification_id
  handle-Processed w h = Ends-catch _ _ w (
      Ends-bind (Won id w) (claim_by_id id) (handle_claim cfg policy) w (claim_by_id-Won id w h)
        (λ claim u won. handle_claim-Processed w u claim won))

  -- While the database does not fail, handling a pending notification returns `ack_processed`,
  -- whatever Expo answers, and every row of the notification then has the status that the result
  -- reports.
  pub handle_pending :
      (w : World)
      → w.answers ≡ []
      → is_claimable id w.db ≡ true
      → (delivery : DeliveryResult) × (v : World) × (exec (handle_notification_id cfg policy id) w
          ≡ (ok (processed delivery), v))
        × Stored id (value delivery.notification_status) v.db
  handle_pending w e h =
      let (result, v, ran, p) =
        Ends-returns {Q = Processed w} (handle_notification_id cfg policy id) w e
          (handle-Processed w h) in
      (p.delivery, v, rw (← p.acked) ran, p.stored)

  abbrev MissedBy : World → HandleResult → World → Type 0
  MissedBy w result v =
      (result ≡ on_miss cfg policy (Notifications.select_status id w.db))
      × (v.db ≡ w.db)
      × (v.pushes ≡ w.pushes)

  handle-MissedBy :
      (w : World)
      → is_claimable id w.db ≡ false
      → Ends (MissedBy w) (handle_notification_id cfg policy id) w
  unfolding handle_notification_id handle_claim exec_calm
  handle-MissedBy w h = Ends-catch _ _ w (
      Ends-bind (Missed id w) (claim_by_id id) (handle_claim cfg policy) w
        (claim_by_id-Missed id w h)
        (λ claim u m. rw m.status (record { at = (refl, m.db, m.pushes) })))

  -- What handling a notification with no pending row returns and leaves behind, by the status that
  -- is stored.
  pub record MissedSpec (w : World) (result : HandleResult) (v : World) : Type 0 where
    pub finished : (result.disposition ≡ ack_already_done) ↔ (
        (Notifications.select_status id w.db ≡ some "sent")
        ⊎ (Notifications.select_status id w.db ≡ some "failed"))
    pub in_flight :
        (result.disposition ≡ ack_in_flight)
        ↔ (Notifications.select_status id w.db ≡ some "processing")
    pub unknown : (result.disposition ≡ nack_retry) ↔ (
        (Notifications.select_status id w.db ≢ some "sent")
        × (Notifications.select_status id w.db ≢ some "failed")
        × (Notifications.select_status id w.db ≢ some "processing"))
    pub delivery : result.delivery ≡ none
    pub tables : v.db ≡ w.db
    pub pushes : v.pushes ≡ w.pushes

  by_status : (w v : World) (result : HandleResult) → MissedBy w result v → MissedSpec w result v
  by_status w v result (r, t, p) = record {
    finished = rw r (on_miss-finished cfg policy (Notifications.select_status id w.db));
    in_flight = rw r (on_miss-in_flight cfg policy (Notifications.select_status id w.db));
    unknown = rw r (on_miss-unknown cfg policy (Notifications.select_status id w.db));
    delivery = rw r (on_miss-delivery cfg policy (Notifications.select_status id w.db));
    tables = t;
    pushes = p;
  }

  -- While the database does not fail, handling a notification with no pending row changes no table,
  -- pushes nothing, and returns no delivery. It answers `ack_already_done` exactly if the stored
  -- status is sent or failed, `ack_in_flight` exactly if it is processing, and `nack_retry` exactly
  -- if it is none of these, or nothing is stored.
  pub handle_missed :
      (w : World)
      → w.answers ≡ []
      → is_claimable id w.db ≡ false
      → (result : HandleResult) × (v : World) × (exec (handle_notification_id cfg policy id) w
          ≡ (ok result, v))
        × MissedSpec w result v
  handle_missed w e h =
      let (result, v, ran, m) =
        Ends-returns {Q = MissedBy w} (handle_notification_id cfg policy id) w e
          (handle-MissedBy w h) in
      (result, v, ran, by_status w v result m)

  -- the disposition that the database calls for
  unfoldable pub disposition_for : Db → HandleDisposition
  disposition_for db =
      if is_claimable id db
      then ack_processed
      else (on_miss cfg policy (Notifications.select_status id db)).disposition

  abbrev Answered : World → HandleResult → World → Type 0
  Answered w result v = result.disposition ≡ disposition_for w.db

  pub handle-disposition : (w : World) → Ends (Answered w) (handle_notification_id cfg policy id) w
  unfolding disposition_for
  handle-disposition w = elim (Bool-cases (is_claimable id w.db)) [
    | inl e ↦
        Ends-weaken (Processed w) (handle_notification_id cfg policy id) w (handle-Processed w e)
          (λ result v p. rw (e, p.acked))
    | inr e ↦
        Ends-weaken (MissedBy w) (handle_notification_id cfg policy id) w (handle-MissedBy w e)
          (λ result v m. rw (e, m.0))
  ]
