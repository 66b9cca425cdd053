-- ===== src/Ingress/Handled/Concluding.antt =====
-- A job that returns has stored a final status, under any schedule of failures:
-- app/pipeline/runner.py, app/pipeline/finalizer.py.
use inride_worker_manager.Pipeline.RecipientResolver.{resolve}
use inride_worker_manager.Pipeline.DeviceIdempotency.{seal_open_sending}
use inride_worker_manager.Pipeline.Runner.{
  any_sent, conclude, deliver_all, deliver_targets, execute_job, final_status, skip_job,
}
use inride_worker_manager.Core.{Config}
use inride_worker_manager.Db.{Db}
use inride_worker_manager.Ingress.Operations.{JobOp-EntryOp}
use inride_worker_manager.Ingress.Progress.{Finished, unfinished}
use inride_worker_manager.Effect.{pure, perform, update_status}
use inride_worker_manager.Domain.{
  DeliveryResult, sent, DeliveryJob, DeliveryPolicy, DeliveryTarget, DeviceSendOutcome, PushStatus,
  Uuid, value,
}
use inride_worker_manager.Effect.World.{exec, World, effect}
use inride_worker_manager.Pipeline.Finalizer.{deactivate_tokens, finalize, stored_error}
use inride_worker_manager.Db.Notifications.{has_id, with_status}
use inride_worker_manager.Prelude.{
  Bool, List, [], false, none, true, ◌∷◌, Option, String, any-update_clear, arith,
}
use inride_worker_manager.Db.Notifications
use inride_worker_manager.Ingress.Statuses.{FinalStatus, effect-Finished}
use inride_worker_manager.Effect.Yields.{
  Yields-after, Yields-if, Yields, Yields-bind, Yields-kept, Yields-perform,
}
use inride_worker_manager.Pipeline.Operations.{StoresOnly, notification_finalized-JobOps, JobOp}

finished-update :
    (id : Uuid) (s : PushStatus) (e : Option String) (db : Db)
    → FinalStatus (value s)
    → Finished id (Notifications.update_status id (value s) e db)
unfolding Notifications.update_status
finished-update id s e db final =
    any-update_clear (unfinished id) (has_id id) (with_status (value s) e db.now) db.notifications
      (λ n h. ground arith) (λ n. ground (arith, final))

module _ (cfg : Config) (policy : DeliveryPolicy) (job : DeliveryJob) where
  abbrev Concluded : {A : Type 0} → A → World → Type 0
  Concluded a v = Finished job.notification_id v.db

  finalize-Yields :
      (s : PushStatus) (e : Option String) (w : World)
      → FinalStatus (value s)
      → Yields Concluded (finalize job s e) w
  unfolding finalize effect
  finalize-Yields s e w final =
      Yields-bind Concluded (perform (update_status job.notification_id (value s) (stored_error e)))
        _ w
        (Yields-perform (update_status job.notification_id (value s) (stored_error e)) w Concluded
          (λ v same. finished-update job.notification_id s (stored_error e) v.db final))
        (λ u v h.
          Yields-kept (JobOp FinalStatus) (Finished job.notification_id)
            (λ o x p k. effect-Finished job.notification_id o x (JobOp-EntryOp FinalStatus o p) k) _
            v (notification_finalized-JobOps (value s)) h)

  module _ (only : StoresOnly FinalStatus cfg policy) where
    final_value-Final : (b : Bool) → FinalStatus (value (final_status cfg policy b))
    final_value-Final true = only.sent
    final_value-Final false = only.failed

    returned :
        (result : DeliveryResult) (w : World) → Concluded tt w → Yields Concluded (pure result) w
    unfolding exec
    returned result w h = record { at = h }

    conclude-Yields :
        (rounds : List DeviceSendOutcome × List Uuid) (w : World)
        → Yields Concluded (conclude cfg policy job rounds) w
    unfolding conclude
    conclude-Yields (os, dead) w = Yields-after (deactivate_tokens dead) _ w (λ u a.
        Yields-after (seal_open_sending job) _ a (λ n b.
          Yields-after (any_sent cfg policy job os) _ b (λ s c.
            Yields-bind Concluded (finalize job _ _) _ c
              (finalize-Yields _ _ c (final_value-Final s)) (λ x d h. returned _ d h))))

    deliver_targets-Yields :
        (targets : List DeliveryTarget) (w : World)
        → Yields Concluded (deliver_targets cfg policy job targets) w
    unfolding deliver_targets
    deliver_targets-Yields [] w =
        Yields-bind Concluded (finalize job sent none) _ w (finalize-Yields sent none w only.sent)
          (λ x d h. returned _ d h)
    deliver_targets-Yields (t ∷ ts) w =
        Yields-after (deliver_all cfg policy job (t ∷ ts)) _ w
          (λ rounds v. conclude-Yields rounds v)

    -- A job that returns has stored a final status, whatever failed before.
    pub execute_job-Yields : (w : World) → Yields Concluded (execute_job cfg policy job) w
    unfolding execute_job skip_job
    execute_job-Yields w =
        Yields-if (policy.should_deliver job) _ _ w
          (Yields-after (resolve job) _ w (λ targets v. deliver_targets-Yields targets v))
          (Yields-bind Concluded (finalize job _ _) _ w (finalize-Yields _ _ w (only.skipped job))
            (λ x d h. returned _ d h))
