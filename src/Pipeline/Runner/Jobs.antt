-- ===== src/Pipeline/Runner/Jobs.antt =====
-- `_execute_job` and `handle_notification_id` as a whole.
use inride_worker_manager.Pipeline.RecipientResolver.{resolve}
use inride_worker_manager.Effect.{ok}
use inride_worker_manager.Core.{Config}
use inride_worker_manager.Pipeline.Runner.Final.{
  deliver_targets-Delivered, Delivered, finalize-FinalizeSpec,
}
use inride_worker_manager.Db.Notifications.Laws.{Finalized, Stored}
use inride_worker_manager.Effect.World.{exec, World}
use inride_worker_manager.Pipeline.Finalizer.{finalize}
use inride_worker_manager.Effect.Calm.{Ends-returns, Ends, Ends-bind, exec_calm}
use inride_worker_manager.Prelude.{
  Bool-cases, inl, inr, Bool, List, [], false, none, refl, some, true, ◌∷◌, ◌≡◌,
}
use inride_worker_manager.Domain.{
  DeliveryJob, DeliveryPolicy, DeliveryResult, DeliveryTarget, PushStatus, sent, value,
}
use inride_worker_manager.Pipeline.Runner.{or_failed, deliver_targets, execute_job, skip_job}
use inride_worker_manager.Pipeline.RecipientResolver.Reads.{resolve-reads, resolved}

module _ (cfg : Config) (policy : DeliveryPolicy) (job : DeliveryJob) where
  -- A job that goes to no device: the status is stored, and neither the ledger nor Expo sees
  -- anything.
  pub record Unsent (status : PushStatus) (w : World) (result : DeliveryResult) (v : World)
      : Type 0 where
    pub reported : result.notification_status ≡ status
    pub outcomes : result.device_outcomes ≡ []
    pub stored : Stored job.notification_id (value status) v.db
    pub finalized : Finalized job.notification_id (value status) w.db v.db
    pub deliveries : v.db.deliveries ≡ w.db.deliveries
    pub pushes : v.pushes ≡ w.pushes
    pub tokens : v.db.device_tokens ≡ w.db.device_tokens
    pub expo : v.expo ≡ w.expo

  abbrev pub ByTargets : List DeliveryTarget → World → DeliveryResult → World → Type 0
  ByTargets [] w = Unsent sent w
  ByTargets (t ∷ ts) w = Delivered cfg policy job (t ∷ ts) w

  -- The contract of a job: what the policy and the recipients in the database make of it.
  abbrev pub JobSpec : Bool → World → DeliveryResult → World → Type 0
  JobSpec true w = ByTargets (resolved job w.db) w
  JobSpec false w = Unsent (or_failed cfg policy (policy.skip_status job)) w

  skip-Unsent : (s : PushStatus) (w : World) → Ends (Unsent s w) (skip_job cfg policy job s) w
  unfolding skip_job exec_calm
  skip-Unsent s w =
      Ends-bind _ (finalize job s (some "skipped_by_policy")) _ w
        (finalize-FinalizeSpec cfg policy job s (some "skipped_by_policy") w)
        (λ x v f. record {
          at = record {
            reported = refl;
            outcomes = refl;
            stored = f.2;
            finalized = f.3;
            deliveries = f.0;
            pushes = f.1;
            tokens = f.4;
            expo = f.5;
          };
        })

  ByTargets-Ends :
      (targets : List DeliveryTarget) (w : World)
      → Ends (ByTargets targets w) (deliver_targets cfg policy job targets) w
  unfolding deliver_targets exec_calm
  ByTargets-Ends [] w =
      Ends-bind _ (finalize job sent none) _ w (finalize-FinalizeSpec cfg policy job sent none w)
        (λ x v f. record {
          at = record {
            reported = refl;
            outcomes = refl;
            stored = f.2;
            finalized = f.3;
            deliveries = f.0;
            pushes = f.1;
            tokens = f.4;
            expo = f.5;
          };
        })
  ByTargets-Ends (t ∷ ts) w = deliver_targets-Delivered cfg policy job t ts w

  pub execute_job-JobSpec :
      (w : World) → Ends (JobSpec (policy.should_deliver job) w) (execute_job cfg policy job) w
  unfolding execute_job
  execute_job-JobSpec w = elim (Bool-cases (policy.should_deliver job)) [
    | inl e ↦ rw e (
        Ends-bind (λ targets v. (targets ≡ resolved job w.db) × (v ≡ w)) (resolve job)
          (deliver_targets cfg policy job) w (record { at = rw (resolve-reads job w) (refl, refl) })
          (λ targets v same. rw (same.0, same.1) (ByTargets-Ends (resolved job w.db) w)))
    | inr e ↦ rw e (skip-Unsent (or_failed cfg policy (policy.skip_status job)) w)
  ]

  -- While the database does not fail, a job returns whatever Expo answers. Refused by the policy,
  -- it gets the policy's status, or failed; with no recipient, it is sent: in both cases the
  -- ledger is untouched and no push is confirmed. With recipients it has one outcome for each, in
  -- order; it is reported sent exactly if the ledger then holds a sent row of its ledger id, and
  -- failed otherwise; no row of that id is left `sending`; and Expo has confirmed as many new
  -- pushes as there are `sent` outcomes. In every case each notification row of the job has the
  -- reported status, and the other rows are as they were.
  pub execute_job_result :
      (w : World)
      → w.answers ≡ []
      → (result : DeliveryResult) × (v : World) × (exec (execute_job cfg policy job) w
          ≡ (ok result, v))
        × JobSpec (policy.should_deliver job) w result v
  execute_job_result w e = Ends-returns (execute_job cfg policy job) w e (execute_job-JobSpec w)
