-- ===== src/Pipeline/Runner/Final.antt =====
-- The result of a job, while the database does not fail: Expo may refuse any push.
use inride_worker_manager.Pipeline.Runner.Refusals.{blames, refusals}
use inride_worker_manager.Db.Directory.{deactivated}
use inride_worker_manager.Db.Directory.Laws.{deactivated-nil}
use inride_worker_manager.Db.Notifications.{has_id, with_status}
use inride_worker_manager.Db.{Db}
use inride_worker_manager.Effect.{◌>>=◌}
use inride_worker_manager.Db.Notifications.Laws.{Finalized, Stored, Stored-update_status}
use inride_worker_manager.Effect.Calm.{Ends-bind, Ends, Ends-if, calm_respond, exec_calm}
use inride_worker_manager.Pipeline.Runner.Loop.{
  LoopSpec, deliver_all-LoopSpec, outcome_device, target_device,
}
use inride_worker_manager.Effect.World.{World, effect}
use inride_worker_manager.Pipeline.Finalizer.{deactivate_tokens, finalize, stored_error}
use inride_worker_manager.Core.{Config}
use inride_worker_manager.Db.Deliveries.Laws.{HasStatus, HasStatus-seal, sealed-seal}
use inride_worker_manager.Pipeline.Runner.{
  conclude, deliver_all, deliver_targets, final_error, final_status, any_sent,
}
use inride_worker_manager.Pipeline.DeviceIdempotency.{has_any_sent, seal_open_sending}
use inride_worker_manager.Db.Deliveries.{in_status}
use inride_worker_manager.Prelude.{
  All, sym, update_where, ap, arith, ◌∙◌, Bool, List, Option, String, [], any, count, false, length,
  map, refl, true, ℕ, ◌+◌, ◌↔◌, ◌∷◌, ◌≡◌, ◌⊎◌,
}
use inride_worker_manager.Domain.{
  DeliveryJob, DeliveryPolicy, DeliveryResult, DeliveryTarget, DeviceSendOutcome, PushStatus, Uuid,
  failed, is_sent, ledger_notification_id, sent, value,
}
use inride_worker_manager.Monitoring
use inride_worker_manager.Db.Deliveries
use inride_worker_manager.Db.Notifications
use inride_worker_manager.Db.Directory

module _ (cfg : Config) (policy : DeliveryPolicy) (job : DeliveryJob) where
  -- The devices that the job deactivates: each has a failed outcome of the job with the text of an
  -- answer of Expo that refuses a token, and there is one for each such answer that the job got.
  pub record Deactivated (w : World) (result : DeliveryResult) (v : World) : Type 0 where
    pub dead : List Uuid
    pub tokens : v.db.device_tokens ≡ deactivated dead w.db.device_tokens
    pub failed : All (λ id. any (blames w.expo id) result.device_outcomes ≡ true) dead
    pub refused : length dead + refusals v.expo ≡ refusals w.expo

  -- The result of a job that has targets, and the state that it leaves.
  pub record Delivered (targets : List DeliveryTarget) (w : World) (result : DeliveryResult)
      (v : World) : Type 0 where
    pub job_kept : result.job ≡ job
    pub devices : map outcome_device result.device_outcomes ≡ map target_device targets
    pub sent_means :
        result.notification_status ≡ sent → HasStatus v.db (ledger_notification_id job) "sent"
    pub sent_if :
        HasStatus v.db (ledger_notification_id job) "sent" → result.notification_status ≡ sent
    pub failed_otherwise :
        (result.notification_status ≡ sent) ⊎ (result.notification_status ≡ failed)
    pub none_open : any (in_status (ledger_notification_id job) "sending") v.db.deliveries ≡ false
    pub stored : Stored job.notification_id (value result.notification_status) v.db
    pub finalized : Finalized job.notification_id (value result.notification_status) w.db v.db
    pub pushes : length v.pushes ≡ length w.pushes + count is_sent result.device_outcomes
    pub deactivates : Deactivated w result v

  record SealSpec (u : World) (n : ℕ) (v : World) : Type 0 where
    kept :
        HasStatus u.db (ledger_notification_id job) "sent"
        → HasStatus v.db (ledger_notification_id job) "sent"
    none_open : any (in_status (ledger_notification_id job) "sending") v.db.deliveries ≡ false
    pushes : v.pushes ≡ u.pushes
    notifications : v.db.notifications ≡ u.db.notifications
    tokens : v.db.device_tokens ≡ u.db.device_tokens
    expo : v.expo ≡ u.expo

  tokens-seal :
      (l : Uuid) (db : Db) → (Deliveries.seal_sending l db).1.device_tokens ≡ db.device_tokens
  unfolding Deliveries.seal_sending
  tokens-seal l db = refl

  notifications-seal :
      (l : Uuid) (db : Db) → (Deliveries.seal_sending l db).1.notifications ≡ db.notifications
  unfolding Deliveries.seal_sending
  notifications-seal l db = refl

  seal-SealSpec : (u : World) → Ends (SealSpec u) (seal_open_sending job) u
  unfolding seal_open_sending exec_calm calm_respond effect ◌>>=◌
  seal-SealSpec u = record {
    at = record {
      kept = HasStatus-seal (ledger_notification_id job) u.db;
      none_open = sealed-seal (ledger_notification_id job) u.db;
      pushes = refl;
      notifications = notifications-seal (ledger_notification_id job) u.db;
      tokens = tokens-seal (ledger_notification_id job) u.db;
      expo = refl;
    };
  }

  abbrev SameWork : List Uuid → World → Unit {0} → World → Type 0
  SameWork dead u x v =
      (v.db.deliveries ≡ u.db.deliveries)
      × (v.pushes ≡ u.pushes)
      × (v.db.notifications ≡ u.db.notifications)
      × (v.db.device_tokens ≡ deactivated dead u.db.device_tokens)
      × (v.expo ≡ u.expo)

  deactivate-SameWork :
      (dead : List Uuid) (u : World) → Ends (SameWork dead u) (deactivate_tokens dead) u
  unfolding deactivate_tokens exec_calm calm_respond effect Directory.deactivate_devices
  deactivate-SameWork [] u = record {
    at = (refl, refl, refl, sym (deactivated-nil u.db.device_tokens), refl);
  }
  deactivate-SameWork (id ∷ ids) u = record { at = (refl, refl, refl, refl, refl) }

  abbrev FinalizeSpec : PushStatus → World → Unit {0} → World → Type 0
  FinalizeSpec s u x v =
      (v.db.deliveries ≡ u.db.deliveries)
      × (v.pushes ≡ u.pushes)
      × Stored job.notification_id (value s) v.db
      × Finalized job.notification_id (value s) u.db v.db
      × (v.db.device_tokens ≡ u.db.device_tokens)
      × (v.expo ≡ u.expo)

  pub finalize-FinalizeSpec :
      (s : PushStatus) (e : Option String) (u : World)
      → Ends (FinalizeSpec s u) (finalize job s e) u
  unfolding finalize Monitoring.notification_finalized exec_calm calm_respond effect ◌>>=◌
      Notifications.update_status
  finalize-FinalizeSpec s e u = record {
    at = (
      refl,
      refl,
      Stored-update_status job.notification_id (value s) (stored_error e) u.db,
      (stored_error e, u.db.now, refl),
      refl,
      refl,
    );
  }

  -- The answer of `any_sent` is whether the ledger has a sent row.
  abbrev SentSpec : World → Bool → World → Type 0
  SentSpec u s v = (v ≡ u) × ((s ≡ true) ↔ HasStatus u.db (ledger_notification_id job) "sent")

  any_sent-SentSpec :
      (os : List DeviceSendOutcome) (u : World)
      → (any is_sent os ≡ true → HasStatus u.db (ledger_notification_id job) "sent")
      → Ends (SentSpec u) (any_sent cfg policy job os) u
  unfolding any_sent has_any_sent exec_calm calm_respond effect Deliveries.select_sent
  any_sent-SentSpec os u h =
      Ends-if (any is_sent os) _ _ u (λ e. record { at = (refl, (λ _. h e, λ _. refl)) })
        (λ e. record { at = (refl, (λ x. x, λ x. x)) })

  pub report : List DeviceSendOutcome → Bool → DeliveryResult
  report os s = record {
    job = job;
    notification_status = final_status cfg policy s;
    device_outcomes = os;
    error = final_error cfg policy s;
  }

  report-Delivered :
      (targets : List DeliveryTarget) (w u v z : World)
      (rounds : List DeviceSendOutcome × List Uuid) (s : Bool)
      → LoopSpec cfg policy job targets w rounds u
      → v.pushes ≡ u.pushes
      → v.db.notifications ≡ u.db.notifications
      → v.db.device_tokens ≡ deactivated rounds.1 u.db.device_tokens
      → v.expo ≡ u.expo
      → any (in_status (ledger_notification_id job) "sending") v.db.deliveries ≡ false
      → (s ≡ true) ↔ HasStatus v.db (ledger_notification_id job) "sent"
      → FinalizeSpec (final_status cfg policy s) v tt z
      → Delivered targets w (report rounds.0 s) z
  unfolding report
  report-Delivered targets w u v z (os, dead) s l p ns t x o iff
        (same, pushes_kept, kept, (e, now, rows), tokens_kept, expo_kept) =
      record {
        job_kept = refl;
        devices = l.devices;
        sent_means = λ e. rw same (iff.0 (ground arith));
        sent_if = λ h. let t : s ≡ true = iff.1 (rw same at h) in rw t;
        failed_otherwise = ground arith;
        none_open = rw same o;
        stored = kept;
        finalized = (
          e,
          now,
          rows
              ∙ ap
                  (λ x.
                    update_where (has_id job.notification_id)
                      (with_status (value (final_status cfg policy s)) e now) x)
                  (ns ∙ l.notifications),
        );
        pushes = omega (arith, l.pushes, ap length pushes_kept, ap length p);
        deactivates = record {
          dead = dead;
          tokens = tokens_kept ∙ t ∙ ap (deactivated dead) l.tokens;
          failed = l.dead;
          refused = omega (arith, l.refused, ap refusals expo_kept, ap refusals x);
        };
      }

  conclude-Delivered :
      (targets : List DeliveryTarget) (w u : World) (rounds : List DeviceSendOutcome × List Uuid)
      → LoopSpec cfg policy job targets w rounds u
      → Ends (Delivered targets w) (conclude cfg policy job rounds) u
  unfolding conclude report exec_calm
  conclude-Delivered targets w u (os, dead) l =
      Ends-bind (SameWork dead u) (deactivate_tokens dead) _ u (deactivate-SameWork dead u)
        λ x u₁ d. Ends-bind (SealSpec u₁) (seal_open_sending job) _ u₁ (seal-SealSpec u₁) λ n u₂ c.
          Ends-bind (SentSpec u₂) (any_sent cfg policy job os) _ u₂
            (any_sent-SentSpec os u₂ (λ e. c.kept (rw d.0 (l.gained e))))
            λ s u₃ a.
              Ends-bind (FinalizeSpec (final_status cfg policy s) u₃)
                (finalize job (final_status cfg policy s) (final_error cfg policy s)) _ u₃
                (finalize-FinalizeSpec _ _ u₃)
                λ y z f. record {
                  at =
                      report-Delivered targets w u u₂ z (os, dead) s l (c.pushes ∙ d.1)
                        (c.notifications ∙ d.2) (c.tokens ∙ d.3) (c.expo ∙ d.4) c.none_open a.1
                        (rw (← a.0) f);
                }

  pub deliver_targets-Delivered :
      (target : DeliveryTarget) (targets : List DeliveryTarget) (w : World)
      → Ends (Delivered (target ∷ targets) w) (deliver_targets cfg policy job (target ∷ targets)) w
  unfolding deliver_targets
  deliver_targets-Delivered target targets w =
      Ends-bind (LoopSpec cfg policy job (target ∷ targets) w)
        (deliver_all cfg policy job (target ∷ targets)) (conclude cfg policy job) w
        (deliver_all-LoopSpec cfg policy job (target ∷ targets) w)
        (λ rounds u l. conclude-Delivered (target ∷ targets) w u rounds l)
