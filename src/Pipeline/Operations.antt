-- ===== src/Pipeline/Operations.antt =====
-- Which operations app/pipeline makes when it handles a notification: it acks and nacks no message,
-- makes no batch claim and no reclaim, and stores the statuses that its policy names.
use inride_worker_manager.Core.{Config}
use inride_worker_manager.Pipeline.RecipientResolver.{find_actor, resolve, resolve_for, resolve_in}
use inride_worker_manager.Pipeline.DeviceIdempotency.{
  has_any_sent, mark_sent, release_claim, seal_open_sending, try_claim,
}
use inride_worker_manager.Pipeline.ExpoSender.{SendReply, push, push_with, send}
use inride_worker_manager.Prelude.{
  Bool, List, Option, String, [], any, false, none, some, true, ℕ, ◌∷◌,
}
use inride_worker_manager.Pipeline.Finalizer.{deactivate_tokens, finalize}
use inride_worker_manager.Domain.{
  DeliveryJob, DeliveryPolicy, DeliveryTarget, DeviceSendOutcome, PushStatus, Uuid, is_sent, value,
}
use inride_worker_manager.Pipeline.Runner.{
  final_status, or_failed, after_send, any_sent, conclude, deliver_all, deliver_targets, deliver_to,
  execute_job, handle_claim, handle_notification_id, send_claimed, skip_device, skip_job,
}
use inride_worker_manager.Pipeline.Claimer.{
  after_claim, claim_by_id, claim_missed, claim_won, get_push_status, one,
}
use inride_worker_manager.Db.{Notification}
use inride_worker_manager.Effect.Operations.{
  MakesOnly, MakesOnly-step, MakesOnly-bind, MakesOnly-catch, MakesOnly-if, only_rules,
}
use inride_worker_manager.Monitoring
use inride_worker_manager.Effect.{
  Op, ack, claim_batch, extend_deadline, nack, reclaim_rows, select_notifications, Client,
  ensure_client, select_status, select_notification, claim_pending, select_devices, update_status,
  publish, mark_delivery_sent, delete_sending, insert_delivery, seal_sending,
}

-- The operations of a job, where the statuses that are stored are such.
abbrev pub JobOp : (String → Type 0) → Op → Type 0
JobOp Stores (update_status id s e) = Stores s
JobOp Stores (claim_batch limit) = ⊥
JobOp Stores (select_notifications ids) = ⊥
JobOp Stores (reclaim_rows seconds) = ⊥
JobOp Stores (extend_deadline m s) = ⊥
JobOp Stores (ack m) = ⊥
JobOp Stores (nack m) = ⊥
JobOp Stores o = Unit

module _ {Stores : String → Type 0} where
  inc-JobOps :
      (name : String) (ls : List (String × String)) (n : ℕ)
      → MakesOnly (JobOp Stores) (Monitoring.inc name ls n)
  unfolding Monitoring.inc
  inc-JobOps name ls n = record { at = (tt, λ r. tt) }

  pub claim-JobOps : (label : String) (n : ℕ) → MakesOnly (JobOp Stores) (Monitoring.claim label n)
  unfolding Monitoring.claim
  claim-JobOps label n = inc-JobOps _ _ n

  pub device_attempted-JobOps :
      (label : String) → MakesOnly (JobOp Stores) (Monitoring.device_attempted label)
  unfolding Monitoring.device_attempted
  device_attempted-JobOps label = inc-JobOps _ _ 1

  pub notification_finalized-JobOps :
      (s : String) → MakesOnly (JobOp Stores) (Monitoring.notification_finalized s)
  unfolding Monitoring.notification_finalized
  notification_finalized-JobOps s = inc-JobOps _ _ 1

  pub disposition-JobOps :
      (s : String) → MakesOnly (JobOp Stores) (Monitoring.ingress_disposition s)
  unfolding Monitoring.ingress_disposition
  disposition-JobOps s = inc-JobOps _ _ 1

pub ruleset counter_rules =
    (claim-JobOps, device_attempted-JobOps, notification_finalized-JobOps, disposition-JobOps)

-- Every status that a job may store is such.
pub record StoresOnly (Stores : String → Type 0) (cfg : Config) (policy : DeliveryPolicy)
    : Type 0 where
  pub sent : Stores "sent"
  pub failed : Stores "failed"
  pub skipped : (job : DeliveryJob) → Stores (value (or_failed cfg policy (policy.skip_status job)))

module _ {Stores : String → Type 0} where
  one-JobOps : (o : Option Notification) → MakesOnly (JobOp Stores) (one o)
  unfolding one
  one-JobOps none = search only_rules
  one-JobOps (some row) = search only_rules

  after_claim-JobOps :
      (id : Uuid) (claimed : Option Uuid) → MakesOnly (JobOp Stores) (after_claim id claimed)
  unfolding after_claim claim_missed claim_won get_push_status
  after_claim-JobOps id none =
      MakesOnly-step (select_status id) _ tt (λ s. search (only_rules, counter_rules))
  after_claim-JobOps id (some c) =
      MakesOnly-bind _ _ (claim-JobOps "won" 1)
        (λ u. MakesOnly-step (select_notification id) _ tt (λ o. search (only_rules, one-JobOps)))

  claim_by_id-JobOps : (id : Uuid) → MakesOnly (JobOp Stores) (claim_by_id id)
  unfolding claim_by_id
  claim_by_id-JobOps id = MakesOnly-step (claim_pending id) _ tt (after_claim-JobOps id)

  find_actor-JobOps : (o : Option Uuid) → MakesOnly (JobOp Stores) (find_actor o)
  unfolding find_actor
  find_actor-JobOps none = search only_rules
  find_actor-JobOps (some id) = record { at = (tt, λ r. tt) }

  resolve_for-JobOps :
      (tenant exclude : Option Uuid) → MakesOnly (JobOp Stores) (resolve_for tenant exclude)
  unfolding resolve_in
  resolve_for-JobOps none exclude = search only_rules
  resolve_for-JobOps (some t) exclude =
      MakesOnly-bind _ _ (find_actor-JobOps exclude)
        (λ a. MakesOnly-step (select_devices _) _ tt (λ rows. search only_rules))

  finalize-JobOps :
      (job : DeliveryJob) (s : PushStatus) (e : Option String)
      → Stores (value s)
      → MakesOnly (JobOp Stores) (finalize job s e)
  unfolding finalize
  finalize-JobOps job s e h = MakesOnly-step (update_status _ _ _) _ h (λ u. search counter_rules)

  deactivate_tokens-JobOps : (ids : List Uuid) → MakesOnly (JobOp Stores) (deactivate_tokens ids)
  unfolding deactivate_tokens
  deactivate_tokens-JobOps [] = search only_rules
  deactivate_tokens-JobOps (id ∷ ids) = record { at = (tt, λ r. tt) }

  push_with-JobOps :
      (client : Client) (job : DeliveryJob) (target : DeliveryTarget)
      → MakesOnly (JobOp Stores) (push_with client job target)
  unfolding push_with push
  push_with-JobOps client job target =
      MakesOnly-catch _ _ (MakesOnly-step (publish client _ _ _) _ tt (λ u. search only_rules))
        (λ e. search only_rules)

  send-JobOps :
      (cfg : Config) (job : DeliveryJob) (target : DeliveryTarget)
      → MakesOnly (JobOp Stores) (send cfg job target)
  unfolding send
  send-JobOps cfg job target =
      MakesOnly-if cfg.sdk_available _ _
        (MakesOnly-step (ensure_client _) _ tt (λ c. push_with-JobOps c job target))
        (search only_rules)

  after_send-JobOps :
      (job : DeliveryJob) (target : DeliveryTarget) (reply : SendReply)
      → MakesOnly (JobOp Stores) (after_send job target reply)
  unfolding after_send mark_sent release_claim
  after_send-JobOps job target reply =
      MakesOnly-if reply.success _ _
        (MakesOnly-step (mark_delivery_sent _ _) _ tt (λ u. search (only_rules, counter_rules)))
        (MakesOnly-step (delete_sending _ _) _ tt (λ u. search (only_rules, counter_rules)))

  module _ (cfg : Config) (policy : DeliveryPolicy) (only : StoresOnly Stores cfg policy) where
    final_status-Stores : (b : Bool) → Stores (value (final_status cfg policy b))
    final_status-Stores true = only.sent
    final_status-Stores false = only.failed

    send_claimed-JobOps :
        (job : DeliveryJob) (target : DeliveryTarget) (claimed : Bool)
        → MakesOnly (JobOp Stores) (send_claimed cfg policy job target claimed)
    unfolding send_claimed skip_device
    send_claimed-JobOps job target false = search (only_rules, counter_rules)
    send_claimed-JobOps job target true =
        MakesOnly-bind _ _ (send-JobOps cfg job target) (after_send-JobOps job target)

    deliver_all-JobOps :
        (job : DeliveryJob) (targets : List DeliveryTarget)
        → MakesOnly (JobOp Stores) (deliver_all cfg policy job targets)
    unfolding deliver_all deliver_to try_claim
    deliver_all-JobOps job [] = search only_rules
    deliver_all-JobOps job (target ∷ targets) =
        MakesOnly-bind _ _
          (MakesOnly-bind _ _ (MakesOnly-step (insert_delivery _ _) _ tt (λ r. search only_rules))
            (send_claimed-JobOps job target))
          (λ r. MakesOnly-bind _ _ (deliver_all-JobOps job targets) (λ rest. search only_rules))

    any_sent-JobOps :
        (job : DeliveryJob) (os : List DeviceSendOutcome)
        → MakesOnly (JobOp Stores) (any_sent cfg policy job os)
    unfolding any_sent has_any_sent
    any_sent-JobOps job os =
        MakesOnly-if (any is_sent os) _ _ (search only_rules) (record { at = (tt, λ r. tt) })

    conclude-JobOps :
        (job : DeliveryJob) (rounds : List DeviceSendOutcome × List Uuid)
        → MakesOnly (JobOp Stores) (conclude cfg policy job rounds)
    unfolding conclude seal_open_sending
    conclude-JobOps job (os, dead) = MakesOnly-bind _ _ (deactivate_tokens-JobOps dead) (λ u.
        MakesOnly-step (seal_sending _) _ tt (λ n. MakesOnly-bind _ _ (any_sent-JobOps job os) (λ s.
          MakesOnly-bind _ _ (finalize-JobOps job _ _ (final_status-Stores s))
            (λ v. search only_rules))))

    deliver_targets-JobOps :
        (job : DeliveryJob) (targets : List DeliveryTarget)
        → MakesOnly (JobOp Stores) (deliver_targets cfg policy job targets)
    unfolding deliver_targets
    deliver_targets-JobOps job [] =
        MakesOnly-bind _ _ (finalize-JobOps job _ _ only.sent) (λ u. search only_rules)
    deliver_targets-JobOps job (target ∷ targets) =
        MakesOnly-bind _ _ (deliver_all-JobOps job (target ∷ targets)) (conclude-JobOps job)

    pub execute_job-JobOps :
        (job : DeliveryJob) → MakesOnly (JobOp Stores) (execute_job cfg policy job)
    unfolding execute_job resolve skip_job
    execute_job-JobOps job =
        MakesOnly-if (policy.should_deliver job) _ _
          (MakesOnly-bind _ _ (resolve_for-JobOps _ _) (deliver_targets-JobOps job))
          (MakesOnly-bind _ _ (finalize-JobOps job _ _ (only.skipped job)) (λ u. search only_rules))

    handle_claim-JobOps :
        (c : Option DeliveryJob × Option String)
        → MakesOnly (JobOp Stores) (handle_claim cfg policy c)
    unfolding handle_claim
    handle_claim-JobOps (none, miss) = search only_rules
    handle_claim-JobOps (some job, miss) =
        MakesOnly-bind _ _ (execute_job-JobOps job) (λ d. search only_rules)

    pub handle_notification_id-JobOps :
        (id : Uuid) → MakesOnly (JobOp Stores) (handle_notification_id cfg policy id)
    unfolding handle_notification_id
    handle_notification_id-JobOps id =
        MakesOnly-catch _ _ (MakesOnly-bind _ _ (claim_by_id-JobOps id) handle_claim-JobOps)
          (λ e. search only_rules)
