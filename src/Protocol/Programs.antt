-- ===== src/Protocol/Programs.antt =====
-- Every program of the worker obeys the discipline: app/pipeline/runner.py and app/ingress.
use inride_worker_manager.Protocol.Rules.{
  IsFree-bind, IsFree-catch, IsFree-if, IsFree-step, Obeys-bind, free_rules,
}
use inride_worker_manager.Protocol.Pieces.{
  claim_by_id-IsFree, deactivate_tokens-IsFree, device_attempted-IsFree, finalize-IsFree,
  metric_rules, resolve-IsFree,
}
use inride_worker_manager.Prelude.{
  List, Option, String, [], any, none, some, ◌∷◌, false, ◌≡◌, refl, Bool-cases, inl, inr,
}
use inride_worker_manager.Domain.{
  DeliveryPolicy, DeviceSendOutcome, PushStatus, Uuid, is_sent, DeliveryTarget, DeliveryJob,
  ledger_notification_id,
}
use inride_worker_manager.Core.{Config}
use inride_worker_manager.Effect.{
  mark_delivery_sent, seal_sending, Result, ok, raised, Client, ◌>>=◌, catch,
}
use inride_worker_manager.Pipeline.DeviceIdempotency.{
  has_any_sent, seal_open_sending, try_claim, mark_sent, release_claim,
}
use inride_worker_manager.Pipeline.ExpoSender.{SendReply, push, push_with, send}
use inride_worker_manager.Pipeline.Runner.{
  any_sent, conclude, deliver_all, deliver_targets, deliver_to, execute_job, handle_claim,
  handle_notification_id, skip_device, skip_job, after_send,
}
use inride_worker_manager.Protocol.{IsFree, Phase, holding, MayDelete, Obeys, Anyhow}

module _ (job : DeliveryJob) (target : DeliveryTarget) where
  -- After a reply without success the thread still holds the pair.
  abbrev IsUnsent : Phase → Result SendReply → Type 0
  IsUnsent p (ok reply) =
      reply.success ≡ false → MayDelete p (ledger_notification_id job) target.device_token_id
  IsUnsent p (raised e) = Unit

  push_with-Obeys :
      (client : Client)
      → Obeys IsUnsent
          (holding (ledger_notification_id job) target.device_token_id)
          (push_with client job target)
  unfolding push_with push ◌>>=◌ catch
  push_with-Obeys client = ((refl, refl), elim [ ok u ↦ λ e. cc e | raised e ↦ λ _. (refl, refl) ])

  send-Obeys :
      (cfg : Config)
      → Obeys IsUnsent
          (holding (ledger_notification_id job) target.device_token_id)
          (send cfg job target)
  unfolding send ◌>>=◌
  send-Obeys cfg = elim (Bool-cases cfg.sdk_available) [
    | inl yes' ↦ rw yes' ((tt, elim [ ok client ↦ push_with-Obeys client | raised e ↦ tt ]))
    | inr no' ↦ rw no' (λ _. (refl, refl))
  ]

  after_send-Obeys :
      (p : Phase) (reply : SendReply)
      → IsUnsent p (ok reply)
      → Obeys Anyhow p (after_send job target reply)
  unfolding after_send mark_sent release_claim ◌>>=◌
  after_send-Obeys p reply h = elim (Bool-cases reply.success) [
    | inl e ↦ rw e (
        (IsFree-step (mark_delivery_sent (ledger_notification_id job) target.device_token_id) _
            (λ q. tt) (λ u. search (free_rules, metric_rules))).at
          p)
    | inr e ↦ rw e (
        Obeys-bind Anyhow Anyhow p (release_claim job target.device_token_id) _ (h e, λ r. tt)
          (λ q a _.
            (IsFree-bind _ _ (device_attempted-IsFree "failed") (λ u. search free_rules)).at q)
          (λ q x _. tt))
  ]

  skip_device-IsFree : IsFree (skip_device target)
  unfolding skip_device
  skip_device-IsFree = IsFree-bind _ _ (device_attempted-IsFree "skipped") (λ u. search free_rules)

module _ (cfg : Config) (policy : DeliveryPolicy) where
  deliver_to-IsFree :
      (job : DeliveryJob) (target : DeliveryTarget) → IsFree (deliver_to cfg policy job target)
  unfolding deliver_to try_claim ◌>>=◌
  deliver_to-IsFree job target = record {
    at = λ p. (
      tt,
      elim [
        | ok (some id) ↦
            Obeys-bind (IsUnsent job target) Anyhow _ (send cfg job target) _
              (send-Obeys job target cfg) (after_send-Obeys job target) (λ q x _. tt)
        | ok none ↦ (skip_device-IsFree job target).at p
        | raised e ↦ tt
      ],
    );
  }

  deliver_all-IsFree :
      (job : DeliveryJob) (targets : List DeliveryTarget)
      → IsFree (deliver_all cfg policy job targets)
  unfolding deliver_all
  deliver_all-IsFree job [] = search free_rules
  deliver_all-IsFree job (target ∷ targets) =
      IsFree-bind _ _ (deliver_to-IsFree job target)
        (λ r. IsFree-bind _ _ (deliver_all-IsFree job targets) (λ rest. search free_rules))

  any_sent-IsFree :
      (job : DeliveryJob) (os : List DeviceSendOutcome) → IsFree (any_sent cfg policy job os)
  unfolding any_sent has_any_sent
  any_sent-IsFree job os =
      IsFree-if (any is_sent os) _ _ (search free_rules) (record { at = λ p. (tt, λ r. tt) })

  conclude-IsFree :
      (job : DeliveryJob) (rounds : List DeviceSendOutcome × List Uuid)
      → IsFree (conclude cfg policy job rounds)
  unfolding conclude seal_open_sending
  conclude-IsFree job (os, dead) = IsFree-bind _ _ (deactivate_tokens-IsFree dead) (λ u.
      IsFree-step (seal_sending (ledger_notification_id job)) _ (λ p. tt)
        (λ n.
          IsFree-bind _ _ (any_sent-IsFree job os)
            (λ s. IsFree-bind _ _ (finalize-IsFree job _ _) (λ v. search free_rules))))

  deliver_targets-IsFree :
      (job : DeliveryJob) (targets : List DeliveryTarget)
      → IsFree (deliver_targets cfg policy job targets)
  unfolding deliver_targets
  deliver_targets-IsFree job [] = IsFree-bind _ _ (finalize-IsFree job _ _) (λ u. search free_rules)
  deliver_targets-IsFree job (target ∷ targets) =
      IsFree-bind _ _ (deliver_all-IsFree job (target ∷ targets)) (conclude-IsFree job)

  skip_job-IsFree : (job : DeliveryJob) (s : PushStatus) → IsFree (skip_job cfg policy job s)
  unfolding skip_job
  skip_job-IsFree job s = IsFree-bind _ _ (finalize-IsFree job s _) (λ u. search free_rules)

  pub execute_job-IsFree : (job : DeliveryJob) → IsFree (execute_job cfg policy job)
  unfolding execute_job
  execute_job-IsFree job =
      IsFree-if (policy.should_deliver job) _ _
        (IsFree-bind _ _ (resolve-IsFree job) (deliver_targets-IsFree job)) (skip_job-IsFree job _)

  handle_claim-IsFree :
      (c : Option DeliveryJob × Option String) → IsFree (handle_claim cfg policy c)
  unfolding handle_claim
  handle_claim-IsFree (none, miss) = search free_rules
  handle_claim-IsFree (some job, miss) =
      IsFree-bind _ _ (execute_job-IsFree job) (λ d. search free_rules)

  pub handle_notification_id-IsFree : (id : Uuid) → IsFree (handle_notification_id cfg policy id)
  unfolding handle_notification_id
  handle_notification_id-IsFree id =
      IsFree-catch _ _ (IsFree-bind _ _ (claim_by_id-IsFree id) handle_claim-IsFree)
        (λ e. search free_rules)
