-- ===== src/Pipeline/Runner.antt =====
-- app/pipeline/runner.py: policy, claim, recipients, one send for each device, finalize.
pub mod Refusals
pub mod Sending
pub mod Rounds
pub mod Loop
pub mod Final
pub mod Jobs
pub mod Deactivation
pub mod Missing
pub mod Handling
pub mod Redelivery
use inride_worker_manager.Prelude.{
  String, Bool, true, false, ◌||◌, Option, none, some, List, [], ◌∷◌, ◌++◌, str_eq, text_or,
  if◌then◌else◌, any,
}
use inride_worker_manager.Domain.{
  Uuid, PushStatus, sent, failed, DeliveryTarget, DeliveryJob, DeviceSendOutcome, DeliveryResult,
  is_sent, ack_processed, ack_already_done, ack_in_flight, nack_retry, nack_error, HandleResult,
  DeliveryPolicy,
}
use inride_worker_manager.Core.{Config}
use inride_worker_manager.Effect.{◌>>=◌, ◌>>◌, Exn, message, Prog, pure, catch}
use inride_worker_manager.Monitoring
use inride_worker_manager.Pipeline.Claimer.{claim_by_id}
use inride_worker_manager.Pipeline.DeviceIdempotency.{
  try_claim, mark_sent, release_claim, seal_open_sending, has_any_sent,
}
use inride_worker_manager.Pipeline.Finalizer.{finalize, deactivate_tokens}
use inride_worker_manager.Pipeline.RecipientResolver.{resolve}
use inride_worker_manager.Pipeline.ExpoSender.{SendReply, send}

abbrev pub outcome : DeliveryTarget → String → Option String → DeviceSendOutcome
outcome target result error = record {
  device_token_id = target.device_token_id;
  result = result;
  error = error;
}

unfoldable pub after_send :
    DeliveryJob → DeliveryTarget → SendReply → Prog (DeviceSendOutcome × List Uuid)
after_send job target reply =
    if reply.success
    then (do
      mark_sent job target.device_token_id
      Monitoring.device_attempted "sent"
      pure (outcome target "sent" none, []))
    else (do
      release_claim job target.device_token_id
      Monitoring.device_attempted "failed"
      pure (
        outcome target "failed" reply.error,
        if reply.deactivate then target.device_token_id ∷ [] else [],
      ))

unfoldable pub skip_device : DeliveryTarget → Prog (DeviceSendOutcome × List Uuid)
skip_device target = do
  Monitoring.device_attempted "skipped"
  pure (outcome target "skipped" none, [])

module _ (cfg : Config) (policy : DeliveryPolicy) where
  unfoldable pub send_claimed :
      DeliveryJob → DeliveryTarget → Bool → Prog (DeviceSendOutcome × List Uuid)
  unfolding after_send skip_device
  send_claimed job target false = skip_device target
  send_claimed job target true = do reply ← send cfg job target; after_send job target reply

  -- one round of the loop over the targets
  unfoldable pub deliver_to : DeliveryJob → DeliveryTarget → Prog (DeviceSendOutcome × List Uuid)
  unfolding send_claimed
  deliver_to job target = do claimed ← try_claim job target; send_claimed job target claimed

  abbrev pub add_round :
      DeviceSendOutcome × List Uuid
      → List DeviceSendOutcome × List Uuid
      → List DeviceSendOutcome × List Uuid
  add_round (o, dead) (os, deads) = (o ∷ os, dead ++ deads)

  -- the loop: the outcomes in the order of the targets, and the tokens to deactivate
  unfoldable pub deliver_all :
      DeliveryJob → List DeliveryTarget → Prog (List DeviceSendOutcome × List Uuid)
  unfolding deliver_to
  deliver_all job [] = pure ([], [])
  deliver_all job (target ∷ targets) = do
    round ← deliver_to job target
    rest ← deliver_all job targets
    pure (add_round round rest)

  unfoldable pub any_sent : DeliveryJob → List DeviceSendOutcome → Prog Bool
  any_sent job outcomes = if any is_sent outcomes then pure true else has_any_sent job

  abbrev pub final_status : Bool → PushStatus
  final_status s = if s then sent else failed

  abbrev pub final_error : Bool → Option String
  final_error s = if s then none else some "all_device_sends_failed"

  -- the last transaction of `_execute_job`
  unfoldable pub conclude : DeliveryJob → List DeviceSendOutcome × List Uuid → Prog DeliveryResult
  unfolding any_sent
  conclude job (outcomes, invalid_token_ids) = do
    deactivate_tokens invalid_token_ids
    sealed ← seal_open_sending job
    s ← any_sent job outcomes
    finalize job (final_status s) (final_error s)
    pure (record {
      job = job;
      notification_status = final_status s;
      device_outcomes = outcomes;
      error = final_error s;
    })

  unfoldable pub deliver_targets : DeliveryJob → List DeliveryTarget → Prog DeliveryResult
  unfolding deliver_all conclude
  deliver_targets job [] = do
    finalize job sent none
    pure (record { job = job; notification_status = sent; device_outcomes = []; error = none })
  deliver_targets job (target ∷ targets) = do
    rounds ← deliver_all job (target ∷ targets)
    conclude job rounds

  abbrev pub or_failed : Option PushStatus → PushStatus
  or_failed none = failed
  or_failed (some s) = s

  unfoldable pub skip_job : DeliveryJob → PushStatus → Prog DeliveryResult
  skip_job job status = do
    finalize job status (some "skipped_by_policy")
    pure (record {
      job = job;
      notification_status = status;
      device_outcomes = [];
      error = some "skipped_by_policy";
    })

  unfoldable pub execute_job : DeliveryJob → Prog DeliveryResult
  unfolding deliver_targets skip_job
  execute_job job =
      if policy.should_deliver job
      then (do targets ← resolve job; deliver_targets job targets)
      else skip_job job (or_failed (policy.skip_status job))

  unfoldable pub process_job : DeliveryJob → Prog DeliveryResult
  unfolding execute_job
  process_job job = execute_job job

  -- the disposition of a notification that was not pending
  unfoldable pub on_miss : Option String → HandleResult
  on_miss none = record { disposition = nack_retry; delivery = none; detail = some "missing" }
  on_miss (some status) =
      if str_eq status "sent" || str_eq status "failed"
      then record { disposition = ack_already_done; delivery = none; detail = some status }
      else if str_eq status "processing"
      then record { disposition = ack_in_flight; delivery = none; detail = some status }
      else record {
        disposition = nack_retry;
        delivery = none;
        detail = some (text_or (some status) "missing");
      }

  unfoldable pub handle_claim : Option DeliveryJob × Option String → Prog HandleResult
  unfolding execute_job on_miss
  handle_claim (none, miss_status) = pure (on_miss miss_status)
  handle_claim (some job, miss_status) = do
    delivery ← execute_job job
    pure (record { disposition = ack_processed; delivery = some delivery; detail = none })

  abbrev pub on_exception : Exn → HandleResult
  on_exception e = record { disposition = nack_error; delivery = none; detail = some (message e) }

  unfoldable pub handle_notification_id : Uuid → Prog HandleResult
  unfolding handle_claim
  handle_notification_id id =
      catch (do claim ← claim_by_id id; handle_claim claim) (λ e. pure (on_exception e))
