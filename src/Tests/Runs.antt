-- ===== src/Tests/Runs.antt =====
-- The theorems on the pipeline and the ingress at the small database.
use inride_worker_manager.Text.{strip}
use inride_worker_manager.Db.Notifications.Laws.{Stored}
use inride_worker_manager.Pipeline.RecipientResolver.Targets.{is_recipient, resolve_targets}
use inride_worker_manager.Effect.Calm.{exec_calm}
use inride_worker_manager.Pipeline.Runner.Redelivery.{handled_once}
use inride_worker_manager.Pipeline.RecipientResolver.{resolve, target_of}
use inride_worker_manager.Pipeline.ExpoSender.{truncate}
use inride_worker_manager.Pipeline.Runner.Jobs.{JobSpec, execute_job_result}
use inride_worker_manager.Pipeline.Claimer.Claims.{is_claimable}
use inride_worker_manager.Pipeline.Runner.Handling.{
  MissedSpec, handle_missed, handle_pending, processed,
}
use inride_worker_manager.Pipeline.Previews.{truncate_bounds, IsCut}
use inride_worker_manager.Pipeline.Runner.{execute_job, handle_notification_id}
use inride_worker_manager.Effect.{not_registered, ok}
use inride_worker_manager.Effect.World.{World, exec, fails_before}
use inride_worker_manager.Pipeline.RecipientResolver.Order.{Descends, resolved-Descends}
use inride_worker_manager.Domain.{
  DeliveryResult, DeliveryTarget, DeviceSendOutcome, HandleResult, Uuid, ack_processed,
  immediate_policy, sent, value,
}
use inride_worker_manager.Prelude.{
  ltb_int, pos, text_or, arith, Bool, List, [], any, count, false, none, refl, some, sum_over, true,
  ◌&&◌, ◌∷◌, ◌≡◌,
}
use inride_worker_manager.Tests.Samples.{cfg, small_db, small_world, worker}
use inride_worker_manager.Tests.Races.{job}

-- Expo refuses the first push, to a device that is gone.
abbrev refusing_world : World
refusing_world = record small_world {
  expo = fails_before (not_registered "DeviceNotRegistered") ∷ [];
}

execute_job_result_example :
    (result : DeliveryResult) × (v : World) × (exec
        (execute_job cfg immediate_policy job)
        refusing_world
      ≡ (ok result, v))
    × JobSpec cfg immediate_policy job true refusing_world result v
execute_job_result_example = execute_job_result cfg immediate_policy job refusing_world refl

pub pending_here : is_claimable 100 small_db ≡ true
unfolding any
pending_here = refl

handle_pending_example :
    (delivery : DeliveryResult) × (v : World) × (exec
        (handle_notification_id cfg immediate_policy 100)
        refusing_world
      ≡ (ok (processed cfg immediate_policy 100 delivery), v))
    × Stored 100 (value delivery.notification_status) v.db
handle_pending_example = handle_pending cfg immediate_policy 100 refusing_world refl pending_here

missing_here : is_claimable 7 small_db ≡ false
unfolding any
missing_here = refl

handle_missed_example :
    (result : HandleResult) × (v : World) × (exec
        (handle_notification_id cfg immediate_policy 7)
        small_world
      ≡ (ok result, v))
    × MissedSpec cfg immediate_policy 7 small_world result v
handle_missed_example = handle_missed cfg immediate_policy 7 small_world refl missing_here

abbrev outcome_sent : Uuid → DeviceSendOutcome
outcome_sent device = record { device_token_id = device; result = "sent"; error = none }

abbrev first_result : HandleResult
first_result = record {
  disposition = ack_processed;
  delivery = some (record {
    job = job;
    notification_status = sent;
    device_outcomes = outcome_sent 30 ∷ outcome_sent 20 ∷ [];
    error = none;
  });
  detail = none;
}

abbrev after_first : World
after_first = (exec (handle_notification_id cfg immediate_policy 100) small_world).1

first_run :
    exec (handle_notification_id cfg immediate_policy 100) small_world
    ≡ (ok first_result, after_first)
unfolding worker
first_run = refl

handled_once_example :
    (second : HandleResult) × (u : World) × (exec
        (handle_notification_id cfg immediate_policy 100)
        after_first
      ≡ (ok second, u))
    × (u.db ≡ after_first.db)
    × (u.pushes ≡ after_first.pushes)
handled_once_example =
    handled_once cfg immediate_policy 100 small_world after_first first_result refl pending_here
      (λ j. refl) first_run

abbrev is_urgent : DeliveryTarget → Bool
is_urgent t = ltb_int (pos 5) t.notification_priority

resolve_targets_example :
    (targets : List DeliveryTarget) × (exec_calm (resolve job) small_world
      ≡ (ok targets, small_world))
    × (count is_urgent targets
        ≡ sum_over
            (λ d.
              count
                (λ u.
                  is_recipient 7 (some 1) small_db d u && is_urgent (target_of d u (strip d.token)))
                small_db.users)
            small_db.device_tokens)
resolve_targets_example = resolve_targets job 7 small_world is_urgent refl

resolved-Descends_example :
    (targets : List DeliveryTarget) × (exec_calm (resolve job) small_world
      ≡ (ok targets, small_world))
    × Descends targets
resolved-Descends_example = resolved-Descends job small_world

truncate_bounds_example :
    IsCut 4 (strip (text_or (some " a long text ") "")) (truncate (some " a long text ") 4)
truncate_bounds_example = truncate_bounds (some " a long text ") 4 (omega arith)
