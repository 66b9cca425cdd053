-- ===== src/Protocol/Entries.antt =====
-- What enters from outside obeys the discipline: app/ingress.
use inride_worker_manager.Core.{Config}
use inride_worker_manager.Pipeline.Runner.{process_job}
use inride_worker_manager.Ingress.PendingPoller.{poll, run_job, run_jobs, tick}
use inride_worker_manager.Protocol.Pieces.{claim-IsFree, claim_pending_batch-IsFree, metric_rules}
use inride_worker_manager.Ingress.Reclaim.{count_reclaimed, reclaim_stale}
use inride_worker_manager.Protocol.Programs.{execute_job-IsFree, handle_notification_id-IsFree}
use inride_worker_manager.Effect.{reclaim_rows}
use inride_worker_manager.Protocol.Rules.{
  IsFree-bind, IsFree-catch, IsFree-if, IsFree-step, IsFree-when, free_rules,
}
use inride_worker_manager.Ingress.PubsubSubscriber.{
  delivery_attempt, Codec, Message, ack_message, ack_message_exhausted, attempts_exhausted,
  count_missing_attempt, extend_ack_deadline, handle, nack_message, on_message, on_parsed,
  on_poison, on_text, parse_id, raw_text, settle,
}
use inride_worker_manager.Domain.{DeliveryJob, DeliveryPolicy, HandleResult, Uuid, should_ack}
use inride_worker_manager.Prelude.{
  is_nonpositive, ℤ, not, Bool, List, Option, String, [], none, some, suc, zero, ℕ, ◌==◌, ◌∷◌,
}
use inride_worker_manager.Protocol.{IsFree}
use inride_worker_manager.Monitoring

reclaim-IsFree : (n : ℕ) → IsFree (Monitoring.reclaim n)
unfolding Monitoring.reclaim
reclaim-IsFree n =
    IsFree-when (not (n == 0)) (Monitoring.inc "expo_push.reclaim_total" [] n)
      (record { at = λ p. (tt, λ r. tt) })

module _ (cfg : Config) (policy : DeliveryPolicy) where
  pub run_job-IsFree : (job : DeliveryJob) → IsFree (run_job cfg policy job)
  unfolding run_job process_job
  run_job-IsFree job =
      IsFree-catch _ _
        (IsFree-bind _ _ (execute_job-IsFree cfg policy job) (λ r. search free_rules))
        (λ e. search free_rules)

  run_jobs-IsFree : (jobs : List DeliveryJob) → IsFree (run_jobs cfg policy jobs)
  unfolding run_jobs
  run_jobs-IsFree [] = search free_rules
  run_jobs-IsFree (job ∷ jobs) = IsFree-bind _ _ (run_job-IsFree job) (λ u. run_jobs-IsFree jobs)

  count_reclaimed-IsFree : (counts : ℕ × ℕ) → IsFree (count_reclaimed counts)
  unfolding count_reclaimed
  count_reclaimed-IsFree (n, m) =
      IsFree-bind _ _ (reclaim-IsFree n) (λ u. search (free_rules, metric_rules))

  tick-IsFree : IsFree (tick cfg policy)
  unfolding tick reclaim_stale
  tick-IsFree =
      IsFree-bind _ _ (IsFree-step (reclaim_rows _) _ (λ p. tt) count_reclaimed-IsFree)
        (λ n. IsFree-bind _ _ (claim_pending_batch-IsFree cfg.batch_size) run_jobs-IsFree)

  pub poll-IsFree : (rounds : ℕ) → IsFree (poll cfg policy rounds)
  unfolding poll
  poll-IsFree zero = search free_rules
  poll-IsFree (suc rounds) =
      IsFree-bind _ _ (IsFree-catch _ _ tick-IsFree (λ e. search free_rules))
        (λ u. poll-IsFree rounds)

  disposition-IsFree : (d : String) → IsFree (Monitoring.ingress_disposition d)
  unfolding Monitoring.ingress_disposition
  disposition-IsFree d = record { at = λ p. (tt, λ r. tt) }

  ack_exhausted-IsFree : (m : Message) → IsFree (ack_message_exhausted m)
  unfolding ack_message_exhausted
  ack_exhausted-IsFree m =
      IsFree-bind _ _ (disposition-IsFree _)
        (λ u. IsFree-bind _ _ (claim-IsFree _ 1) (λ v. record { at = λ p. (tt, λ r. tt) }))

  count_missing-IsFree : (attempt : Option ℤ) → IsFree (count_missing_attempt attempt)
  unfolding count_missing_attempt
  count_missing-IsFree none = search metric_rules
  count_missing-IsFree (some n) = search free_rules

  settle-IsFree : (m : Message) (r : HandleResult) → IsFree (settle cfg m r)
  unfolding settle ack_message nack_message
  settle-IsFree m r =
      IsFree-if (should_ack r.disposition) _ _
        (IsFree-bind _ _ (disposition-IsFree _) (λ u. record { at = λ p. (tt, λ x. tt) }))
        (IsFree-if (attempts_exhausted cfg (delivery_attempt m)) _ _ (ack_exhausted-IsFree m) (
          IsFree-bind _ _ (count_missing-IsFree _) (λ u.
            IsFree-bind _ _ (disposition-IsFree _) (λ v. record { at = λ p. (tt, λ x. tt) }))))

  extend-IsFree : (m : Message) → IsFree (extend_ack_deadline cfg m)
  unfolding extend_ack_deadline
  extend-IsFree m =
      IsFree-if (is_nonpositive cfg.pubsub_ack_extension_seconds) _ _ (search free_rules)
        (IsFree-catch _ _ (record { at = λ p. (tt, λ r. tt) }) (λ e. search free_rules))

  module _ (codec : Codec) where
    handle-IsFree : (m : Message) (id : Uuid) → IsFree (handle cfg policy codec m id)
    unfolding handle
    handle-IsFree m id =
        IsFree-bind _ _ (extend-IsFree m)
          (λ u. IsFree-bind _ _ (handle_notification_id-IsFree cfg policy id) (settle-IsFree m))

    on_parsed-IsFree :
        (started : Bool) (m : Message) (id : Option Uuid)
        → IsFree (on_parsed cfg policy codec started m id)
    unfolding on_parsed on_poison
    on_parsed-IsFree started m none =
        IsFree-bind _ _ (ack_exhausted-IsFree m) (λ u. search metric_rules)
    on_parsed-IsFree started m (some id) =
        IsFree-if started _ _ (handle-IsFree m id) (record { at = λ p. (tt, λ r. tt) })

    on_text-IsFree :
        (started : Bool) (m : Message) (text : Option String)
        → IsFree (on_text cfg policy codec started m text)
    unfolding on_text
    on_text-IsFree started m none = search free_rules
    on_text-IsFree started m (some raw) = on_parsed-IsFree started m (parse_id codec raw)

    pub on_message-IsFree :
        (started : Bool) (m : Message) → IsFree (on_message cfg policy codec started m)
    unfolding on_message
    on_message-IsFree started m = on_text-IsFree started m (raw_text codec m.body)
