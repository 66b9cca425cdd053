-- ===== src/Ingress/Operations.antt =====
-- Which operations the entries of app/ingress make: any, but they store only the statuses that the
-- runner and its policy name.
use inride_worker_manager.Core.{Config}
use inride_worker_manager.Ingress.Reclaim.{count_reclaimed, reclaim_stale}
use inride_worker_manager.Ingress.PendingPoller.{poll, run_job, run_jobs, tick}
use inride_worker_manager.Pipeline.Runner.{process_job}
use inride_worker_manager.Pipeline.Claimer.{claim_pending_batch, load_claimed}
use inride_worker_manager.Ingress.PubsubSubscriber.{
  Codec, Message, ack_message, ack_message_exhausted, attempts_exhausted, delivery_attempt,
  count_missing_attempt, extend_ack_deadline, handle, nack_message, on_message, on_parsed,
  on_poison, on_text, parse_id, raw_text, settle,
}
use inride_worker_manager.Domain.{DeliveryJob, DeliveryPolicy, HandleResult, Uuid, should_ack}
use inride_worker_manager.Effect.{
  Op, ack, claim_batch, extend_deadline, increment, nack, reclaim_rows, select_notifications,
  update_status,
}
use inride_worker_manager.Prelude.{
  pos, negsuc, is_nonpositive, ℤ, Bool, List, Option, String, [], none, not, some, suc, zero, ℕ,
  ◌==◌, ◌∷◌,
}
use inride_worker_manager.Effect.Operations.{
  MakesOnly, MakesOnly-bind, MakesOnly-catch, MakesOnly-if, MakesOnly-perform, MakesOnly-step,
  MakesOnly-weaken, MakesOnly-when, only_rules,
}
use inride_worker_manager.Pipeline.Operations.{
  JobOp, StoresOnly, claim-JobOps, disposition-JobOps, execute_job-JobOps,
  handle_notification_id-JobOps,
}
use inride_worker_manager.Monitoring

abbrev pub EntryOp : (String → Type 0) → Op → Type 0
EntryOp Stores (update_status id s e) = Stores s
EntryOp Stores o = Unit

pub JobOp-EntryOp : (Stores : String → Type 0) (o : Op) → JobOp Stores o → EntryOp Stores o
JobOp-EntryOp Stores (update_status id s e) h = h
JobOp-EntryOp Stores o h = tt

module _ {Stores : String → Type 0} where
  count-EntryOps : (label : String) (n : ℕ) → MakesOnly (EntryOp Stores) (Monitoring.claim label n)
  count-EntryOps label n = MakesOnly-weaken (JobOp-EntryOp Stores) _ (claim-JobOps label n)

  disposition-EntryOps :
      (s : String) → MakesOnly (EntryOp Stores) (Monitoring.ingress_disposition s)
  disposition-EntryOps s = MakesOnly-weaken (JobOp-EntryOp Stores) _ (disposition-JobOps s)

  reclaim-EntryOps : (n : ℕ) → MakesOnly (EntryOp Stores) (Monitoring.reclaim n)
  unfolding Monitoring.reclaim Monitoring.inc
  reclaim-EntryOps n = MakesOnly-when (not (n == 0)) _ (MakesOnly-perform (increment _ n) tt)

  reclaim_stale-EntryOps : (seconds : ℤ) → MakesOnly (EntryOp Stores) (reclaim_stale seconds)
  unfolding reclaim_stale count_reclaimed
  reclaim_stale-EntryOps seconds = MakesOnly-step (reclaim_rows seconds) _ tt (λ counts.
      MakesOnly-bind _ _ (reclaim-EntryOps counts.0) (λ u.
        MakesOnly-bind _ _ (MakesOnly-when _ _ (count-EntryOps _ counts.1))
          (λ v. search only_rules)))

  load_claimed-EntryOps : (ids : List Uuid) → MakesOnly (EntryOp Stores) (load_claimed ids)
  unfolding load_claimed
  load_claimed-EntryOps [] = search only_rules
  load_claimed-EntryOps (id ∷ ids) =
      MakesOnly-bind _ _ (count-EntryOps "won" _)
        (λ u. MakesOnly-step (select_notifications (id ∷ ids)) _ tt (λ rows. search only_rules))

  claim_pending_batch-EntryOps :
      (limit : ℤ) → MakesOnly (EntryOp Stores) (claim_pending_batch limit)
  unfolding claim_pending_batch
  claim_pending_batch-EntryOps (pos n) = MakesOnly-step (claim_batch n) _ tt load_claimed-EntryOps
  claim_pending_batch-EntryOps (negsuc n) = search only_rules

  exhausted-EntryOps : (m : Message) → MakesOnly (EntryOp Stores) (ack_message_exhausted m)
  unfolding ack_message_exhausted
  exhausted-EntryOps m =
      MakesOnly-bind _ _ (disposition-EntryOps _)
        (λ u. MakesOnly-bind _ _ (count-EntryOps _ 1) (λ v. MakesOnly-perform (ack m.id) tt))

  missing-EntryOps :
      (attempt : Option ℤ) → MakesOnly (EntryOp Stores) (count_missing_attempt attempt)
  unfolding count_missing_attempt
  missing-EntryOps none = count-EntryOps _ 1
  missing-EntryOps (some n) = search only_rules

  settle-EntryOps :
      (cfg : Config) (m : Message) (result : HandleResult)
      → MakesOnly (EntryOp Stores) (settle cfg m result)
  unfolding settle ack_message nack_message
  settle-EntryOps cfg m result =
      MakesOnly-if (should_ack result.disposition) _ _
        (MakesOnly-bind _ _ (disposition-EntryOps _) (λ u. MakesOnly-perform (ack m.id) tt))
        (MakesOnly-if (attempts_exhausted cfg (delivery_attempt m)) _ _ (exhausted-EntryOps m) (
          MakesOnly-bind _ _ (missing-EntryOps (delivery_attempt m)) (λ u.
            MakesOnly-bind _ _ (disposition-EntryOps _) (λ v. MakesOnly-perform (nack m.id) tt))))

  extend-EntryOps :
      (cfg : Config) (m : Message) → MakesOnly (EntryOp Stores) (extend_ack_deadline cfg m)
  unfolding extend_ack_deadline
  extend-EntryOps cfg m =
      MakesOnly-if (is_nonpositive cfg.pubsub_ack_extension_seconds) _ _ (search only_rules) (
        MakesOnly-catch _ _ (MakesOnly-perform (extend_deadline m.id _) tt)
          (λ e. search only_rules))

  module _ (cfg : Config) (policy : DeliveryPolicy) (only : StoresOnly Stores cfg policy) where
    pub run_job-EntryOps : (job : DeliveryJob) → MakesOnly (EntryOp Stores) (run_job cfg policy job)
    unfolding run_job process_job
    run_job-EntryOps job =
        MakesOnly-catch _ _
          (MakesOnly-bind _ _
            (MakesOnly-weaken (JobOp-EntryOp Stores) _ (execute_job-JobOps cfg policy only job))
            (λ r. search only_rules))
          (λ e. search only_rules)

    run_jobs-EntryOps :
        (jobs : List DeliveryJob) → MakesOnly (EntryOp Stores) (run_jobs cfg policy jobs)
    unfolding run_jobs
    run_jobs-EntryOps [] = search only_rules
    run_jobs-EntryOps (job ∷ jobs) =
        MakesOnly-bind _ _ (run_job-EntryOps job) (λ u. run_jobs-EntryOps jobs)

    pub poll-EntryOps : (rounds : ℕ) → MakesOnly (EntryOp Stores) (poll cfg policy rounds)
    unfolding poll tick
    poll-EntryOps zero = search only_rules
    poll-EntryOps (suc rounds) =
        MakesOnly-bind _ _
          (MakesOnly-catch _ _
            (MakesOnly-bind _ _ (reclaim_stale-EntryOps cfg.reclaim_after_seconds) (λ n.
              MakesOnly-bind _ _ (claim_pending_batch-EntryOps cfg.batch_size) run_jobs-EntryOps))
            (λ e. search only_rules))
          (λ u. poll-EntryOps rounds)

    handle-EntryOps :
        (codec : Codec) (m : Message) (id : Uuid)
        → MakesOnly (EntryOp Stores) (handle cfg policy codec m id)
    unfolding handle
    handle-EntryOps codec m id = MakesOnly-bind _ _ (extend-EntryOps cfg m) (λ u.
        MakesOnly-bind _ _
          (MakesOnly-weaken (JobOp-EntryOp Stores) _
            (handle_notification_id-JobOps cfg policy only id))
          (settle-EntryOps cfg m))

    on_parsed-EntryOps :
        (codec : Codec) (started : Bool) (m : Message) (id : Option Uuid)
        → MakesOnly (EntryOp Stores) (on_parsed cfg policy codec started m id)
    unfolding on_parsed on_poison
    on_parsed-EntryOps codec started m none =
        MakesOnly-bind _ _ (exhausted-EntryOps m) (λ u. count-EntryOps _ 1)
    on_parsed-EntryOps codec started m (some id) =
        MakesOnly-if started _ _ (handle-EntryOps codec m id) (MakesOnly-perform (nack m.id) tt)

    on_text-EntryOps :
        (codec : Codec) (started : Bool) (m : Message) (text : Option String)
        → MakesOnly (EntryOp Stores) (on_text cfg policy codec started m text)
    unfolding on_text
    on_text-EntryOps codec started m none = search only_rules
    on_text-EntryOps codec started m (some raw) =
        on_parsed-EntryOps codec started m (parse_id codec raw)

    pub on_message-EntryOps :
        (codec : Codec) (started : Bool) (m : Message)
        → MakesOnly (EntryOp Stores) (on_message cfg policy codec started m)
    unfolding on_message
    on_message-EntryOps codec started m = on_text-EntryOps codec started m (raw_text codec m.body)
