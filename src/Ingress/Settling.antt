-- ===== src/Ingress/Settling.antt =====
-- How app/ingress/pubsub_subscriber.py acks and nacks: never twice, and by which rule.
use inride_worker_manager.Pipeline.Runner.{handle_notification_id}
use inride_worker_manager.Monitoring
use inride_worker_manager.Effect.World.{World, exec}
use inride_worker_manager.Domain.{DeliveryPolicy, HandleResult, Uuid, should_ack}
use inride_worker_manager.Core.{Config}
use inride_worker_manager.Ingress.PubsubSubscriber.{
  delivery_attempt, Codec, Message, ack_message, ack_message_exhausted, attempts_exhausted,
  count_missing_attempt, extend_ack_deadline, handle, nack_message, on_message, on_parsed,
  on_poison, on_text, parse_id, raw_text, settle,
}
use inride_worker_manager.Effect.Settles.{
  IsQuiet, SettlesOnce, SettlesOnce-then, SettlesOnce-bind, SettlesOnce-if, SettlesOnce-perform,
  Spares,
}
use inride_worker_manager.Pipeline.Operations.{
  JobOp, claim-JobOps, disposition-JobOps, handle_notification_id-JobOps,
}
use inride_worker_manager.Effect.Operations.{
  MakesOnly-weaken, MakesOnly-catch, MakesOnly-if, only_rules,
}
use inride_worker_manager.Effect.Settles.Runs.{exec-SettlesOnce, settlements}
use inride_worker_manager.Prelude.{
  is_nonpositive, ℤ, Bool, Option, String, none, refl, some, suc, ℕ, ◌≤◌,
}
use inride_worker_manager.Effect.{Op, ack, nack}

abbrev AnyStatus : String → Type 0
AnyStatus s = Unit

-- a job acks and nacks nothing
JobOp-Spares : (o : Op) → JobOp AnyStatus o → Spares o
JobOp-Spares (ack m) h = absurd h
JobOp-Spares (nack m) h = absurd h
JobOp-Spares o h = refl

claim-IsQuiet : (label : String) (n : ℕ) → IsQuiet (Monitoring.claim label n)
claim-IsQuiet label n = MakesOnly-weaken JobOp-Spares _ (claim-JobOps label n)

disposition-IsQuiet : (s : String) → IsQuiet (Monitoring.ingress_disposition s)
disposition-IsQuiet s = MakesOnly-weaken JobOp-Spares _ (disposition-JobOps s)

pub handle_notification_id-IsQuiet :
    (cfg : Config) (policy : DeliveryPolicy) (id : Uuid)
    → IsQuiet (handle_notification_id cfg policy id)
handle_notification_id-IsQuiet cfg policy id = MakesOnly-weaken JobOp-Spares _ (
    handle_notification_id-JobOps cfg policy
      (record { sent = tt; failed = tt; skipped = λ job. tt }) id)

count_missing-IsQuiet : (attempt : Option ℤ) → IsQuiet (count_missing_attempt attempt)
unfolding count_missing_attempt
count_missing-IsQuiet none = claim-IsQuiet _ 1
count_missing-IsQuiet (some n) = search only_rules

exhausted-SettlesOnce : (m : Message) → SettlesOnce (ack_message_exhausted m)
unfolding ack_message_exhausted
exhausted-SettlesOnce m =
    SettlesOnce-bind _ _ (disposition-IsQuiet _)
      (λ u. SettlesOnce-bind _ _ (claim-IsQuiet _ 1) (λ v. SettlesOnce-perform (ack m.id)))

module _ (cfg : Config) (m : Message) where
  settle-SettlesOnce : (result : HandleResult) → SettlesOnce (settle cfg m result)
  unfolding settle ack_message nack_message ack_message_exhausted
  settle-SettlesOnce result =
      SettlesOnce-if (should_ack result.disposition) _ _
        (SettlesOnce-bind _ _ (disposition-IsQuiet _) (λ u. SettlesOnce-perform (ack m.id)))
        (SettlesOnce-if (attempts_exhausted cfg (delivery_attempt m)) _ _ (exhausted-SettlesOnce m)
          (SettlesOnce-bind _ _ (count_missing-IsQuiet (delivery_attempt m)) (λ u.
            SettlesOnce-bind _ _ (disposition-IsQuiet _) (λ v. SettlesOnce-perform (nack m.id)))))

  extend-IsQuiet : IsQuiet (extend_ack_deadline cfg m)
  unfolding extend_ack_deadline
  extend-IsQuiet =
      MakesOnly-if (is_nonpositive cfg.pubsub_ack_extension_seconds) _ _ (search only_rules)
        (MakesOnly-catch _ _ (record { at = (refl, λ r. tt) }) (λ e. search only_rules))

module _ (cfg : Config) (policy : DeliveryPolicy) (codec : Codec) where
  poison-SettlesOnce : (m : Message) → SettlesOnce (on_poison cfg policy codec m)
  unfolding on_poison
  poison-SettlesOnce m =
      SettlesOnce-then _ _ (exhausted-SettlesOnce m) (λ u. claim-IsQuiet "poison_acked" 1)

  on_parsed-SettlesOnce :
      (started : Bool) (m : Message) (id : Option Uuid)
      → SettlesOnce (on_parsed cfg policy codec started m id)
  unfolding on_parsed handle
  on_parsed-SettlesOnce started m none = poison-SettlesOnce m
  on_parsed-SettlesOnce started m (some id) =
      SettlesOnce-if started _ _
        (SettlesOnce-bind _ _ (extend-IsQuiet cfg m) (λ u.
          SettlesOnce-bind _ _ (handle_notification_id-IsQuiet cfg policy id)
            (settle-SettlesOnce cfg m)))
        (SettlesOnce-perform (nack m.id))

  on_text-SettlesOnce :
      (started : Bool) (m : Message) (text : Option String)
      → SettlesOnce (on_text cfg policy codec started m text)
  unfolding on_text
  on_text-SettlesOnce started m none = record { at = tt }
  on_text-SettlesOnce started m (some raw) = on_parsed-SettlesOnce started m (parse_id codec raw)

  -- Whatever fails, the callback on a message makes at most one ack or nack, counting one whose
  -- reply was lost.
  pub settled_at_most_once :
      (started : Bool) (m : Message) (w : World)
      → settlements (exec (on_message cfg policy codec started m) w).1 ≤ suc (settlements w)
  unfolding on_message
  settled_at_most_once started m w =
      exec-SettlesOnce _ w (on_text-SettlesOnce started m (raw_text codec m.body))
