-- ===== src/Ingress/Answers.antt =====
-- What app/ingress/pubsub_subscriber.py answers to a message, while neither the database nor
-- Pub/Sub fails.
use inride_worker_manager.Pipeline.Runner.Missing.{is_settled, on_miss-acks}
use inride_worker_manager.Pipeline.Claimer.Claims.{is_claimable}
use inride_worker_manager.Db.Notifications
use inride_worker_manager.Db.{Db}
use inride_worker_manager.Pipeline.Runner.{handle_notification_id}
use inride_worker_manager.Ingress.Settling.{handle_notification_id-IsQuiet}
use inride_worker_manager.Pipeline.Runner.Handling.{disposition_for, handle-disposition}
use inride_worker_manager.Core.{Config}
use inride_worker_manager.Effect.{ok, catch, ◌>>=◌}
use inride_worker_manager.Effect.Calm.{
  Ends-returns, Ends-also, Ends-bind, Ends-weaken, Ends, Ends-if, calm_respond, exec_calm,
}
use inride_worker_manager.Prelude.{
  Bool, false, leb_int, is_nonpositive, ℤ, String, [], ap, true, ◌∙◌, Bool-cases, Option, arith,
  count, first, if◌then◌else◌, inl, inr, none, refl, some, suc, ◌||◌, ◌≡◌,
}
use inride_worker_manager.Domain.{DeliveryPolicy, Uuid, HandleDisposition, HandleResult, should_ack}
use inride_worker_manager.Ingress.PubsubSubscriber.{
  Attempt, absent, number, unreadable, on_message, on_parsed, on_poison, on_text, parse_id,
  raw_text, Codec, handle, delivery_attempt, Message, ack_message, ack_message_exhausted,
  attempts_exhausted, count_missing_attempt, extend_ack_deadline, nack_message, settle,
}
use inride_worker_manager.Effect.World.{exec, Signal, World, acked, effect, nacked}
use inride_worker_manager.Effect.Settles.Runs.{exec_calm-IsQuiet, is_settlement, settlements}
use inride_worker_manager.Monitoring

-- the newest ack or nack
unfoldable pub last_settlement : World → Option Signal
last_settlement w = first is_settlement w.signals

-- The newest signal is this one, and it is the only new ack or nack.
abbrev pub AnsweredBy : Signal → World → Unit {0} → World → Type 0
AnsweredBy s w u v = (last_settlement v ≡ some s) × (settlements v ≡ suc (settlements w))

abbrev verdict : Config → Message → HandleDisposition → Signal
verdict cfg m d =
    if should_ack d || attempts_exhausted cfg (delivery_attempt m) then acked m.id else nacked m.id

-- The attempt of the message is a number that is at least the limit.
abbrev pub attempts_used : ℤ → Attempt → Bool
attempts_used limit absent = false
attempts_used limit (number n) = leb_int limit n
attempts_used limit unreadable = false

-- Whether a message that names this notification is to be acked.
abbrev pub is_to_ack : Config → Message → Uuid → Db → Bool
is_to_ack cfg m id db =
    is_claimable id db
    || is_settled (Notifications.select_status id db)
    || attempts_used cfg.pubsub_max_delivery_attempts m.delivery_attempt

exhausted-used :
    (cfg : Config) (m : Message)
    → attempts_exhausted cfg (delivery_attempt m)
      ≡ attempts_used cfg.pubsub_max_delivery_attempts m.delivery_attempt
unfolding attempts_exhausted delivery_attempt
exhausted-used cfg m = by_attempt m.delivery_attempt
  where
    by_attempt :
        (a : Attempt)
        → attempts_exhausted cfg (elim a [ absent ↦ none | number n ↦ some n | unreadable ↦ none ])
          ≡ attempts_used cfg.pubsub_max_delivery_attempts a
    by_attempt absent = refl
    by_attempt (number n) = refl
    by_attempt unreadable = refl

verdict-is_to_ack :
    (cfg : Config) (policy : DeliveryPolicy) (m : Message) (id : Uuid) (db : Db)
    → verdict cfg m (disposition_for cfg policy id db)
      ≡ (if is_to_ack cfg m id db then acked m.id else nacked m.id)
unfolding disposition_for
verdict-is_to_ack cfg policy m id db =
    ground
      (arith, exhausted-used cfg m, on_miss-acks cfg policy (Notifications.select_status id db))

module _ (cfg : Config) (m : Message) where
  ack_exhausted-Ends : (w : World) → Ends (AnsweredBy (acked m.id) w) (ack_message_exhausted m) w
  unfolding ack_message_exhausted Monitoring.ingress_disposition Monitoring.claim Monitoring.inc
      ◌>>=◌ exec_calm calm_respond effect last_settlement settlements first count
  ack_exhausted-Ends w = record { at = (refl, omega arith) }

  nack-Ends :
      (attempt : Option ℤ) (r : HandleResult) (w : World)
      → Ends (AnsweredBy (nacked m.id) w) (nack_message m attempt r) w
  unfolding nack_message count_missing_attempt Monitoring.ingress_disposition Monitoring.claim
      Monitoring.inc ◌>>=◌ exec_calm calm_respond effect last_settlement settlements first count
  nack-Ends none r w = record { at = (refl, omega arith) }
  nack-Ends (some n) r w = record { at = (refl, omega arith) }

  ack-Ends : (r : HandleResult) (w : World) → Ends (AnsweredBy (acked m.id) w) (ack_message m r) w
  unfolding ack_message Monitoring.ingress_disposition Monitoring.inc ◌>>=◌ exec_calm calm_respond
      effect last_settlement settlements first count
  ack-Ends r w = record { at = (refl, omega arith) }

  settle-Ends :
      (r : HandleResult) (w : World)
      → Ends (AnsweredBy (verdict cfg m r.disposition) w) (settle cfg m r) w
  unfolding settle
  settle-Ends r w = elim (Bool-cases (should_ack r.disposition)) [
    | inl e ↦ rw e (ack-Ends r w)
    | inr e ↦ rw e (elim (Bool-cases (attempts_exhausted cfg (delivery_attempt m))) [
      | inl x ↦ rw x (ack_exhausted-Ends w)
      | inr x ↦ rw x (nack-Ends (delivery_attempt m) r w)
    ])
  ]

  extend-Ends :
      (w : World)
      → Ends (λ u v. (v.db ≡ w.db) × (settlements v ≡ settlements w)) (extend_ack_deadline cfg m) w
  unfolding extend_ack_deadline catch ◌>>=◌ exec_calm calm_respond effect settlements count
  extend-Ends w =
      Ends-if (is_nonpositive cfg.pubsub_ack_extension_seconds) _ _ w
        (λ e. record { at = (refl, refl) }) (λ e. record { at = (refl, omega arith) })

module _ (cfg : Config) (policy : DeliveryPolicy) (codec : Codec) where
  -- What the callback on a message is to answer, by the id in the message, the rows of the
  -- notification and the delivery attempt.
  abbrev pub answer_to : Message → Option Uuid → Db → Signal
  answer_to m none db = acked m.id
  answer_to m (some id) db = if is_to_ack cfg m id db then acked m.id else nacked m.id

  handle-Ends :
      (m : Message) (id : Uuid) (w : World)
      → Ends
          (AnsweredBy (verdict cfg m (disposition_for cfg policy id w.db)) w)
          (handle cfg policy codec m id)
          w
  unfolding handle
  handle-Ends m id w = Ends-bind _ (extend_ack_deadline cfg m) _ w (extend-Ends cfg m w) λ x u e.
      Ends-bind _ (handle_notification_id cfg policy id) _ u
        (Ends-also (λ v. settlements v ≡ settlements u) _ u (handle-disposition cfg policy id u)
          (exec_calm-IsQuiet _ u (handle_notification_id-IsQuiet cfg policy id)))
        λ r v d.
          Ends-weaken (AnsweredBy (verdict cfg m r.disposition) v) (settle cfg m r) v
            (settle-Ends cfg m r v)
            λ y z a. (
              a.0 ∙ ap (λ d. some (verdict cfg m d)) (d.0 ∙ ap (disposition_for cfg policy id) e.0),
              omega (arith, a.1, d.1, e.1),
            )

  poison-Ends :
      (m : Message) (w : World) → Ends (AnsweredBy (acked m.id) w) (on_poison cfg policy codec m) w
  unfolding on_poison Monitoring.claim Monitoring.inc exec_calm calm_respond effect last_settlement
      settlements
  poison-Ends m w =
      Ends-bind (AnsweredBy (acked m.id) w) (ack_message_exhausted m) _ w
        (ack_exhausted-Ends cfg m w) (λ x u a. record { at = (a.0, a.1) })

  parsed-Ends :
      (m : Message) (id : Option Uuid) (w : World)
      → Ends (AnsweredBy (answer_to m id w.db) w) (on_parsed cfg policy codec true m id) w
  unfolding on_parsed
  parsed-Ends m none w = poison-Ends m w
  parsed-Ends m (some id) w =
      Ends-weaken _ (handle cfg policy codec m id) w (handle-Ends m id w)
        (λ x v a. (a.0 ∙ ap some (verdict-is_to_ack cfg policy m id w.db), a.1))

  on_message-Ends :
      (m : Message) (raw : String) (w : World)
      → raw_text codec m.body ≡ some raw
      → Ends
          (AnsweredBy (answer_to m (parse_id codec raw) w.db) w)
          (on_message cfg policy codec true m)
          w
  unfolding on_message on_text
  on_message-Ends m raw w h = rw h (parsed-Ends m (parse_id codec raw) w)

  -- While neither the database nor Pub/Sub fails, the callback of the started subscriber on a
  -- message whose body is UTF-8 returns, and makes exactly one ack or nack, of this message. It
  -- acks a body without a valid notification id. For a notification id it acks if the
  -- notification has a pending row, if its stored status is sent, failed or processing, or if the
  -- delivery attempt is a number that is at least the limit, and nacks otherwise.
  pub message_answered :
      (m : Message) (raw : String) (w : World)
      → w.answers ≡ []
      → raw_text codec m.body ≡ some raw
      → (v : World) × (exec (on_message cfg policy codec true m) w ≡ (ok tt, v))
        × (last_settlement v ≡ some (answer_to m (parse_id codec raw) w.db))
        × (settlements v ≡ suc (settlements w))
  message_answered m raw w e h =
      let (x, v, ran, p) =
        Ends-returns (on_message cfg policy codec true m) w e (on_message-Ends m raw w h) in
      (v, ran, p.0, p.1)
