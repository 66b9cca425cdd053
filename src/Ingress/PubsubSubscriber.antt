-- ===== src/Ingress/PubsubSubscriber.antt =====
-- app/ingress/pubsub_subscriber.py: the callback on a message. `Codec` is `bytes.decode("utf-8")`
-- and `json.loads`: `none` where they raise. The callback's coroutine runs to its end here.
use inride_worker_manager.Prelude.{
  pos_part, leb_int, is_nonpositive, ℤ, ℕ, String, Bool, false, Option, none, some, List, [], ◌∷◌,
  str_eq, if◌then◌else◌,
}
use inride_worker_manager.Domain.{
  Uuid, ack_exhausted, HandleResult, DeliveryPolicy, should_ack, disposition_value,
}
use inride_worker_manager.Core.{Config}
use inride_worker_manager.Effect.{
  other, Prog, pure, raise, perform, ◌>>=◌, ◌>>◌, catch, ack, nack, extend_deadline,
}
use inride_worker_manager.Monitoring
use inride_worker_manager.Pipeline.Runner.{handle_notification_id}
use inride_worker_manager.Ingress.Payload.{Json, obj, end, notification_id_of}

-- the attribute `delivery_attempt`: absent or None, a value that `int` reads, or one that it
-- refuses
pub data Attempt : Type 0 where
  absent : Attempt
  number : ℤ → Attempt
  unreadable : Attempt

pub record Message : Type 0 where
  pub id : ℕ
  pub body : List ℕ
  pub delivery_attempt : Attempt

pub record Codec : Type 0 where
  pub decode : List ℕ → Option String
  pub loads : String → Option Json

unfoldable pub delivery_attempt : Message → Option ℤ
delivery_attempt m = elim m.delivery_attempt [
  | absent ↦ none
  | number n ↦ some n
  | unreadable ↦ none
]

unfoldable pub attempts_exhausted : Config → Option ℤ → Bool
attempts_exhausted cfg none = false
attempts_exhausted cfg (some attempt) = leb_int cfg.pubsub_max_delivery_attempts attempt

unfoldable pub extend_ack_deadline : Config → Message → Prog (Unit {0})
extend_ack_deadline cfg m =
    if is_nonpositive cfg.pubsub_ack_extension_seconds
    then pure tt
    else catch (perform (extend_deadline m.id (pos_part cfg.pubsub_ack_extension_seconds)))
        (λ e. pure tt)

unfoldable pub ack_message_exhausted : Message → Prog (Unit {0})
ack_message_exhausted m = do
  Monitoring.ingress_disposition (disposition_value ack_exhausted)
  Monitoring.claim "exhausted_acked" 1
  perform (ack m.id)

-- `message.data.decode("utf-8") if message.data else ""`
unfoldable pub raw_text : Codec → List ℕ → Option String
raw_text codec [] = some ""
raw_text codec (b ∷ bs) = codec.decode (b ∷ bs)

abbrev id_in : Option Json → Option Uuid
id_in none = none
id_in (some v) = notification_id_of v

-- the `try` block: `json.loads(raw) if raw else {}`, and the id in it
unfoldable pub parse_id : Codec → String → Option Uuid
parse_id codec raw = if str_eq raw "" then notification_id_of (obj end) else id_in (codec.loads raw)

unfoldable pub count_missing_attempt : Option ℤ → Prog (Unit {0})
count_missing_attempt none = Monitoring.claim "nack_without_delivery_attempt" 1
count_missing_attempt (some n) = pure tt

unfoldable pub nack_message : Message → Option ℤ → HandleResult → Prog (Unit {0})
unfolding count_missing_attempt
nack_message m attempt result = do
  count_missing_attempt attempt
  Monitoring.ingress_disposition (disposition_value result.disposition)
  perform (nack m.id)

unfoldable pub ack_message : Message → HandleResult → Prog (Unit {0})
ack_message m result = do
  Monitoring.ingress_disposition (disposition_value result.disposition)
  perform (ack m.id)

-- what `_handle` does with the result of the runner
unfoldable pub settle : Config → Message → HandleResult → Prog (Unit {0})
unfolding ack_message nack_message ack_message_exhausted
settle cfg m result =
    let attempt = delivery_attempt m in
    if should_ack result.disposition
    then ack_message m result
    else if attempts_exhausted cfg attempt
    then ack_message_exhausted m
    else nack_message m attempt result

module _ (cfg : Config) (policy : DeliveryPolicy) (codec : Codec) where
  unfoldable pub handle : Message → Uuid → Prog (Unit {0})
  unfolding settle extend_ack_deadline
  handle m id = do
    extend_ack_deadline cfg m
    result ← handle_notification_id cfg policy id
    settle cfg m result

  unfoldable pub on_poison : Message → Prog (Unit {0})
  unfolding ack_message_exhausted
  on_poison m = do ack_message_exhausted m; Monitoring.claim "poison_acked" 1

  -- `started` says whether `start` has stored the event loop
  unfoldable pub on_parsed : (started : Bool) → Message → Option Uuid → Prog (Unit {0})
  unfolding on_poison handle
  on_parsed started m none = on_poison m
  on_parsed started m (some id) = if started then handle m id else perform (nack m.id)

  unfoldable pub on_text : (started : Bool) → Message → Option String → Prog (Unit {0})
  unfolding on_parsed parse_id
  on_text started m none = raise (other "codec can't decode byte")
  on_text started m (some raw) = on_parsed started m (parse_id codec raw)

  unfoldable pub on_message : (started : Bool) → Message → Prog (Unit {0})
  unfolding on_text raw_text
  on_message started m = on_text started m (raw_text codec m.body)
