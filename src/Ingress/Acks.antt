-- ===== src/Ingress/Acks.antt =====
-- That app/ingress/pubsub_subscriber.py acks no message whose notification still waits, under any
-- schedule of failures.
use inride_worker_manager.Effect.Outcomes.{Outcome-bind, Outcome-of}
use inride_worker_manager.Pipeline.Runner.{or_failed, handle_notification_id}
use inride_worker_manager.Ingress.Handled.{AckSettles, Settled, handle-AckSettles}
use inride_worker_manager.Pipeline.Operations.{StoresOnly, handle_notification_id-JobOps, JobOp}
use inride_worker_manager.Db.{Db}
use inride_worker_manager.Ingress.PubsubSubscriber.{
  Codec, handle, on_message, on_parsed, on_text, parse_id, raw_text, Message, ack_message,
  attempts_exhausted, delivery_attempt, count_missing_attempt, extend_ack_deadline, nack_message,
  settle,
}
use inride_worker_manager.Domain.{
  DeliveryJob, value, DeliveryPolicy, Uuid, HandleResult, should_ack,
}
use inride_worker_manager.Core.{Config}
use inride_worker_manager.Effect.World.{
  Signal, World, acked, effect, exec, extended, nacked, respond,
}
use inride_worker_manager.Prelude.{
  is_nonpositive, ℤ, String, Bool, Bool-cases, Option, arith, count, false, inl, inr, none, refl,
  some, true, ℕ, ◌<◌, ◌∙◌, ◌≡◌,
}
use inride_worker_manager.Effect.{Op, Prog, ack, call, done, extend_deadline, increment, nack}
use inride_worker_manager.Monitoring
use inride_worker_manager.Effect.Relates.{respond-Relates}
use inride_worker_manager.Effect.Operations.{
  MakesOnly-weaken, Makes, MakesOnly, MakesOnly-bind, MakesOnly-catch, MakesOnly-if,
  MakesOnly-perform, only_rules,
}
use inride_worker_manager.Ingress.Statuses.{only_final, FinalStatus}
use inride_worker_manager.Effect.Yields.{Anything, anything, MakesOnly-keeps}

abbrev pub is_ack : Signal → Bool
is_ack (acked m) = true
is_ack (nacked m) = false
is_ack (extended m s) = false

-- how often a message was acked
abbrev pub acks : World → ℕ
acks w = count is_ack w.signals

abbrev NoAck : Op → Type 0
NoAck (ack m) = ⊥
NoAck o = Unit

effect-acks :
    (o : Op) (w : World) → NoAck o → count is_ack (effect o w).1.signals ≡ count is_ack w.signals
unfolding effect count
effect-acks (ack m) w h = absurd h
effect-acks (nack m) w h = omega arith
effect-acks (extend_deadline m s) w h = omega arith
effect-acks o w h = refl

respond-acks : (o : Op) (w : World) → NoAck o → acks (respond o w).1 ≡ acks w
respond-acks o w h =
    respond-Relates (λ db signals. count is_ack signals) (λ a b. b ≡ a) (λ a. refl) o
      (λ v. effect-acks o v h) w

Makes-acks : {A : Type 0} (m : Prog A) (w : World) → Makes NoAck m → acks (exec m w).1 ≡ acks w
unfolding exec
Makes-acks (done r) w h = refl
Makes-acks (call o k) w h =
    let same = respond-acks o w h.0 in let (r, u) = respond o w in Makes-acks (k r) u (h.1 r) ∙ same

JobOp-NoAck : (o : Op) → JobOp FinalStatus o → NoAck o
JobOp-NoAck (ack m) h = h
JobOp-NoAck o h = tt

-- the operations that leave the tables as they are
abbrev IsLocal : Op → Type 0
IsLocal (increment key n) = Unit
IsLocal (ack m) = Unit
IsLocal o = ⊥

local-keeps : (K : Db → Type 0) (o : Op) (w : World) → IsLocal o → K w.db → K (effect o w).1.db
unfolding effect
local-keeps K (increment key n) w h k = k
local-keeps K (ack m) w h k = k
local-keeps K o w h k = absurd h

module _ (cfg : Config) (m : Message) where
  extend-NoAck : MakesOnly NoAck (extend_ack_deadline cfg m)
  unfolding extend_ack_deadline
  extend-NoAck =
      MakesOnly-if (is_nonpositive cfg.pubsub_ack_extension_seconds) _ _ (search only_rules) (
        MakesOnly-catch _ _ (MakesOnly-perform (extend_deadline m.id _) tt)
          (λ e. search only_rules))

  ack-IsLocal : (r : HandleResult) → MakesOnly IsLocal (ack_message m r)
  unfolding ack_message Monitoring.ingress_disposition Monitoring.inc
  ack-IsLocal r =
      MakesOnly-bind _ _ (MakesOnly-perform (increment _ 1) tt)
        (λ u. MakesOnly-perform (ack m.id) tt)

  missing-NoAck : (attempt : Option ℤ) → MakesOnly NoAck (count_missing_attempt attempt)
  unfolding count_missing_attempt Monitoring.claim Monitoring.inc
  missing-NoAck none = MakesOnly-perform (increment _ 1) tt
  missing-NoAck (some n) = search only_rules

  nack-NoAck : (r : HandleResult) → MakesOnly NoAck (nack_message m (delivery_attempt m) r)
  unfolding nack_message Monitoring.ingress_disposition Monitoring.inc
  nack-NoAck r = MakesOnly-bind _ _ (missing-NoAck (delivery_attempt m)) (λ u.
      MakesOnly-bind _ _ (MakesOnly-perform (increment _ 1) tt)
        (λ v. MakesOnly-perform (nack m.id) tt))

  -- what may follow a result
  settle-acks :
      (K : Db → Type 0) (r : HandleResult) (w : World)
      → attempts_exhausted cfg (delivery_attempt m) ≡ false
      → (should_ack r.disposition ≡ true → K w.db)
      → acks w < acks (exec (settle cfg m r) w).1
      → K (exec (settle cfg m r) w).1.db
  unfolding settle
  settle-acks K r w left h = elim (Bool-cases (should_ack r.disposition)) [
    | inl e ↦ rw e (λ more.
        MakesOnly-keeps IsLocal K (local-keeps K) (ack_message m r) w (ack-IsLocal r) (h e))
    | inr e ↦
        rw (e, left)
          (λ more. absurd (
            omega (
              arith,
              more,
              Makes-acks (nack_message m (delivery_attempt m) r) w (nack-NoAck r).at,
            )))
  ]

module _ (cfg : Config) (policy : DeliveryPolicy) (only : StoresOnly FinalStatus cfg policy)
    (codec : Codec) (m : Message) (left : attempts_exhausted cfg (delivery_attempt m) ≡ false) where
  -- an ack that was made since `w` finds the notification settled
  abbrev HonestSince : World → Uuid → World → Type 0
  HonestSince w id v = acks w < acks v → Settled id v.db

  abbrev SameAcks : World → World → Type 0
  SameAcks w v = acks v ≡ acks w

  handle-Honest :
      (id : Uuid) (w : World) → HonestSince w id (exec (handle cfg policy codec m id) w).1
  unfolding handle
  handle-Honest id w =
      Outcome-bind (λ x u. SameAcks w u × Unit {0}) (SameAcks w) (HonestSince w id)
        (extend_ack_deadline cfg m) _ w
        (Outcome-of Anything (SameAcks w) (exec (extend_ack_deadline cfg m) w)
          (anything (exec (extend_ack_deadline cfg m) w))
          (Makes-acks (extend_ack_deadline cfg m) w (extend-NoAck cfg m).at))
        (λ x u e.
          Outcome-bind (λ r v. SameAcks u v × AckSettles cfg policy only id r v) (SameAcks u)
            (HonestSince w id) (handle_notification_id cfg policy id) (settle cfg m) u
            (Outcome-of (AckSettles cfg policy only id) (SameAcks u) _
              (handle-AckSettles cfg policy only id u).at
              (Makes-acks (handle_notification_id cfg policy id) u
                (MakesOnly-weaken JobOp-NoAck _
                  (handle_notification_id-JobOps cfg policy only id)).at))
            (λ r v q more.
              settle-acks cfg m (Settled id) r v left q.1 (omega (arith, more, q.0, e.0)))
            (λ v same more. absurd (omega (arith, more, same, e.0))))
        (λ v same more. absurd (omega (arith, more, same)))

-- Whatever fails, under a policy that gives no notification back to be claimed, and while the
-- delivery attempts are not used up: if the callback of the started subscriber acks a message
-- that names a notification, counting an ack whose reply is lost, then no row of the notification
-- is pending after it, and its rows are all sent or failed, or the status that is stored of it is
-- sent, failed or processing.
pub ack_settles :
    (cfg : Config) (policy : DeliveryPolicy)
    → ((job : DeliveryJob) → FinalStatus (value (or_failed cfg policy (policy.skip_status job))))
    → (codec : Codec) (m : Message) (raw : String) (id : Uuid) (w : World)
    → attempts_exhausted cfg (delivery_attempt m) ≡ false
    → raw_text codec m.body ≡ some raw
    → parse_id codec raw ≡ some id
    → acks w < acks (exec (on_message cfg policy codec true m) w).1
    → Settled id (exec (on_message cfg policy codec true m) w).1.db
unfolding on_message on_text on_parsed
ack_settles cfg policy final codec m raw id w left e f =
    rw (e, f) (handle-Honest cfg policy (only_final cfg policy final) codec m left id w)
