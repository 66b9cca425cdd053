-- ===== src/Pipeline/Runner/Rounds.antt =====
-- One round of the loop of `_execute_job` over the targets, while the database does not fail.
use inride_worker_manager.Pipeline.Runner.Refusals.{blames, refusals, told}
use inride_worker_manager.Pipeline.Runner.Sending.{SendSpec, send-SendSpec}
use inride_worker_manager.Db.{Db}
use inride_worker_manager.Pipeline.Runner.{
  outcome, deliver_to, send_claimed, skip_device, after_send,
}
use inride_worker_manager.Db.Deliveries.{has_row}
use inride_worker_manager.Db.Deliveries.Laws.{
  HasStatus-delete, HasStatus-insert, HasStatus-mark, insert-has_row, HasStatus,
}
use inride_worker_manager.Pipeline.DeviceIdempotency.{try_claim, mark_sent, release_claim}
use inride_worker_manager.Core.{Config}
use inride_worker_manager.Effect.Calm.{
  Ends-bind, Ends-if, Ends-weaken, Ends, calm_respond, exec_calm,
}
use inride_worker_manager.Prelude.{
  any, ==_iff, All, Option, String, [], ◌∷◌, Bool, ap, ◌∙◌, List, arith, refl, false, if◌then◌else◌,
  length, true, ◌+◌, ◌≡◌,
}
use inride_worker_manager.Effect.World.{Answer, effect, World}
use inride_worker_manager.Domain.{
  DeviceSendOutcome, is_sent, DeliveryJob, DeliveryPolicy, DeliveryTarget, Uuid,
  ledger_notification_id,
}
use inride_worker_manager.Pipeline.ExpoSender.{send, SendReply}
use inride_worker_manager.Effect.{◌>>=◌}
use inride_worker_manager.Monitoring
use inride_worker_manager.Db.Deliveries

module _ (cfg : Config) (policy : DeliveryPolicy) (job : DeliveryJob) where
  abbrev pub ledger : Uuid
  ledger = ledger_notification_id job

  -- What one round of the loop does.
  pub record RoundSpec (target : DeliveryTarget) (w : World) (round : DeviceSendOutcome × List Uuid)
      (v : World) : Type 0 where
    pub device : round.0.device_token_id ≡ target.device_token_id
    pub kept : HasStatus w.db ledger "sent" → HasStatus v.db ledger "sent"
    pub gained : is_sent round.0 ≡ true → HasStatus v.db ledger "sent"
    pub pushes : length v.pushes ≡ length w.pushes + (if is_sent round.0 then 1 else 0)
    pub notifications : v.db.notifications ≡ w.db.notifications
    pub tokens : v.db.device_tokens ≡ w.db.device_tokens
    -- the device to deactivate, if there is one
    pub dead : All (λ id. blames w.expo id round.0 ≡ true) round.1
    pub refused : length round.1 + refusals v.expo ≡ refusals w.expo
    pub later : (p : Answer → Bool) → any p v.expo ≡ true → any p w.expo ≡ true

  blamed_if :
      (b : Bool) (target : DeliveryTarget) (answers : List Answer) (error : Option String)
      → (b ≡ true → told answers error ≡ true)
      → All
          (λ id. blames answers id (outcome target "failed" error) ≡ true)
          (if b then target.device_token_id ∷ [] else [])
  blamed_if true target answers error h =
      (ground (arith, ==_iff target.device_token_id target.device_token_id, h refl), tt)
  blamed_if false target answers error h = tt

  after_send-RoundSpec :
      (target : DeliveryTarget) (w u : World) (reply : SendReply)
      → SendSpec w reply u
      → has_row w.db ledger target.device_token_id ≡ true
      → Ends (RoundSpec target w) (after_send job target reply) u
  unfolding after_send mark_sent release_claim Monitoring.device_attempted exec_calm calm_respond
      effect ◌>>=◌ Deliveries.mark_delivery_sent Deliveries.delete_sending
  after_send-RoundSpec target w u reply s h =
      Ends-if reply.success _ _ u
        (λ e. record {
          at = record {
            device = refl;
            kept = λ k. HasStatus-mark ledger target.device_token_id u.db (rw s.db h);
            gained = λ k. HasStatus-mark ledger target.device_token_id u.db (rw s.db h);
            pushes = ground (arith, s.pushes);
            notifications = ap (λ (d : Db). d.notifications) s.db;
            tokens = ap (λ (d : Db). d.device_tokens) s.db;
            dead = tt;
            refused = rw e at s.refused;
            later = s.later;
          };
        })
        (λ e. record {
          at = record {
            device = refl;
            kept = λ k. HasStatus-delete ledger ledger target.device_token_id u.db (rw s.db k);
            gained = λ k. cc;
            pushes = ground (arith, s.pushes);
            notifications = ap (λ (d : Db). d.notifications) s.db;
            tokens = ap (λ (d : Db). d.device_tokens) s.db;
            dead = blamed_if reply.deactivate target w.expo reply.error s.said;
            refused = ground (arith, s.refused, e);
            later = s.later;
          };
        })

  send_claimed-RoundSpec :
      (target : DeliveryTarget) (w : World)
      → has_row w.db ledger target.device_token_id ≡ true
      → Ends (RoundSpec target w) (send_claimed cfg policy job target true) w
  unfolding send_claimed
  send_claimed-RoundSpec target w h =
      Ends-bind (SendSpec w) (send cfg job target) (after_send job target) w
        (send-SendSpec cfg job target w) (λ reply u s. after_send-RoundSpec target w u reply s h)

  skip-RoundSpec :
      (target : DeliveryTarget) (w : World) → Ends (RoundSpec target w) (skip_device target) w
  unfolding skip_device Monitoring.device_attempted exec_calm calm_respond effect ◌>>=◌
  skip-RoundSpec target w = record {
    at = record {
      device = refl;
      kept = λ h. h;
      gained = λ e. cc;
      pushes = omega arith;
      notifications = refl;
      tokens = refl;
      dead = tt;
      refused = omega arith;
      later = λ p h. h;
    };
  }

  -- What the insertion of the ledger row leaves to the rest of the round.
  record ClaimSpec (target : DeliveryTarget) (w : World) (claimed : Bool) (v : World) : Type 0 where
    row : has_row v.db ledger target.device_token_id ≡ true
    kept : HasStatus w.db ledger "sent" → HasStatus v.db ledger "sent"
    pushes : v.pushes ≡ w.pushes
    notifications : v.db.notifications ≡ w.db.notifications
    tokens : v.db.device_tokens ≡ w.db.device_tokens
    expo : v.expo ≡ w.expo

  tokens-insert :
      (a b : Uuid) (db : Db)
      → (Deliveries.insert_delivery a b db).1.device_tokens ≡ db.device_tokens
  unfolding Deliveries.insert_delivery
  tokens-insert a b db = ground arith

  notifications-insert :
      (a b : Uuid) (db : Db)
      → (Deliveries.insert_delivery a b db).1.notifications ≡ db.notifications
  unfolding Deliveries.insert_delivery
  notifications-insert a b db = ground arith

  try_claim-ClaimSpec :
      (target : DeliveryTarget) (w : World) → Ends (ClaimSpec target w) (try_claim job target) w
  unfolding try_claim exec_calm calm_respond effect ◌>>=◌
  try_claim-ClaimSpec target w = record {
    at = record {
      row = insert-has_row ledger target.device_token_id w.db;
      kept = HasStatus-insert ledger ledger target.device_token_id w.db;
      pushes = refl;
      notifications = notifications-insert ledger target.device_token_id w.db;
      tokens = tokens-insert ledger target.device_token_id w.db;
      expo = refl;
    };
  }

  RoundSpec-after :
      (target : DeliveryTarget) (w v u : World) (claimed : Bool)
      (round : DeviceSendOutcome × List Uuid)
      → ClaimSpec target w claimed v
      → RoundSpec target v round u
      → RoundSpec target w round u
  RoundSpec-after target w v u claimed round c r = record {
    device = r.device;
    kept = λ h. r.kept (c.kept h);
    gained = r.gained;
    pushes = omega (arith, r.pushes, ap length c.pushes);
    notifications = r.notifications ∙ c.notifications;
    tokens = r.tokens ∙ c.tokens;
    dead = rw (← c.expo) r.dead;
    refused = r.refused ∙ ap refusals c.expo;
    later = λ p h. rw (← c.expo) (r.later p h);
  }

  after_claim-RoundSpec :
      (target : DeliveryTarget) (v : World) (claimed : Bool)
      → has_row v.db ledger target.device_token_id ≡ true
      → Ends (RoundSpec target v) (send_claimed cfg policy job target claimed) v
  unfolding send_claimed
  after_claim-RoundSpec target v true h = send_claimed-RoundSpec target v h
  after_claim-RoundSpec target v false h = skip-RoundSpec target v

  pub deliver_to-RoundSpec :
      (target : DeliveryTarget) (w : World)
      → Ends (RoundSpec target w) (deliver_to cfg policy job target) w
  unfolding deliver_to
  deliver_to-RoundSpec target w =
      Ends-bind (ClaimSpec target w) (try_claim job target) _ w (try_claim-ClaimSpec target w)
        (λ claimed v c.
          Ends-weaken (RoundSpec target v) _ v (after_claim-RoundSpec target v claimed c.row)
            (λ round u r. RoundSpec-after target w v u claimed round c r))
