-- ===== src/Pipeline/Runner/Loop.antt =====
-- The loop of `_execute_job` over the targets, while the database does not fail.
use inride_worker_manager.Pipeline.Runner.Refusals.{blames, blames-later, refusals}
use inride_worker_manager.Pipeline.Runner.Rounds.{RoundSpec, deliver_to-RoundSpec}
use inride_worker_manager.Pipeline.Runner.{add_round, deliver_all, deliver_to}
use inride_worker_manager.Db.Deliveries.Laws.{HasStatus}
use inride_worker_manager.Core.{Config}
use inride_worker_manager.Effect.Calm.{Ends-bind, Ends, exec_calm}
use inride_worker_manager.Prelude.{
  Bool, any-weaken, length-append, All, All-append, All-weaken, Bool-cases, [], any, count, inl,
  inr, map, ◌∷◌, ◌∙◌, List, arith, refl, length, true, ◌+◌, ◌≡◌,
}
use inride_worker_manager.Effect.World.{Answer, World}
use inride_worker_manager.Domain.{
  DeviceSendOutcome, is_sent, DeliveryJob, DeliveryPolicy, DeliveryTarget, Uuid,
  ledger_notification_id,
}

abbrev pub outcome_device : DeviceSendOutcome → Uuid
outcome_device o = o.device_token_id

abbrev pub target_device : DeliveryTarget → Uuid
target_device t = t.device_token_id

module _ (cfg : Config) (policy : DeliveryPolicy) (job : DeliveryJob) where
  -- What the whole loop does.
  pub record LoopSpec (targets : List DeliveryTarget) (w : World)
      (rounds : List DeviceSendOutcome × List Uuid) (v : World) : Type 0 where
    pub devices : map outcome_device rounds.0 ≡ map target_device targets
    pub kept :
        HasStatus w.db (ledger_notification_id job) "sent"
        → HasStatus v.db (ledger_notification_id job) "sent"
    pub gained : any is_sent rounds.0 ≡ true → HasStatus v.db (ledger_notification_id job) "sent"
    pub pushes : length v.pushes ≡ length w.pushes + count is_sent rounds.0
    pub notifications : v.db.notifications ≡ w.db.notifications
    pub tokens : v.db.device_tokens ≡ w.db.device_tokens
    -- the devices to deactivate
    pub dead : All (λ id. any (blames w.expo id) rounds.0 ≡ true) rounds.1
    pub refused : length rounds.1 + refusals v.expo ≡ refusals w.expo
    pub later : (p : Answer → Bool) → any p v.expo ≡ true → any p w.expo ≡ true

  LoopSpec-cons :
      (target : DeliveryTarget) (targets : List DeliveryTarget) (w v u : World)
      (round : DeviceSendOutcome × List Uuid) (rest : List DeviceSendOutcome × List Uuid)
      → RoundSpec cfg policy job target w round v
      → LoopSpec targets v rest u
      → LoopSpec (target ∷ targets) w (add_round cfg policy round rest) u
  unfolding any count
  LoopSpec-cons target targets w v u (o, dead) (os, deads) r s = record {
    devices = cc (r.device, s.devices);
    kept = λ h. s.kept (r.kept h);
    gained = λ h. elim (Bool-cases (is_sent o)) [
      | inl e ↦ s.kept (r.gained e)
      | inr e ↦ s.gained (rw e at h)
    ];
    pushes = omega (arith, s.pushes, r.pushes);
    notifications = s.notifications ∙ r.notifications;
    tokens = s.tokens ∙ r.tokens;
    dead =
        All-append (λ id. any (blames w.expo id) (o ∷ os) ≡ true) dead deads
          (All-weaken (λ id. blames w.expo id o ≡ true) _ dead (λ id h. rw h refl) r.dead)
          (All-weaken (λ id. any (blames v.expo id) os ≡ true) _ deads
            (λ id h. ground (
              arith,
              any-weaken (blames v.expo id) (blames w.expo id) os
                  (λ x. blames-later w.expo v.expo id x r.later) h,
            ))
            s.dead);
    refused = omega (arith, length-append dead deads, r.refused, s.refused);
    later = λ p h. r.later p (s.later p h);
  }

  pub deliver_all-LoopSpec :
      (targets : List DeliveryTarget) (w : World)
      → Ends (LoopSpec targets w) (deliver_all cfg policy job targets) w
  unfolding deliver_all any count exec_calm
  deliver_all-LoopSpec [] w = record {
    at = record {
      devices = refl;
      kept = λ h. h;
      gained = λ h. cc;
      pushes = omega arith;
      notifications = refl;
      tokens = refl;
      dead = tt;
      refused = omega arith;
      later = λ p h. h;
    };
  }
  deliver_all-LoopSpec (target ∷ targets) w =
      Ends-bind (RoundSpec cfg policy job target w) (deliver_to cfg policy job target) _ w
        (deliver_to-RoundSpec cfg policy job target w)
        (λ round v r.
          Ends-bind (LoopSpec targets v) (deliver_all cfg policy job targets) _ v
            (deliver_all-LoopSpec targets v)
            (λ rest u s. record { at = LoopSpec-cons target targets w v u round rest r s }))
