-- ===== src/Protocol/Pieces.antt =====
-- The parts of a delivery that may run in any phase.
use inride_worker_manager.Prelude.{ℤ, pos, negsuc, ℕ, String, Option, none, some, List, [], ◌∷◌}
use inride_worker_manager.Domain.{Uuid, PushStatus, DeliveryJob}
use inride_worker_manager.Db.{Notification}
use inride_worker_manager.Effect.{
  claim_pending, select_status, select_notification, claim_batch, select_notifications,
  select_devices, update_status,
}
use inride_worker_manager.Monitoring
use inride_worker_manager.Pipeline.Claimer.{
  claim_missed, claim_won, one, after_claim, claim_by_id, load_claimed, claim_pending_batch,
}
use inride_worker_manager.Pipeline.Finalizer.{finalize, deactivate_tokens}
use inride_worker_manager.Pipeline.RecipientResolver.{find_actor, resolve_in, resolve_for, resolve}
use inride_worker_manager.Protocol.{IsFree}
use inride_worker_manager.Protocol.Rules.{IsFree-bind, IsFree-step, free_rules}

pub claim-IsFree : (label : String) (n : ℕ) → IsFree (Monitoring.claim label n)
unfolding Monitoring.claim
claim-IsFree label n = record { at = λ p. (tt, λ r. tt) }

pub device_attempted-IsFree : (label : String) → IsFree (Monitoring.device_attempted label)
unfolding Monitoring.device_attempted
device_attempted-IsFree label = record { at = λ p. (tt, λ r. tt) }

pub notification_finalized-IsFree : (s : String) → IsFree (Monitoring.notification_finalized s)
unfolding Monitoring.notification_finalized
notification_finalized-IsFree s = record { at = λ p. (tt, λ r. tt) }

pub ruleset metric_rules = (claim-IsFree, device_attempted-IsFree, notification_finalized-IsFree)

pub one-IsFree : (o : Option Notification) → IsFree (one o)
unfolding one
one-IsFree none = search free_rules
one-IsFree (some row) = search free_rules

pub claim_missed-IsFree : (id : Uuid) → IsFree (claim_missed id)
unfolding claim_missed
claim_missed-IsFree id =
    IsFree-step (select_status id) _ (λ p. tt) (λ s. search (free_rules, metric_rules))

pub claim_won-IsFree : (id : Uuid) → IsFree (claim_won id)
unfolding claim_won
claim_won-IsFree id =
    IsFree-bind _ _ (claim-IsFree "won" 1)
      (λ s. IsFree-step (select_notification id) _ (λ p. tt) (λ o. search (free_rules, one-IsFree)))

pub after_claim-IsFree : (id : Uuid) (claimed : Option Uuid) → IsFree (after_claim id claimed)
unfolding after_claim
after_claim-IsFree id none = claim_missed-IsFree id
after_claim-IsFree id (some c) = claim_won-IsFree id

pub claim_by_id-IsFree : (id : Uuid) → IsFree (claim_by_id id)
unfolding claim_by_id
claim_by_id-IsFree id = IsFree-step (claim_pending id) _ (λ p. tt) (after_claim-IsFree id)

pub load_claimed-IsFree : (ids : List Uuid) → IsFree (load_claimed ids)
unfolding load_claimed
load_claimed-IsFree [] = search free_rules
load_claimed-IsFree (id ∷ ids) =
    IsFree-bind _ _ (claim-IsFree "won" _)
      (λ s. IsFree-step (select_notifications (id ∷ ids)) _ (λ p. tt) (λ o. search free_rules))

pub claim_pending_batch-IsFree : (limit : ℤ) → IsFree (claim_pending_batch limit)
unfolding claim_pending_batch
claim_pending_batch-IsFree (pos n) = IsFree-step (claim_batch n) _ (λ p. tt) load_claimed-IsFree
claim_pending_batch-IsFree (negsuc n) = search free_rules

pub find_actor-IsFree : (o : Option Uuid) → IsFree (find_actor o)
unfolding find_actor
find_actor-IsFree none = search free_rules
find_actor-IsFree (some id) = record { at = λ p. (tt, λ r. tt) }

pub resolve_for-IsFree : (tenant exclude : Option Uuid) → IsFree (resolve_for tenant exclude)
unfolding resolve_in
resolve_for-IsFree none exclude = search free_rules
resolve_for-IsFree (some t) exclude =
    IsFree-bind _ _ (find_actor-IsFree exclude)
      (λ a. IsFree-step (select_devices _) _ (λ p. tt) (λ rows. search free_rules))

pub resolve-IsFree : (job : DeliveryJob) → IsFree (resolve job)
unfolding resolve
resolve-IsFree job = resolve_for-IsFree job.tenant_id job.actor_user_id

pub finalize-IsFree :
    (job : DeliveryJob) (s : PushStatus) (e : Option String) → IsFree (finalize job s e)
unfolding finalize
finalize-IsFree job s e = IsFree-step (update_status _ _ _) _ (λ p. tt) (λ u. search metric_rules)

pub deactivate_tokens-IsFree : (ids : List Uuid) → IsFree (deactivate_tokens ids)
unfolding deactivate_tokens
deactivate_tokens-IsFree [] = search free_rules
deactivate_tokens-IsFree (id ∷ ids) = record { at = λ p. (tt, λ r. tt) }
