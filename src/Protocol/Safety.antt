-- ===== src/Protocol/Safety.antt =====
-- The promise of app/pipeline/device_idempotency.py, for every interleaving of the worker's
-- threads.
use inride_worker_manager.Db.Deliveries.{has_row}
use inride_worker_manager.Protocol.Rules.{free_rules}
use inride_worker_manager.Core.{Config}
use inride_worker_manager.Ingress.PubsubSubscriber.{Codec}
use inride_worker_manager.Protocol.Entries.{on_message-IsFree, poll-IsFree, run_job-IsFree}
use inride_worker_manager.Protocol.Invariant.{
  Inv, advance-Inv, begin-Inv, initial-Inv, interfere-Inv,
}
use inride_worker_manager.Protocol.Keys.{pushed}
use inride_worker_manager.Protocol.{IsFree, Obeys, Anyhow, holds}
use inride_worker_manager.Prelude.{true, ℕ, ◌<◌, ◌≡◌, ◌≤◌}
use inride_worker_manager.Domain.{DeliveryPolicy, Uuid}
use inride_worker_manager.Protocol.System.{
  act, begins, others, Entry, Reach, Step, System, fresh, job_ran, later, message_came, poller_ran,
  start, stopped,
}
use mathlib.Core.Path.{subst}

start-IsFree :
    (cfg : Config) (policy : DeliveryPolicy) (codec : Codec) (e : Entry)
    → IsFree (start cfg policy codec e)
start-IsFree cfg policy codec (message_came started m) =
    on_message-IsFree cfg policy codec started m
start-IsFree cfg policy codec (poller_ran rounds) = poll-IsFree cfg policy rounds
start-IsFree cfg policy codec (job_ran job) = run_job-IsFree cfg policy job
start-IsFree cfg policy codec stopped = search free_rules

Step-Inv :
    {cfg : Config} {policy : DeliveryPolicy} {codec : Codec} {s t : System}
    → Step cfg policy codec s t
    → Inv s
    → Inv t
Step-Inv (act s i o k e) v =
    advance-Inv s i o k v (subst (λ m. Obeys Anyhow (s.phase i) m) e (v.obeys i))
Step-Inv {cfg} {policy} {codec} (begins s i e) v =
    begin-Inv s v i (start cfg policy codec e) (start-IsFree cfg policy codec e)
Step-Inv (others s db answers expo e) v = interfere-Inv s v db answers expo e

Reach-Inv :
    {cfg : Config} {policy : DeliveryPolicy} {codec : Codec} {s : System}
    → Reach cfg policy codec s
    → Inv s
Reach-Inv (fresh w e) = initial-Inv w e
Reach-Inv (later r st) = Step-Inv st (Reach-Inv r)

module _ {cfg : Config} {policy : DeliveryPolicy} {codec : Codec} {s : System}
    (r : Reach cfg policy codec s) where
  -- Whatever threads run, in whatever order, with crashes, lost replies and reclaims: Expo has
  -- confirmed at most one push for each ledger id and device.
  pub at_most_one_push : (ledger device : Uuid) → pushed s.world ledger device ≤ 1
  at_most_one_push = (Reach-Inv r).once

  -- In every reachable state, a pair for which Expo has confirmed a push has a row in the ledger.
  pub pushed-has_row :
      (ledger device : Uuid)
      → 0 < pushed s.world ledger device
      → has_row s.world.db ledger device ≡ true
  pushed-has_row = (Reach-Inv r).recorded

  -- In every reachable state, at most one thread holds a pair; while one does, the pair has a row
  -- in the ledger and Expo has confirmed no push for it.
  pub one_holder :
      (i j : ℕ) (ledger device : Uuid)
      → holds (s.phase i) ledger device ≡ true
      → holds (s.phase j) ledger device ≡ true
      → (i ≡ j) × (has_row s.world.db ledger device ≡ true) × (pushed s.world ledger device ≡ 0)
  one_holder i j l d h g = (
    (Reach-Inv r).alone i j l d h g,
    (Reach-Inv r).held_row i l d h,
    (Reach-Inv r).unpushed i l d h,
  )
