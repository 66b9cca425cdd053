-- ===== src/Protocol/Recovery.antt =====
-- What the poller of app/ingress/pending_poller.py makes of any history: threads that ran in any
-- order, lost replies, crashes at any point.

use inride_worker_manager.Ingress.Progress.{Finished}
use inride_worker_manager.Ingress.PendingPoller.{poll}
use inride_worker_manager.Protocol.Keys.{pushed}
use inride_worker_manager.Ingress.Draining.{Waits, waiting}
use inride_worker_manager.Db.Deliveries.Moves.{sent_at}
use inride_worker_manager.Ingress.Finishing.{poll_finishes}
use inride_worker_manager.Protocol.Safety.{at_most_one_push}
use inride_worker_manager.Core.{Config}
use inride_worker_manager.Domain.{DeliveryJob, Uuid, DeliveryPolicy}
use inride_worker_manager.Effect.{ok, Prog, call, done}
use inride_worker_manager.Protocol.System.{
  Reach, System, act, advance, begins, begin, later, poller_ran,
}
use inride_worker_manager.Prelude.{
  false, pos, is_negative, [], any, ap, true, ◌*◌, ◌∙◌, ◌≤◌, ==_iff, arith, refl, ℕ, ◌≡◌,
}
use inride_worker_manager.Effect.World.{World, exec, respond}
use inride_worker_manager.Ingress.PubsubSubscriber.{Codec}
use mathlib.Core.Path.{subst}
use inride_worker_manager.Protocol.Ledger.{Steps, no_step, one_more, sent_stays}

module _ (cfg : Config) (policy : DeliveryPolicy) (codec : Codec) where
  -- a state that thread `i` alone leads to
  record Alone (s t : System) (v : World) : Type 0 where
    reached : Reach cfg policy codec t
    steps : Steps cfg policy codec s t
    ends : t.world ≡ v

  -- A program that runs alone in a thread makes steps of the system.
  alone :
      (r s : System) (i : ℕ) (m : Prog (Unit {0}))
      → Reach cfg policy codec s
      → Steps cfg policy codec r s
      → s.prog i ≡ m
      → (t : System) × Alone r t (exec m s.world).1
  unfolding exec
  alone r s i (done x) h k e = (s, record { reached = h; steps = k; ends = refl })
  alone r s i (call o k) h g e =
      let st = act s i o k e in
      let (x, w) = respond o s.world in
      alone r (advance s i o k) i (k x) (later h st) (one_more g st) (ground (arith, ==_iff i i))

  -- After any history, and whatever the threads were doing when they were lost: once the database
  -- does not fail any more, and under a policy that delivers every job, with an age that is not
  -- negative at which a notification counts as stuck, any number of rounds of the poller alone
  -- that have room for the pending and stuck notifications return; they leave each of those
  -- notifications sent or failed, and every one that was so; every row of the ledger that was
  -- `sent` is; and over the whole history, these rounds included, Expo has confirmed at most one
  -- push for each ledger id and device.
  pub poller_recovers :
      (all : (job : DeliveryJob) → policy.should_deliver job ≡ true) (batch rounds : ℕ) (s : System)
      → cfg.batch_size ≡ pos batch
      → is_negative cfg.reclaim_after_seconds ≡ false
      → Reach cfg policy codec s
      → s.world.answers ≡ []
      → waiting cfg policy all s.world ≤ rounds * batch
      → (v : World) × (exec (poll cfg policy rounds) s.world ≡ (ok tt, v))
        × ((id : Uuid) → Finished id s.world.db → Finished id v.db)
        × ((id : Uuid) → Waits cfg policy all s.world id → Finished id v.db)
        × ((ledger device : Uuid)
            → any (sent_at ledger device) s.world.db.deliveries ≡ true
            → any (sent_at ledger device) v.db.deliveries ≡ true)
        × ((ledger device : Uuid) → pushed v ledger device ≤ 1)
  poller_recovers all batch rounds s sized ages h calm room =
      let st = begins s 0 (poller_ran rounds) in
      let (t, a) =
        alone s (begin s 0 (poll cfg policy rounds)) 0 (poll cfg policy rounds) (later h st)
          (one_more no_step st) refl in
      let (v, ran, kept, all_done) =
        poll_finishes cfg policy all batch sized ages rounds s.world calm room in
      let same : t.world ≡ v = a.ends ∙ ap (λ x. x.1) ran in
      (
        v,
        ran,
        kept,
        all_done,
        λ l d e.
            subst (λ (w : World). any (sent_at l d) w.db.deliveries ≡ true) same
              (sent_stays l d a.steps e),
        λ l d. subst (λ (w : World). pushed w l d ≤ 1) same (at_most_one_push a.reached l d),
      )
