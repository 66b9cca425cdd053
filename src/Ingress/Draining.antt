-- ===== src/Ingress/Draining.antt =====
-- What one tick of app/ingress/pending_poller.py does for the notifications that wait, whatever
-- the batch size, while the database does not fail.
use mathlib.Core.Path.{subst}
use inride_worker_manager.Effect.World.{World}
use inride_worker_manager.Pipeline.Claimer.Progress.{claim_batch-progress}
use inride_worker_manager.Core.{Config}
use inride_worker_manager.Pipeline.Claimer.{claim_pending_batch}
use inride_worker_manager.Effect.Calm.{Ends, Ends-bind, Ends-weaken}
use inride_worker_manager.Ingress.PendingPoller.{run_jobs, tick}
use inride_worker_manager.Ingress.Reclaim.{reclaim_stale}
use inride_worker_manager.Domain.{DeliveryJob, DeliveryPolicy, Uuid}
use inride_worker_manager.Db.{Db, Notification}
use inride_worker_manager.Ingress.Recovery.{stuck_with_id, Recovered, reclaim_stale-Ends, is_stuck}
use inride_worker_manager.Pipeline.Claimer.Draining.{given-returned}
use inride_worker_manager.Prelude.{
  pos, negsuc, is_negative, ℤ, All, [], ◌+◌, ◌∷◌, count, ◌-◌, ◌≤◌, ==_iff, Bool-cases, List, String,
  any, any-update_back, any-update_none, any-update_other, any-weaken, ap, arith, eq_iff, false,
  inl, inr, none, refl, str_eq, sym, true, ℕ, ◌||◌, ◌∙◌, ◌≡◌, ◌⊎◌,
}
use inride_worker_manager.Pipeline.Claimer.Batches.{
  is_job_of, Taken, claim_pending_batch-Taken, chosen, oldest-claimable,
}
use inride_worker_manager.Db.Notifications.{
  is_pending, claimable, is_stale, member, oldest_pending, with_status,
}
use inride_worker_manager.Db.Notifications
use inride_worker_manager.Ingress.Progress.{JobsRan, run_jobs-Ends, Finished, Waiting, unfinished}

pub pending_not_done :
    (s : String) → str_eq s "pending" ≡ true → (str_eq s "sent" || str_eq s "failed") ≡ false
pending_not_done s h = rw ((eq_iff s "pending").0 h) refl

-- a pending row is not finished
pub pending-unfinished :
    (id : Uuid) (n : Notification) → claimable id n ≡ true → unfinished id n ≡ true
pending-unfinished id n h = ground (arith, pending_not_done n.push_status)

claimable-unfinished :
    (id : Uuid) (ns : List Notification)
    → any (claimable id) ns ≡ true
    → any (unfinished id) ns ≡ true
claimable-unfinished id ns = any-weaken (claimable id) (unfinished id) ns (pending-unfinished id)

processing_not_done :
    (s : String) → str_eq s "processing" ≡ true → (str_eq s "sent" || str_eq s "failed") ≡ false
processing_not_done s h = rw ((eq_iff s "processing").0 h) refl

pub reclaimed-Finished :
    (seconds : ℤ) (db : Db) (id : Uuid)
    → Finished id db
    → Finished id (Notifications.reclaim_rows seconds db).1
unfolding Notifications.reclaim_rows
reclaimed-Finished seconds db id h =
    any-update_back (unfinished id) (is_stale db.now seconds) (with_status "pending" none db.now)
      db.notifications (λ n p q. ground (arith, processing_not_done n.push_status)) h

module _ (limit : ℕ) (db : Db) where
  pub claimed-Finished :
      (id : Uuid) → Finished id db → Finished id (Notifications.claim_batch limit db).1
  unfolding Notifications.claim_batch
  claimed-Finished id h =
      any-update_back (unfinished id) (chosen (oldest_pending limit db))
        (with_status "processing" none db.now) db.notifications
        (λ n p q. cc (
          claimable-unfinished id db.notifications (
              oldest-claimable limit db id (
                sym (ap (member (oldest_pending limit db)) ((==_iff n.id id).0 (ground arith)))
                ∙ p)),
          h,
        ))
        h

  -- a waiting notification is taken, or waits on
  claimed-or_left :
      (id : Uuid)
      → Waiting id db
      → (member (Notifications.claim_batch limit db).0 id ≡ true)
        ⊎ Waiting id (Notifications.claim_batch limit db).1
  unfolding Notifications.claim_batch
  claimed-or_left id h = elim (Bool-cases (member (oldest_pending limit db) id)) [
    | inl e ↦ inl (given-returned limit db id e h)
    | inr e ↦ inr (
        any-update_other (claimable id) (chosen (oldest_pending limit db))
          (with_status "processing" none db.now) db.notifications
          (λ n k. ap (member (oldest_pending limit db)) ((==_iff n.id id).0 (ground arith)) ∙ e) h)
  ]

  -- what was just claimed is not stuck
  claimed-unstuck :
      (seconds : ℤ)
      → is_negative seconds ≡ false
      → any (is_stuck seconds db) db.notifications ≡ false
      → any (is_stuck seconds db) (Notifications.claim_batch limit db).1.notifications ≡ false
  unfolding Notifications.claim_batch
  claimed-unstuck (negsuc n) k h = cc k
  claimed-unstuck (pos n) k h =
      let seconds : ℤ = pos n in
      any-update_none (is_stuck seconds db) (chosen (oldest_pending limit db))
        (with_status "processing" none db.now) db.notifications (λ n. ground arith) h

module _ (cfg : Config) (policy : DeliveryPolicy)
    (all : (job : DeliveryJob) → policy.should_deliver job ≡ true) where
  All-of_job :
      (id : Uuid) (db : Db) (jobs : List DeliveryJob)
      → any (is_job_of id) jobs ≡ true
      → All (λ job. Finished job.notification_id db) jobs
      → Finished id db
  unfolding any
  All-of_job id db [] h a = cc h
  All-of_job id db (job ∷ jobs) h a = elim (Bool-cases (is_job_of id job)) [
    | inl e ↦ subst (λ i. Finished i db) ((==_iff job.notification_id id).0 e) a.0
    | inr e ↦ All-of_job id db jobs (rw e at h) a.1
  ]

  -- the notification waits: it can be claimed, or it is stuck
  abbrev pub Waits : World → Uuid → Type 0
  Waits w id =
      (any (claimable id) w.db.notifications ≡ true)
      ⊎ (any (stuck_with_id cfg.reclaim_after_seconds w.db id) w.db.notifications ≡ true)

  abbrev pub waiting : World → ℕ
  waiting w =
      count is_pending w.db.notifications
      + count (is_stuck cfg.reclaim_after_seconds w.db) w.db.notifications

  claimable_after :
      (w u : World) (n : ℕ) (id : Uuid)
      → Recovered cfg.reclaim_after_seconds w n u
      → Waits w id
      → any (claimable id) u.db.notifications ≡ true
  claimable_after w u n id r (inl h) = r.pending_kept id h
  claimable_after w u n id r (inr h) = r.pending_again id h

-- The batch size is `batch`, and the age at which a notification counts as stuck is not negative.
module _ (cfg : Config) (policy : DeliveryPolicy)
    (all : (job : DeliveryJob) → policy.should_deliver job ≡ true) (batch : ℕ)
    (sized : cfg.batch_size ≡ pos batch)
    (ages : is_negative cfg.reclaim_after_seconds ≡ false) where
  -- what one tick does for those that wait, whatever the batch size
  pub record Ticked (w v : World) : Type 0 where
    pub finished : (id : Uuid) → Finished id w.db → Finished id v.db
    pub advanced : (id : Uuid) → Waits cfg policy all w id → Finished id v.db ⊎ Waiting id v.db
    pub fewer : count is_pending v.db.notifications ≤ waiting cfg policy all w - batch
    pub unstuck : any (is_stuck cfg.reclaim_after_seconds w.db) v.db.notifications ≡ false

  -- what a reclaim leaves, and then a claim
  record Reclaimed (w u : World) : Type 0 where
    finished : (id : Uuid) → Finished id w.db → Finished id u.db
    waits : (id : Uuid) → Waits cfg policy all w id → Waiting id u.db
    pending : count is_pending u.db.notifications ≡ waiting cfg policy all w
    unstuck : any (is_stuck cfg.reclaim_after_seconds u.db) u.db.notifications ≡ false
    clock : u.db.now ≡ w.db.now

  Recovered-Reclaimed :
      (w u : World) (n : ℕ) → Recovered cfg.reclaim_after_seconds w n u → Reclaimed w u
  unfolding Notifications.reclaim_rows
  Recovered-Reclaimed w u n r =
      let clock : u.db.now ≡ w.db.now = ap (λ (d : Db). d.now) r.tables in
      record {
        finished = λ id h. rw r.tables (reclaimed-Finished cfg.reclaim_after_seconds w.db id h);
        waits = λ id h. claimable_after cfg policy all w u n id r h;
        pending = omega (arith, r.pending_grows, r.counted);
        unstuck = rw clock r.none_stuck;
        clock = clock;
      }

  Taken-Ticked :
      (w u z v : World) (jobs : List DeliveryJob) (x : Unit {0})
      → Reclaimed w u
      → Taken batch u jobs z
      → JobsRan cfg policy all jobs z x v
      → Ticked w v
  Taken-Ticked w u z v jobs x r t f = record {
    finished =
        λ id h. f.1.finished id (rw t.tables (claimed-Finished batch u.db id (r.finished id h)));
    advanced = λ id h. elim (claimed-or_left batch u.db id (r.waits id h)) [
      | inl taken ↦ inl (All-of_job cfg policy all id v.db jobs (t.all_loaded id taken) f.0)
      | inr left ↦ f.1.waiting id (rw t.tables left)
    ];
    fewer =
        let claimed : count is_pending z.db.notifications
            ≤ count is_pending u.db.notifications - batch =
          rw t.tables (claim_batch-progress batch u.db) in
        omega (arith, claimed, r.pending, f.1.pending);
    unstuck = f.1.unstuck cfg.reclaim_after_seconds w.db (
        rw (t.tables, sym r.clock)
          (claimed-unstuck batch u.db cfg.reclaim_after_seconds ages r.unstuck));
  }

  pub tick-Ticked : (w : World) → Ends (λ x v. Ticked w v) (tick cfg policy) w
  unfolding tick
  tick-Ticked w =
      Ends-bind (Recovered cfg.reclaim_after_seconds w) (reclaim_stale cfg.reclaim_after_seconds) _
        w (reclaim_stale-Ends cfg.reclaim_after_seconds w)
        λ n u r.
          Ends-bind (Taken batch u) (claim_pending_batch cfg.batch_size) (run_jobs cfg policy) u
            (rw sized (claim_pending_batch-Taken batch u))
            λ jobs z t.
              Ends-weaken (JobsRan cfg policy all jobs z) (run_jobs cfg policy jobs) z
                (run_jobs-Ends cfg policy all jobs z)
                λ x v f. Taken-Ticked w u z v jobs x (Recovered-Reclaimed w u n r) t f
