-- ===== src/Ingress/Progress.antt =====
-- What the jobs of a tick of app/ingress/pending_poller.py do to the notifications, while the
-- database does not fail.
use inride_worker_manager.Db.Notifications.Laws.{Finalized}
use inride_worker_manager.Pipeline.RecipientResolver.Reads.{resolved}
use inride_worker_manager.Pipeline.Runner.{execute_job, process_job}
use inride_worker_manager.Effect.Calm.{Ends, Ends-bind, Ends-catch, Ends-weaken, exec_calm}
use inride_worker_manager.Ingress.PendingPoller.{run_job, run_jobs}
use inride_worker_manager.Core.{Config}
use inride_worker_manager.Effect.World.{World}
use inride_worker_manager.Pipeline.Runner.Jobs.{ByTargets, JobSpec, execute_job-JobSpec}
use inride_worker_manager.Db.{Db, Notification}
use inride_worker_manager.Db.Notifications.{claimable, has_id, is_pending, with_status}
use inride_worker_manager.Domain.{
  DeliveryJob, DeliveryPolicy, DeliveryResult, DeliveryTarget, PushStatus, Uuid, failed, sent,
  value,
}
use inride_worker_manager.Prelude.{
  ℤ, All, [], ap, ◌∙◌, ◌∷◌, ==_iff, Bool, Bool-cases, List, Option, String, any, any-update_clear,
  any-update_none, any-update_other, arith, count, count-update_lose, false, inl, inr, not, refl,
  str_eq, sym, true, update_where, ℕ, ◌&&◌, ◌==◌, ◌||◌, ◌≡◌, ◌≤◌, ◌⊎◌,
}
use inride_worker_manager.Ingress.Recovery.{is_stuck}

abbrev pub is_done : Notification → Bool
is_done n = str_eq n.push_status "sent" || str_eq n.push_status "failed"

abbrev pub unfinished : Uuid → Notification → Bool
unfinished id n = has_id id n && not (is_done n)

-- every row of the id is sent or failed
abbrev pub Finished : Uuid → Db → Type 0
Finished id db = any (unfinished id) db.notifications ≡ false

abbrev pub Waiting : Uuid → Db → Type 0
Waiting id db = any (claimable id) db.notifications ≡ true

-- What does not get worse from one state to a later one.
pub record Progress (before after : Db) : Type 0 where
  pub finished : (id : Uuid) → Finished id before → Finished id after
  pub waiting : (id : Uuid) → Waiting id before → Finished id after ⊎ Waiting id after
  pub pending : count is_pending after.notifications ≤ count is_pending before.notifications
  pub unstuck :
      (seconds : ℤ) (db : Db)
      → any (is_stuck seconds db) before.notifications ≡ false
      → any (is_stuck seconds db) after.notifications ≡ false

Progress-refl : (db : Db) → Progress db db
Progress-refl db = record {
  finished = λ id h. h;
  waiting = λ id h. inr h;
  pending = omega arith;
  unstuck = λ seconds d h. h;
}

Progress-trans : (a b c : Db) → Progress a b → Progress b c → Progress a c
Progress-trans a b c p q = record {
  finished = λ id h. q.finished id (p.finished id h);
  waiting =
      λ id h. elim (p.waiting id h) [ inl f ↦ inl (q.finished id f) | inr k ↦ q.waiting id k ];
  pending = omega (arith, p.pending, q.pending);
  unstuck = λ seconds d h. q.unstuck seconds d (p.unstuck seconds d h);
}

abbrev IsFinal : PushStatus → Type 0
IsFinal s = (s ≡ sent) ⊎ (s ≡ failed)

final_value :
    (s : PushStatus)
    → IsFinal s
    → ((str_eq (value s) "sent" || str_eq (value s) "failed") ≡ true)
      × (str_eq (value s) "pending" ≡ false)
      × (str_eq (value s) "processing" ≡ false)
final_value s (inl e) = rw e (refl, refl, refl)
final_value s (inr e) = rw e (refl, refl, refl)

-- A final status stored for the notification `id`, at some time and with some error.
module _ (id : Uuid) (s : PushStatus) (final : IsFinal s) (e : Option String) (now : ℕ)
    (ns : List Notification) where
  abbrev stored : List Notification
  stored = update_where (has_id id) (with_status (value s) e now) ns

  finished-stored : any (unfinished id) stored ≡ false
  finished-stored =
      any-update_clear (unfinished id) (has_id id) (with_status (value s) e now) ns
        (λ n h. ground arith) (λ n. ground (arith, final_value s final))

  finished-kept : (i : Uuid) → any (unfinished i) ns ≡ false → any (unfinished i) stored ≡ false
  finished-kept i h =
      any-update_none (unfinished i) (has_id id) (with_status (value s) e now) ns
        (λ n. ground (arith, final_value s final)) h

  waiting-stored :
      (i : Uuid)
      → any (claimable i) ns ≡ true
      → (any (unfinished i) stored ≡ false) ⊎ (any (claimable i) stored ≡ true)
  waiting-stored i h = elim (Bool-cases (id == i)) [
    | inl x ↦ inl (rw (sym ((==_iff id i).0 x)) finished-stored)
    | inr x ↦ inr (
        any-update_other (claimable i) (has_id id) (with_status (value s) e now) ns
          (λ n k. ground (arith, ==_iff n.id id, ==_iff n.id i, ==_iff id i, x)) h)
  ]

  pending-stored : count is_pending stored ≤ count is_pending ns
  pending-stored = omega (
    arith,
    count-update_lose is_pending (has_id id) (with_status (value s) e now) ns
        (λ n. (final_value s final).1),
  )

  unstuck-stored :
      (seconds : ℤ) (db : Db)
      → any (is_stuck seconds db) ns ≡ false
      → any (is_stuck seconds db) stored ≡ false
  unstuck-stored seconds db h =
      any-update_none (is_stuck seconds db) (has_id id) (with_status (value s) e now) ns
        (λ n. ground (arith, final_value s final)) h

Finalized-Progress :
    (id : Uuid) (s : PushStatus) (before after : Db)
    → IsFinal s
    → Finalized id (value s) before after
    → Finished id after × Progress before after
Finalized-Progress id s before after f (e, now, rows) =
    let ns = before.notifications in
    (
      ap (any (unfinished id)) rows ∙ finished-stored id s f e now ns,
      record {
        finished = λ i h. ap (any (unfinished i)) rows ∙ finished-kept id s f e now ns i h;
        waiting = λ i h. rw rows (waiting-stored id s f e now ns i h);
        pending = rw rows (pending-stored id s f e now ns);
        unstuck = λ seconds db h. rw rows (unstuck-stored id s f e now ns seconds db h);
      },
    )

module _ (cfg : Config) (policy : DeliveryPolicy)
    (all : (job : DeliveryJob) → policy.should_deliver job ≡ true) where
  abbrev JobRan : DeliveryJob → World → World → Type 0
  JobRan job w v = Finished job.notification_id v.db × Progress w.db v.db

  JobSpec-JobRan :
      (job : DeliveryJob) (b : Bool) (w v : World) (result : DeliveryResult)
      → b ≡ true
      → JobSpec cfg policy job b w result v
      → JobRan job w v
  JobSpec-JobRan job true w v result e spec = by_targets (resolved job w.db) spec
    where
      by_targets :
          (targets : List DeliveryTarget)
          → ByTargets cfg policy job targets w result v
          → JobRan job w v
      by_targets [] spec =
          Finalized-Progress job.notification_id sent w.db v.db (inl refl) spec.finalized
      by_targets (t ∷ ts) spec =
          Finalized-Progress job.notification_id result.notification_status w.db v.db
            spec.failed_otherwise spec.finalized
  JobSpec-JobRan job false w v result e spec = cc e

  run_job-Ends :
      (job : DeliveryJob) (w : World) → Ends (λ u v. JobRan job w v) (run_job cfg policy job) w
  unfolding run_job process_job exec_calm
  run_job-Ends job w = Ends-catch _ _ w (
      Ends-bind (JobSpec cfg policy job (policy.should_deliver job) w) (execute_job cfg policy job)
        _ w (execute_job-JobSpec cfg policy job w)
        (λ result v spec. record {
          at = JobSpec-JobRan job (policy.should_deliver job) w v result (all job) spec;
        }))

  abbrev pub JobsRan : List DeliveryJob → World → Unit {0} → World → Type 0
  JobsRan jobs w u v = All (λ job. Finished job.notification_id v.db) jobs × Progress w.db v.db

  pub run_jobs-Ends :
      (jobs : List DeliveryJob) (w : World) → Ends (JobsRan jobs w) (run_jobs cfg policy jobs) w
  unfolding run_jobs exec_calm
  run_jobs-Ends [] w = record { at = (tt, Progress-refl w.db) }
  run_jobs-Ends (job ∷ jobs) w =
      Ends-bind (λ u v. JobRan job w v) (run_job cfg policy job) _ w (run_job-Ends job w)
        (λ x u f.
          Ends-weaken (JobsRan jobs u) (run_jobs cfg policy jobs) u (run_jobs-Ends jobs u) (λ y v r.
            ((r.1.finished job.notification_id f.0, r.0), Progress-trans w.db u.db v.db f.1 r.1)))
