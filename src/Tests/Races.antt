-- ===== src/Tests/Races.antt =====
-- Two jobs for one notification, interleaved operation by operation: the second thread works on a
-- notification that was reclaimed while the first was at work.
use inride_worker_manager.Ingress.Progress.{Finished}
use inride_worker_manager.Effect.{ok}
use inride_worker_manager.Protocol.Recovery.{poller_recovers}
use inride_worker_manager.Ingress.PendingPoller.{poll}
use inride_worker_manager.Ingress.Draining.{Waits, waiting}
use inride_worker_manager.Effect.World.{World, exec}
use inride_worker_manager.Protocol.Ledger.{Steps, ledger_rows, ledger_stays_ok, no_step, sent_stays}
use inride_worker_manager.Db.Deliveries.Moves.{LedgerOk, sent_at}
use inride_worker_manager.Db.Deliveries.{has_row}
use inride_worker_manager.Protocol.Safety.{at_most_one_push, one_holder, pushed-has_row}
use inride_worker_manager.Protocol.{holds}
use inride_worker_manager.Text.{lower}
use inride_worker_manager.Protocol.Schedule.{run-Steps, run-Reach, run}
use inride_worker_manager.Protocol.Keys.{pushed}
use inride_worker_manager.Domain.{Uuid, immediate_single, DeliveryJob, immediate_policy}
use inride_worker_manager.Pipeline.Claimer.{row_to_job}
use inride_worker_manager.Prelude.{
  ◌*◌, any, arith, true, ◌≤◌, none, some, List, [], count, refl, ℕ, ◌∷◌, ◌≡◌,
}
use inride_worker_manager.Protocol.System.{
  begins, Reach, System, begin, fresh, initial, job_ran, later, start,
}
use inride_worker_manager.Tests.Samples.{cfg, codec, row, small_world, worker}

abbrev pub job : DeliveryJob
job = record {
  job_kind = immediate_single;
  notification_id = 100;
  tenant_id = some 7;
  actor_user_id = some 1;
  notification_type = "sms";
  preview_text = some " hello ";
  preview_title = none;
  sender = some "Ann";
  to = none;
  thread_id = none;
  email_log_id = none;
  sms_log_id = some 9;
  expires_at = none;
  aggregate_id = none;
  source_notification_ids = 100 ∷ [];
}

row_is_job : row_to_job row ≡ job
unfolding row_to_job lower
row_is_job = refl

abbrev two_jobs : System
two_jobs =
    begin (begin (initial small_world) 0 (start cfg immediate_policy codec (job_ran job))) 1
      (start cfg immediate_policy codec (job_ran job))

two_jobs-Reach : Reach cfg immediate_policy codec two_jobs
two_jobs-Reach =
    later (later (fresh small_world refl) (begins _ 0 (job_ran job))) (begins _ 1 (job_ran job))

-- the threads take turns
abbrev turns : List ℕ
turns =
    0 ∷ 1 ∷ 0 ∷ 1 ∷ 0 ∷ 1 ∷ 0 ∷ 1 ∷ 0 ∷ 1 ∷ 0 ∷ 1 ∷ 0 ∷ 1 ∷ 0 ∷ 1 ∷ 0 ∷ 1 ∷ 0 ∷ 1 ∷ 0 ∷ 1 ∷ 0 ∷ 1
    ∷ []

race : pushed (run turns two_jobs).world 100 30 ≡ 1
unfolding worker run pushed count
race = refl

at_most_one_push_example : pushed (run turns two_jobs).world 100 30 ≤ 1
at_most_one_push_example = at_most_one_push (run-Reach turns two_jobs two_jobs-Reach) 100 30

pushed-has_row_example : has_row (run turns two_jobs).world.db 100 30 ≡ true
pushed-has_row_example =
    pushed-has_row (run-Reach turns two_jobs two_jobs-Reach) 100 30 (omega (arith, race))

abbrev before_push : System
before_push = run (0 ∷ 0 ∷ 0 ∷ []) two_jobs

thread_holds : holds (before_push.phase 0) 100 30 ≡ true
unfolding worker run
thread_holds = refl

one_holder_example :
    ◌≡◌ {A = ℕ} 0 0
    × (has_row before_push.world.db 100 30 ≡ true)
    × (pushed before_push.world 100 30 ≡ 0)
one_holder_example =
    one_holder (run-Reach (0 ∷ 0 ∷ 0 ∷ []) two_jobs two_jobs-Reach) 0 0 100 30 thread_holds
      thread_holds

-- from the start of the two jobs to the end of their turns
all_turns : Steps cfg immediate_policy codec two_jobs (run turns two_jobs)
all_turns = run-Steps turns two_jobs two_jobs no_step

empty_ledger-LedgerOk : LedgerOk []
unfolding any count
empty_ledger-LedgerOk = record { unique = λ l d. omega arith; known = refl }

ledger_stays_ok_example : LedgerOk (ledger_rows (run turns two_jobs))
ledger_stays_ok_example = ledger_stays_ok all_turns empty_ledger-LedgerOk

abbrev after_push : System
after_push = run (0 ∷ 0 ∷ 0 ∷ 0 ∷ 0 ∷ 0 ∷ 0 ∷ []) two_jobs

row_sent : any (sent_at 100 30) (ledger_rows after_push) ≡ true
unfolding worker run any
row_sent = refl

later_turns : Steps cfg immediate_policy codec after_push (run turns after_push)
later_turns = run-Steps turns after_push after_push no_step

sent_stays_example : any (sent_at 100 30) (ledger_rows (run turns after_push)) ≡ true
sent_stays_example = sent_stays 100 30 later_turns row_sent

-- both threads are lost after the push, and the notification is still pending
still_calm : after_push.world.answers ≡ []
unfolding worker run
still_calm = refl

room_left : waiting cfg immediate_policy (λ j. refl) after_push.world ≤ 1 * 50
unfolding worker run
room_left = omega arith

poller_recovers_example :
    (v : World) × (exec (poll cfg immediate_policy 1) after_push.world ≡ (ok tt, v))
    × ((id : Uuid) → Finished id after_push.world.db → Finished id v.db)
    × ((id : Uuid) → Waits cfg immediate_policy (λ j. refl) after_push.world id → Finished id v.db)
    × ((ledger device : Uuid)
        → any (sent_at ledger device) after_push.world.db.deliveries ≡ true
        → any (sent_at ledger device) v.db.deliveries ≡ true)
    × ((ledger device : Uuid) → pushed v ledger device ≤ 1)
poller_recovers_example =
    poller_recovers cfg immediate_policy codec (λ j. refl) 50 1 after_push refl refl
      (run-Reach (0 ∷ 0 ∷ 0 ∷ 0 ∷ 0 ∷ 0 ∷ 0 ∷ []) two_jobs two_jobs-Reach) still_calm room_left
