-- ===== src/Tests/Courses.antt =====
-- The theorems on the statuses at a course of two threads.
use inride_worker_manager.Ingress.Acks.{ack_settles, acks}
use inride_worker_manager.Ingress.Handled.{Settled}
use inride_worker_manager.Protocol.Course.{acts, entered, no_turn}
use inride_worker_manager.Ingress.Statuses.{FinalStatus}
use inride_worker_manager.Effect.World.{exec, World, respond}
use inride_worker_manager.Pipeline.Runner.{or_failed}
use inride_worker_manager.Protocol.Statuses.{claimed_by_one, finished_stays}
use inride_worker_manager.Ingress.Progress.{Finished}
use inride_worker_manager.Pipeline.Claimer.Exclusive.{takes}
use inride_worker_manager.Ingress.PubsubSubscriber.{
  Message, attempts_exhausted, delivery_attempt, on_message, parse_id, raw_text, absent,
}
use inride_worker_manager.Effect.{
  Op, claim_batch, reclaim_rows, Prog, Reply, Result, call, claim_pending,
}
use inride_worker_manager.Protocol.System.{
  advance, poller_ran, Reach, System, begin, begins, fresh, initial, later, message_came, start,
}
use inride_worker_manager.Prelude.{pos, arith, some, ◌<◌, any, false, [], refl, true, ◌∷◌, ◌≡◌}
use inride_worker_manager.Domain.{DeliveryJob, immediate_policy, value}
use inride_worker_manager.Protocol.Schedule.{run, run-Reach}
use inride_worker_manager.Tests.Samples.{cfg, codec, incoming, row, small_db, small_world, worker}

final :
    (job : DeliveryJob)
    → FinalStatus (value (or_failed cfg immediate_policy (immediate_policy.skip_status job)))
final job = refl

-- a message that names notification 100 has its deadline extended
abbrev called_back : System
called_back =
    begin (initial small_world) 0
      (start cfg immediate_policy codec (message_came true (incoming (1 ∷ []) absent)))

called_back-Reach : Reach cfg immediate_policy codec called_back
called_back-Reach =
    later (fresh small_world refl) (begins _ 0 (message_came true (incoming (1 ∷ []) absent)))

abbrev claiming : System
claiming = run (0 ∷ []) called_back

comes_to_claim :
    (k : Result (Reply (claim_pending 100)) → Prog (Unit {0})) × (claiming.prog 0
      ≡ call (claim_pending 100) k)
unfolding worker run
comes_to_claim = (_, refl)

-- the thread claims it, and a poller entered beside it
abbrev beside : System
beside =
    begin (advance claiming 0 (claim_pending 100) comes_to_claim.0) 1
      (start cfg immediate_policy codec (poller_ran 1))

first_takes : takes 100 (claim_pending 100) ((respond (claim_pending 100) claiming.world).0) ≡ true
unfolding worker run
first_takes = refl

claimed_by_one_example :
    takes 100 (claim_batch 10) ((respond (claim_batch 10) beside.world).0) ≡ false
claimed_by_one_example =
    claimed_by_one final 100 0 (claim_pending 100) comes_to_claim.0
      (run-Reach (0 ∷ []) called_back called_back-Reach) comes_to_claim.1 first_takes
      (entered 1 (poller_ran 1) no_turn) (claim_batch 10)

-- a notification that was sent, and a poller
abbrev sent_world : World
sent_world = record small_world {
  db = record small_db { notifications = record row { push_status = "sent" } ∷ [] };
}

abbrev polling : System
polling = begin (initial sent_world) 0 (start cfg immediate_policy codec (poller_ran 1))

comes_to_reclaim :
    (k : Result (Reply (reclaim_rows (pos 900))) → Prog (Unit {0})) × (polling.prog 0
      ≡ call (reclaim_rows (pos 900)) k)
unfolding worker
comes_to_reclaim = (_, refl)

sent_here : Finished 100 sent_world.db
unfolding any
sent_here = refl

abbrev reclaimed : System
reclaimed = advance polling 0 (reclaim_rows (pos 900)) comes_to_reclaim.0

finished_stays_example :
    Finished 100 reclaimed.world.db
    × ((o : Op) → takes 100 o ((respond o reclaimed.world).0) ≡ false)
finished_stays_example =
    finished_stays {codec = codec} final 100 (fresh sent_world refl)
      (acts 0 (reclaim_rows (pos 900)) comes_to_reclaim.0 (entered 0 (poller_ran 1) no_turn)
        comes_to_reclaim.1 tt)
      sent_here

abbrev message : Message
message = incoming (1 ∷ []) absent

raw_read : raw_text codec message.body ≡ some "{}"
unfolding raw_text
raw_read = refl

names_one : parse_id codec "{}" ≡ some 100
unfolding worker
names_one = refl

attempts_left : attempts_exhausted cfg (delivery_attempt message) ≡ false
unfolding worker
attempts_left = refl

acked_once :
    acks small_world
    < acks (exec (on_message cfg immediate_policy codec true message) small_world).1
unfolding worker
acked_once = omega arith

ack_settles_example :
    Settled 100 (exec (on_message cfg immediate_policy codec true message) small_world).1.db
ack_settles_example =
    ack_settles cfg immediate_policy final codec message "{}" 100 small_world attempts_left raw_read
      names_one acked_once
