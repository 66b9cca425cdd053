-- ===== src/Tests/Messages.antt =====
-- The theorems on the messages, the poll and the reclaim at the small database.
use inride_worker_manager.Core.{Config}
use inride_worker_manager.Ingress.Finishing.{poll_finishes}
use inride_worker_manager.Ingress.Draining.{Waits, waiting}
use inride_worker_manager.Ingress.Progress.{Finished}
use inride_worker_manager.Effect.Settles.Runs.{settlements}
use inride_worker_manager.Ingress.Answers.{answer_to, last_settlement, message_answered}
use inride_worker_manager.Ingress.Polling.{poll_never_raises}
use inride_worker_manager.Ingress.PubsubSubscriber.{absent, number, on_message, parse_id, raw_text}
use inride_worker_manager.Ingress.Settling.{settled_at_most_once}
use inride_worker_manager.Ingress.Recovery.{Recovered, reclaim_recovers}
use inride_worker_manager.Pipeline.Runner.Handling.{handle_never_raises}
use inride_worker_manager.Pipeline.Runner.{handle_notification_id}
use inride_worker_manager.Effect.{ok, other}
use inride_worker_manager.Effect.World.{World, exec, fails_before, fine}
use inride_worker_manager.Ingress.PendingPoller.{poll}
use inride_worker_manager.Ingress.Reclaim.{reclaim_stale}
use inride_worker_manager.Domain.{HandleResult, Uuid, immediate_policy}
use inride_worker_manager.Prelude.{
  pos, ◌*◌, arith, [], count, refl, some, suc, true, ℕ, ◌∷◌, ◌≡◌, ◌≤◌,
}
use inride_worker_manager.Tests.Samples.{cfg, codec, incoming, small_db, small_world, row}

-- The database is lost after the claim.
abbrev failing_world : World
failing_world = record small_world { answers = fine ∷ fails_before (other "lost") ∷ [] }

handle_never_raises_example :
    (result : HandleResult) × (v : World) × (exec
        (handle_notification_id cfg immediate_policy 100)
        failing_world
      ≡ (ok result, v))
handle_never_raises_example = handle_never_raises cfg immediate_policy 100 failing_world

settled_at_most_once_example :
    settlements
      (exec
        (on_message cfg immediate_policy codec true (incoming (1 ∷ []) (number (pos 2))))
        failing_world).1
    ≤ suc (settlements failing_world)
settled_at_most_once_example =
    settled_at_most_once cfg immediate_policy codec true (incoming (1 ∷ []) (number (pos 2)))
      failing_world

raw_here : raw_text codec (1 ∷ []) ≡ some "{}"
unfolding raw_text
raw_here = refl

message_answered_example :
    (v : World) × (exec
        (on_message cfg immediate_policy codec true (incoming (1 ∷ []) absent))
        small_world
      ≡ (ok tt, v))
    × (last_settlement v
        ≡ some (
            answer_to cfg immediate_policy codec
              (incoming (1 ∷ []) absent)
              (parse_id codec "{}")
              small_db))
    × (settlements v ≡ suc (settlements small_world))
message_answered_example =
    message_answered cfg immediate_policy codec (incoming (1 ∷ []) absent) "{}" small_world refl
      raw_here

-- The notification is stuck: a thread that claimed it was lost.
abbrev stuck_world : World
stuck_world = record small_world {
  db = record small_db { notifications = record row { push_status = "processing" } ∷ [] };
}

reclaim_recovers_example :
    (n : ℕ) × (v : World) × (exec (reclaim_stale (pos 900)) stuck_world ≡ (ok n, v))
    × Recovered (pos 900) stuck_world n v
reclaim_recovers_example = reclaim_recovers (pos 900) stuck_world refl

poll_never_raises_example : (exec (poll cfg immediate_policy 2) failing_world).0 ≡ ok tt
poll_never_raises_example = poll_never_raises cfg immediate_policy 2 failing_world

-- A stuck notification beside the pending one.
abbrev waiting_world : World
waiting_world = record small_world {
  db = record small_db {
    notifications = row ∷ record row { id = 101; push_status = "processing" } ∷ [];
  };
}

-- a worker that takes one notification at a time
abbrev slow_cfg : Config
slow_cfg = record cfg { batch_size = pos 1 }

enough_rounds : waiting slow_cfg immediate_policy (λ job. refl) waiting_world ≤ 2 * 1
unfolding count
enough_rounds = omega arith

poll_finishes_example :
    (v : World) × (exec (poll slow_cfg immediate_policy 2) waiting_world ≡ (ok tt, v))
    × ((id : Uuid) → Finished id waiting_world.db → Finished id v.db)
    × ((id : Uuid)
        → Waits slow_cfg immediate_policy (λ job. refl) waiting_world id
        → Finished id v.db)
poll_finishes_example =
    poll_finishes slow_cfg immediate_policy (λ job. refl) 1 refl refl 2 waiting_world refl
      enough_rounds
