-- ===== src/Tests/Tasks.antt =====
-- The loops, the semaphore, the subscriber and the counters at concrete inputs.
use inride_worker_manager.Effect.World.{World}
use inride_worker_manager.Ingress.Concurrency.Endings.{AllEnded, Goes, can_end, state_of}
use inride_worker_manager.Effect.{ok, other, raised}
use inride_worker_manager.Domain.{immediate_policy}
use inride_worker_manager.Ingress.PubsubSubscriber.{absent}
use inride_worker_manager.Ingress.Concurrency.Turns.{empty_loop, inside_bounded, is_inside}
use inride_worker_manager.Ingress.Concurrency.{
  Coroutine, LoopEvent, comes, job_work, message_work, turn,
}
use inride_worker_manager.Ingress.PollerTask.{unstarted}
use inride_worker_manager.Monitoring.Mirror.{Increment, MirrorAnswer, mirrors, new_metrics}
use inride_worker_manager.Monitoring.Counting.{amount, count_of}
use inride_worker_manager.Ingress.Payload.RoundTrip.{notification_id_of-uuid_text}
use inride_worker_manager.Monitoring.Mirror.Agreement.{
  exported_of, inc_all, incremented, mirror-agrees, mirror_invisible,
}
use inride_worker_manager.Tests.Samples.{cfg, codec, incoming, small_world}
use inride_worker_manager.Tests.Races.{job}
use inride_worker_manager.Ingress.Concurrency.{loop_events}
use inride_worker_manager.Text.{uuid_text}
use inride_worker_manager.Ingress.PollerTask.Loops.{
  PollerEvent, after_events, checks, running-after_events, running_loops, runs_after, starts, stops,
}
use inride_worker_manager.Ingress.Payload.{end, field, get_field, notification_id_of, obj, str}
use inride_worker_manager.Prelude.{
  sum_over, count, ◌+◌, arith, map, one_if, true, false, some, List, [], ◌∷◌, refl, ◌≡◌, ◌≤◌,
}

abbrev poller_events : List PollerEvent
poller_events = starts ∷ starts ∷ checks ∷ stops false ∷ checks ∷ starts ∷ []

running-after_events_example :
    running_loops (after_events poller_events unstarted) ≡ one_if (runs_after poller_events false)
running-after_events_example = running-after_events poller_events

abbrev mirrored_increments : List (MirrorAnswer × Increment)
mirrored_increments =
    (mirrors, record { name = "a"; labels = []; amount = 2 })
    ∷ (mirrors, record { name = "a"; labels = ("x", "y") ∷ []; amount = 1 })
    ∷ []

-- the library refuses to create the counter, and then to add to it
abbrev raising_increments : List (MirrorAnswer × Increment)
raising_increments =
    (
      record { create_counter = raised (other "no meter"); add = ok tt },
      record { name = "a"; labels = []; amount = 2 },
    )
    ∷ (
      record { create_counter = ok tt; add = raised (other "no exporter") },
      record { name = "a"; labels = []; amount = 3 },
    )
    ∷ []

mirror_invisible_example :
    ((inc_all raising_increments (new_metrics true true)).0 ≡ ok tt)
    × (count_of "a|" ((inc_all raising_increments (new_metrics true true)).1.local)
        ≡ sum_over (amount "a|") (map incremented raising_increments))
mirror_invisible_example = mirror_invisible true true raising_increments "a|"

mirror-agrees_example :
    exported_of "a|" ((inc_all mirrored_increments (new_metrics true true)).1)
    ≡ count_of "a|" ((inc_all mirrored_increments (new_metrics true true)).1.local)
mirror-agrees_example = mirror-agrees mirrored_increments "a|" (refl, (refl, tt))

notification_id_of-uuid_text_example :
    notification_id_of (obj (field "notification_id" (str (uuid_text 100)) end)) ≡ some 100
unfolding get_field
notification_id_of-uuid_text_example =
    notification_id_of-uuid_text 100 (field "notification_id" (str (uuid_text 100)) end)
      (omega arith) refl

-- Two jobs and a message come; each gets a turn, and then the first one gets two more.
abbrev some_turns : List LoopEvent
some_turns =
    comes (job_work job)
    ∷ comes (message_work (incoming (1 ∷ []) absent) 100)
    ∷ comes (job_work job)
    ∷ turn 0
    ∷ turn 1
    ∷ turn 2
    ∷ turn 0
    ∷ turn 0
    ∷ []

inside_bounded_example :
    let l = loop_events cfg immediate_policy codec some_turns (empty_loop 2 small_world) in
    (count is_inside l.coroutines ≤ 2) × (l.gate.permits + count is_inside l.coroutines ≡ 2)
inside_bounded_example = inside_bounded cfg immediate_policy codec 2 small_world some_turns

can_end_example :
    (v : World) × (cs : List Coroutine) × Goes
      (state_of (loop_events cfg immediate_policy codec some_turns (empty_loop 2 small_world)))
      ((2, v), cs)
    × AllEnded cs
can_end_example = can_end cfg immediate_policy codec 2 small_world some_turns (omega arith)
