-- ===== src/Ingress/PollerTask/Loops.antt =====
-- How many loops of the poller run, over any sequence of starts, stops and rounds.
use inride_worker_manager.Ingress.PollerTask.{
  with_earlier, TaskState, waited_task, PollerTask, check_stop, is_live, is_running, start_task,
  stop_task, unstarted,
}
use inride_worker_manager.Prelude.{
  Bool-cases, inl, inr, sym, ◌∙◌, Option, arith, none, one_if, refl, some, count, ℕ, ◌+◌, Bool,
  true, false, List, [], ◌∷◌, ◌≡◌,
}

pub data PollerEvent : Type 0 where
  starts : PollerEvent
  stops : (in_time : Bool) → PollerEvent
  checks : PollerEvent

unfoldable pub after_event : PollerEvent → PollerTask → PollerTask
unfolding start_task stop_task check_stop
after_event starts p = start_task p
after_event (stops in_time) p = stop_task in_time p
after_event checks p = check_stop p

unfoldable pub after_events : List PollerEvent → PollerTask → PollerTask
unfolding after_event
after_events [] p = p
after_events (e ∷ es) p = after_events es (after_event e p)

-- The specification: the poller runs from a start to the next stop.
abbrev switched : PollerEvent → Bool → Bool
switched starts on = true
switched (stops in_time) on = false
switched checks on = on

unfoldable pub runs_after : List PollerEvent → Bool → Bool
runs_after [] on = on
runs_after (e ∷ es) on = runs_after es (switched e on)

abbrev pub running_loops : PollerTask → ℕ
running_loops p = one_if (is_live p.task) + count is_running p.earlier

-- the loop runs exactly if the specification says so, no loop was left behind, and a running loop
-- is not told to stop
pub record Switched (on : Bool) (p : PollerTask) : Type 0 where
  pub live : is_live p.task ≡ on
  pub left : count is_running p.earlier ≡ 0
  pub unstopped : on ≡ true → p.stop_set ≡ false

waited_dead : (in_time : Bool) (o : Option TaskState) → is_live (waited_task in_time o) ≡ false
waited_dead in_time none = refl
waited_dead in_time (some t) = ground arith

left_behind :
    (o : Option TaskState) (ts : List TaskState)
    → is_live o ≡ false
    → count is_running ts ≡ 0
    → count is_running (with_earlier o ts) ≡ 0
unfolding count
left_behind none ts e h = h
left_behind (some t) ts e h = rw e (omega (arith, h))

pub Switched-event :
    (e : PollerEvent) (on : Bool) (p : PollerTask)
    → Switched on p
    → Switched (switched e on) (after_event e p)
unfolding after_event start_task stop_task check_stop count
Switched-event starts on p h = elim (Bool-cases (is_live p.task)) [
  | inl e ↦ rw e (record { live = e; left = h.left; unstopped = λ _. h.unstopped (sym h.live ∙ e) })
  | inr e ↦
      rw e (record {
        live = refl;
        left = left_behind p.task p.earlier e h.left;
        unstopped = λ _. refl;
      })
]
Switched-event (stops in_time) on p h = record {
  live = waited_dead in_time p.task;
  left = h.left;
  unstopped = λ e. cc e;
}
Switched-event checks on p h = record {
  live = ground (arith, h.live, h.unstopped);
  left = h.left;
  unstopped = h.unstopped;
}

Switched-events :
    (es : List PollerEvent) (on : Bool) (p : PollerTask)
    → Switched on p
    → Switched (runs_after es on) (after_events es p)
unfolding after_events runs_after
Switched-events [] on p h = h
Switched-events (e ∷ es) on p h =
    Switched-events es (switched e on) (after_event e p) (Switched-event e on p h)

pub running_loops-Switched :
    (on : Bool) (p : PollerTask) → Switched on p → running_loops p ≡ one_if on
running_loops-Switched on p h = rw (h.live, h.left) (omega arith)

-- After any sequence of starts, stops and rounds, one loop runs if the last start has no stop
-- behind it, and none runs otherwise.
pub running-after_events :
    (es : List PollerEvent)
    → running_loops (after_events es unstarted) ≡ one_if (runs_after es false)
unfolding count
running-after_events es =
    running_loops-Switched (runs_after es false) (after_events es unstarted)
      (Switched-events es false unstarted fresh)
  where
    fresh : Switched false unstarted
    fresh = record { live = refl; left = refl; unstopped = λ e. cc }
