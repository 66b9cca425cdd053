-- ===== src/Ingress/PollerTask.antt =====
-- app/ingress/pending_poller.py: the task of the loop, by `start`, `stop` and the loop's own test
-- of the flag. What a round does is `tick` of Ingress/PendingPoller, and it never raises out of
-- the loop.
pub mod Loops
use inride_worker_manager.Prelude.{
  Bool, true, false, Option, none, some, List, [], ◌∷◌, if◌then◌else◌,
}

pub data TaskState : Type 0 where
  running : TaskState
  ended : TaskState
  cancelled : TaskState

abbrev pub is_running : TaskState → Bool
is_running running = true
is_running _ = false

-- `_task`, `_stop`, and the tasks that `_task` held before
pub record PollerTask : Type 0 where
  pub task : Option TaskState
  pub stop_set : Bool
  pub earlier : List TaskState

abbrev pub unstarted : PollerTask
unstarted = record { task = none; stop_set = false; earlier = [] }

abbrev pub with_earlier : Option TaskState → List TaskState → List TaskState
with_earlier none ts = ts
with_earlier (some t) ts = t ∷ ts

abbrev pub create_task : PollerTask → PollerTask
create_task p = record {
  task = some running;
  stop_set = false;
  earlier = with_earlier p.task p.earlier;
}

abbrev pub is_live : Option TaskState → Bool
is_live none = false
is_live (some t) = is_running t

-- `if self._task and not self._task.done(): return`
unfoldable pub start_task : PollerTask → PollerTask
start_task p = if is_live p.task then p else create_task p

-- A running task that is waited for: it ends within ten seconds, or `wait_for` cancels it.
abbrev pub waited : (in_time : Bool) → TaskState → TaskState
waited true running = ended
waited false running = cancelled
waited in_time ended = ended
waited in_time cancelled = cancelled

abbrev pub waited_task : Bool → Option TaskState → Option TaskState
waited_task in_time none = none
waited_task in_time (some t) = some (waited in_time t)

unfoldable pub stop_task : (in_time : Bool) → PollerTask → PollerTask
stop_task in_time p = record p { task = waited_task in_time p.task; stop_set = true }

abbrev pub checked : Bool → TaskState → TaskState
checked true running = ended
checked stop_set t = t

abbrev pub checked_task : Bool → Option TaskState → Option TaskState
checked_task stop_set none = none
checked_task stop_set (some t) = some (checked stop_set t)

-- `while not self._stop.is_set()`
unfoldable pub check_stop : PollerTask → PollerTask
check_stop p = record p { task = checked_task p.stop_set p.task }
