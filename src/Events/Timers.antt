-- ===== src/Events/Timers.antt =====
-- events/timers.py: the timers of the events. A task is its number; the dictionary of tasks and the
-- set of the tasks that were cancelled are the state.
pub mod Laws
pub mod Tests
use py.Prelude.{
  ℕ, zero, suc, ◌+◌, ◌-◌, ◌*◌, Bytes, bytes_key, nat_key, Option, none, some, List, [], ◌∷◌, ◌++◌,
  Bool, true, false, not, ◌||◌, ◌==◌, ltb, leb, keep, if◌then◌else◌,
}
use py.Prelude.Int.{ℤ, pos, ◌+ℤ◌, ◌-ℤ◌, ltb_ℤ, leb_ℤ}
use py.Prelude.Dict.{Dict, get, get_default, put, delete, has}
use py.Events.Store.{EventState, cancelled, superseded, completed, EventRecord, state_eq, end}

-- The sleep of one round, in milliseconds, with `remaining` seconds to go.
unfoldable pub sleep_time : ℤ → ℕ
sleep_time remaining =
    if ltb_ℤ (pos 10) remaining then 1000 else if ltb_ℤ (pos 1) remaining then 100 else 20

-- What one round of `_wait_and_fire` meets: whether the shutdown is set when the round begins, the
-- clock it reads, and whether the shutdown or a cancellation comes while it sleeps.
pub record Tick : Type 0 where
  pub shutdown : Bool
  pub now : ℤ
  pub signalled : Bool
  pub task_cancelled : Bool

pub data Waited : Type 0 where
  due stopped abandoned still_waiting : Waited

-- The loop, with the ends that leave `_wait_and_fire`.
unfoldable pub wait : ℤ → List Tick → Waited
wait target [] = still_waiting
wait target (t ∷ ticks) =
    let rest = wait target ticks in
    if t.shutdown
    then stopped
    else if leb_ℤ (target -ℤ t.now) (pos 0)
    then due
    else if t.task_cancelled
    then abandoned
    else if t.signalled
    then stopped
    else rest

pub data Fired : Type 0 where
  fired skipped shut_down ended waiting : Fired

abbrev pub is_over : EventState → Bool
is_over s = state_eq s cancelled || state_eq s superseded || state_eq s completed

-- The state of the record is read when the wait is over.
unfoldable pub wait_and_fire : ℤ → List Tick → EventState → Fired
wait_and_fire target ticks state = elim (wait target ticks) [
  | due ↦ if is_over state then skipped else fired
  | stopped ↦ shut_down
  | abandoned ↦ ended
  | still_waiting ↦ waiting
]

pub record Timers : Type 0 where
  pub tasks : Dict Bytes (List ℕ)
  pub next_task : ℕ
  pub cancelled_tasks : List ℕ

-- `self._tasks.setdefault(mrid, []).append(task)` with a new task.
unfoldable pub track : Bytes → Timers → Timers
track mrid s = record {
  tasks = put mrid (get_default mrid s.tasks [] ++ s.next_task ∷ []) s.tasks;
  next_task = suc s.next_task;
  cancelled_tasks = s.cancelled_tasks;
}

-- A new task, and the second that it fires at.
unfoldable pub schedule_activation : EventRecord → Timers → Timers × ℤ
schedule_activation r s = (track r.mrid s, r.start)

unfoldable pub schedule_completion : EventRecord → Timers → Timers × ℤ
schedule_completion r s = (track r.mrid s, end r)

unfoldable pub schedule_delayed_callback : EventRecord → ℕ → ℤ → Timers → Timers × ℤ
schedule_delayed_callback r delay_seconds time s = (track r.mrid s, time +ℤ pos delay_seconds)

unfoldable pub has_pending : Bytes → Timers → Bool
has_pending mrid s = has mrid s.tasks

-- The task that runs is spared.
abbrev pub other_than : Option ℕ → ℕ → Bool
other_than none task = true
other_than (some current) task = not (task == current)

unfoldable pub cancel : Bytes → Option ℕ → Timers → Timers
cancel mrid current s = record s {
  tasks = delete mrid s.tasks;
  cancelled_tasks = s.cancelled_tasks ++ keep (other_than current) (get_default mrid s.tasks []);
}

unfoldable pub all_tasks : List (Bytes × List ℕ) → List ℕ
all_tasks [] = []
all_tasks ((mrid, tasks) ∷ rest) = tasks ++ all_tasks rest

unfoldable pub cancel_all : Timers → Timers
cancel_all s = record s { tasks = []; cancelled_tasks = s.cancelled_tasks ++ all_tasks s.tasks }
