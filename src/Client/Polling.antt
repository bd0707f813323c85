-- ===== src/Client/Polling.antt =====
-- client/polling.py: the schedule of periodic polls. A round of a key's loop is cut at the await of its
-- callback. Times of the monotonic clock are whole numbers of a unit. What is logged, and the throttle
-- of the message that a round is skipped, are left out. A caller of `run_exclusive` that waits enters
-- when the lock is free: the queue of such callers, behind which a round may come, is left out.
pub mod Spacing
pub mod Tests
use py.Prelude.{
  ℕ, ◌+◌, ◌-◌, ◌≤◌, max, String, string_key, Option, none, some, List, [], ◌∷◌, Bool, true, false,
  not, ◌&&◌, ◌==◌, leb, keep, if◌then◌else◌,
}
use py.Prelude.Dict
use py.Prelude.Dict.{Dict}
use py.Prelude.Sets

-- The locks are the keys whose lock is held; the tasks are the keys that have one.
pub record PollScheduler : Type 0 where
  pub heartbeat_enabled : Bool
  pub heartbeat_seconds : Option ℕ
  pub tasks : List String
  pub locked : List String
  pub suppressed : List String
  pub failed_keys : List String
  pub last_run : Dict String ℕ
  pub intervals : Dict String ℕ

-- With `heartbeat_seconds`, if given, positive: else the constructor raises ValueError.
abbrev pub new_scheduler : Bool → Option ℕ → PollScheduler
new_scheduler heartbeat_enabled heartbeat_seconds = record {
  heartbeat_enabled = heartbeat_enabled;
  heartbeat_seconds = heartbeat_seconds;
  tasks = [];
  locked = [];
  suppressed = [];
  failed_keys = [];
  last_run = [];
  intervals = [];
}

unfoldable pub schedule : String → ℕ → ℕ → PollScheduler → PollScheduler
schedule key interval now s = record s {
  tasks = Sets.add key s.tasks;
  last_run = Dict.put key now s.last_run;
  intervals = Dict.put key interval s.intervals;
}

unfoldable pub set_interval : String → ℕ → PollScheduler → PollScheduler
set_interval key interval s =
    if Dict.has key s.intervals
    then record s { intervals = Dict.put key interval s.intervals }
    else s

unfoldable pub suppress : String → PollScheduler → PollScheduler
suppress key s = record s { suppressed = Sets.add key s.suppressed }

unfoldable pub unsuppress : String → PollScheduler → PollScheduler
unsuppress key s = record s { suppressed = keep (λ k. not (k == key)) s.suppressed }

-- `_HEARTBEAT_CEILING_S`
abbrev pub heartbeat_ceiling : ℕ
heartbeat_ceiling = 900

abbrev pub threshold : Option ℕ → ℕ → ℕ
threshold none interval = max heartbeat_ceiling interval
threshold (some seconds) interval = max seconds interval

unfoldable pub heartbeat_due : String → ℕ → ℕ → PollScheduler → Bool
heartbeat_due key interval now s =
    s.heartbeat_enabled
    && leb (threshold s.heartbeat_seconds interval) (now - Dict.get_default key s.last_run 0)

-- What a round of `_poll_loop` comes to before its callback. A key has an interval from its schedule on.
pub data Round : Type 0 where
  held_back still_running : Round
  runs : Bool → Round

unfoldable pub begin_round : String → ℕ → PollScheduler → Round × PollScheduler
begin_round key now s =
    let is_suppressed = Sets.contains key s.suppressed in
    let heartbeat = is_suppressed && heartbeat_due key (Dict.get_default key s.intervals 0) now s in
    if is_suppressed && not heartbeat
    then (held_back, s)
    else if Sets.contains key s.locked
    then (still_running, s)
    else (
      runs heartbeat,
      record s { locked = key ∷ s.locked; last_run = Dict.put key now s.last_run },
    )

-- The callback has returned, or raised.
unfoldable pub end_round : String → Bool → PollScheduler → PollScheduler
end_round key ok s = record s {
  locked = keep (λ k. not (k == key)) s.locked;
  failed_keys = if ok then keep (λ k. not (k == key)) s.failed_keys else Sets.add key s.failed_keys;
}

-- `run_exclusive`, once it has the lock.
unfoldable pub begin_exclusive : String → ℕ → PollScheduler → PollScheduler
begin_exclusive key now s = record s {
  locked = key ∷ s.locked;
  last_run = Dict.put key now s.last_run;
}

unfoldable pub end_exclusive : String → PollScheduler → PollScheduler
end_exclusive key s = record s { locked = keep (λ k. not (k == key)) s.locked }

-- What happens to a scheduler, one at a time. A caller of `run_exclusive` gets the lock when it is free.
pub data Move : Type 0 where
  schedules : String → ℕ → Move
  tunes : String → ℕ → Move
  suppresses unsuppresses : String → Move
  begins : String → Move
  ends : String → Bool → Move
  enters leaves : String → Move

-- The start of a callback: whether as a heartbeat, and the interval that its key had.
pub record Start : Type 0 where
  pub key : String
  pub at : ℕ
  pub heartbeat : Bool
  pub interval : ℕ

abbrev pub start_of : String → ℕ → Bool → PollScheduler → Start
start_of key now heartbeat s = record {
  key = key;
  at = now;
  heartbeat = heartbeat;
  interval = Dict.get_default key s.intervals 0;
}

abbrev pub add_start : ℕ → String → PollScheduler → List Start → Round → List Start
add_start now key s log (runs heartbeat) = start_of key now heartbeat s ∷ log
add_start now key s log held_back = log
add_start now key s log still_running = log

-- The log has the starts of callbacks, the last first.
unfoldable pub move : ℕ → Move → PollScheduler × List Start → PollScheduler × List Start
move now (schedules key interval) (s, log) = (schedule key interval now s, log)
move now (tunes key interval) (s, log) = (set_interval key interval s, log)
move now (suppresses key) (s, log) = (suppress key s, log)
move now (unsuppresses key) (s, log) = (unsuppress key s, log)
move now (begins key) (s, log) =
    let begun = begin_round key now s in (begun.1, add_start now key s log begun.0)
move now (ends key ok) (s, log) = (end_round key ok s, log)
move now (enters key) (s, log) =
    if Sets.contains key s.locked
    then (s, log)
    else (begin_exclusive key now s, start_of key now false s ∷ log)
move now (leaves key) (s, log) = (end_exclusive key s, log)

-- The moves in their order, each with the time since the one before.
unfoldable pub run_moves :
    ℕ → List (ℕ × Move) → PollScheduler × List Start → PollScheduler × List Start
run_moves clock [] at = at
run_moves clock ((later, m) ∷ ms) at = run_moves (clock + later) ms (move (clock + later) m at)
