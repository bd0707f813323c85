-- ===== src/Events/Timers/Tests.antt =====
-- Runs of the timers on concrete inputs.
use py.Prelude.{◌≡◌, ◌↔◌, bytes_key, nat_key, List, [], ◌∷◌, false}
use py.Prelude.Int.{pos}
use py.Events.Store.{active}
use py.Events.Timers.{Tick, wait_and_fire, fired, is_over}
use py.Events.Timers.Laws.{DueAt, wait_and_fire-DueAt}

abbrev rounds : List Tick
rounds =
    record { shutdown = false; now = pos 97; signalled = false; task_cancelled = false }
    ∷ record { shutdown = false; now = pos 101; signalled = false; task_cancelled = false }
    ∷ []

wait_and_fire-DueAt_example :
    (wait_and_fire (pos 100) rounds active ≡ fired)
    ↔ (DueAt (pos 100) rounds × (is_over active ≡ false))
wait_and_fire-DueAt_example = wait_and_fire-DueAt (pos 100) rounds active
