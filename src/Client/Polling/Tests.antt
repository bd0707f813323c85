-- ===== src/Client/Polling/Tests.antt =====
-- A run of the polling schedule on a concrete input.
use py.Prelude.{ℕ, none, List, [], ◌∷◌, Bool, true, false, ◌≡◌, refl, map, keep}
use py.Prelude.Dict.{get_default, get, put}
use py.Prelude.Sets.{contains, add}
use py.Client.Polling.{
  new_scheduler, Move, schedules, suppresses, begins, ends, enters, leaves, run_moves, move,
  schedule, suppress, begin_round, heartbeat_due, end_round, begin_exclusive, end_exclusive,
}
use py.Client.Polling.Spacing.{Spaced, run_moves-Spaced}

-- A suppressed key is held back at 30 s, polled on demand at 40, held back at 900, and polled at 940.
abbrev day : List (ℕ × Move)
day =
    (0, schedules "derc" 30)
    ∷ (0, suppresses "derc")
    ∷ (30, begins "derc")
    ∷ (10, enters "derc")
    ∷ (5, leaves "derc")
    ∷ (855, begins "derc")
    ∷ (40, begins "derc")
    ∷ (1, ends "derc" true)
    ∷ []

day_starts :
    map {B = ℕ × Bool} (λ e. (e.at, e.heartbeat)) (run_moves 0 day (new_scheduler true none, [])).1
    ≡ (940, true) ∷ (40, false) ∷ []
unfolding run_moves move schedule suppress begin_round heartbeat_due end_round begin_exclusive
    end_exclusive contains add get_default get put keep
day_starts = refl

run_moves-Spaced_example : Spaced true none (run_moves 0 day (new_scheduler true none, [])).1
run_moves-Spaced_example = run_moves-Spaced true none 0 day
