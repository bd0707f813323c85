-- ===== src/Client/CommLoss/Tests.antt =====
-- A simulated outage of client/comm_loss_simulation.py with one request in flight.
use py.Prelude.{nat_key, ◌≤◌, [], ◌∷◌, true, ◌≡◌, refl, ◌==◌}
use py.Prelude.Int.{pos}
use py.Client.CommLoss.{
  System, new_context, note_request_started, new_simulation, enter, arm, Step, makes, enters, arms,
  Reach, here, next, start,
}
use py.Client.CommLoss.Drain.{counted, Reach-drains}

abbrev let_through : System
let_through = record {
  simulation = arm (pos 5) (pos 60) (note_request_started new_simulation);
  contexts = record new_context { counted = true } ∷ [];
}

-- A request is made and let through; then the simulation is armed.
armed_in_flight : Reach start let_through
unfolding enter
armed_in_flight =
    next
      (next (next here (makes start)) (
        enters new_simulation (note_request_started new_simulation) [] [] new_context
          (record new_context { counted = true }) refl refl))
      (arms _ (pos 5) (pos 60))

Reach-drains_example :
    (let_through.simulation.in_flight ≡ counted let_through.contexts)
    × (let_through.simulation.idle ≡ (counted let_through.contexts == 0))
    × (let_through.simulation.active ≡ true
        → (t : System) → Step let_through t
        → counted t.contexts ≤ counted let_through.contexts)
Reach-drains_example = Reach-drains let_through armed_in_flight
