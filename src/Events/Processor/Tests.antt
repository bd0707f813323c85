-- ===== src/Events/Processor/Tests.antt =====
-- A run of supersession on concrete events.
use py.Prelude.{
  bytes_key, bytes_beq, String, string_key, ◌≡◌, refl, some, List, [], ◌∷◌, keep, any, all,
}
use py.Prelude.Int.{◌+ℤ◌}
use py.Prelude.Dict
use py.Prelude.Dict.{Dict}
use py.Prelude.Sets
use py.Events.Store.{EventStore, superseded, state_eq, is_live, all_active_states, get, end}
use py.Events.Store.Samples.{first, second}
use py.Events.Supersession.{
  compute_supersession, time_overlaps, first_wins, tie_time, take_over, compared_mode_keys,
}
use py.Events.Processor.{
  Effect, post_superseded, cancel_timers, relay, run_supersession, apply_results, apply_result,
  supersede, settle, fully_superseded, announce, announced, note_taken, note_modes, deferred,
}
use py.Events.Processor.Laws.{Kept, run_supersession-Kept}

abbrev one_device : Dict String (List String)
one_device = ("/derp/1", "/edev/1" ∷ []) ∷ ("/derp/2", "/edev/1" ∷ []) ∷ []

abbrev before : EventStore
before = (1 ∷ [], first) ∷ (2 ∷ [], second) ∷ []

abbrev after : EventStore
after =
    (1 ∷ [], first)
    ∷ (
      2 ∷ [],
      record second {
        state = superseded;
        superseded_devices = "/edev/1" ∷ [];
        superseded_modes = ("/edev/1", "op_mod_fixed_w" ∷ []) ∷ [];
      },
    )
    ∷ []

abbrev asked : List Effect
asked =
    post_superseded (2 ∷ []) ("/edev/1" ∷ [])
    ∷ cancel_timers (2 ∷ [])
    ∷ relay (2 ∷ []) superseded
    ∷ []

program_run : Unit {0}
unfolding all_active_states keep is_live compute_supersession Dict.get_default Dict.get Dict.put
    Sets.union Sets.add Sets.contains Sets.diff Sets.inter Sets.subset Sets.set_eq apply_results
    apply_result supersede settle fully_superseded announce announced note_taken note_modes deferred
    time_overlaps end first_wins tie_time take_over compared_mode_keys get state_eq ◌+ℤ◌ bytes_beq
    any all run_supersession
program_run = tt

taken_over : run_supersession one_device before ≡ some (after, asked)
unfolding program_run
taken_over = refl

run_supersession-Kept_example : Kept one_device before after
run_supersession-Kept_example = run_supersession-Kept one_device before after asked taken_over
