-- ===== src/Events/Life/Tests.antt =====
-- The handlers of events/processor.py at concrete events.
use py.Prelude.{
  String, string_key, Bytes, bytes_key, bytes_beq, none, some, List, [], ◌∷◌, true, false, ◌≡◌,
  refl, ◌⊎◌, ◌==◌, if◌then◌else◌, All, In,
}
use py.Prelude.Int.{pos}
use py.Prelude.Dict
use py.Prelude.Dict.{Dict}
use py.Prelude.Sets.{contains}
use py.Events.Store.{active, EventRecord, EventStore, get}
use py.Events.Store.Laws.{IsWellFormed}
use py.Events.Store.Samples.{first, second, third}
use py.Events.Supersession.{SupersessionResult}
use py.Events.ActiveModes.Laws.{held}
use py.Events.Life.{World}
use py.Events.Life.Handlers.{cancel_program}
use py.Events.Life.Discovery.{Poll, process_control, effective_times}
use py.Events.Life.Fallback.{
  DerProgramState, device_has_other_active, left_to_other, release_each, best_program, can_revert,
  plan_fallback, modes_running_on,
}
use py.Events.Life.Moves.{Segment, completion, supersession, superseded_told, pruning, enact_all}
use py.Events.Life.Edges.{stage}
use py.Events.Life.Course.{Followed, Pruned, enact_all_lem}
use py.Events.Life.Removal.{removed, cancel_program_lem}
use py.Events.Life.Classes.{entry, process_control_lem}
use py.Events.Life.Plans.{Sensible, is_run, plan_fallback_lem}
use py.Events.Life.Release.{listed, release_each_lem, IsBest, best_program_lem}

abbrev mapping : Dict String (List String)
mapping = ("/derp/1", "/edev/1" ∷ []) ∷ ("/derp/2", "/edev/1" ∷ []) ∷ []

abbrev store : EventStore
store = (1 ∷ [], record first { state = active }) ∷ (2 ∷ [], record second { state = active }) ∷ []

abbrev world : World
world = record {
  store = store;
  timers = record { tasks = []; next_task = 0; cancelled_tasks = [] };
  offsets = record { cache = []; expiry = [] };
  modes = ("/edev/1", (1 ∷ [], "op_mod_fixed_w" ∷ []) ∷ []) ∷ [];
  dderc = [];
  comms_loss = record { active = false; resume_after_epoch = some (pos 50) };
  program_to_devices = mapping;
  lfdi_of = ("/edev/1", 7 ∷ []) ∷ [];
}

store-IsWellFormed : IsWellFormed store
unfolding Dict.get bytes_beq
store-IsWellFormed = record { distinct = (refl, (refl, tt)); keyed = (refl, (refl, tt)) }

abbrev taken : SupersessionResult
taken = record {
  superseded_mrid = 2 ∷ [];
  superseding_mrid = 1 ∷ [];
  affected_devices = "/edev/1" ∷ [];
  affected_modes = "op_mod_fixed_w" ∷ [];
  superseded_program_href = "/derp/2";
  superseding_program_href = "/derp/1";
}

-- The second event completes while the response of its supersession is under way, and is pruned.
abbrev race : List Segment
race =
    supersession taken
    ∷ completion none (2 ∷ [])
    ∷ superseded_told none mapping taken
    ∷ pruning (pos 1000)
    ∷ []

enact_all_lem_example :
    IsWellFormed (enact_all race world).store
    × ((m : Bytes) (r : EventRecord)
        → Dict.get m store ≡ some r
        → Followed m (stage r.state) (enact_all race world).store
          ⊎ Pruned m (stage r.state) race world)
enact_all_lem_example = enact_all_lem race world store-IsWellFormed

cancel_program_lem_example :
    get (2 ∷ []) (cancel_program "/derp/2" none world).0.store
    ≡ elim (get (2 ∷ []) store) [ none ↦ none | some r ↦ some (removed "/derp/2" r) ]
cancel_program_lem_example = cancel_program_lem "/derp/2" none (2 ∷ []) world store-IsWellFormed

abbrev poll : Poll
poll = record {
  program_href = "/derp/2";
  primacy = 0;
  now = pos 120;
  draw_start = λ n. 0;
  draw_duration = λ n. 0;
  has_responded = false;
  current = none;
}

abbrev third_mrid : Bytes
third_mrid = 3 ∷ []

third_absent : get third_mrid store ≡ none
unfolding get Dict.get bytes_beq
third_absent = refl

process_control_lem_example : get third_mrid (process_control poll third.derc world).0.store ≡ (
    let (start, duration, _) = effective_times poll third.derc store world.offsets in
    if third_mrid == third_mrid
    then entry poll third.derc world start duration
    else get third_mrid store)
process_control_lem_example = process_control_lem poll third.derc world third_mrid third_absent

abbrev device : String
device = "/edev/1"

abbrev all_devices : List String
all_devices = device ∷ []

release_each_lem_example :
    (contains device all_devices ≡ true
      → held device first.mrid
          (release_each mapping first (second ∷ []) all_devices (world.modes, [])).0
        ≡ [])
    × (device_has_other_active mapping device first.mrid (second ∷ []) ≡ false
        → listed device (release_each mapping first (second ∷ []) all_devices (world.modes, [])).1
          ≡ contains device all_devices)
    × (left_to_other mapping first (second ∷ []) device ≡ true
        → listed device (release_each mapping first (second ∷ []) all_devices (world.modes, [])).1
          ≡ false)
release_each_lem_example =
    release_each_lem mapping first (second ∷ []) device all_devices world.modes

abbrev programs : List DerProgramState
programs =
    record { href = "/derp/2"; primacy = 2; default_dercontrol = some third.derc.dercontrol_base }
    ∷ record { href = "/derp/1"; primacy = 1; default_dercontrol = none }
    ∷ []

best_program_lem_example :
    ((best_program mapping "/edev/1" programs none ≡ none)
      × All (λ p. can_revert mapping "/edev/1" p ≡ false) programs)
    ⊎ ((best : DerProgramState) × (best_program mapping "/edev/1" programs none ≡ some best)
        × In best programs
        × IsBest mapping "/edev/1" programs best)
best_program_lem_example = best_program_lem mapping "/edev/1" programs

plan_fallback_lem_example :
    Sensible mapping device programs false
      (7 ∷ [])
      []
      ("op_mod_fixed_w" ∷ [])
      (is_run mapping world.modes device (first ∷ []))
      (plan_fallback false
        (7 ∷ [])
        (best_program mapping device programs none)
        ("op_mod_fixed_w" ∷ [])
        (modes_running_on mapping world.modes device (first ∷ []))
        [])
plan_fallback_lem_example =
    plan_fallback_lem mapping device programs false (7 ∷ []) world.modes (first ∷ [])
      ("op_mod_fixed_w" ∷ []) []
