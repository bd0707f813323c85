-- ===== src/Events/Life/Fallback.antt =====
-- events/processor.py: what the end of an event brings back on the devices of its program, with no
-- `group_lookup`: the decisions of `_apply_dderc_fallback`, before its first dispatch.
use py.Prelude.{
  ℕ, String, string_key, Bytes, bytes_key, Option, none, some, List, [], ◌∷◌, ◌++◌, Bool, not, ◌&&◌,
  ◌||◌, ◌==◌, ltb, is_empty, is_some, keep, any, if◌then◌else◌,
}
use py.Prelude.Dict
use py.Prelude.Dict.{Dict}
use py.Prelude.Sets
use py.Events.Control.{DercontrolBase}
use py.Events.Store.{active, EventRecord, EventStore, by_state}
use py.Events.ActiveModes.{Registry, unregister, covered_among}
use py.Events.Dderc.{DdercTracker, should_apply}
use py.Events.Supersession.{compared_mode_keys}
use py.Events.ModesBitmask.{get_active_mode_names}

-- The events whose control is in effect.
unfoldable pub running : EventStore → List EventRecord
running store = keep (λ r. not r.opted_out) (by_state active store)

-- The state of a program, by what the fallback reads of it.
pub record DerProgramState : Type 0 where
  pub href : String
  pub primacy : ℕ
  pub default_dercontrol : Option DercontrolBase

-- `device in program_to_devices.get(program, [])`
abbrev pub covers : Dict String (List String) → String → String → Bool
covers mapping program device = Sets.contains device (Dict.get_default program mapping [])

unfoldable pub device_has_other_active :
    Dict String (List String) → String → Bytes → List EventRecord → Bool
device_has_other_active mapping device mrid events =
    any
      (λ e.
        not (e.mrid == mrid)
        && (covers mapping e.program_href device
            && not (Sets.contains device e.superseded_devices)
            && not (Sets.contains device e.rejected_devices)))
      events

-- Whether another event took the device over whole, and one runs on it.
unfoldable pub left_to_other :
    Dict String (List String) → EventRecord → List EventRecord → String → Bool
left_to_other mapping r events device =
    Sets.contains device r.superseded_devices
    && (Sets.subset (compared_mode_keys r.derc.dercontrol_base)
          (Dict.get_default device r.superseded_modes [])
        && device_has_other_active mapping device r.mrid events)

unfoldable pub falls_back :
    Dict String (List String) → EventRecord → List EventRecord → String → List String → Bool
falls_back mapping r events device released =
    not (left_to_other mapping r events device)
    && (not (is_empty released) || not (device_has_other_active mapping device r.mrid events))

-- The registry, and the devices that fall back with the modes that are released on them.
unfoldable pub release_each :
    Dict String (List String)
    → EventRecord
    → List EventRecord
    → List String
    → Registry × Dict String (List String)
    → Registry × Dict String (List String)
release_each mapping r events [] acc = acc
release_each mapping r events (device ∷ devices) (modes, needs) =
    let freed = unregister device r.mrid modes in
    release_each mapping r events devices (
      freed.1,
      if falls_back mapping r events device freed.0 then needs ++ (device, freed.0) ∷ [] else needs,
    )

unfoldable pub better : Option DerProgramState → DerProgramState → DerProgramState
better none p = p
better (some best) p = if ltb p.primacy best.primacy then p else best

-- Whether the program has a default and covers the device.
unfoldable pub can_revert : Dict String (List String) → String → DerProgramState → Bool
can_revert mapping device p = covers mapping p.href device && is_some p.default_dercontrol

-- `_best_dderc_program_for_device`, over the programs of the mapping in their order. A program
-- that the state does not know is not among them.
unfoldable pub best_program :
    Dict String (List String)
    → String
    → List DerProgramState
    → Option DerProgramState
    → Option DerProgramState
best_program mapping device [] best = best
best_program mapping device (p ∷ programs) best =
    best_program mapping device programs
      (if can_revert mapping device p then some (better best p) else best)

-- `_modes_running_in`, of one device.
unfoldable pub modes_running_on :
    Dict String (List String) → Registry → String → List EventRecord → List String
modes_running_on mapping modes device [] = []
modes_running_on mapping modes device (e ∷ events) =
    let rest = modes_running_on mapping modes device events in
    if covers mapping e.program_href device
    then Sets.union (covered_among device (e.mrid ∷ []) modes) rest
    else rest

-- What a device that falls back gets: the default of a program, without the modes that are
-- taken, and the modes to disable.
pub data Plan : Type 0 where
  leave_alone clear_device : Plan
  withdraw : List String → Plan
  revert :
      DerProgramState → (written : List String) → (uncovered : List String) → (sent : Bool) → Plan

-- With a default that has modes of its own, and all of them taken, nothing is sent.
unfoldable pub plan_default :
    Bytes → DerProgramState → DercontrolBase → (released held : List String) → DdercTracker → Plan
plan_default lfdi best base released held tracker =
    let carried = get_active_mode_names base in
    let written = Sets.diff carried held in
    let emptied = not (is_empty carried) && is_empty written in
    revert best written (Sets.diff released written)
      (not emptied && should_apply lfdi best.href best.primacy tracker)

unfoldable pub plan_fallback :
    Bool → Bytes → Option DerProgramState → (released held : List String) → DdercTracker → Plan
plan_fallback clear_if_no_dderc lfdi none released held tracker =
    if clear_if_no_dderc
    then clear_device
    else if is_empty released
    then leave_alone
    else withdraw released
plan_fallback clear_if_no_dderc lfdi (some best) released held tracker =
    elim best.default_dercontrol [
      | none ↦ leave_alone
      | some base ↦ plan_default lfdi best base released held tracker
    ]
