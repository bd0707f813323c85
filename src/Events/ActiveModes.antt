-- ===== src/Events/ActiveModes.antt =====
-- events/active_modes.py: which event provides which modes on a device.
pub mod Laws
pub mod Tests
use py.Prelude.{
  String, string_key, Bytes, bytes_key, Option, none, some, List, [], ◌∷◌, Bool, true, false, not,
  ◌==◌, is_empty, if◌then◌else◌,
}
use py.Prelude.Dict
use py.Prelude.Dict.{Dict}
use py.Prelude.Sets

-- `_registry`: device, event, modes.
abbrev pub Registry : Type 0
Registry = Dict String (Dict Bytes (List String))

-- The events of a device, none if the device is not known.
abbrev pub events_on : String → Registry → Dict Bytes (List String)
events_on device registry = Dict.get_default device registry []

unfoldable pub register : String → Bytes → List String → Registry → Registry
register device mrid modes registry =
    Dict.put device (Dict.put mrid modes (events_on device registry)) registry

-- `for ... in device_events: covered |= modes`, over the events that pass a test.
unfoldable pub cover : (Bytes → Bool) → List String → Dict Bytes (List String) → List String
cover test covered [] = covered
cover test covered ((mrid, modes) ∷ events) =
    cover test (if test mrid then Sets.union covered modes else covered) events

-- The freed modes, and the registry without the event.
unfoldable pub unregister : String → Bytes → Registry → List String × Registry
unregister device mrid registry = elim (Dict.get device registry) [
  | none ↦ ([], registry)
  | some device_events ↦
      let owned = Dict.get_default mrid device_events [] in
      let remaining = Dict.delete mrid device_events in
      let registry' = Dict.put device remaining registry in
      if is_empty owned
      then ([], registry')
      else (Sets.diff owned (cover (λ _. true) [] remaining), registry')
]

unfoldable pub covered : String → Option Bytes → Registry → List String
covered device excluding registry =
    cover (λ mrid. elim excluding [ none ↦ true | some e ↦ not (mrid == e) ]) []
      (events_on device registry)

unfoldable pub covered_among : String → List Bytes → Registry → List String
covered_among device mrids registry =
    cover (λ mrid. Sets.contains mrid mrids) [] (events_on device registry)

abbrev pub clear : Registry → Registry
clear registry = []
