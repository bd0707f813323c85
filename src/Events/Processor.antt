-- ===== src/Events/Processor.antt =====
-- events/processor.py: how the results of supersession are applied to the store, and what ends an
-- event. An await inside one result is not a step of its own; the history of events is left out.
pub mod Change
pub mod Lifecycle
pub mod Laws
pub mod Tests
use py.Prelude.{
  ℕ, nat_key, String, string_key, Bytes, bytes_key, Option, none, some, List, [], ◌∷◌, ◌++◌, Bool,
  true, false, not, ◌&&◌, ◌||◌, ◌==◌, ltb, max, length, is_empty, if◌then◌else◌,
}
use py.Prelude.Int.{ℤ, pos, ◌+ℤ◌, ◌-ℤ◌, magnitude}
use py.Prelude.Dict
use py.Prelude.Dict.{Dict}
use py.Prelude.Sets
use py.Events.Control.{Dercontrol}
use py.Events.Store.{
  EventState, scheduled, active, completed, cancelled, superseded, state_eq, EventRecord,
  EventStore, get, transition, all_active_states,
}
use py.Events.Supersession.{SupersessionResult, compute_supersession}

-- What the processor asks of the other parts, in the order it does.
pub data Effect : Type 0 where
  post_superseded : Bytes → List String → Effect
  cancel_timers : Bytes → Effect
  relay : Bytes → EventState → Effect
  default_fallback : Bytes → Effect

abbrev pub is_terminal : EventState → Bool
is_terminal s = state_eq s cancelled || state_eq s superseded || state_eq s completed

unfoldable pub note_modes :
    List String → List String → Dict String (List String) → Dict String (List String)
note_modes [] modes acc = acc
note_modes (dev ∷ devices) modes acc =
    note_modes devices modes (Dict.put dev (Sets.union (Dict.get_default dev acc []) modes) acc)

-- The record with the devices and the modes that were taken over.
unfoldable pub note_taken : SupersessionResult → EventRecord → EventRecord
note_taken result r = record r {
  superseded_devices = Sets.union r.superseded_devices result.affected_devices;
  superseded_modes =
      if is_empty result.affected_modes
      then r.superseded_modes
      else note_modes result.affected_devices result.affected_modes r.superseded_modes;
}

-- The devices that are told: those newly taken over that were not told the event was rejected.
unfoldable pub announced : SupersessionResult → EventRecord → List String
announced result r =
    Sets.diff (Sets.diff result.affected_devices r.superseded_devices) r.rejected_devices

unfoldable pub announce : SupersessionResult → EventRecord → List Effect
announce result r =
    if is_empty (announced result r) then [] else post_superseded r.mrid (announced result r) ∷ []

unfoldable pub fully_superseded : List String → EventRecord → Bool
fully_superseded program_devices r =
    not (is_empty program_devices) && Sets.subset program_devices r.superseded_devices

unfoldable pub settle : List String → EventState → EventRecord → EventRecord × List Effect
settle program_devices from_state r =
    if fully_superseded program_devices r
    then (
      record r { state = superseded },
      cancel_timers r.mrid
          ∷ relay r.mrid superseded
          ∷ (if state_eq from_state active then default_fallback r.mrid ∷ [] else []),
    )
    else (r, [])

-- Whether a result is left for later, or for good.
unfoldable pub deferred : EventRecord → EventRecord → Bool
deferred superseding r =
    is_terminal r.state || (state_eq superseding.state scheduled && state_eq r.state active)

module _ (device_map : Dict String (List String)) where
  unfoldable pub supersede :
      SupersessionResult → EventRecord → EventStore → EventStore × List Effect
  supersede result r store =
      let settled =
        settle (Dict.get_default r.program_href device_map []) r.state (note_taken result r) in
      (Dict.put result.superseded_mrid settled.0 store, announce result r ++ settled.1)

  -- One result.
  unfoldable pub apply_result : SupersessionResult → EventStore → EventStore × List Effect
  apply_result result store = elim (get result.superseded_mrid store) [
    | none ↦ (store, [])
    | some r ↦ elim (get result.superseding_mrid store) [
      | none ↦ (store, [])
      | some superseding ↦ if deferred superseding r then (store, []) else supersede result r store
    ]
  ]

  unfoldable pub apply_results :
      List SupersessionResult → EventStore × List Effect → EventStore × List Effect
  apply_results [] acc = acc
  apply_results (result ∷ results) (store, effects) =
      let step = apply_result result store in apply_results results (step.0, effects ++ step.1)

  -- `none` is the error of compute_supersession.
  unfoldable pub run_supersession : EventStore → Option (EventStore × List Effect)
  run_supersession store =
      let events = all_active_states store in
      if ltb (length events) 2
      then some (store, [])
      else elim (compute_supersession events device_map) [
        | none ↦ none
        | some results ↦ some (apply_results results (store, []))
      ]

unfoldable pub is_server_cancelled : Dercontrol → Bool
is_server_cancelled derc = elim derc.event_status [
  | none ↦ false
  | some status ↦ status.current_status == 2
]

-- Two integers are one if their difference is zero.
abbrev pub is_zero : ℤ → Bool
is_zero d = magnitude d == 0

unfoldable pub find_successive_predecessor : String → ℤ → List EventRecord → Option EventRecord
find_successive_predecessor program raw_start [] = none
find_successive_predecessor program raw_start (r ∷ rest) =
    let later = find_successive_predecessor program raw_start rest in
    if r.program_href == program
      && is_zero (r.derc.interval_start +ℤ r.derc.interval_duration -ℤ raw_start)
    then some r
    else later

unfoldable pub field_magnitude : Option ℤ → ℕ
field_magnitude none = 0
field_magnitude (some v) = magnitude v

unfoldable pub cancellation_wind_down : EventRecord → ℕ
cancellation_wind_down r =
    max (field_magnitude r.derc.randomize_start) (field_magnitude r.derc.randomize_duration)

-- Whom `_post_started_device_lifecycle` tells: the program's devices but the superseded ones, the
-- devices that run the event, or nobody.
pub data Audience : Type 0 where
  program_without : List String → Audience
  devices : List String → Audience
  nobody : Audience

unfoldable pub lifecycle_audience : EventRecord → Audience
lifecycle_audience r =
    if is_empty r.applied_devices && is_empty r.rejected_devices
    then program_without r.superseded_devices
    else if is_empty (Sets.diff r.applied_devices r.superseded_devices)
    then nobody
    else devices (Sets.diff r.applied_devices r.superseded_devices)
