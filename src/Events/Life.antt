-- ===== src/Events/Life.antt =====
-- events/processor.py: the life of an event. A segment is what a handler does between two awaits; the
-- handlers are cut into their segments, which other handlers may come between.
pub mod Fallback
pub mod Handlers
pub mod Discovery
pub mod Moves
pub mod Edges
pub mod Laws
pub mod Arrival
pub mod Course
pub mod Removal
pub mod Classes
pub mod Release
pub mod Plans
pub mod Tests
use py.Prelude.{
  ℕ, String, string_key, Bytes, bytes_key, Option, none, some, List, [], ◌∷◌, Bool, true, false,
  not, ◌&&◌, ◌==◌, if◌then◌else◌, is_some,
}
use py.Prelude.Int.{ℤ, pos, leb_ℤ}
use py.Prelude.Dict
use py.Prelude.Dict.{Dict}
use py.Prelude.Sets
use py.Events.Store.{EventState, EventRecord, EventStore, end}
use py.Events.Timers.{Timers}
use py.Events.Randomization.{RandomizationCache}
use py.Events.ActiveModes.{Registry}
use py.Events.Dderc.{DdercTracker}
use py.Events.Response.{ResponseCode}

-- `CommsLossState`
pub record CommsLossState : Type 0 where
  pub active : Bool
  pub resume_after_epoch : Option ℤ

-- What the handlers of the processor read and write. `running_task` is the timer that calls.
pub record World : Type 0 where
  pub store : EventStore
  pub timers : Timers
  pub offsets : RandomizationCache
  pub modes : Registry
  pub dderc : DdercTracker
  pub comms_loss : CommsLossState
  pub program_to_devices : Dict String (List String)
  pub lfdi_of : Dict String Bytes

-- What a segment asks of the other parts, in the order it does; the devices are those left out, or
-- those meant.
pub data Action : Type 0 where
  post_response : Bytes → ResponseCode → List String → Action
  post_for_devices : Bytes → ResponseCode → List String → Action
  relay_event : Bytes → String → Action
  start_fallback : Bytes → Bool → Action
  start_dispatch : Bytes → Action
  delay_fallback : Bytes → ℕ → Action

-- `dict.fromkeys`: the first of each.
unfoldable pub from_keys : List String → List String → List String
from_keys seen [] = seen
from_keys seen (d ∷ devices) = from_keys (Sets.add d seen) devices

unfoldable pub program_devices : String → World → List String
program_devices program w = Dict.get_default program w.program_to_devices []

unfoldable pub unique_devices : String → World → List String
unique_devices program w = from_keys [] (program_devices program w)

-- The latest of the boundary and an end; a boundary that is None or 0 is 0.
abbrev pub raise_boundary : Option ℤ → ℤ → ℤ
raise_boundary none at = if leb_ℤ (pos 0) at then at else pos 0
raise_boundary (some boundary) at = if leb_ℤ boundary at then at else boundary

-- The record of an event with a new state, in its place.
unfoldable pub move_to : EventState → EventRecord → World → World
move_to state r w = record w { store = Dict.put r.mrid (record r { state = state }) w.store }

unfoldable pub write : EventRecord → World → World
write r w = record w { store = Dict.put r.mrid r w.store }
