-- ===== src/Events/Store.antt =====
-- events/state_machine.py: the event record and the store keyed by mRID. The source's records are
-- shared mutable objects; every holder of one reads it through its mRID here, so the store's entry
-- stands for the object.
pub mod Laws
pub mod Samples
pub mod Tests
use py.Prelude.{
  ℕ, String, Option, none, some, List, [], ◌∷◌, ◌++◌, Bool, true, false, Bytes, bytes_key, keep,
  if◌then◌else◌, length,
}
use py.Prelude.Int.{ℤ, pos, ◌+ℤ◌, ltb_ℤ}
use py.Prelude.Dict
use py.Prelude.Dict.{Dict}
use py.Events.Control.{Dercontrol}

pub data EventState : Type 0 where
  scheduled active completed cancelled superseded : EventState

unfoldable pub state_eq : EventState → EventState → Bool
state_eq scheduled scheduled = true
state_eq active active = true
state_eq completed completed = true
state_eq cancelled cancelled = true
state_eq superseded superseded = true
state_eq _ _ = false

pub record EventRecord : Type 0 where
  pub mrid : Bytes
  pub derc : Dercontrol
  pub program_href : String
  pub primacy : ℕ
  pub state : EventState
  pub start : ℤ
  pub duration : ℤ
  pub server_status_time : ℤ
  pub creation_time : ℤ
  pub superseded_devices : List String
  pub superseded_modes : Dict String (List String)
  pub rejected_devices : List String
  pub applied_devices : List String
  pub applied_local : List String
  pub rejected_local : List String
  pub opted_out : Bool

unfoldable pub end : EventRecord → ℤ
end r = r.start +ℤ r.duration

abbrev pub EventStore : Type 0
EventStore = Dict Bytes EventRecord

unfoldable pub upsert : EventRecord → EventStore → EventStore
upsert record' store = Dict.put record'.mrid record' store

unfoldable pub get : Bytes → EventStore → Option EventRecord
get mrid store = Dict.get mrid store

unfoldable pub by_state : EventState → EventStore → List EventRecord
by_state state store = keep (λ r. state_eq r.state state) (Dict.values store)

-- `none` is the KeyError of an unknown mRID.
unfoldable pub transition : Bytes → EventState → EventStore → Option (EventRecord × EventStore)
transition mrid new_state store = elim (Dict.get mrid store) [
  | none ↦ none
  | some r ↦
      let r' : EventRecord = record r { state = new_state } in some (r', Dict.put mrid r' store)
]

-- `r.state in (EventState.SCHEDULED, EventState.ACTIVE)`
unfoldable pub is_live : EventState → Bool
is_live scheduled = true
is_live active = true
is_live _ = false

unfoldable pub all_active_states : EventStore → List EventRecord
all_active_states store = keep (λ r. is_live r.state) (Dict.values store)

unfoldable pub is_expired : ℤ → ℤ → EventRecord → Bool
is_expired now grace r = ltb_ℤ (end r +ℤ grace) now

-- The loop over the items taken before the first deletion. It returns the pruned mRIDs.
unfoldable pub prune_items :
    ℤ → ℤ → List (Bytes × EventRecord) → List Bytes × EventStore → List Bytes × EventStore
prune_items now grace [] acc = acc
prune_items now grace ((mrid, r) ∷ items) (expired, store) = prune_items now grace items (
    if is_expired now grace r
    then (expired ++ mrid ∷ [], Dict.delete mrid store)
    else (expired, store))

abbrev pub default_grace : ℤ
default_grace = pos 60

unfoldable pub prune_expired : ℤ → ℤ → EventStore → List Bytes × EventStore
unfolding prune_items
prune_expired now grace store = prune_items now grace store ([], store)

unfoldable pub len : EventStore → ℕ
len store = length store

unfoldable pub contains : Bytes → EventStore → Bool
contains mrid store = Dict.has mrid store
