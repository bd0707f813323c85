-- ===== src/Events/Store/Tests.antt =====
-- The store on small inputs, and its theorems at them.
use py.Prelude.{
  ◌≡◌, refl, [], ◌∷◌, none, some, true, ◌==◌, ◌⊎◌, Bytes, if◌then◌else◌, bytes_key, bytes_beq,
}
use py.Prelude.Int.{pos, ◌+ℤ◌}
use py.Prelude.Dict
use py.Prelude.Sets
use py.Events.Store.{
  EventState, EventRecord, EventStore, get, prune_expired, is_expired, end, transition,
}
use py.Events.Store.Laws.{IsWellFormed, prune_expired_lem, transition_lem}
use py.Events.Store.Samples.{first, second}

abbrev two_events : EventStore
two_events = ((1 ∷ []), first) ∷ ((2 ∷ []), second) ∷ []

two_events-IsWellFormed : IsWellFormed two_events
unfolding Dict.get bytes_beq
two_events-IsWellFormed = record { distinct = (refl, (refl, tt)); keyed = (refl, (refl, tt)) }

prune_run : (prune_expired (pos 211) (pos 60) two_events).0 ≡ (1 ∷ []) ∷ (2 ∷ []) ∷ []
unfolding prune_expired is_expired end ◌+ℤ◌ Dict.delete bytes_beq
prune_run = refl

prune_expired_lem_example :
    (get (1 ∷ []) (prune_expired (pos 211) (pos 60) two_events).1 ≡ none)
    × (Sets.contains (1 ∷ []) (prune_expired (pos 211) (pos 60) two_events).0 ≡ true)
unfolding get is_expired end ◌+ℤ◌ Dict.get bytes_beq
prune_expired_lem_example =
    prune_expired_lem (pos 211) (pos 60) two_events (1 ∷ []) two_events-IsWellFormed

transition_lem_example :
    (transition (2 ∷ []) EventState.active two_events ≡ none) × (get (2 ∷ []) two_events ≡ none)
    ⊎ ((r : EventRecord) × (store' : EventStore) × (get (2 ∷ []) two_events ≡ some r)
        × (transition (2 ∷ []) EventState.active two_events
            ≡ some (record r { state = EventState.active }, store'))
        × IsWellFormed store'
        × ((j : Bytes)
            → get j store' ≡ (
                if (2 ∷ []) == j
                then some (record r { state = EventState.active })
                else get j two_events)))
transition_lem_example =
    transition_lem (2 ∷ []) EventState.active two_events two_events-IsWellFormed
