-- ===== src/Events/ActiveModes/Laws.antt =====
-- The modes that the end of an event frees.
use py.Prelude.{
  ◌≡◌, refl, String, string_key, Bytes, bytes_key, none, some, List, [], ◌∷◌, Bool, true, false,
  not, ◌&&◌, ◌||◌, ◌==◌, ==-refl, is_empty, bytes_beq_iff, Option-cases, inl, inr, arith,
  if◌then◌else◌,
}
use py.Prelude.Dict
use py.Prelude.Dict.{Dict, get-put, get_default-put}
use py.Prelude.Sets
use py.Prelude.Sets.{contains-union, contains-diff, contains-is_empty}
use py.Events.ActiveModes.{Registry, events_on, cover, unregister, covered}

-- Whether an event that passes the test provides the mode.
provides : (Bytes → Bool) → String → Dict Bytes (List String) → Bool
provides test m [] = false
provides test m ((mrid, modes) ∷ events) =
    test mrid && Sets.contains m modes || provides test m events

cover-provides :
    (test : Bytes → Bool) (m : String) (acc : List String) (events : Dict Bytes (List String))
    → Sets.contains m (cover test acc events) ≡ (Sets.contains m acc || provides test m events)
unfolding cover provides
cover-provides test m acc [] = ground arith
cover-provides test m acc ((mrid, modes) ∷ events) = ground (
  arith,
  cover-provides test m acc events,
  cover-provides test m (Sets.union acc modes) events,
  contains-union m acc modes,
)

provides-delete :
    (m : String) (mrid : Bytes) (events : Dict Bytes (List String))
    → provides (λ _. true) m (Dict.delete mrid events) ≡ provides (λ e. not (e == mrid)) m events
unfolding provides Dict.delete
provides-delete m mrid [] = refl
provides-delete m mrid ((e, modes) ∷ events) = ground (arith, provides-delete m mrid events)

-- The modes that an event holds on a device.
abbrev pub held : String → Bytes → Registry → List String
held device mrid registry = Dict.get_default mrid (events_on device registry) []

empty_contains : (m : String) (xs : List String) → is_empty xs ≡ true → Sets.contains m xs ≡ false
unfolding Sets.contains
empty_contains m [] h = refl
empty_contains m (x ∷ xs) h = cc

-- The end of an event among the events of its device.
abbrev freed : Bytes → Dict Bytes (List String) → List String
freed mrid events =
    let owned = Dict.get_default mrid events [] in
    if is_empty owned then [] else Sets.diff owned (cover (λ _. true) [] (Dict.delete mrid events))

freed_lem :
    (mrid : Bytes) (events : Dict Bytes (List String)) (m : String)
    → Sets.contains m (freed mrid events) ≡ (
        not (Sets.contains m (cover (λ e. not (e == mrid)) [] events))
        && Sets.contains m (Dict.get_default mrid events []))
unfolding Sets.contains
freed_lem mrid events m =
    let owned = Dict.get_default mrid events [] in
    ground (
      arith,
      empty_contains m owned,
      contains-diff m owned (cover (λ _. true) [] (Dict.delete mrid events)),
      cover-provides (λ _. true) m [] (Dict.delete mrid events),
      cover-provides (λ e. not (e == mrid)) m [] events,
      provides-delete m mrid events,
    )

get_default-delete :
    (mrid : Bytes) (events : Dict Bytes (List String))
    → Dict.get_default mrid (Dict.delete mrid events) [] ≡ []
unfolding Dict.get_default
get_default-delete mrid events =
    ground (arith, Dict.get-delete mrid mrid events, bytes_beq_iff mrid mrid)

unregister_known :
    (device : String) (mrid : Bytes) (registry : Registry) (events : Dict Bytes (List String))
    → Dict.get device registry ≡ some events
    → ((unregister device mrid registry).0 ≡ freed mrid events)
      × ((unregister device mrid registry).1 ≡ Dict.put device (Dict.delete mrid events) registry)
unfolding unregister
unregister_known device mrid registry events e = ground arith

unregister_unknown :
    (device : String) (mrid : Bytes) (registry : Registry)
    → Dict.get device registry ≡ none
    → unregister device mrid registry ≡ ([], registry)
unfolding unregister
unregister_unknown device mrid registry e = ground arith

events_on-eq :
    (device : String) (registry : Registry) (events : Dict Bytes (List String))
    → Dict.get device registry ≡ some events
    → events_on device registry ≡ events
unfolding Dict.get_default
events_on-eq device registry events e = ground arith

events_on-none :
    (device : String) (registry : Registry)
    → Dict.get device registry ≡ none
    → events_on device registry ≡ []
unfolding Dict.get_default
events_on-none device registry e = ground arith

module _ (device : String) (mrid : Bytes) (registry : Registry) (m : String) (other : String) where
  abbrev Freed : Type 0
  Freed =
      (Sets.contains m (unregister device mrid registry).0 ≡ (
        not (Sets.contains m (covered device (some mrid) registry))
        && Sets.contains m (held device mrid registry)))
      × (held device mrid (unregister device mrid registry).1 ≡ [])
      × ((device == other) ≡ false
          → events_on other (unregister device mrid registry).1 ≡ events_on other registry)

  unregister-none : Dict.get device registry ≡ none → Freed
  unfolding covered cover Dict.get_default Dict.get Sets.contains
  unregister-none e =
      rw (unregister_unknown device mrid registry e) (ground arith, ground arith, λ _. refl)

  unregister-some :
      (events : Dict Bytes (List String)) → Dict.get device registry ≡ some events → Freed
  unfolding covered
  unregister-some events e =
      let (modes, rest) = unregister_known device mrid registry events e in
      let on = events_on-eq device registry events e in
      (
        rw (modes, on) (freed_lem mrid events m),
        rw (rest, get_default-put, ==-refl device) (get_default-delete mrid events),
        λ apart. rw (rest, get_default-put, apart),
      )

-- Ending an event frees exactly the modes that it held on the device and that no other event of the
-- device covers; from then on it holds nothing there, and other devices are as before.
pub unregister_lem :
    (device : String) (mrid : Bytes) (registry : Registry) (m : String) (other : String)
    → (Sets.contains m (unregister device mrid registry).0 ≡ (
        not (Sets.contains m (covered device (some mrid) registry))
        && Sets.contains m (held device mrid registry)))
      × (held device mrid (unregister device mrid registry).1 ≡ [])
      × ((device == other) ≡ false
          → events_on other (unregister device mrid registry).1 ≡ events_on other registry)
unregister_lem device mrid registry m other = elim (Option-cases (Dict.get device registry)) [
  | inl e ↦ unregister-none device mrid registry m other e
  | inr (events, e) ↦ unregister-some device mrid registry m other events e
]
