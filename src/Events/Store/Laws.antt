-- ===== src/Events/Store/Laws.antt =====
-- What the operations of the event store guarantee.
use py.Prelude.{
  ◌≡◌, refl, Bool, false, ◌&&◌, ◌||◌, Option, none, some, List, [], ◌∷◌, ◌++◌, Bytes, ◌==◌,
  bytes_key, bytes_beq_iff, inl, inr, if◌then◌else◌, arith, ==-comm, Option-cases, Bool-cases, ◌⊎◌,
}
use py.Prelude.Int.{ℤ}
use py.Prelude.Dict
use py.Prelude.Dict.{IsDict, put-IsDict, delete-IsDict, get-put, get-delete}
use py.Prelude.Sets
use py.Prelude.Sets.{contains-snoc}
use py.Events.Store.{
  EventState, EventRecord, EventStore, upsert, get, transition, is_expired, prune_items,
  prune_expired,
}

-- Each record stands under its own mRID.
abbrev pub Keyed : EventStore → Type 0
Keyed [] = Unit
Keyed ((mrid, r) ∷ store) = (mrid ≡ r.mrid) × Keyed store

-- Each key stands once, and is the mRID of its record.
pub record IsWellFormed (store : EventStore) : Type 0 where
  pub distinct : IsDict store
  pub keyed : Keyed store

pub put-Keyed :
    (m : Bytes) (r : EventRecord) (store : EventStore)
    → m ≡ r.mrid
    → Keyed store
    → Keyed (Dict.put m r store)
unfolding Dict.put
put-Keyed m r [] e h = (e, tt)
put-Keyed m r ((j, w) ∷ store) e h = ground (arith, put-Keyed m r store e h.1, bytes_beq_iff j m)

delete-Keyed : (m : Bytes) (store : EventStore) → Keyed store → Keyed (Dict.delete m store)
unfolding Dict.delete
delete-Keyed m [] h = tt
delete-Keyed m ((j, w) ∷ store) h = ground (arith, delete-Keyed m store h.1)

pub get-Keyed :
    (m : Bytes) (store : EventStore) (r : EventRecord)
    → Keyed store
    → Dict.get m store ≡ some r
    → m ≡ r.mrid
unfolding Dict.get
get-Keyed m [] r h e = cc
get-Keyed m ((j, w) ∷ store) r h e = ground (arith, get-Keyed m store r h.1, bytes_beq_iff j m)

pub upsert-IsWellFormed :
    (r : EventRecord) (store : EventStore) → IsWellFormed store → IsWellFormed (upsert r store)
unfolding upsert
upsert-IsWellFormed r store h = record {
  distinct = put-IsDict r.mrid r store h.distinct;
  keyed = put-Keyed r.mrid r store refl h.keyed;
}

transition_absent :
    (m : Bytes) (s : EventState) (store : EventStore)
    → Dict.get m store ≡ none
    → transition m s store ≡ none
unfolding transition
transition_absent m s store e = ground arith

transition_present :
    (m : Bytes) (s : EventState) (store : EventStore) (r : EventRecord)
    → Dict.get m store ≡ some r
    → transition m s store
      ≡ some (record r { state = s }, Dict.put m (record r { state = s }) store)
unfolding transition
transition_present m s store r e = ground arith

-- A known event gets the new state and keeps the rest; the other events stay as they are, and the
-- store stays well formed. An unknown mRID is a KeyError.
pub transition_lem :
    (m : Bytes) (s : EventState) (store : EventStore)
    → IsWellFormed store
    → (transition m s store ≡ none) × (get m store ≡ none)
      ⊎ ((r : EventRecord) × (store' : EventStore) × (get m store ≡ some r)
          × (transition m s store ≡ some (record r { state = s }, store'))
          × IsWellFormed store'
          × ((j : Bytes)
              → get j store' ≡ (if m == j then some (record r { state = s }) else get j store)))
unfolding get
transition_lem m s store h = elim (Option-cases (Dict.get m store)) [
  | inl e ↦ inl (transition_absent m s store e, e)
  | inr (r, e) ↦
      let r' : EventRecord = record r { state = s } in
      inr (
        r,
        Dict.put m r' store,
        e,
        transition_present m s store r e,
        record {
          distinct = put-IsDict m r' store h.distinct;
          keyed = put-Keyed m r' store (get-Keyed m store r h.keyed e) h.keyed;
        },
        λ j. get-put m j r' store,
      )
]

doomed : ℤ → ℤ → Bytes → EventStore → Bool
doomed now grace m [] = false
doomed now grace m ((j, r) ∷ items) = is_expired now grace r && j == m || doomed now grace m items

abbrev pruned : Bool → Option EventRecord → Option EventRecord
pruned dead o = if dead then none else o

module _ (now grace : ℤ) (m : Bytes) where
  prune_items-get :
      (items store : EventStore) (expired : List Bytes)
      → Dict.get m (prune_items now grace items (expired, store)).1
        ≡ pruned (doomed now grace m items) (Dict.get m store)
  unfolding prune_items doomed
  prune_items-get [] store expired = refl
  prune_items-get ((j, r) ∷ items) store expired = ground (
    arith,
    prune_items-get items store expired,
    prune_items-get items (Dict.delete j store) (expired ++ j ∷ []),
    get-delete j m store,
  )

  prune_items-contains :
      (items store : EventStore) (expired : List Bytes)
      → Sets.contains m (prune_items now grace items (expired, store)).0
        ≡ (Sets.contains m expired || doomed now grace m items)
  unfolding prune_items doomed
  prune_items-contains [] store expired = ground arith
  prune_items-contains ((j, r) ∷ items) store expired = ground (
    arith,
    prune_items-contains items store expired,
    prune_items-contains items (Dict.delete j store) (expired ++ j ∷ []),
    contains-snoc m j expired,
    ==-comm m j,
  )

  -- In a dict the items with a key are what a lookup finds.
  doomed-get :
      (items : EventStore)
      → IsDict items
      → doomed now grace m items
        ≡ elim (Dict.get m items) [ none ↦ false | some r ↦ is_expired now grace r ]
  unfolding doomed Dict.get
  doomed-get [] h = refl
  doomed-get ((j, r) ∷ items) h = ground (arith, doomed-get items h.1, bytes_beq_iff j m)

-- Pruning drops exactly the events whose end and grace have passed, reports exactly their mRIDs,
-- and leaves every other event as it was.
pub prune_expired_lem :
    (now grace : ℤ) (store : EventStore) (m : Bytes)
    → IsWellFormed store
    → (get m (prune_expired now grace store).1
        ≡ elim (get m store) [ none ↦ none | some r ↦ pruned (is_expired now grace r) (some r) ])
      × (Sets.contains m (prune_expired now grace store).0
          ≡ elim (get m store) [ none ↦ false | some r ↦ is_expired now grace r ])
unfolding get prune_expired Sets.contains
prune_expired_lem now grace store m h = ground (
  arith,
  prune_items-get now grace m store store [],
  prune_items-contains now grace m store store [],
  doomed-get now grace m store h.distinct,
)

prune_items-IsWellFormed :
    (now grace : ℤ) (items store : EventStore) (expired : List Bytes)
    → IsWellFormed store
    → IsWellFormed (prune_items now grace items (expired, store)).1
unfolding prune_items
prune_items-IsWellFormed now grace [] store expired h = h
prune_items-IsWellFormed now grace ((j, r) ∷ items) store expired h =
    elim (Bool-cases (is_expired now grace r)) [
      | inl over ↦
          let less : IsWellFormed (Dict.delete j store) = record {
            distinct = delete-IsDict j store h.distinct;
            keyed = delete-Keyed j store h.keyed;
          } in
          rw (over, prune_items)
            (prune_items-IsWellFormed now grace items (Dict.delete j store) (expired ++ j ∷ [])
              less)
      | inr running ↦
          rw (running, prune_items) (prune_items-IsWellFormed now grace items store expired h)
    ]

pub prune_expired-IsWellFormed :
    (now grace : ℤ) (store : EventStore)
    → IsWellFormed store
    → IsWellFormed (prune_expired now grace store).1
unfolding prune_expired
prune_expired-IsWellFormed now grace store h = prune_items-IsWellFormed now grace store store [] h
