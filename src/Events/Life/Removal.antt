-- ===== src/Events/Life/Removal.antt =====
-- What cancel_program of events/processor.py leaves of the events.
use py.Prelude.{
  ℕ, String, string_key, Bytes, bytes_key, bytes_beq_iff, Option, none, some, List, [], ◌∷◌, Bool,
  true, false, ◌&&◌, ◌||◌, ◌≡◌, refl, ◌==◌, any, keep, if◌then◌else◌, All, All-keep, Option-cases,
  inl, inr, arith, Bool-cases, sym, ap, ==→eq, ◌∙◌,
}
use py.Prelude.Dict
use py.Prelude.Dict.{IsDict, get-put}
use py.Events.Store.{cancelled, is_live, EventRecord, EventStore, all_active_states, get}
use py.Events.Store.Laws.{IsWellFormed, Keyed}
use py.Events.Life.{World, move_to}
use py.Events.Life.Handlers.{Outcome, cancel_timers, cancel_one, cancel_each, cancel_program}
use py.Events.Life.Edges.{one_found, values_found}

-- What becomes of a record.
abbrev pub removed : String → EventRecord → EventRecord
removed program r =
    if is_live r.state && r.program_href == program then record r { state = cancelled } else r

two_tests :
    (a b : Bool) (x y z : Option EventRecord)
    → (a ≡ true → x ≡ y)
    → (if b then y else (if a then x else z)) ≡ (if a || b then y else z)
two_tests a b x y z f = ground arith

module _ (program : String) (current : Option ℕ) (m : Bytes) where
  -- Whether the loop comes to the event.
  picks : List EventRecord → Bool
  picks records = any (λ r. r.program_href == program && r.mrid == m) records

  cancel_one-get :
      (r : EventRecord) (acc : Outcome)
      → Dict.get m (cancel_one program current r acc).0.store ≡ (
          if r.program_href == program && r.mrid == m
          then some (record r { state = cancelled })
          else Dict.get m acc.0.store)
  unfolding cancel_one move_to cancel_timers
  cancel_one-get r acc =
      ground (arith, get-put r.mrid m (record r { state = cancelled }) acc.0.store)

  cancel_each-get :
      (store : EventStore) (r0 : EventRecord) (records : List EventRecord) (acc : Outcome)
      → Dict.get m store ≡ some r0
      → All (λ r. Dict.get r.mrid store ≡ some r) records
      → Dict.get m (cancel_each program current records acc).0.store
        ≡ (if picks records then some (record r0 { state = cancelled }) else Dict.get m acc.0.store)
  unfolding cancel_each picks any
  cancel_each-get store r0 [] acc e h = refl
  cancel_each-get store r0 (r ∷ records) acc e h =
      cancel_each-get store r0 records (cancel_one program current r acc) e h.1
      ∙ ap (λ o. if picks records then some (record r0 { state = cancelled }) else o)
          (cancel_one-get r acc)
      ∙ two_tests (r.program_href == program && r.mrid == m) (picks records) _ _ _ (λ now.
        let is : r ≡ r0 =
          one_found r r0
            (sym h.0 ∙ ap (λ k. Dict.get k store) (==→eq r.mrid m (ground arith)) ∙ e) in
        ap (λ (x : EventRecord). some (record x { state = cancelled })) is)

  cancel_each-none :
      (store : EventStore) (records : List EventRecord) (acc : Outcome)
      → Dict.get m store ≡ none
      → All (λ r. Dict.get r.mrid store ≡ some r) records
      → Dict.get m (cancel_each program current records acc).0.store ≡ Dict.get m acc.0.store
  unfolding cancel_each
  cancel_each-none store [] acc e h = refl
  cancel_each-none store (r ∷ records) acc e h =
      let other : (r.mrid == m) ≡ false = elim (Bool-cases (r.mrid == m)) [
        | inl same ↦ let one = ==→eq r.mrid m same in absurd (cc)
        | inr apart ↦ apart
      ] in
      cancel_each-none store records (cancel_one program current r acc) e h.1
      ∙ ground (arith, cancel_one-get r acc)

  any_live :
      (store : EventStore)
      → IsDict store
      → Keyed store
      → picks (keep (λ r. is_live r.state) (Dict.values store)) ≡ elim (Dict.get m store) [
        | none ↦ false
        | some r ↦ is_live r.state && r.program_href == program
      ]
  unfolding picks any keep Dict.get
  any_live [] d k = refl
  any_live ((j, r) ∷ store) d k =
      ground (arith, any_live store d.1 k.1, bytes_beq_iff j m, bytes_beq_iff r.mrid m)

  -- Removing a program cancels exactly its scheduled and active events, and leaves every other event
  -- of the store as it is.
  pub cancel_program_lem :
      (w : World)
      → IsWellFormed w.store
      → get m (cancel_program program current w).0.store
        ≡ elim (get m w.store) [ none ↦ none | some r ↦ some (removed program r) ]
  unfolding get cancel_program all_active_states
  cancel_program_lem w h =
      let live = keep (λ r. is_live r.state) (Dict.values w.store) in
      let found : All (λ r. Dict.get r.mrid w.store ≡ some r) live =
        All-keep (λ (r : EventRecord). Dict.get r.mrid w.store ≡ some r) (λ r. is_live r.state)
          (Dict.values w.store) (values_found w.store h.distinct h.keyed) in
      elim (Option-cases (Dict.get m w.store)) [
        | inl e ↦ cancel_each-none w.store live (w, []) e found ∙ ground arith
        | inr (r0, e) ↦
            cancel_each-get w.store r0 live (w, []) e found
            ∙ ground (arith, any_live w.store h.distinct h.keyed)
      ]
