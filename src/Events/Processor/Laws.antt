-- ===== src/Events/Processor/Laws.antt =====
-- What a run of supersession does to the events of the store.
use py.Prelude.{
  String, string_key, Bytes, bytes_key, none, some, List, [], ◌∷◌, ◌++◌, false, ◌≡◌, ◌∙◌, refl, sym,
  ◌⊎◌, inl, inr, ◌==◌, ltb, length, arith, Bool-cases, Option-cases, if◌then◌else◌,
}
use py.Prelude.Dict
use py.Prelude.Dict.{Dict, get-put}
use py.Events.Store.{EventRecord, EventStore, get, all_active_states}
use py.Events.Supersession.{SupersessionResult, compute_supersession}
use py.Events.Processor.Change.{Change, Change-self, Change-trans, settle-Change}
use py.Events.Processor.{
  Effect, is_terminal, deferred, supersede, apply_result, apply_results, run_supersession,
}

module _ (device_map : Dict String (List String)) where
  -- Every event of the one store is in the other, changed as it may be.
  pub Kept : EventStore → EventStore → Type 0
  Kept store store' =
      (mrid : Bytes) (r : EventRecord)
      → get mrid store ≡ some r
      → (r' : EventRecord) × (get mrid store' ≡ some r') × Change device_map r r'

  Kept-self : (store : EventStore) → Kept store store
  unfolding Kept
  Kept-self store mrid r h = (r, h, Change-self device_map r)

  Kept-trans : (s t u : EventStore) → Kept s t → Kept t u → Kept s u
  unfolding Kept
  Kept-trans s t u a b mrid r h =
      let (r', e, c) = a mrid r h in
      let (r'', e', c') = b mrid r' e in (r'', e', Change-trans device_map r r' r'' c c')

  put-Kept :
      (store : EventStore) (mrid : Bytes) (r r' : EventRecord)
      → get mrid store ≡ some r
      → Change device_map r r'
      → Kept store (Dict.put mrid r' store)
  unfolding get Kept
  put-Kept store mrid r r' found change other s h = elim (Bool-cases (mrid == other)) [
    | inl same ↦
        let one : mrid ≡ other = (bytes_key.same_iff mrid other).0 same in
        let is : r ≡ s = cc in (r', rw (get-put mrid other r' store, same) refl, rw (sym is) change)
    | inr apart ↦ (s, rw (get-put mrid other r' store, apart) h, Change-self device_map s)
  ]

  supersede-Kept :
      (result : SupersessionResult) (r superseding : EventRecord) (store : EventStore)
      → get result.superseded_mrid store ≡ some r
      → deferred superseding r ≡ false
      → Kept store ((supersede device_map result r store).0)
  unfolding supersede deferred
  supersede-Kept result r superseding store found now =
      let live : is_terminal r.state ≡ false = ground arith in
      put-Kept store result.superseded_mrid r _ found (settle-Change device_map result r live)

  apply_result-missing :
      (result : SupersessionResult) (store : EventStore)
      → (get result.superseded_mrid store ≡ none) ⊎ (get result.superseding_mrid store ≡ none)
      → (apply_result device_map result store).0 ≡ store
  unfolding apply_result
  apply_result-missing result store (inl e) = rw (e, apply_result) refl
  apply_result-missing result store (inr e) =
      elim (Option-cases (get result.superseded_mrid store)) [
        | inl f ↦ rw (f, apply_result) refl
        | inr (r, f) ↦ rw (f, apply_result) (rw (e, apply_result) refl)
      ]

  apply_result-found :
      (result : SupersessionResult) (store : EventStore) (r s : EventRecord)
      → get result.superseded_mrid store ≡ some r
      → get result.superseding_mrid store ≡ some s
      → apply_result device_map result store
        ≡ (if deferred s r then (store, []) else supersede device_map result r store)
  unfolding apply_result
  apply_result-found result store r s e f = rw (e, f, apply_result) refl

  apply_result-Kept :
      (result : SupersessionResult) (store : EventStore)
      → Kept store ((apply_result device_map result store).0)
  apply_result-Kept result store = elim (Option-cases (get result.superseded_mrid store)) [
    | inl e ↦ rw (apply_result-missing result store (inl e)) (Kept-self store)
    | inr (r, e) ↦ elim (Option-cases (get result.superseding_mrid store)) [
      | inl f ↦ rw (apply_result-missing result store (inr f)) (Kept-self store)
      | inr (s, f) ↦ elim (Bool-cases (deferred s r)) [
        | inl wait ↦ rw (apply_result-found result store r s e f, wait) (Kept-self store)
        | inr now ↦
            rw (apply_result-found result store r s e f, now)
              (supersede-Kept result r s store e now)
      ]
    ]
  ]

  apply_results-Kept :
      (results : List SupersessionResult) (store : EventStore) (effects : List Effect)
      → Kept store ((apply_results device_map results (store, effects)).0)
  unfolding apply_results
  apply_results-Kept [] store effects = Kept-self store
  apply_results-Kept (result ∷ results) store effects =
      let step = apply_result device_map result store in
      Kept-trans store step.0 _ (apply_result-Kept result store)
        (apply_results-Kept results step.0 (effects ++ step.1))

  run_many :
      (store : EventStore) (results : List SupersessionResult)
      → ltb (length (all_active_states store)) 2 ≡ false
      → compute_supersession (all_active_states store) device_map ≡ some results
      → run_supersession device_map store ≡ some (apply_results device_map results (store, []))
  unfolding run_supersession
  run_many store results more e = rw (more, e, run_supersession) refl

  first_of :
      (p : EventStore × List Effect) (store' : EventStore) (effects : List Effect)
      → some p ≡ some (store', effects)
      → p.0 ≡ store'
  first_of p store' effects h = let same : p ≡ (store', effects) = cc in cc

  -- A run of supersession loses no event. One that is completed, cancelled or superseded stays as it
  -- was; any other keeps its state, or is superseded and then there are devices of its program and
  -- all are taken over. No device that was taken over is given back.
  pub run_supersession-Kept :
      (store store' : EventStore) (effects : List Effect)
      → run_supersession device_map store ≡ some (store', effects)
      → Kept store store'
  unfolding run_supersession
  run_supersession-Kept store store' effects h =
      let events = all_active_states store in
      elim (Bool-cases (ltb (length events) 2)) [
        | inl few ↦ let same : store ≡ store' = ground arith in rw (sym same) (Kept-self store)
        | inr more ↦ elim (Option-cases (compute_supersession events device_map)) [
          | inl e ↦ absurd (ground arith)
          | inr (results, e) ↦
              let same : (apply_results device_map results (store, [])).0 ≡ store' =
                first_of (apply_results device_map results (store, [])) store' effects
                  (sym (run_many store results more e) ∙ h) in
              rw (sym same) (apply_results-Kept results store [])
        ]
      ]
