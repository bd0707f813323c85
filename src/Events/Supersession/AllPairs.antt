-- ===== src/Events/Supersession/AllPairs.antt =====
-- `compute_supersession` against the plain comparison of every pair of events.
use mathlib.Core.List.{append-nil, append_assoc}
use mathlib.Core.Bool.{false≢true}
use py.Prelude.{
  ℕ, suc, ◌≡◌, ◌∙◌, ◌≢◌, sym, refl, ap, String, string_key, Bytes, bytes_key, some, List, [], ◌∷◌,
  ◌++◌, true, false, Bool-cases, inl, inr, keep, any, drop, is_empty, and_true, arith,
  bytes_beq_iff,
}
use py.Prelude.Dict.{Dict}
use py.Prelude.Sets
use py.Prelude.Sets.{Distinct, contains-inter, is_empty-contains}
use py.Events.Store.{EventRecord}
use py.Events.Supersession.{
  SupersessionResult, compared_mode_keys, devices_of, take_over, judge, Progress, programs_on,
  indices_of, later_of, sort, inner, outer, compute_supersession,
}
use py.Events.Supersession.Index.{later_targets}
use py.Events.Supersession.Reach.{Shares, programs_sharing-Shares}
use py.Events.Supersession.Visits.{
  ids, among, is_checked, keys_with, judgments, visit_all, visit_all_lem, inner-targets,
  unchecked_keys_with, drop-suc,
}

-- Every pair of events, the earlier one first, in the order of the list.
unfoldable pub all_pairs : Dict String (List String) → List EventRecord → List SupersessionResult
all_pairs p2d [] = []
all_pairs p2d (a ∷ es) = judgments p2d a es ++ all_pairs p2d es

module _ (p2d : Dict String (List String)) where
  abbrev NoCommon : EventRecord → EventRecord → Type 0
  NoCommon a b =
      (d : String)
      → Sets.contains d (devices_of p2d a.program_href) ≡ true
      → Sets.contains d (devices_of p2d b.program_href) ≡ true
      → ⊥

  common_absurd :
      (a b : EventRecord)
      → NoCommon a b
      → (d : String)
      → Sets.contains d (Sets.inter (devices_of p2d a.program_href) (devices_of p2d b.program_href))
        ≡ true
      → ⊥
  common_absurd a b h d m =
      let (in_b, in_a) = (and_true _ _).0 (
        rw (contains-inter d (devices_of p2d a.program_href) (devices_of p2d b.program_href)) at
          m) in
      h d in_a in_b

  take_over_apart :
      (overlap : List String) (a b : EventRecord) → NoCommon a b → take_over p2d overlap a b ≡ []
  unfolding take_over
  take_over_apart overlap a b h =
      let affected = Sets.inter (devices_of p2d a.program_href) (devices_of p2d b.program_href) in
      elim (Bool-cases (is_empty affected)) [
        | inl none_left ↦ rw none_left
        | inr some_left ↦
            let (d, m) = is_empty-contains affected some_left in absurd (common_absurd a b h d m)
      ]

  judge_apart : (a b : EventRecord) → NoCommon a b → judge p2d a b ≡ []
  unfolding judge
  judge_apart a b h =
      let overlap =
        Sets.inter (compared_mode_keys a.derc.dercontrol_base)
          (compared_mode_keys b.derc.dercontrol_base) in
      ground (arith, take_over_apart overlap a b h, take_over_apart overlap b a (λ d x y. h d y x))

  judgments-among :
      (a : EventRecord) (ps : List String) (es : List EventRecord)
      → ((b : EventRecord) → Sets.contains b.program_href ps ≡ false → judge p2d a b ≡ [])
      → judgments p2d a (among ps es) ≡ judgments p2d a es
  unfolding judgments keep
  judgments-among a ps [] h = refl
  judgments-among a ps (b ∷ es) h = elim (Bool-cases (Sets.contains b.program_href ps)) [
    | inl m ↦ rw m (ap (λ t. judge p2d a b ++ t) (judgments-among a ps es h))
    | inr m ↦ rw (m, h b m) (judgments-among a ps es h)
  ]

  -- The events that a pass over `later` leaves out share no device with `a`.
  outside-apart :
      (a b : EventRecord) (s : Shares p2d a.program_href)
      → Sets.contains b.program_href s.found ≡ false
      → NoCommon a b
  outside-apart a b s out d in_a in_b = false≢true (sym out ∙ s.covers b.program_href d in_a in_b)

  -- No pair of the given events has been checked.
  abbrev Unchecked : List Bytes → List (Bytes × Bytes) → Type 0
  Unchecked ms checked =
      (y z : Bytes)
      → Sets.contains y ms ≡ true
      → Sets.contains z ms ≡ true
      → is_checked y z checked ≡ false

  among-contains :
      (ps : List String) (es : List EventRecord) (z : Bytes)
      → Sets.contains z (ids (among ps es)) ≡ true
      → Sets.contains z (ids es) ≡ true
  unfolding keep Sets.contains
  among-contains ps [] z h = h
  among-contains ps (e ∷ es) z h = ground (arith, among-contains ps es z)

  among-absent :
      (ps : List String) (es : List EventRecord) (z : Bytes)
      → Sets.contains z (ids es) ≡ false
      → Sets.contains z (ids (among ps es)) ≡ false
  among-absent ps es z h = ground (arith, among-contains ps es z)

  among-Distinct :
      (ps : List String) (es : List EventRecord) → Distinct (ids es) → Distinct (ids (among ps es))
  unfolding keep
  among-Distinct ps [] h = tt
  among-Distinct ps (e ∷ es) h =
      ground (arith, among-Distinct ps es h.1, among-absent ps es e.mrid h.0)

  -- One round of the outer loop.
  inner_round :
      (events : List EventRecord) (i : ℕ) (a : EventRecord) (rest : List EventRecord)
      (s : Shares p2d a.program_href) (rs : List SupersessionResult)
      (checked : List (Bytes × Bytes))
      → drop i events ≡ a ∷ rest
      → Distinct (ids (a ∷ rest))
      → Unchecked (ids (a ∷ rest)) checked
      → inner p2d events a (sort (later_of (indices_of 0 events []) i s.found)) (rs, checked)
        ≡ some (rs ++ judgments p2d a rest, checked ++ keys_with a.mrid (ids (among s.found rest)))
  unfolding Sets.contains
  inner_round events i a rest s rs checked at_i ds fresh =
      let next = (drop-suc events i a rest at_i).1 in
      let bs = among s.found rest in
      ap (λ js. inner p2d events a js (rs, checked)) (later_targets events i s.found s.distinct)
      ∙ inner-targets p2d a events s.found (suc i) (drop (suc i) events) (rs, checked) refl
      ∙ ap (λ es. some (visit_all p2d a (among s.found es) (rs, checked))) next
      ∙ ap some (
          visit_all_lem p2d a bs rs checked (among-absent s.found rest a.mrid ds.0)
            (among-Distinct s.found rest ds.1)
            (λ z m.
              fresh a.mrid z (ground (arith, bytes_beq_iff a.mrid a.mrid))
                (ground (arith, among-contains s.found rest z))))
      ∙ ap (λ js. some (rs ++ js, checked ++ keys_with a.mrid (ids bs)))
          (judgments-among a s.found rest (λ b out. judge_apart a b (outside-apart a b s out)))

  Unchecked-next :
      (a : EventRecord) (rest : List EventRecord) (bs : List Bytes) (checked : List (Bytes × Bytes))
      → Distinct (ids (a ∷ rest))
      → Unchecked (ids (a ∷ rest)) checked
      → Unchecked (ids rest) (checked ++ keys_with a.mrid bs)
  unfolding Sets.contains
  Unchecked-next a rest bs checked ds fresh y z my mz =
      unchecked_keys_with a.mrid y z bs checked (other a rest y ds.0 my) (other a rest z ds.0 mz)
        (fresh y z (ground arith) (ground arith))
    where
      other :
          (a : EventRecord) (rest : List EventRecord) (y : Bytes)
          → Sets.contains a.mrid (ids rest) ≡ false
          → Sets.contains y (ids rest) ≡ true
          → y ≢ a.mrid
      other a rest y out m e = cc

  outer_step :
      (events : List EventRecord) (indices : Dict String (List ℕ)) (i : ℕ) (a : EventRecord)
      (rest : List EventRecord) (p p' : Progress) (s : Shares p2d a.program_href)
      → inner p2d events a (sort (later_of indices i s.found)) p ≡ some p'
      → outer p2d events (programs_on p2d []) indices i (a ∷ rest) p
        ≡ outer p2d events (programs_on p2d []) indices (suc i) rest p'
  unfolding outer
  outer_step events indices i a rest p p' s e = ground (arith, s.returns)

  outer-all_pairs :
      (events : List EventRecord) (i : ℕ) (rest : List EventRecord) (rs : List SupersessionResult)
      (checked : List (Bytes × Bytes))
      → drop i events ≡ rest
      → Distinct (ids rest)
      → Unchecked (ids rest) checked
      → outer p2d events (programs_on p2d []) (indices_of 0 events []) i rest (rs, checked)
        ≡ some (rs ++ all_pairs p2d rest)
  unfolding all_pairs
  outer-all_pairs events i [] rs checked at_i ds fresh =
      unfold outer in ap some (sym (append-nil rs))
  outer-all_pairs events i (a ∷ rest) rs checked at_i ds fresh =
      let s = programs_sharing-Shares p2d a.program_href in
      let keys = keys_with a.mrid (ids (among s.found rest)) in
      outer_step events (indices_of 0 events []) i a rest (rs, checked)
        (rs ++ judgments p2d a rest, checked ++ keys) s
        (inner_round events i a rest s rs checked at_i ds fresh)
      ∙ outer-all_pairs events (suc i) rest (rs ++ judgments p2d a rest) (checked ++ keys)
          (drop-suc events i a rest at_i).1 ds.1
          (Unchecked-next a rest (ids (among s.found rest)) checked ds fresh)
      ∙ ap some (append_assoc rs (judgments p2d a rest) (all_pairs p2d rest))

-- For events with distinct mRIDs the indexed search raises no error, and its results, and their
-- order, are those of judging every pair, the earlier event first.
pub compute_supersession-all_pairs :
    (events : List EventRecord) (p2d : Dict String (List String))
    → Distinct (ids events)
    → compute_supersession events p2d ≡ some (all_pairs p2d events)
unfolding compute_supersession
compute_supersession-all_pairs events p2d ds =
    outer-all_pairs p2d events 0 events [] [] refl ds (λ y z _ _. unfold any in refl)
