-- ===== src/Wire/NameLoop.antt =====
-- The loop of `read_name` ends: each round adds a label, of which there are at most 128, or jumps
-- back.
use py.Prelude.{
  ℕ, zero, suc, ◌+◌, ◌-◌, ◌*◌, ◌≤◌, ◌<◌, ◌≡◌, ◌≢◌, refl, Bytes, Option, none, some, List, [], ◌∷◌,
  Option-cases, inl, inr, length, get_elem?, drop, min, arith, length-append, length-take,
  length-drop,
}
use py.Wire.{
  Decoded, err, out_of_fuel, slice, NameState, NameStep, stop, next, name_step, read_length,
  follow_pointer, take_label, name_loop, start_at, name_fuel, read_name,
}
use py.Wire.Slices.{get_elem?-lt}

module _ (bytes : Bytes) where
  measure : NameState → ℕ
  measure s = (129 - length s.labels) * (length bytes + 1) + min s.offset (length bytes)

  -- What a round that goes on has done.
  record Advances (s s' : NameState) : Type 0 where
    few : length s'.labels ≤ 128
    smaller : measure s' < measure s

  label_room :
      (j o n : ℕ)
      → o + 1 + n ≤ length bytes
      → suc (j * (length bytes + 1) + min (o + 1 + n) (length bytes))
        ≤ suc j * (length bytes + 1) + min o (length bytes)
  label_room j o n h = grind arith

  follow_pointer-Advances :
      (n : ℕ) (s s' : NameState) (low : Option ℕ)
      → length s.labels ≤ 128
      → s.offset < length bytes
      → follow_pointer n s low ≡ next s'
      → Advances s s'
  unfolding follow_pointer measure
  follow_pointer-Advances n s s' none few o e = cc
  follow_pointer-Advances n s s' (some low) few o e = ground arith

  take_label-Advances :
      (n : ℕ) (s s' : NameState)
      → length s.labels ≤ 128
      → s.offset < length bytes
      → take_label bytes n s ≡ next s'
      → Advances s s'
  unfolding take_label measure
  take_label-Advances n s s' few o e =
      let label = slice bytes (s.offset + 1) n in
      ground (
        arith,
        length-append s.labels (label ∷ []),
        length-take n (drop (s.offset + 1) bytes),
        length-drop (s.offset + 1) bytes,
        label_room (128 - length s.labels) s.offset n,
      )

  name_step-Advances :
      (s s' : NameState) → length s.labels ≤ 128 → name_step bytes s ≡ next s' → Advances s s'
  unfolding name_step read_length
  name_step-Advances s s' few e = elim (Option-cases (get_elem? bytes s.offset)) [
    | inl none_left ↦ ground arith
    | inr (n, found) ↦
        let o = get_elem?-lt bytes s.offset n found in
        ground (
          arith,
          follow_pointer-Advances n s s' (get_elem? bytes (s.offset + 1)),
          take_label-Advances n s s',
        )
  ]

  name_step-stop :
      (s : NameState) {r : Decoded (List Bytes × ℕ)}
      → name_step bytes s ≡ stop r
      → r ≢ err out_of_fuel
  unfolding name_step read_length follow_pointer take_label
  name_step-stop s e = ground arith

  pub name_loop_stop :
      (fuel : ℕ) (s : NameState) (r : Decoded (List Bytes × ℕ))
      → name_step bytes s ≡ stop r
      → name_loop (suc fuel) bytes s ≡ r
  unfolding name_loop
  name_loop_stop fuel s r e = ground arith

  pub name_loop_next :
      (fuel : ℕ) (s s' : NameState)
      → name_step bytes s ≡ next s'
      → name_loop (suc fuel) bytes s ≡ name_loop fuel bytes s'
  unfolding name_loop
  name_loop_next fuel s s' e = ground arith

  name_loop-ends :
      (fuel : ℕ) (s : NameState)
      → length s.labels ≤ 128
      → measure s < fuel
      → name_loop fuel bytes s ≢ err out_of_fuel
  name_loop-ends zero s few m = absurd (omega arith)
  name_loop-ends (suc fuel) s few m = go (name_loop-ends fuel) (name_step bytes s) refl
    where
      go :
          ((s' : NameState)
            → length s'.labels ≤ 128
            → measure s' < fuel
            → name_loop fuel bytes s' ≢ err out_of_fuel)
          → (t : NameStep) → name_step bytes s ≡ t
          → name_loop (suc fuel) bytes s ≢ err out_of_fuel
      go rest (stop r) e = rw (name_loop_stop fuel s r e) (name_step-stop s e)
      go rest (next s') e =
          let a = name_step-Advances s s' few e in
          rw (name_loop_next fuel s s' e) (rest s' a.few (omega (arith, a.smaller)))

start_measure : (bytes : Bytes) (offset : ℕ) → measure bytes (start_at offset) < name_fuel bytes
unfolding measure
start_measure bytes offset = omega arith

-- `read_name` ends on every message, at every offset: the fuel of the model never runs out.
pub read_name-ends : (bytes : Bytes) (offset : ℕ) → read_name bytes offset ≢ err out_of_fuel
unfolding read_name
read_name-ends bytes offset =
    name_loop-ends bytes (name_fuel bytes) (start_at offset) (omega arith)
      (start_measure bytes offset)
