-- ===== src/Wire/NameRoundTrip.antt =====
-- A name that `encode_name` writes is read back by `read_name`, wherever it stands in a message.
use py.Prelude.{
  ℕ, zero, suc, ◌+◌, ◌*◌, ◌≤◌, ◌<◌, ◌≡◌, ◌∙◌, refl, ap, sym, Bytes, some, List, [], ◌∷◌, ◌++◌,
  Option-cases, inl, inr, false, length, arith, length-append,
}
use mathlib.Core.Path.{ap₂}
use mathlib.Core.List.{append-nil, append_assoc}
use py.Wire.{
  ok, encode_labels, encode_name, NameState, stop, next, name_step, read_length, take_label,
  name_loop, start_at, name_fuel, read_name,
}
use py.Wire.NameLoop.{name_loop_stop, name_loop_next}
use py.Wire.Slices.{get_elem?-append, slice_behind}

-- The bytes of the labels, without the checks.
flat : List Bytes → Bytes
flat [] = []
flat (label ∷ labels) = length label ∷ (label ++ flat labels)

-- Each label has 1 to 63 bytes.
AllShort : List Bytes → Type 0
AllShort [] = Unit
AllShort (label ∷ labels) = (0 < length label) × (length label ≤ 63) × AllShort labels

encode_labels_cons :
    (label : Bytes) (labels : List Bytes) (out : Bytes)
    → ((o : Bytes) → encode_labels labels ≡ some o → (o ≡ flat labels) × AllShort labels)
    → encode_labels (label ∷ labels) ≡ some out
    → (out ≡ flat (label ∷ labels)) × AllShort (label ∷ labels)
unfolding encode_labels flat AllShort
encode_labels_cons label labels out ih h = elim (Option-cases (encode_labels labels)) [
  | inl e ↦ ground arith
  | inr (o, e) ↦ let (same, short) = ih o e in ground arith
]

encode_labels-flat :
    (labels : List Bytes) (out : Bytes)
    → encode_labels labels ≡ some out
    → (out ≡ flat labels) × AllShort labels
unfolding encode_labels flat AllShort
encode_labels-flat [] out h = (cc, tt)
encode_labels-flat (label ∷ labels) out h =
    encode_labels_cons label labels out (encode_labels-flat labels) h

-- There are at most half as many labels as bytes.
length-flat : (labels : List Bytes) → AllShort labels → 2 * length labels ≤ length (flat labels)
unfolding flat AllShort
length-flat [] h = omega arith
length-flat (label ∷ labels) h =
    omega (arith, length-append label (flat labels), length-flat labels h.2, h.0)

label_step :
    (pre label rest : Bytes) (s : NameState)
    → s.offset ≡ length pre
    → 0 < length label
    → length label ≤ 63
    → length s.labels < 128
    → name_step (pre ++ length label ∷ (label ++ rest)) s
      ≡ next (record s { offset = s.offset + 1 + length label; labels = s.labels ++ label ∷ [] })
unfolding name_step read_length take_label
label_step pre label rest s here pos short few = ground (
  arith,
  get_elem?-append pre (length label) (label ++ rest),
  slice_behind pre (length label) label rest,
  length-append s.labels (label ∷ []),
)

end_step :
    (pre rest : Bytes) (s : NameState)
    → s.offset ≡ length pre
    → s.jumped ≡ false
    → name_step (pre ++ 0 ∷ rest) s ≡ stop (ok (s.labels, s.offset + 1))
unfolding name_step read_length
end_step pre rest s here plain = ground (arith, get_elem?-append pre 0 rest)

-- The loop reads the labels that are left, and the end.
read_flat :
    (labels : List Bytes) (fuel : ℕ) (pre post : Bytes) (s : NameState)
    → AllShort labels
    → s.offset ≡ length pre
    → s.jumped ≡ false
    → length s.labels + length labels ≤ 128
    → length labels < fuel
    → name_loop fuel (pre ++ (flat labels ++ 0 ∷ post)) s
      ≡ ok (s.labels ++ labels, s.offset + length (flat labels) + 1)
unfolding flat AllShort
read_flat labels zero pre post s short here plain few m = absurd (omega arith)
read_flat [] (suc fuel) pre post s short here plain few m =
    name_loop_stop (pre ++ 0 ∷ post) fuel s (ok (s.labels, s.offset + 1))
      (end_step pre post s here plain)
    ∙ ap₂ (λ x y. ok (x, y)) (sym (append-nil s.labels)) (omega arith)
read_flat (label ∷ labels) (suc fuel) pre post s short here plain few m =
    let tail = flat labels ++ 0 ∷ post in
    let read = pre ++ length label ∷ label in
    let s' : NameState = record s {
      offset = s.offset + 1 + length label;
      labels = s.labels ++ label ∷ [];
    } in
    ap (λ l. name_loop (suc fuel) (pre ++ length label ∷ l) s)
      (append_assoc label (flat labels) (0 ∷ post))
    ∙ name_loop_next (pre ++ length label ∷ (label ++ tail)) fuel s s'
        (label_step pre label tail s here short.0 short.1 (omega arith))
    ∙ ap (λ l. name_loop fuel l s') (sym (append_assoc pre (length label ∷ label) tail))
    ∙ read_flat labels fuel read post s' short.2
        (omega (arith, length-append pre (length label ∷ label))) plain
        (omega (arith, length-append s.labels (label ∷ []))) (omega arith)
    ∙ ap₂ (λ x y. ok (x, y)) (append_assoc s.labels (label ∷ []) labels)
        (omega (arith, length-append label (flat labels)))

encode_name_inv :
    (labels : List Bytes) (out : Bytes)
    → encode_name labels ≡ some out
    → (out ≡ flat labels ++ 0 ∷ []) × AllShort labels × (length out ≤ 255)
unfolding encode_name
encode_name_inv labels out h = elim (Option-cases (encode_labels labels)) [
  | inl e ↦ ground arith
  | inr (o, e) ↦ let (same, short) = encode_labels-flat labels o e in ground arith
]

-- A name that is encoded at all is read back, at its place in any message, with the offset behind it.
pub read_name-encode_name :
    (labels : List Bytes) (out pre post : Bytes)
    → encode_name labels ≡ some out
    → read_name (pre ++ (out ++ post)) (length pre) ≡ ok (labels, length pre + length out)
unfolding read_name
read_name-encode_name labels out pre post h =
    let (same, short, fits) = encode_name_inv labels out h in
    let size = ap length same ∙ length-append (flat labels) (0 ∷ []) in
    let few = length-flat labels short in
    let whole =
      ap (λ o. pre ++ (o ++ post)) same
      ∙ ap (λ l. pre ++ l) (append_assoc (flat labels) (0 ∷ []) post) in
    ap (λ l. name_loop (name_fuel l) l (start_at (length pre))) whole
    ∙ read_flat labels (name_fuel (pre ++ (flat labels ++ 0 ∷ post))) pre post
        (start_at (length pre)) short refl refl (omega arith) (omega arith)
    ∙ ap (λ n. ok (labels, n)) (omega arith)
