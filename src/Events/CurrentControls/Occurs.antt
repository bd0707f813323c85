-- ===== src/Events/CurrentControls/Occurs.antt =====
-- What the test `m in k` of two texts in events/current_controls.py is true of.
use py.Prelude.{
  nat_key, Bytes, List, [], ◌∷◌, ◌++◌, true, ◌==◌, ==→eq, ==-refl, ◌≡◌, refl, sym, ◌∙◌, ap, inl,
  inr, any, Bool-cases, arith, In, here, there,
}
use py.Events.CurrentControls.{starts_with, occurs_in, named_by}

-- The text is somewhere in the other, with any texts before and after it.
pub Within : Bytes → Bytes → Type 0
Within m t = (before : Bytes) × (after : Bytes) × (t ≡ before ++ m ++ after)

-- One of the modes is somewhere in the name of the method.
pub Named : List Bytes → Bytes → Type 0
Named mode_names method = (m : Bytes) × In m mode_names × Within m method

starts_with-append : (m after : Bytes) → starts_with m (m ++ after) ≡ true
unfolding starts_with
starts_with-append [] after = refl
starts_with-append (c ∷ m) after = ground (arith, ==-refl c, starts_with-append m after)

starts_with_split : (m t : Bytes) → starts_with m t ≡ true → (after : Bytes) × (t ≡ m ++ after)
unfolding starts_with
starts_with_split [] t h = (t, refl)
starts_with_split (c ∷ m) [] h = ground arith
starts_with_split (c ∷ m) (d ∷ t) h =
    let first : (c == d) ≡ true = ground arith in
    let (after, e) = starts_with_split m t (ground arith) in
    (after, ap (λ (r : Bytes). d ∷ r) e ∙ ap (λ x. x ∷ m ++ after) (sym (==→eq c d first)))

occurs_in-append : (before m after : Bytes) → occurs_in m (before ++ m ++ after) ≡ true
unfolding occurs_in starts_with
occurs_in-append [] [] [] = refl
occurs_in-append [] [] (d ∷ after) = refl
occurs_in-append [] (c ∷ m) after = ground (arith, starts_with-append (c ∷ m) after)
occurs_in-append (d ∷ before) m after = ground (arith, occurs_in-append before m after)

occurs_in_split : (m t : Bytes) → occurs_in m t ≡ true → Within m t
unfolding occurs_in Within
occurs_in_split m [] h = let (after, e) = starts_with_split m [] h in ([], after, e)
occurs_in_split m (d ∷ t) h = elim (Bool-cases (starts_with m (d ∷ t))) [
  | inl at ↦ let (after, e) = starts_with_split m (d ∷ t) at in ([], after, e)
  | inr later ↦
      let (before, after, e) = occurs_in_split m t (ground (arith, h, later)) in
      (d ∷ before, after, ap (λ (r : Bytes). d ∷ r) e)
]

-- The code's test holds where a mode is in the name of the method.
pub named_by-Named :
    (mode_names : List Bytes) (method : Bytes)
    → named_by mode_names method ≡ true
    → Named mode_names method
unfolding named_by any Named
named_by-Named [] method h = ground arith
named_by-Named (m ∷ mode_names) method h = elim (Bool-cases (occurs_in m method)) [
  | inl found ↦ (m, here refl, occurs_in_split m method found)
  | inr missing ↦
      let (n, i, at) = named_by-Named mode_names method (ground (arith, h, missing)) in
      (n, there i, at)
]

pub Named-named_by :
    (mode_names : List Bytes) (method : Bytes)
    → Named mode_names method
    → named_by mode_names method ≡ true
unfolding named_by any Named Within
Named-named_by [] method (n, i, at) = elim i [ ]
Named-named_by (m ∷ mode_names) method (n, here same, at) =
    let (before, after, e) = at in
    let found : occurs_in n method ≡ true = rw e (occurs_in-append before n after) in
    rw same (ground (arith, found))
Named-named_by (m ∷ mode_names) method (n, there i, at) =
    ground (arith, Named-named_by mode_names method (n, i, at))
