-- ===== src/Wire/Slices.antt =====
-- Reading in the middle of a list.
use py.Prelude.{
  ℕ, zero, suc, ◌+◌, ◌≡◌, ◌∙◌, refl, ap, sym, some, List, [], ◌∷◌, ◌++◌, length, get_elem?, take,
  drop, arith, take-append, length-append, drop-append, ◌<◌,
}
use mathlib.Core.List.{append_assoc}

module _ {ℓ} {A : Type ℓ} where
  pub get_elem?-append :
      (pre : List A) (x : A) (post : List A) → get_elem? (pre ++ x ∷ post) (length pre) ≡ some x
  get_elem?-append [] x post = refl
  get_elem?-append (y ∷ pre) x post = get_elem?-append pre x post

  pub get_elem?-lt : (xs : List A) (i : ℕ) (x : A) → get_elem? xs i ≡ some x → i < length xs
  get_elem?-lt [] i x h = cc
  get_elem?-lt (y ∷ xs) zero x h = omega arith
  get_elem?-lt (y ∷ xs) (suc i) x h = omega (arith, get_elem?-lt xs i x h)

  -- A part behind a prefix.
  pub slice-append :
      (pre mid post : List A) → take (length mid) (drop (length pre) (pre ++ (mid ++ post))) ≡ mid
  slice-append pre mid post =
      ap (take (length mid)) (drop-append pre (mid ++ post)) ∙ take-append mid post

  -- A part behind a prefix and one more element.
  pub slice_behind :
      (pre : List A) (x : A) (mid post : List A)
      → take (length mid) (drop (length pre + 1) (pre ++ x ∷ (mid ++ post))) ≡ mid
  slice_behind pre x mid post =
      ap (λ n. take (length mid) (drop n (pre ++ x ∷ (mid ++ post))))
        (sym (length-append pre (x ∷ [])))
      ∙ ap (λ l. take (length mid) (drop (length (pre ++ x ∷ [])) l))
          (sym (append_assoc pre (x ∷ []) (mid ++ post)))
      ∙ slice-append (pre ++ x ∷ []) mid post
