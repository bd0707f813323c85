-- ===== src/Prelude/Sets.antt =====
-- Python's `set` and `frozenset`: lists, read through `contains`.
use mathlib.Core.Path.{◌≡◌, refl, sym}
use mathlib.Core.Logic.{inl, inr}
use mathlib.Core.Bool.{Bool, true, false, false≢true, not, ◌&&◌, ◌||◌}
use mathlib.Core.List.{List, [], ◌∷◌, ◌++◌}
use native.Mathlib.Omega.{arith}
use py.Prelude.Tests.{if◌then◌else◌, Bool-cases}
use py.Prelude.Lists.{is_empty, keep, all}
use py.Prelude.Equality.{Keyable, ◌==◌}

module _ {ℓ} {A : Type ℓ} ⦃key : Keyable A⦄ where
  -- `a in s`
  unfoldable pub contains : A → List A → Bool
  contains a [] = false
  contains a (x ∷ xs) = a == x || contains a xs

  -- `s.add(a)`
  unfoldable pub add : A → List A → List A
  add a xs = if contains a xs then xs else xs ++ a ∷ []

  -- `s | t`
  unfoldable pub union : List A → List A → List A
  union xs [] = xs
  union xs (y ∷ ys) = union (add y xs) ys

  -- `s & t`
  unfoldable pub inter : List A → List A → List A
  inter xs ys = keep (λ x. contains x ys) xs

  -- `s - t`
  unfoldable pub diff : List A → List A → List A
  diff xs ys = keep (λ x. not (contains x ys)) xs

  -- `s <= t`
  unfoldable pub subset : List A → List A → Bool
  subset xs ys = all (λ x. contains x ys) xs

  -- `s == t`
  unfoldable pub set_eq : List A → List A → Bool
  set_eq xs ys = subset xs ys && subset ys xs

  -- Each element stands once.
  abbrev pub Distinct : List A → Type 0
  Distinct [] = Unit
  Distinct (x ∷ xs) = (contains x xs ≡ false) × Distinct xs

  pub is_empty-contains : (xs : List A) → is_empty xs ≡ false → (x : A) × (contains x xs ≡ true)
  unfolding contains
  is_empty-contains [] h = absurd (false≢true (sym h))
  is_empty-contains (x ∷ xs) h = (x, ground (arith, key.same_iff x x))

  pub contains-is_empty : (x : A) (xs : List A) → contains x xs ≡ true → is_empty xs ≡ false
  unfolding contains
  contains-is_empty x [] h = sym h
  contains-is_empty x (y ∷ xs) h = refl

  pub contains-append :
      (a : A) (xs ys : List A) → contains a (xs ++ ys) ≡ (contains a xs || contains a ys)
  unfolding contains
  contains-append a [] ys = refl
  contains-append a (x ∷ xs) ys = ground (arith, contains-append a xs ys)

  contains-add_old :
      (a b : A) (xs : List A) → contains b xs ≡ true → contains a xs ≡ (a == b || contains a xs)
  contains-add_old a b xs h = elim (Bool-cases (a == b)) [
    | inl same ↦ rw (same, (key.same_iff a b).0 same) h
    | inr other ↦ rw other
  ]

  pub contains-snoc :
      (a b : A) (xs : List A) → contains a (xs ++ b ∷ []) ≡ (a == b || contains a xs)
  contains-snoc a b xs = rw contains-append (unfold contains in ground arith)

  pub contains-add : (a b : A) (xs : List A) → contains a (add b xs) ≡ (a == b || contains a xs)
  unfolding add
  contains-add a b xs = elim (Bool-cases (contains b xs)) [
    | inl h ↦ rw h (contains-add_old a b xs h)
    | inr h ↦ rw h (contains-snoc a b xs)
  ]

  pub contains-union :
      (a : A) (xs ys : List A) → contains a (union xs ys) ≡ (contains a xs || contains a ys)
  unfolding union contains
  contains-union a xs [] = ground arith
  contains-union a xs (y ∷ ys) = ground (arith, contains-union a (add y xs) ys, contains-add a y xs)

  pub contains-keep :
      (p : A → Bool) (a : A) (xs : List A) → contains a (keep p xs) ≡ (p a && contains a xs)
  unfolding contains keep
  contains-keep p a [] = ground arith
  contains-keep p a (x ∷ xs) = elim (Bool-cases (a == x)) [
    | inl same ↦
        rw ((key.same_iff a x).0 same) (ground (arith, contains-keep p x xs, key.same_iff x x))
    | inr other ↦ ground (arith, contains-keep p a xs)
  ]

  pub contains-inter :
      (a : A) (xs ys : List A) → contains a (inter xs ys) ≡ (contains a ys && contains a xs)
  unfolding inter
  contains-inter a xs ys = contains-keep (λ x. contains x ys) a xs

  pub contains-diff :
      (a : A) (xs ys : List A) → contains a (diff xs ys) ≡ (not (contains a ys) && contains a xs)
  unfolding diff
  contains-diff a xs ys = contains-keep (λ x. not (contains x ys)) a xs
