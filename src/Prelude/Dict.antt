-- ===== src/Prelude/Dict.antt =====
-- Python's `dict`: an association list in insertion order. A write to a key that is there keeps its
-- place; a new key goes to the end. In a dict that the program builds each key stands once.
use mathlib.Core.Path.{◌≡◌, refl}
use mathlib.Core.Bool.{Bool}
use mathlib.Core.Option.{Option, none, some}
use mathlib.Core.List.{List, [], ◌∷◌, map}
use native.Mathlib.Omega.{arith}
use mathlib.Core.Logic.{inl, inr}
use py.Prelude.Tests.{if◌then◌else◌, is_some, Bool-cases}
use py.Prelude.Lists.{All, In}
use py.Prelude.Equality.{Keyable, ◌==◌}

abbrev pub Dict {ℓ κ} : Type ℓ → Type κ → Type (ℓ ⊔ κ)
Dict K V = List (K × V)

module _ {ℓ κ} {K : Type ℓ} {V : Type κ} where
  abbrev pub keys : Dict K V → List K
  keys d = map (λ kv. kv.0) d

  abbrev pub values : Dict K V → List V
  values d = map (λ kv. kv.1) d

module _ {ℓ κ} {K : Type ℓ} {V : Type κ} ⦃key : Keyable K⦄ where
  -- `d.get(k)`
  unfoldable pub get : K → Dict K V → Option V
  get k [] = none
  get k ((j, v) ∷ d) = if j == k then some v else get k d

  -- `d.get(k, default)`
  unfoldable pub get_default : K → Dict K V → V → V
  get_default k d v = elim (get k d) [ none ↦ v | some w ↦ w ]

  -- `k in d`
  abbrev pub has : K → Dict K V → Bool
  has k d = is_some (get k d)

  -- `d[k] = v`
  unfoldable pub put : K → V → Dict K V → Dict K V
  put k v [] = (k, v) ∷ []
  put k v ((j, w) ∷ d) = if j == k then (j, v) ∷ d else (j, w) ∷ put k v d

  -- `del d[k]` and `d.pop(k, None)`, of every entry that the key has
  unfoldable pub delete : K → Dict K V → Dict K V
  delete k [] = []
  delete k ((j, v) ∷ d) = let rest = delete k d in if j == k then rest else (j, v) ∷ rest

  pub get-put :
      (k j : K) (v : V) (d : Dict K V) → get j (put k v d) ≡ (if k == j then some v else get j d)
  unfolding get put
  get-put k j v [] = refl
  get-put k j v ((i, w) ∷ d) =
      ground (arith, key.same_iff i k, key.same_iff i j, key.same_iff k j, get-put k j v d)

  pub get-delete :
      (k j : K) (d : Dict K V) → get j (delete k d) ≡ (if k == j then none else get j d)
  unfolding get delete
  get-delete k j [] = ground arith
  get-delete k j ((i, w) ∷ d) =
      ground (arith, key.same_iff i k, key.same_iff i j, key.same_iff k j, get-delete k j d)

  -- Each key stands once.
  abbrev pub IsDict : Dict K V → Type κ
  IsDict [] = Unit
  IsDict ((k, v) ∷ d) = (get k d ≡ none) × IsDict d

  pub put-IsDict : (k : K) (v : V) (d : Dict K V) → IsDict d → IsDict (put k v d)
  unfolding get put
  put-IsDict k v [] h = (refl, tt)
  put-IsDict k v ((j, w) ∷ d) h =
      ground (arith, key.same_iff j k, key.same_iff k j, get-put k j v d, put-IsDict k v d h.1)

  pub delete-IsDict : (k : K) (d : Dict K V) → IsDict d → IsDict (delete k d)
  unfolding get delete
  delete-IsDict k [] h = tt
  delete-IsDict k ((j, w) ∷ d) h =
      ground (arith, key.same_iff j k, key.same_iff k j, get-delete k j d, delete-IsDict k d h.1)

  pub get_default-put :
      (k j : K) (v w : V) (d : Dict K V)
      → get_default j (put k v d) w ≡ (if k == j then v else get_default j d w)
  unfolding get_default
  get_default-put k j v w d = ground (arith, get-put k j v d)

  pub In-values : (k : K) (v : V) (d : Dict K V) → get k d ≡ some v → In v (values d)
  unfolding get
  In-values k v [] e = cc
  In-values k v ((j, w) ∷ d) e = elim (Bool-cases (j == k)) [
    | inl same ↦ In.here (ground arith)
    | inr other ↦ In.there (In-values k v d (ground arith))
  ]

  -- The entries of a dict are what it has for their keys.
  pub get-All {κ'} :
      (P : K → V → Type κ') (d : Dict K V)
      → IsDict d
      → ((k : K) (v : V) → get k d ≡ some v → P k v)
      → All (λ kv. P kv.0 kv.1) d
  unfolding get
  get-All P [] h all = tt
  get-All P ((k, v) ∷ d) h all = (
    all k v (ground (arith, key.same_iff k k)),
    get-All P d h.1 (λ j w e. all j w (ground (arith, key.same_iff k j))),
  )

  pub values-All {κ'} :
      (P : V → Type κ') (d : Dict K V)
      → IsDict d
      → ((k : K) (v : V) → get k d ≡ some v → P v)
      → All P (values d)
  unfolding get
  values-All P [] h all = tt
  values-All P ((k, v) ∷ d) h all = (
    all k v (ground (arith, key.same_iff k k)),
    values-All P d h.1 (λ j w e. all j w (ground (arith, key.same_iff k j))),
  )

  -- What stands later in a dict is what the dict has.
  pub get-tail :
      (k j : K) (v w : V) (d : Dict K V)
      → get k d ≡ none
      → get j d ≡ some w
      → get j ((k, v) ∷ d) ≡ some w
  unfolding get
  get-tail k j v w d absent e = ground (arith, key.same_iff k j)
