-- ===== src/Events/Supersession/Visits.antt =====
-- The inner loop of `compute_supersession`: the pairs of one event with later ones, each judged once.
use py.Prelude.{
  ℕ, zero, suc, ◌≡◌, ◌∙◌, ◌≢◌, sym, refl, ap, String, string_key, Bytes, bytes_key, some, List, [],
  ◌∷◌, ◌++◌, map, Bool, true, false, Bool-cases, inl, inr, ◌⊎◌, any, keep, drop, get_elem?,
  any-snoc, arith, bytes_beq_iff,
}
use mathlib.Core.Path.{ap₂}
use mathlib.Core.List.{append-nil, append_assoc}
use py.Prelude.Dict.{Dict}
use py.Prelude.Sets
use py.Prelude.Sets.{Distinct}
use py.Events.Store.{EventRecord}
use py.Events.Supersession.{
  SupersessionResult, bytes_lt, pair_key, pair_beq, judge, Progress, visit, inner,
}
use py.Events.Supersession.Index.{targets}

bytes_lt-asym : (a b : Bytes) → bytes_lt a b ≡ true → bytes_lt b a ≡ false
unfolding bytes_lt
bytes_lt-asym [] [] h = refl
bytes_lt-asym [] (b ∷ bs) h = refl
bytes_lt-asym (a ∷ as') [] h = cc
bytes_lt-asym (a ∷ as') (b ∷ bs) h = ground (arith, bytes_lt-asym as' bs)

bytes_lt-total : (a b : Bytes) → bytes_lt a b ≡ false → bytes_lt b a ≡ false → a ≡ b
unfolding bytes_lt
bytes_lt-total [] [] h k = refl
bytes_lt-total [] (b ∷ bs) h k = cc
bytes_lt-total (a ∷ as') [] h k = cc
bytes_lt-total (a ∷ as') (b ∷ bs) h k = ground (arith, bytes_lt-total as' bs)

-- The key of a pair forgets the order and nothing else.
pub pair_key-eq :
    (a b x y : Bytes)
    → pair_beq (pair_key a b) (pair_key x y) ≡ true
    → (a ≡ x) × (b ≡ y) ⊎ (a ≡ y) × (b ≡ x)
unfolding pair_key pair_beq
pair_key-eq a b x y h = ground (
  arith,
  bytes_lt-asym a b,
  bytes_lt-total a b,
  bytes_lt-asym x y,
  bytes_lt-total x y,
  bytes_beq_iff a x,
  bytes_beq_iff a y,
  bytes_beq_iff b x,
  bytes_beq_iff b y,
)

abbrev pub ids : List EventRecord → List Bytes
ids es = map (λ e. e.mrid) es

-- The events whose programs are in a set.
abbrev pub among : List String → List EventRecord → List EventRecord
among ps es = keep (λ e. Sets.contains e.program_href ps) es

abbrev pub keys_with : Bytes → List Bytes → List (Bytes × Bytes)
keys_with a bs = map (pair_key a) bs

abbrev pub is_checked : Bytes → Bytes → List (Bytes × Bytes) → Bool
is_checked a b checked = any (pair_beq (pair_key a b)) checked

pub drop-suc {ℓ} :
    {A : Type ℓ} (xs : List A) (k : ℕ) (y : A) (ys : List A)
    → drop k xs ≡ y ∷ ys
    → (get_elem? xs k ≡ some y) × (drop (suc k) xs ≡ ys)
drop-suc [] zero y ys h = cc
drop-suc [] (suc k) y ys h = cc
drop-suc (x ∷ xs) zero y ys h = (cc, cc)
drop-suc (x ∷ xs) (suc k) y ys h = drop-suc xs k y ys h

unchecked_snoc :
    (a z b : Bytes) (checked : List (Bytes × Bytes))
    → is_checked a z checked ≡ false
    → z ≢ b
    → is_checked a z (checked ++ pair_key a b ∷ []) ≡ false
unchecked_snoc a z b checked h ne =
    ground (arith, any-snoc (pair_beq (pair_key a z)) checked (pair_key a b), pair_key-eq a z a b)

absurd_at :
    (z b : Bytes) (bs : List Bytes)
    → z ≡ b
    → Sets.contains z bs ≡ true
    → Sets.contains b bs ≡ false
    → ⊥
absurd_at z b bs e m n = cc

module _ (p2d : Dict String (List String)) (a : EventRecord) where
  unfoldable pub judgments : List EventRecord → List SupersessionResult
  judgments [] = []
  judgments (b ∷ bs) = judge p2d a b ++ judgments bs

  unfoldable pub visit_all : List EventRecord → Progress → Progress
  visit_all [] p = p
  visit_all (b ∷ bs) p = visit_all bs (visit p2d a b p)

  inner_step :
      (events : List EventRecord) (j : ℕ) (js : List ℕ) (b : EventRecord) (p : Progress)
      → get_elem? events j ≡ some b
      → inner p2d events a (j ∷ js) p ≡ inner p2d events a js (visit p2d a b p)
  unfolding inner
  inner_step events j js b p e = ground arith

  pub inner-targets :
      (events : List EventRecord) (ps : List String) (k : ℕ) (es : List EventRecord) (p : Progress)
      → drop k events ≡ es
      → inner p2d events a (targets ps k es) p ≡ some (visit_all (among ps es) p)
  unfolding targets keep visit_all
  inner-targets events ps k [] p h = unfold inner in refl
  inner-targets events ps k (e ∷ es) p h =
      let (found, next) = drop-suc events k e es h in
      elim (Bool-cases (Sets.contains e.program_href ps)) [
        | inl m ↦ rw m (
            inner_step events k (targets ps (suc k) es) e p found
            ∙ inner-targets events ps (suc k) es (visit p2d a e p) next)
        | inr m ↦ rw m (inner-targets events ps (suc k) es p next)
      ]

  visit_fresh :
      (b : EventRecord) (rs : List SupersessionResult) (checked : List (Bytes × Bytes))
      → is_checked a.mrid b.mrid checked ≡ false
      → visit p2d a b (rs, checked) ≡ (rs ++ judge p2d a b, checked ++ pair_key a.mrid b.mrid ∷ [])
  unfolding visit
  visit_fresh b rs checked h = rw h

  -- With distinct mRIDs no pair was checked before: every judgment is appended.
  pub visit_all_lem :
      (bs : List EventRecord) (rs : List SupersessionResult) (checked : List (Bytes × Bytes))
      → Sets.contains a.mrid (ids bs) ≡ false
      → Distinct (ids bs)
      → ((z : Bytes) → Sets.contains z (ids bs) ≡ true → is_checked a.mrid z checked ≡ false)
      → visit_all bs (rs, checked) ≡ (rs ++ judgments bs, checked ++ keys_with a.mrid (ids bs))
  unfolding visit_all judgments Sets.contains
  visit_all_lem [] rs checked new ds fresh =
      ap₂ (λ x y. (x, y)) (sym (append-nil rs)) (sym (append-nil checked))
  visit_all_lem (b ∷ bs) rs checked new ds fresh =
      let key = pair_key a.mrid b.mrid in
      ap (visit_all bs)
        (visit_fresh b rs checked (fresh b.mrid (ground (arith, bytes_beq_iff b.mrid b.mrid))))
      ∙ visit_all_lem bs (rs ++ judge p2d a b) (checked ++ key ∷ []) (ground arith) ds.1 (λ z m.
        unchecked_snoc a.mrid z b.mrid checked (fresh z (ground arith))
          (λ e. absurd_at z b.mrid (ids bs) e m ds.0))
      ∙ ap₂ (λ x y. (x, y)) (append_assoc rs (judge p2d a b) (judgments bs))
          (append_assoc checked (key ∷ []) (keys_with a.mrid (ids bs)))

-- Pairs of two other events stay unchecked when the pairs with `a` are noted.
pub unchecked_keys_with :
    (a y z : Bytes) (bs : List Bytes) (checked : List (Bytes × Bytes))
    → y ≢ a
    → z ≢ a
    → is_checked y z checked ≡ false
    → is_checked y z (checked ++ keys_with a bs) ≡ false
unchecked_keys_with a y z [] checked ny nz h = rw append-nil h
unchecked_keys_with a y z (b ∷ bs) checked ny nz h =
    rw (← append_assoc checked (pair_key a b ∷ []) (keys_with a bs)) (
      unchecked_keys_with a y z bs (checked ++ pair_key a b ∷ []) ny nz (
        ground
          (arith, any-snoc (pair_beq (pair_key y z)) checked (pair_key a b), pair_key-eq y z a b)))
