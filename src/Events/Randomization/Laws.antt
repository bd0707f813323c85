-- ===== src/Events/Randomization/Laws.antt =====
-- The offsets are drawn once, stay in their range, and are pruned without an error.
use py.Prelude.{
  ℕ, zero, suc, ◌≤◌, ◌≡◌, ◌∙◌, refl, Bytes, bytes_key, bytes_beq_iff, Option, none, some, List, [],
  ◌∷◌, true, false, keep, Option-cases, inl, inr, arith, if◌then◌else◌,
}
use py.Prelude.Int.{ℤ, pos, negsuc, magnitude, pos_part, neg_part}
use py.Prelude.Dict
use py.Prelude.Dict.{IsDict, put-IsDict, delete-IsDict, get-put, get-delete}
use py.Prelude.Sets
use py.Prelude.Sets.{Distinct}
use py.Events.Randomization.{
  RandomizationCache, Randomized, compute_offset, get_offsets, is_over, expired_keys, remove_keys,
  prune, override_start_offset,
}

-- An offset has at most the magnitude of its field, and the field's sign; no field, no offset.
pub compute_offset_bounds :
    (randint : ℕ → ℕ) (value : ℤ)
    → ((m : ℕ) → randint m ≤ m)
    → (magnitude (compute_offset randint (some value)) ≤ magnitude value)
      × (pos_part (compute_offset randint (some value)) ≤ pos_part value)
      × (neg_part (compute_offset randint (some value)) ≤ neg_part value)
      × (compute_offset randint none ≡ pos 0)
unfolding compute_offset
compute_offset_bounds randint (pos zero) h = (omega arith, omega arith, omega arith, refl)
compute_offset_bounds randint (pos (suc n)) h = (h (suc n), h (suc n), omega arith, refl)
compute_offset_bounds randint (negsuc n) h =
    (ground (arith, h (suc n)), ground (arith, h (suc n)), ground (arith, h (suc n)), refl)

get_offsets_known :
    (r₁ r₂ : ℕ → ℕ) (event : Randomized) (s d : ℤ) (c : RandomizationCache) (o : ℤ × ℤ)
    → Dict.get event.m_rid c.cache ≡ some o
    → get_offsets r₁ r₂ event s d c ≡ (o, c)
unfolding get_offsets
get_offsets_known r₁ r₂ event s d c o e = ground arith

get_offsets_caches :
    (r₁ r₂ : ℕ → ℕ) (event : Randomized) (s d : ℤ) (c : RandomizationCache)
    → Dict.get event.m_rid (get_offsets r₁ r₂ event s d c).1.cache
      ≡ some (get_offsets r₁ r₂ event s d c).0
unfolding get_offsets
get_offsets_caches r₁ r₂ event s d c =
    let o : ℤ × ℤ =
      (compute_offset r₁ event.randomize_start, compute_offset r₂ event.randomize_duration) in
    ground (arith, get-put event.m_rid event.m_rid o c.cache, bytes_beq_iff event.m_rid event.m_rid)

-- The offsets of an event stay what they were when it was first seen, whatever is drawn later and
-- whatever the server sends under the same mRID.
pub get_offsets_stable :
    (r₁ r₂ r₃ r₄ : ℕ → ℕ) (event later : Randomized) (s d s' d' : ℤ) (c : RandomizationCache)
    → event.m_rid ≡ later.m_rid
    → get_offsets r₃ r₄ later s' d' (get_offsets r₁ r₂ event s d c).1
      ≡ get_offsets r₁ r₂ event s d c
get_offsets_stable r₁ r₂ r₃ r₄ event later s d s' d' c e =
    let now = get_offsets r₁ r₂ event s d c in
    get_offsets_known r₃ r₄ later s' d' now.1 now.0
      (rw (← e) (get_offsets_caches r₁ r₂ event s d c))

-- Both dicts have the same keys, each once.
pub record InStep (c : RandomizationCache) : Type 0 where
  pub distinct : IsDict c.expiry
  pub same_keys : (m : Bytes) → Dict.has m c.cache ≡ Dict.has m c.expiry

put_both :
    (mrid : Bytes) (o : ℤ × ℤ) (end : ℤ) (c : RandomizationCache)
    → InStep c
    → InStep (record { cache = Dict.put mrid o c.cache; expiry = Dict.put mrid end c.expiry })
put_both mrid o end c h = record {
  distinct = put-IsDict mrid end c.expiry h.distinct;
  same_keys = λ m.
      rw (get-put mrid m o c.cache, get-put mrid m end c.expiry) (ground (arith, h.same_keys m));
}

pub get_offsets-InStep :
    (r₁ r₂ : ℕ → ℕ) (event : Randomized) (s d : ℤ) (c : RandomizationCache)
    → InStep c
    → InStep (get_offsets r₁ r₂ event s d c).1
unfolding get_offsets
get_offsets-InStep r₁ r₂ event s d c h = elim (Option-cases (Dict.get event.m_rid c.cache)) [
  | inl new ↦ rw (new, get_offsets) (put_both event.m_rid _ _ c h)
  | inr (o, old) ↦ rw (old, get_offsets) h
]

pub override-InStep :
    (mrid : Bytes) (new raw_start raw_duration : ℤ) (c : RandomizationCache)
    → InStep c
    → InStep (override_start_offset mrid new raw_start raw_duration c)
unfolding override_start_offset
override-InStep mrid new raw_start raw_duration c h = elim (Option-cases (Dict.get mrid c.cache)) [
  | inl e ↦ rw (e, override_start_offset) h
  | inr (o, e) ↦ rw (e, override_start_offset) (put_both mrid _ _ c h)
]

-- What the deletion of some keys leaves.
pub record Removed (ks : List Bytes) (c : RandomizationCache) : Type 0 where
  pub result : RandomizationCache
  pub returns : remove_keys ks c ≡ some result
  pub in_step : InStep result
  pub left :
      (m : Bytes)
      → Dict.get m result.cache ≡ (if Sets.contains m ks then none else Dict.get m c.cache)

remove_one :
    (k : Bytes) (ks : List Bytes) (c : RandomizationCache)
    → Dict.has k c.cache ≡ true
    → Dict.has k c.expiry ≡ true
    → remove_keys (k ∷ ks) c
      ≡ remove_keys ks (record { cache = Dict.delete k c.cache; expiry = Dict.delete k c.expiry })
unfolding remove_keys
remove_one k ks c h l = rw (h, l)

delete_both :
    (k : Bytes) (c : RandomizationCache)
    → InStep c
    → InStep (record { cache = Dict.delete k c.cache; expiry = Dict.delete k c.expiry })
delete_both k c h = record {
  distinct = delete-IsDict k c.expiry h.distinct;
  same_keys =
      λ m. rw (get-delete k m c.cache, get-delete k m c.expiry) (ground (arith, h.same_keys m));
}

has-delete_ne :
    (k m : Bytes) (d : Dict.Dict Bytes ℤ) (ks : List Bytes)
    → Sets.contains k ks ≡ false
    → Sets.contains m ks ≡ true
    → Dict.has m d ≡ true
    → Dict.has m (Dict.delete k d) ≡ true
has-delete_ne k m d ks out inside h = rw (get-delete k m d) (ground (arith, bytes_beq_iff k m))

remove_keys-Removed :
    (ks : List Bytes) (c : RandomizationCache)
    → InStep c
    → Distinct ks
    → ((m : Bytes) → Sets.contains m ks ≡ true → Dict.has m c.expiry ≡ true)
    → Removed ks c
unfolding Sets.contains
remove_keys-Removed [] c h ds all = record {
  result = c;
  returns = unfold remove_keys in refl;
  in_step = h;
  left = λ m. refl;
}
remove_keys-Removed (k ∷ ks) c h ds all =
    let known = all k (ground (arith, bytes_beq_iff k k)) in
    let c' : RandomizationCache = record {
      cache = Dict.delete k c.cache;
      expiry = Dict.delete k c.expiry;
    } in
    let rest =
      remove_keys-Removed ks c' (delete_both k c h) ds.1
        (λ m inside. has-delete_ne k m c.expiry ks ds.0 inside (all m (ground arith))) in
    record {
      result = rest.result;
      returns = remove_one k ks c (h.same_keys k ∙ known) known ∙ rest.returns;
      in_step = rest.in_step;
      left = λ m.
          rest.left m
          ∙ rw (get-delete k m c.cache) (ground (arith, bytes_beq_iff k m, bytes_beq_iff m k));
    }

module _ (now grace : ℤ) where
  expired_absent :
      (k : Bytes) (d : Dict.Dict Bytes ℤ)
      → Dict.get k d ≡ none
      → Sets.contains k (expired_keys now grace d) ≡ false
  unfolding expired_keys keep Dict.get Sets.contains
  expired_absent k [] h = refl
  expired_absent k ((j, end) ∷ d) h =
      ground (arith, expired_absent k d, bytes_beq_iff j k, bytes_beq_iff k j)

  expired_keys-Distinct : (d : Dict.Dict Bytes ℤ) → IsDict d → Distinct (expired_keys now grace d)
  unfolding expired_keys keep
  expired_keys-Distinct [] h = tt
  expired_keys-Distinct ((j, end) ∷ d) h =
      ground (arith, expired_keys-Distinct d h.1, expired_absent j d h.0)

  -- In a dict the expired keys are those that a lookup finds to be over.
  expired_keys-contains :
      (d : Dict.Dict Bytes ℤ) (m : Bytes)
      → IsDict d
      → Sets.contains m (expired_keys now grace d)
        ≡ elim (Dict.get m d) [ none ↦ false | some end ↦ is_over now grace end ]
  unfolding expired_keys keep Dict.get Sets.contains
  expired_keys-contains [] m h = refl
  expired_keys-contains ((j, end) ∷ d) m h = ground (
    arith,
    expired_keys-contains d m h.1,
    expired_absent j d h.0,
    bytes_beq_iff j m,
    bytes_beq_iff m j,
  )

  -- Pruning a cache whose two dicts are in step raises no KeyError, keeps them in step, and forgets
  -- the offsets of exactly the events that are over.
  pub prune_lem :
      (c : RandomizationCache)
      → InStep c
      → (c' : RandomizationCache) × (prune now grace c ≡ some c')
        × InStep c'
        × ((m : Bytes)
            → Dict.get m c'.cache ≡ (
                if elim (Dict.get m c.expiry) [ none ↦ false | some end ↦ is_over now grace end ]
                then none
                else Dict.get m c.cache))
  prune_lem c h =
      let r =
        remove_keys-Removed (expired_keys now grace c.expiry) c h
          (expired_keys-Distinct c.expiry h.distinct)
          (λ m inside. known m (Dict.get m c.expiry) refl inside) in
      (
        r.result,
        unfold prune in r.returns,
        r.in_step,
        λ m. rw (← expired_keys-contains c.expiry m h.distinct) (r.left m),
      )
    where
      known :
          (m : Bytes) (o : Option ℤ)
          → Dict.get m c.expiry ≡ o
          → Sets.contains m (expired_keys now grace c.expiry) ≡ true
          → Dict.has m c.expiry ≡ true
      known m o e inside = ground (arith, expired_keys-contains c.expiry m h.distinct)
