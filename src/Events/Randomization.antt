-- ===== src/Events/Randomization.antt =====
-- events/randomization.py: the random offsets of an event's start and duration, drawn once for each
-- mRID. `random.randint(0, m)` is an argument of the model, a function of `m` for each draw.
pub mod Laws
pub mod Tests
use py.Prelude.{
  ℕ, zero, suc, Bytes, bytes_key, Option, none, some, List, [], ◌∷◌, Bool, true, false, keep, map,
  length, if◌then◌else◌,
}
use py.Prelude.Int.{ℤ, pos, negsuc, neg_ℕ, ◌+ℤ◌, ltb_ℤ}
use py.Prelude.Dict
use py.Prelude.Dict.{Dict}
use py.Events.Control.{Dercontrol}

pub record RandomizationCache : Type 0 where
  pub cache : Dict Bytes (ℤ × ℤ)
  pub expiry : Dict Bytes ℤ

abbrev pub empty : RandomizationCache
empty = record { cache = []; expiry = [] }

-- Range [0, abs(value)], sign preserved.
unfoldable pub compute_offset : (ℕ → ℕ) → Option ℤ → ℤ
compute_offset randint none = pos 0
compute_offset randint (some (pos zero)) = pos 0
compute_offset randint (some (pos (suc n))) = pos (randint (suc n))
compute_offset randint (some (negsuc n)) = neg_ℕ (randint (suc n))

-- What the offsets of an event are drawn for.
pub record Randomized : Type 0 where
  pub m_rid : Bytes
  pub randomize_start : Option ℤ
  pub randomize_duration : Option ℤ

abbrev pub randomized : Dercontrol → Randomized
randomized event = record {
  m_rid = event.m_rid;
  randomize_start = event.randomize_start;
  randomize_duration = event.randomize_duration;
}

unfoldable pub get_offsets :
    (ℕ → ℕ) → (ℕ → ℕ) → Randomized → ℤ → ℤ → RandomizationCache → (ℤ × ℤ) × RandomizationCache
get_offsets draw_start draw_duration event start duration c = elim (Dict.get event.m_rid c.cache) [
  | some offsets ↦ (offsets, c)
  | none ↦
      let start_offset = compute_offset draw_start event.randomize_start in
      let dur_offset = compute_offset draw_duration event.randomize_duration in
      (
        (start_offset, dur_offset),
        record {
          cache = Dict.put event.m_rid (start_offset, dur_offset) c.cache;
          expiry = Dict.put event.m_rid (start +ℤ start_offset +ℤ duration +ℤ dur_offset) c.expiry;
        },
      )
]

unfoldable pub is_over : ℤ → ℤ → ℤ → Bool
is_over now grace end = ltb_ℤ (end +ℤ grace) now

-- `[mrid for mrid, end in self._expiry.items() if end + grace < now]`
unfoldable pub expired_keys : ℤ → ℤ → Dict Bytes ℤ → List Bytes
expired_keys now grace expiry = map (λ kv. kv.0) (keep (λ kv. is_over now grace kv.1) expiry)

-- The deletions of the loop; `none` is the KeyError of a key that a dict does not have.
unfoldable pub remove_keys : List Bytes → RandomizationCache → Option RandomizationCache
remove_keys [] c = some c
remove_keys (mrid ∷ mrids) c =
    let rest =
      remove_keys mrids
        (record { cache = Dict.delete mrid c.cache; expiry = Dict.delete mrid c.expiry }) in
    if Dict.has mrid c.cache then if Dict.has mrid c.expiry then rest else none else none

unfoldable pub prune : ℤ → ℤ → RandomizationCache → Option RandomizationCache
prune now grace c = remove_keys (expired_keys now grace c.expiry) c

unfoldable pub override_start_offset : Bytes → ℤ → ℤ → ℤ → RandomizationCache → RandomizationCache
override_start_offset mrid new_start_offset raw_start raw_duration c =
    elim (Dict.get mrid c.cache) [
      | none ↦ c
      | some (start_offset, dur_offset) ↦ record {
        cache = Dict.put mrid (new_start_offset, dur_offset) c.cache;
        expiry =
            Dict.put mrid (raw_start +ℤ new_start_offset +ℤ raw_duration +ℤ dur_offset) c.expiry;
      }
    ]

unfoldable pub len : RandomizationCache → ℕ
len c = length c.cache
