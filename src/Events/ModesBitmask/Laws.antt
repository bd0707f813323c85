-- ===== src/Events/ModesBitmask/Laws.antt =====
-- What the bitmasks of events/modes_bitmask.py say.
use Prim.Native.Nat.{bit_or}
use py.Prelude.{
  ℕ, nat_key, ◌^◌, ◌<◌, max, String, Bytes, some, List, [], ◌∷◌, Bool, true, ◌&&◌, ◌==◌, any, all,
  length, ltb, ◌≡◌, refl, ◌∙◌, Option-cases, inl, inr, if◌then◌else◌, arith,
}
use py.Wire.{to_bytes4, from_bytes}
use py.Wire.Words.{from_bytes-to_bytes4}
use py.Events.Control.{DercontrolBase}
use py.Events.ModesBitmask.{is_set, field_to_bit, set_bits, build_modes_responded}
use py.Events.ModesBitmask.Bits.{digit, digit-bit_or, digit-pow, bit_or-lt, digit-zero, pow-lt}

-- Whether an entry of the table has the bit and its field is set.
unfoldable pub bit_is_set : (String → Bool) → ℕ → List (String × ℕ) → Bool
bit_is_set test i table = any (λ entry. entry.1 == i && test entry.0) table

set_bits-digit :
    (test : String → Bool) (i : ℕ) (table : List (String × ℕ)) (n : ℕ)
    → digit i (set_bits test table n) ≡ max (digit i n) (if bit_is_set test i table then 1 else 0)
unfolding set_bits bit_is_set any
set_bits-digit test i [] n = ground arith
set_bits-digit test i ((field, j) ∷ table) n = ground (
  arith,
  set_bits-digit test i table n,
  set_bits-digit test i table (bit_or n (2 ^ j)),
  digit-bit_or i n (2 ^ j),
  digit-pow i j,
)

set_bits-lt :
    (test : String → Bool) (w : ℕ) (table : List (String × ℕ)) (n : ℕ)
    → all (λ entry. ltb entry.1 w) table ≡ true
    → n < 2 ^ w
    → set_bits test table n < 2 ^ w
unfolding set_bits all
set_bits-lt test w [] n h p = p
set_bits-lt test w ((field, j) ∷ table) n h p =
    let next = if test field then bit_or n (2 ^ j) else n in
    let small : next < 2 ^ w = ground (arith, bit_or-lt w n (2 ^ j) p, pow-lt j w) in
    set_bits-lt test w table next (ground arith) small

packed :
    (n : ℕ)
    → n < 2 ^ 32
    → (out : Bytes) × (to_bytes4 n ≡ some out) × (length out ≡ 4) × (from_bytes 0 out ≡ n)
unfolding to_bytes4
packed n h = elim (Option-cases (to_bytes4 n)) [
  | inl e ↦ absurd (ground arith)
  | inr (out, e) ↦ let read = from_bytes-to_bytes4 n out e in (out, e, read.1, read.0)
]

positions : all (λ (entry : String × ℕ). ltb entry.1 32) field_to_bit ≡ true
unfolding all
positions = refl

starts_empty : (i : ℕ) (b : Bool) → max (digit i 0) (if b then 1 else 0) ≡ (if b then 1 else 0)
starts_empty i b = ground (arith, digit-zero i)

-- modesResponded is always built. It has four bytes, and a bit of it is set just when the field that
-- the table gives the bit to is set.
pub build_modes_responded_lem :
    (base : DercontrolBase)
    → (out : Bytes) × (build_modes_responded base ≡ some out)
      × (length out ≡ 4)
      × ((i : ℕ)
          → digit i (from_bytes 0 out) ≡ (if bit_is_set (is_set base) i field_to_bit then 1 else 0))
unfolding build_modes_responded
build_modes_responded_lem base =
    let n = set_bits (is_set base) field_to_bit 0 in
    let small = set_bits-lt (is_set base) 32 field_to_bit 0 positions (omega arith) in
    let (out, e, four, read) = packed n small in
    (
      out,
      e,
      four,
      λ i. rw read (
          set_bits-digit (is_set base) i field_to_bit 0
          ∙ starts_empty i (bit_is_set (is_set base) i field_to_bit)),
    )
