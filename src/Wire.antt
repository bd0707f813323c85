-- ===== src/Wire.antt =====
-- client/dnssd/wire.py: names, queries and responses of DNS-SD as bytes. Bit tests on a byte or a
-- word are written by `/` and `%`: `x & 0xC0` of a byte by `x / 64`, `x & 0x3F` by `x % 64`.
pub mod Slices
pub mod NameLoop
pub mod NameRoundTrip
pub mod Words
pub mod Messages
pub mod Query
pub mod Tests
use py.Prelude.{
  ℕ, zero, suc, ◌+◌, ◌-◌, ◌*◌, ◌/◌, ◌%◌, ◌<◌, nat_key, Bytes, Option, none, some, List, [], ◌∷◌,
  ◌++◌, Bool, true, false, not, ◌&&◌, ◌||◌, ◌==◌, ltb, leb, length, get_elem?, take, drop, min,
  if◌then◌else◌,
}

pub data DecodeError : Type 0 where
  name_past_end truncated_pointer forward_pointer reserved_label label_past_end : DecodeError
  too_many_labels header_short question_past_end question_section_past_end : DecodeError
  record_header_past_end record_data_past_end out_of_fuel : DecodeError

pub data Decoded {ℓ} (A : Type ℓ) : Type ℓ where
  ok : A → Decoded A
  err : DecodeError → Decoded A

infixl 5 ◌>>=◌
abbrev pub ◌>>=◌ {ℓ κ} : {A : Type ℓ} {B : Type κ} → Decoded A → (A → Decoded B) → Decoded B
ok a >>= f = f a
err e >>= f = err e

abbrev pub max_labels : ℕ
max_labels = 128

-- `data[a : a + n]`
abbrev pub slice : Bytes → ℕ → ℕ → Bytes
slice bytes a n = take n (drop a bytes)

-- `x.to_bytes(2, "big")` and `x.to_bytes(4, "big")`; `none` is the OverflowError.
unfoldable pub to_bytes2 : ℕ → Option Bytes
to_bytes2 x = if ltb x 65536 then some (x / 256 ∷ x % 256 ∷ []) else none

unfoldable pub to_bytes4 : ℕ → Option Bytes
to_bytes4 x =
    if ltb x 4294967296
    then some (x / 16777216 ∷ x / 65536 % 256 ∷ x / 256 % 256 ∷ x % 256 ∷ [])
    else none

-- `int.from_bytes(..., "big")`
unfoldable pub from_bytes : ℕ → Bytes → ℕ
from_bytes acc [] = acc
from_bytes acc (b ∷ bytes) = from_bytes (acc * 256 + b) bytes

-- The loop of `encode_name`; `none` is the ValueError of a label's length.
unfoldable pub encode_labels : List Bytes → Option Bytes
encode_labels [] = some []
encode_labels (label ∷ labels) =
    let rest = encode_labels labels in
    if ltb 0 (length label) && leb (length label) 63
    then elim rest [ none ↦ none | some out ↦ some (length label ∷ label ++ out) ]
    else none

unfoldable pub encode_name : List Bytes → Option Bytes
encode_name labels = elim (encode_labels labels) [
  | none ↦ none
  | some out ↦ if ltb 255 (length (out ++ 0 ∷ [])) then none else some (out ++ 0 ∷ [])
]

-- The variables of the loop of `read_name`.
pub record NameState : Type 0 where
  pub offset : ℕ
  pub labels : List Bytes
  pub end_offset : ℕ
  pub jumped : Bool

pub data NameStep : Type 0 where
  stop : Decoded (List Bytes × ℕ) → NameStep
  next : NameState → NameStep

-- `end_offset` is set by the first jump.
abbrev end_after : ℕ → NameState → ℕ
end_after here s = if s.jumped then s.end_offset else here

unfoldable pub follow_pointer : ℕ → NameState → Option ℕ → NameStep
follow_pointer length' s none = stop (err truncated_pointer)
follow_pointer length' s (some low) =
    let pointer = length' % 64 * 256 + low in
    if leb s.offset pointer
    then stop (err forward_pointer)
    else next
        (record s { offset = pointer; end_offset = end_after (s.offset + 2) s; jumped = true })

unfoldable pub take_label : Bytes → ℕ → NameState → NameStep
take_label bytes length' s =
    let label = slice bytes (s.offset + 1) length' in
    if not (length label == length')
    then stop (err label_past_end)
    else if ltb max_labels (length (s.labels ++ label ∷ []))
    then stop (err too_many_labels)
    else next (record s { offset = s.offset + 1 + length'; labels = s.labels ++ label ∷ [] })

unfoldable pub read_length : Bytes → NameState → ℕ → NameStep
read_length bytes s length' =
    if length' / 64 == 3
    then follow_pointer length' s (get_elem? bytes (s.offset + 1))
    else if not (length' / 64 == 0)
    then stop (err reserved_label)
    else if length' == 0
    then stop (ok (s.labels, end_after (s.offset + 1) s))
    else take_label bytes length' s

-- One round of the loop.
unfoldable pub name_step : Bytes → NameState → NameStep
name_step bytes s = elim (get_elem? bytes s.offset) [
  | none ↦ stop (err name_past_end)
  | some length' ↦ read_length bytes s length'
]

unfoldable pub name_loop : ℕ → Bytes → NameState → Decoded (List Bytes × ℕ)
name_loop zero bytes s = err out_of_fuel
name_loop (suc fuel) bytes s = elim (name_step bytes s) [
  | stop r ↦ r
  | next s' ↦ name_loop fuel bytes s'
]

abbrev start_at : ℕ → NameState
start_at offset = record { offset = offset; labels = []; end_offset = offset; jumped = false }

-- Enough rounds: one for each label there may be, times one for each place.
abbrev name_fuel : Bytes → ℕ
name_fuel bytes = (max_labels + 2) * (length bytes + 2)

unfoldable pub read_name : Bytes → ℕ → Decoded (List Bytes × ℕ)
read_name bytes offset = name_loop (name_fuel bytes) bytes (start_at offset)
