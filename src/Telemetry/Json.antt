-- ===== src/Telemetry/Json.antt =====
-- What `json` reads and writes, and the methods of Python's `dict` and `bytes` that
-- telemetry/checkpoint.py calls on it.
pub mod Hex
use py.Prelude.{
  ℕ, Bytes, bytes_key, String, Option, none, some, List, [], ◌∷◌, Bool, true, false, ◌+◌, ◌-◌, ◌/◌,
  ◌%◌, ◌*◌, ◌==◌, ◌&&◌, ◌||◌, leb, length, suc, if◌then◌else◌, nat_beq,
}
use py.Prelude.Int.{ℤ, pos, negsuc}
use py.Prelude.Text.{text}

-- What `json` reads and writes. `real` is a number with a fraction, by how it is written.
mutual
  pub data Json : Type 0 where
    null : Json
    boolean : Bool → Json
    number : ℤ → Json
    real : Bytes → Json
    words : Bytes → Json
    array : Items → Json
    object : Fields → Json

  pub data Items : Type 0 where
    no_items : Items
    item : Json → Items → Items

  pub data Fields : Type 0 where
    no_fields : Fields
    field : Bytes → Json → Fields → Fields

-- `data[name]`
unfoldable pub lookup : Bytes → Fields → Option Json
lookup name no_fields = none
lookup name (field key value fields) =
    let rest = lookup name fields in if key == name then some value else rest

-- `data.get(name)`
unfoldable pub lookup_or_null : Bytes → Fields → Json
lookup_or_null name fields = elim (lookup name fields) [ none ↦ null | some value ↦ value ]

unfoldable pub hex_digit : ℕ → ℕ
hex_digit n = if leb n 9 then 48 + n else 87 + n

-- `bytes.hex`
unfoldable pub hex : Bytes → Bytes
hex [] = []
hex (b ∷ bs) = hex_digit (b / 16) ∷ hex_digit (b % 16) ∷ hex bs

unfoldable pub digit_value : ℕ → Option ℕ
digit_value c =
    if leb 48 c && leb c 57
    then some (c - 48)
    else if leb 97 c && leb c 102
    then some (c - 87)
    else if leb 65 c && leb c 70
    then some (c - 55)
    else none

unfoldable pub is_space : ℕ → Bool
is_space c = nat_beq c 32 || (leb 9 c && leb c 13)

-- The two digits of a byte before the bytes that follow.
unfoldable pub push_byte : Option ℕ → Option ℕ → Option Bytes → Option Bytes
push_byte (some high) (some low) (some bs) = some ((16 * high + low) ∷ bs)
push_byte (some high) (some low) none = none
push_byte (some high) none rest = none
push_byte none low rest = none

-- `bytes.fromhex`, where `none` is a ValueError: spaces may stand between two bytes.
unfoldable pub fromhex : Bytes → Option Bytes
fromhex [] = some []
fromhex (c ∷ []) = if is_space c then some [] else none
fromhex (c ∷ d ∷ cs) =
    let skipped = fromhex (d ∷ cs) in
    let rest = fromhex cs in
    if is_space c then skipped else push_byte (digit_value c) (digit_value d) rest
