-- ===== src/Telemetry/Checkpoint.antt =====
-- telemetry/checkpoint.py: the readings of a MirrorUsagePoint as data that a file holds.
pub mod Again
pub mod RoundTrip
pub mod Tests
use py.Prelude.{
  ℕ, Bytes, bytes_key, String, Option, none, some, List, [], ◌∷◌, Bool, true, false, ◌+◌, ◌-◌, ◌/◌,
  ◌%◌, ◌*◌, ◌==◌, ◌&&◌, ◌||◌, leb, length, suc, if◌then◌else◌, nat_beq,
}
use py.Prelude.Int.{ℤ, pos, negsuc}
use py.Prelude.Text.{text}
use py.Telemetry.Json.{
  Json, null, boolean, number, real, words, array, object, Items, no_items, item, Fields, no_fields,
  field, lookup, lookup_or_null, hex, fromhex,
}

-- The values of the fields; an absent field and a field without a value are written alike.
pub record ReadingType : Type 0 where
  pub accumulation_behaviour : Option ℤ
  pub commodity : Option ℤ
  pub data_qualifier : Option ℤ
  pub flow_direction : Option ℤ
  pub kind : Option ℤ
  pub power_of_ten_multiplier : Option ℤ
  pub uom : Option ℤ
  pub phase : Option ℤ

pub record RegisteredReading : Type 0 where
  pub mrid : Bytes
  pub description : Bytes
  pub reading_type : ReadingType
  pub order : ℤ × ℤ × ℤ

unfoldable pub code_json : Option ℤ → Json
code_json none = null
code_json (some value) = number value

unfoldable pub type_to_fields : ReadingType → Fields
type_to_fields t = field (text "accumulation_behaviour") (code_json t.accumulation_behaviour) (
    field (text "commodity") (code_json t.commodity) (
      field (text "data_qualifier") (code_json t.data_qualifier) (
        field (text "flow_direction") (code_json t.flow_direction) (
          field (text "kind") (code_json t.kind) (
            field (text "power_of_ten_multiplier") (code_json t.power_of_ten_multiplier) (
              field (text "uom") (code_json t.uom)
                (field (text "phase") (code_json t.phase) no_fields)))))))

unfoldable pub reading_to_dict : RegisteredReading → Json
reading_to_dict reading =
    let order : Json = array (
      item (number reading.order.0)
        (item (number reading.order.1) (item (number reading.order.2) no_items))) in
    object (
      field (text "mrid") (words (hex reading.mrid)) (
        field (text "description") (words reading.description) (
          field (text "order") order (
            field (text "reading_type") (object (type_to_fields reading.reading_type)) no_fields))))

-- `_code`, where `none` is a ValueError.
unfoldable pub code : Json → Option (Option ℤ)
code null = some none
code (number value) = some (some value)
code (boolean b) = none
code (real value) = none
code (words t) = none
code (array items) = none
code (object members) = none

-- `_required`
unfoldable pub required : Bytes → Fields → Option ℤ
required name types = elim (code (lookup_or_null name types)) [ none ↦ none | some value ↦ value ]

infixl 5 ◌>>=◌
abbrev pub ◌>>=◌ {ℓ κ} : {A : Type ℓ} {B : Type κ} → Option A → (A → Option B) → Option B
some a >>= f = f a
none >>= f = none

-- `PhaseCode(value=phase) if phase else None`
unfoldable pub phase_or_none : Option ℤ → Option ℤ
phase_or_none (some (pos n)) = if nat_beq n 0 then none else some (pos n)
phase_or_none (some (negsuc n)) = some (negsuc n)
phase_or_none none = none

unfoldable pub type_from_fields : Fields → Option ReadingType
type_from_fields types = do
  flow ← code (lookup_or_null (text "flow_direction") types)
  phase ← code (lookup_or_null (text "phase") types)
  accumulation ← required (text "accumulation_behaviour") types
  commodity ← required (text "commodity") types
  qualifier ← required (text "data_qualifier") types
  kind ← required (text "kind") types
  multiplier ← required (text "power_of_ten_multiplier") types
  uom ← required (text "uom") types
  some record {
    accumulation_behaviour = some accumulation;
    commodity = some commodity;
    data_qualifier = some qualifier;
    flow_direction = flow;
    kind = some kind;
    power_of_ten_multiplier = some multiplier;
    uom = some uom;
    phase = phase_or_none phase;
  }

unfoldable pub as_words : Json → Option Bytes
as_words (words t) = some t
as_words null = none
as_words (boolean b) = none
as_words (number value) = none
as_words (real value) = none
as_words (array items) = none
as_words (object members) = none

unfoldable pub as_object : Json → Option Fields
as_object (object members) = some members
as_object null = none
as_object (boolean b) = none
as_object (number value) = none
as_object (real value) = none
as_object (words t) = none
as_object (array items) = none

unfoldable pub as_order : Json → Option (ℤ × ℤ × ℤ)
as_order (array (item (number a) (item (number b) (item (number c) no_items)))) = some (a, b, c)
as_order other = none

-- Every refusal is a ValueError: `none`.
unfoldable pub reading_from_dict : Json → Option RegisteredReading
reading_from_dict value = do
  fields ← as_object value
  mrid_text ← lookup (text "mrid") fields
  mrid_words ← as_words mrid_text
  mrid ← fromhex mrid_words
  description_value ← lookup (text "description") fields
  order_value ← lookup (text "order") fields
  types_value ← lookup (text "reading_type") fields
  description ← if nat_beq (length mrid) 16 then as_words description_value else none
  order ← as_order order_value
  types ← as_object types_value
  reading_type ← type_from_fields types
  some record { mrid = mrid; description = description; reading_type = reading_type; order = order }
