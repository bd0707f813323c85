-- ===== src/Telemetry/Checkpoint/RoundTrip.antt =====
-- What telemetry/checkpoint.py reads back of a reading that it wrote.
use py.Prelude.{Bytes, bytes_key, bytes_beq, Option, some, none, ◌≡◌, refl, length}
use py.Prelude.Int.{ℤ}
use py.Telemetry.Json.{lookup, lookup_or_null}
use py.Telemetry.Json.Hex.{AreBytes, fromhex-hex}
use py.Telemetry.Checkpoint.{
  RegisteredReading, code_json, type_to_fields, reading_to_dict, code, required, phase_or_none,
  type_from_fields, as_words, as_object, as_order, reading_from_dict,
}

-- A reading as it is registered, with the values that every one has and the two that it may lack.
abbrev pub registered :
    Bytes → Bytes → ℤ × ℤ × ℤ → ℤ × ℤ × ℤ × ℤ × ℤ × ℤ → Option ℤ → Option ℤ → RegisteredReading
registered mrid description order values flow phase = record {
  mrid = mrid;
  description = description;
  reading_type = record {
    accumulation_behaviour = some values.0;
    commodity = some values.1;
    data_qualifier = some values.2;
    flow_direction = flow;
    kind = some values.3;
    power_of_ten_multiplier = some values.4;
    uom = some values.5;
    phase = phase;
  };
  order = order;
}

module _ (mrid description : Bytes) (order : ℤ × ℤ × ℤ) (values : ℤ × ℤ × ℤ × ℤ × ℤ × ℤ) where
  type_from_fields-type_to_fields :
      (flow phase : Option ℤ)
      → type_from_fields
          (type_to_fields (registered mrid description order values flow phase).reading_type)
        ≡ some (registered mrid description order values flow (phase_or_none phase)).reading_type
  unfolding type_from_fields type_to_fields required lookup_or_null lookup code code_json bytes_beq
  type_from_fields-type_to_fields none none = refl
  type_from_fields-type_to_fields none (some phase) = refl
  type_from_fields-type_to_fields (some flow) none = refl
  type_from_fields-type_to_fields (some flow) (some phase) = refl

  -- A reading that is written, with an mRID of 16 bytes, is read back as it was, but for a phase of
  -- code 0, which is left out.
  pub reading_from_dict-reading_to_dict :
      (flow phase : Option ℤ)
      → AreBytes mrid
      → length mrid ≡ 16
      → reading_from_dict (reading_to_dict (registered mrid description order values flow phase))
        ≡ some (registered mrid description order values flow (phase_or_none phase))
  unfolding reading_from_dict reading_to_dict lookup as_object as_words as_order bytes_beq
  reading_from_dict-reading_to_dict flow phase bytes sixteen =
      rw (fromhex-hex mrid bytes, sixteen, type_from_fields-type_to_fields flow phase) refl
