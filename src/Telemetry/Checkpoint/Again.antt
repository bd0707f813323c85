-- ===== src/Telemetry/Checkpoint/Again.antt =====
-- What telemetry/checkpoint.py reads stays the same when it is written and read again.
use mathlib.Core.Path.{subst}
use mathlib.Core.Option.{some-injective}
use py.Prelude.{
  ℕ, Bytes, bytes_key, Option, some, none, [], ◌∷◌, Bool, true, false, ◌≡◌, ◌<◌, ◌+◌, ◌*◌, refl,
  sym, ◌∙◌, ap, length, nat_beq, nat_beq_iff, arith, if◌then◌else◌, inl, inr, Bool-cases,
}
use py.Prelude.Int.{ℤ, pos, negsuc}
use py.Prelude.Text.{text}
use py.Telemetry.Json.{
  Json, Fields, lookup, lookup_or_null, digit_value, is_space, push_byte, fromhex,
}
use py.Telemetry.Json.Hex.{AreBytes}
use py.Telemetry.Checkpoint.{
  ReadingType, RegisteredReading, reading_to_dict, code, required, phase_or_none, type_from_fields,
  as_words, as_object, as_order, ◌>>=◌, reading_from_dict,
}
use py.Telemetry.Checkpoint.RoundTrip.{registered, reading_from_dict-reading_to_dict}

bind_some {ℓ κ} :
    {A : Type ℓ} {B : Type κ} (m : Option A) (f : A → Option B) (b : B)
    → (m >>= f) ≡ some b
    → (a : A) × (m ≡ some a) × (f a ≡ some b)
bind_some (some a) f b e = (a, refl, e)
bind_some none f b e = ground arith

phase_twice : (phase : Option ℤ) → phase_or_none (phase_or_none phase) ≡ phase_or_none phase
unfolding phase_or_none
phase_twice none = refl
phase_twice (some (pos n)) = ground arith
phase_twice (some (negsuc n)) = refl

digit_value_lt : (c n : ℕ) → digit_value c ≡ some n → n < 16
unfolding digit_value
digit_value_lt c n e = ground arith

HasBytes : Option Bytes → Type 0
HasBytes none = Unit
HasBytes (some bs) = AreBytes bs

push_byte-AreBytes :
    (high low : Option ℕ) (rest : Option Bytes) (bs : Bytes)
    → ((n : ℕ) → high ≡ some n → n < 16)
    → ((n : ℕ) → low ≡ some n → n < 16)
    → ((cs : Bytes) → rest ≡ some cs → AreBytes cs)
    → push_byte high low rest ≡ some bs
    → AreBytes bs
unfolding push_byte AreBytes HasBytes
push_byte-AreBytes (some high) (some low) (some cs) bs h l r e =
    let below = h high refl in
    let under = l low refl in
    let byte : (16 * high + low) < 256 = omega arith in subst HasBytes e (byte, r cs refl)
push_byte-AreBytes (some high) (some low) none bs h l r e = ground arith
push_byte-AreBytes (some high) none rest bs h l r e = ground arith
push_byte-AreBytes none low rest bs h l r e = ground arith

fromhex-AreBytes : (cs bs : Bytes) → fromhex cs ≡ some bs → AreBytes bs
unfolding fromhex AreBytes HasBytes
fromhex-AreBytes [] bs e = subst HasBytes e tt
fromhex-AreBytes (c ∷ []) bs e = elim (Bool-cases (is_space c)) [
  | inl space ↦ let empty : some [] ≡ some bs = ground (arith, e, space) in subst HasBytes empty tt
  | inr digit ↦ ground (arith, e, digit)
]
fromhex-AreBytes (c ∷ d ∷ cs) bs e = elim (Bool-cases (is_space c)) [
  | inl space ↦ fromhex-AreBytes (d ∷ cs) bs (ground (arith, e, space))
  | inr digit ↦
      push_byte-AreBytes (digit_value c) (digit_value d) (fromhex cs) bs (digit_value_lt c)
        (digit_value_lt d) (fromhex-AreBytes cs) (ground (arith, e, digit))
]

-- The values that a reading type read back has.
type_from_fields-values :
    (types : Fields) (t : ReadingType)
    → type_from_fields types ≡ some t
    → (values : ℤ × ℤ × ℤ × ℤ × ℤ × ℤ) × (flow : Option ℤ) × (phase : Option ℤ) × (t
        ≡ (registered [] [] (pos 0, pos 0, pos 0) values flow (phase_or_none phase)).reading_type)
unfolding type_from_fields
type_from_fields-values types t e =
    let (flow, _, e1) = bind_some (code (lookup_or_null (text "flow_direction") types)) _ t e in
    let (phase, _, e2) = bind_some (code (lookup_or_null (text "phase") types)) _ t e1 in
    let (a, _, e3) = bind_some (required (text "accumulation_behaviour") types) _ t e2 in
    let (c, _, e4) = bind_some (required (text "commodity") types) _ t e3 in
    let (q, _, e5) = bind_some (required (text "data_qualifier") types) _ t e4 in
    let (k, _, e6) = bind_some (required (text "kind") types) _ t e5 in
    let (m, _, e7) = bind_some (required (text "power_of_ten_multiplier") types) _ t e6 in
    let (u, _, e8) = bind_some (required (text "uom") types) _ t e7 in
    ((a, c, q, k, m, u), flow, phase, sym (some-injective _ _ e8))

IsStable : RegisteredReading → Type 0
IsStable r = reading_from_dict (reading_to_dict r) ≡ some r

registered-IsStable :
    (mrid description : Bytes) (order : ℤ × ℤ × ℤ) (values : ℤ × ℤ × ℤ × ℤ × ℤ × ℤ)
    (flow phase : Option ℤ)
    → AreBytes mrid
    → length mrid ≡ 16
    → (t : ReadingType)
    → t ≡ (registered [] [] (pos 0, pos 0, pos 0) values flow (phase_or_none phase)).reading_type
    → (r : RegisteredReading)
    → some record { mrid = mrid; description = description; reading_type = t; order = order }
      ≡ some r
    → IsStable r
unfolding IsStable
registered-IsStable mrid description order values flow phase bytes sixteen t is_type r e =
    let base : IsStable (registered mrid description order values flow (phase_or_none phase)) =
      reading_from_dict-reading_to_dict mrid description order values flow (phase_or_none phase)
        bytes sixteen
      ∙ ap (λ (p : Option ℤ). some (registered mrid description order values flow p))
          (phase_twice phase) in
    let whole =
      subst
        (λ (t' : ReadingType).
          IsStable
            record { mrid = mrid; description = description; reading_type = t'; order = order })
        (sym is_type) base in
    subst IsStable (some-injective _ _ e) whole

passed_test :
    {A : Type 0} (b : Bool) (o : Option A) (a : A) → (if b then o else none) ≡ some a → b ≡ true
passed_test true o a e = refl
passed_test false o a e = ground arith

-- A reading that is read from any data is the same when it is written and read again.
pub reading_from_dict_again :
    (data_read : Json) (r : RegisteredReading)
    → reading_from_dict data_read ≡ some r
    → reading_from_dict (reading_to_dict r) ≡ some r
unfolding reading_from_dict IsStable
reading_from_dict_again data_read r e =
    let (members, _, e1) = bind_some (as_object data_read) _ r e in
    let (mrid_text, _, e2) = bind_some (lookup (text "mrid") members) _ r e1 in
    let (mrid_words, _, e3) = bind_some (as_words mrid_text) _ r e2 in
    let (mrid, from_hex, e4) = bind_some (fromhex mrid_words) _ r e3 in
    let (d, _, e5) = bind_some (lookup (text "description") members) _ r e4 in
    let (o, _, e6) = bind_some (lookup (text "order") members) _ r e5 in
    let (t, _, e7) = bind_some (lookup (text "reading_type") members) _ r e6 in
    let (description, long, e8) =
      bind_some (if nat_beq (length mrid) 16 then as_words d else none) _ r e7 in
    let (order, _, e9) = bind_some (as_order o) _ r e8 in
    let (types, _, e10) = bind_some (as_object t) _ r e9 in
    let (reading_type, read, e11) = bind_some (type_from_fields types) _ r e10 in
    let (values, flow, phase, is_type) = type_from_fields-values types reading_type read in
    registered-IsStable mrid description order values flow phase
      (fromhex-AreBytes mrid_words mrid from_hex)
      ((nat_beq_iff (length mrid) 16).0
        (passed_test (nat_beq (length mrid) 16) (as_words d) description long))
      reading_type is_type r e11
