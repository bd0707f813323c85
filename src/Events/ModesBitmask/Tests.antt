-- ===== src/Events/ModesBitmask/Tests.antt =====
-- The bitmask of events/modes_bitmask.py at a concrete control.
use py.Prelude.{ℕ, some, [], ◌∷◌, Bytes, length, ◌≡◌, refl, if◌then◌else◌, string_key}
use py.Prelude.Sets
use py.Wire.{from_bytes, to_bytes4}
use py.Events.Control.{DercontrolBase}
use py.Events.ModesBitmask.{is_set, field_to_bit, build_modes_responded, set_bits}
use py.Events.ModesBitmask.Bits.{digit}
use py.Events.ModesBitmask.Laws.{bit_is_set, build_modes_responded_lem}

abbrev fixed_w : DercontrolBase
fixed_w = record { set_fields = "op_mod_fixed_w" ∷ "ramp_tms" ∷ []; other_element = [] }

build_modes_responded_lem_example :
    (out : Bytes) × (build_modes_responded fixed_w ≡ some out)
    × (length out ≡ 4)
    × ((i : ℕ)
        → digit i (from_bytes 0 out)
          ≡ (if bit_is_set (is_set fixed_w) i field_to_bit then 1 else 0))
build_modes_responded_lem_example = build_modes_responded_lem fixed_w

fixed_w_bytes : build_modes_responded fixed_w ≡ some (0 ∷ 0 ∷ 0 ∷ 128 ∷ [])
unfolding build_modes_responded set_bits to_bytes4 Sets.contains
fixed_w_bytes = refl
