-- ===== src/Events/ModesBitmask.antt =====
-- events/modes_bitmask.py: the modes that a control sets, as bits and as names; doe_limits of
-- models/csipaus/elements.py.
pub mod Bits
pub mod Laws
pub mod Tests
use Prim.Native.Nat.{bit_or, bit_and}
use py.Prelude.{
  ℕ, nat_key, ◌^◌, String, string_key, Bytes, Option, none, some, List, [], ◌∷◌, Bool, true, false,
  not, ◌&&◌, ◌==◌, is_some, keep, map, if◌then◌else◌,
}
use py.Prelude.Dict
use py.Prelude.Dict.{Dict}
use py.Prelude.Sets
use py.Wire.{to_bytes4}
use py.Events.Control.{DercontrolBase, Element}

abbrev pub field_to_bit : Dict String ℕ
field_to_bit =
    ("op_mod_connect", 2)
    ∷ ("op_mod_energize", 3)
    ∷ ("op_mod_fixed_pfabsorb_w", 4)
    ∷ ("op_mod_fixed_pfinject_w", 5)
    ∷ ("op_mod_fixed_var", 6)
    ∷ ("op_mod_fixed_w", 7)
    ∷ ("op_mod_freq_droop", 8)
    ∷ ("op_mod_freq_watt", 9)
    ∷ ("op_mod_hfrtmay_trip", 10)
    ∷ ("op_mod_hfrtmust_trip", 11)
    ∷ ("op_mod_hvrtmay_trip", 12)
    ∷ ("op_mod_hvrtmomentary_cessation", 13)
    ∷ ("op_mod_hvrtmust_trip", 14)
    ∷ ("op_mod_lfrtmay_trip", 15)
    ∷ ("op_mod_lfrtmust_trip", 16)
    ∷ ("op_mod_lvrtmay_trip", 17)
    ∷ ("op_mod_lvrtmomentary_cessation", 18)
    ∷ ("op_mod_lvrtmust_trip", 19)
    ∷ ("op_mod_max_lim_w", 20)
    ∷ ("op_mod_target_var", 21)
    ∷ ("op_mod_target_w", 22)
    ∷ ("op_mod_volt_var", 23)
    ∷ ("op_mod_volt_watt", 24)
    ∷ ("op_mod_watt_pf", 25)
    ∷ ("op_mod_watt_var", 26)
    ∷ ("op_mod_delta_var", 27)
    ∷ ("op_mod_delta_w", 28)
    ∷ ("op_mod_fixed_v", 29)
    ∷ ("op_mod_grid_connect_permit", 30)
    ∷ ("op_mod_island_permit", 31)
    ∷ []

abbrev pub field_to_bit2 : Dict String ℕ
field_to_bit2 =
    ("op_mod_max_lim_pct_vaabsorb", 0)
    ∷ ("op_mod_max_lim_pct_vainject", 1)
    ∷ ("op_mod_max_lim_pct_var_absorb", 2)
    ∷ ("op_mod_max_lim_pct_var_inject", 3)
    ∷ ("op_mod_max_lim_pct_wabsorb", 4)
    ∷ ("op_mod_max_lim_var_absorb", 5)
    ∷ ("op_mod_max_lim_var_inject", 6)
    ∷ ("op_mod_max_lim_wabsorb", 7)
    ∷ ("op_mod_max_lim_winject", 8)
    ∷ ("op_mod_target_v", 9)
    ∷ []

-- `getattr(base, field_name, None) is not None`
abbrev pub is_set : DercontrolBase → String → Bool
is_set base field = Sets.contains field base.set_fields

-- The loop over a table, after the mask already built.
unfoldable pub set_bits : (String → Bool) → List (String × ℕ) → ℕ → ℕ
set_bits test [] bitmask = bitmask
set_bits test ((field, bit_pos) ∷ table) bitmask =
    set_bits test table (if test field then bit_or bitmask (2 ^ bit_pos) else bitmask)

-- `none` is the OverflowError of `to_bytes`.
unfoldable pub build_modes_responded : DercontrolBase → Option Bytes
build_modes_responded base = to_bytes4 (set_bits (is_set base) field_to_bit 0)

-- The inner `none` is the None that is returned when no mode applies.
unfoldable pub build_modes_responded2 : DercontrolBase → ℕ → Option (Option Bytes)
build_modes_responded2 base allowed =
    let bitmask = bit_and (set_bits (is_set base) field_to_bit2 0) allowed in
    if bitmask == 0
    then some none
    else elim (to_bytes4 bitmask) [ none ↦ none | some out ↦ some (some out) ]

-- `DOE_LIMIT_NAMES`
abbrev pub csipaus_limit_names : List String
csipaus_limit_names = "opModExpLimW" ∷ "opModImpLimW" ∷ "opModGenLimW" ∷ "opModLoadLimW" ∷ []

abbrev pub limit_name : Element → Option String
limit_name e = elim e.name [
  | none ↦ none
  | some name ↦
      if Sets.contains name csipaus_limit_names && is_some e.value_multiplier
      then some name
      else none
]

-- The keys of `doe_limits(base)`.
unfoldable pub extension_mode_names : List Element → List String
extension_mode_names [] = []
extension_mode_names (e ∷ elements) = elim (limit_name e) [
  | none ↦ extension_mode_names elements
  | some name ↦ name ∷ extension_mode_names elements
]

unfoldable pub get_active_mode_names : DercontrolBase → List String
get_active_mode_names base =
    Sets.union (keep (is_set base) (map (λ entry. entry.0) field_to_bit))
      (extension_mode_names base.other_element)
