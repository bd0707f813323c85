-- ===== src/Telemetry/ScaleFactor.antt =====
-- telemetry/scale_factor.py: numbers as an integer of 16 bits and a power of ten. `round(v / 10)`
-- of an integer is written exactly, half to even, which the division by floats gives below 2^50.
pub mod Bounds
use py.Prelude.{
  ℕ, zero, suc, ◌+◌, ◌*◌, ◌/◌, ◌%◌, Option, none, some, Bool, true, false, ◌||◌, ◌&&◌, ltb, ◌==◌,
  nat_key, if◌then◌else◌,
}
use py.Prelude.Int.{ℤ, pos, negsuc, ◌+ℤ◌, neg_ℕ, magnitude, ltb_ℤ}

-- round(n / 10) for n ≥ 0
unfoldable pub round_tenth_ℕ : ℕ → ℕ
round_tenth_ℕ n =
    if ltb 5 (n % 10) || (n % 10 == 5 && n / 10 % 2 == 1) then suc (n / 10) else n / 10

unfoldable pub round_tenth : ℤ → ℤ
round_tenth (pos n) = pos (round_tenth_ℕ n)
round_tenth (negsuc n) = neg_ℕ (round_tenth_ℕ (suc n))

-- int_value > 32767 or int_value < -32768
abbrev pub needs_scaling : ℤ → Bool
needs_scaling v = ltb_ℤ (pos 32767) v || ltb_ℤ v (negsuc 32767)

-- The loop of `_clamp_int16`.
unfoldable pub clamp_loop : ℕ → ℤ → ℤ → Option (ℤ × ℤ)
clamp_loop zero int_value multiplier = none
clamp_loop (suc fuel) int_value multiplier =
    let rest = clamp_loop fuel (round_tenth int_value) (multiplier +ℤ pos 1) in
    if needs_scaling int_value then rest else some (int_value, multiplier)

-- Each round makes the number smaller.
unfoldable pub clamp_int16 : ℤ → ℤ → Option (ℤ × ℤ)
clamp_int16 int_value multiplier = clamp_loop (suc (magnitude int_value)) int_value multiplier
