-- ===== src/Telemetry/Tests.antt =====
-- Runs of the scale factors on concrete inputs.
use py.Prelude.{◌≡◌, refl, some}
use py.Prelude.Int.{pos, ◌+ℤ◌}
use py.Telemetry.ScaleFactor.{clamp_int16, clamp_loop, round_tenth, round_tenth_ℕ}
use py.Telemetry.ScaleFactor.Bounds.{Clamped, clamp_int16-Clamped}

-- 500 kW becomes 5000 with the multiplier 2.
clamp_test : clamp_int16 (pos 500000) (pos 0) ≡ some (pos 5000, pos 2)
unfolding clamp_int16 clamp_loop round_tenth round_tenth_ℕ ◌+ℤ◌
clamp_test = refl

-- The multiplier is checked before it is raised, so one of 127 comes out as 128.
multiplier_test : clamp_int16 (pos 40000) (pos 127) ≡ some (pos 4000, pos 128)
unfolding clamp_int16 clamp_loop round_tenth round_tenth_ℕ ◌+ℤ◌
multiplier_test = refl

clamp_int16-Clamped_example : Clamped (pos 500000) (pos 0) (clamp_int16 (pos 500000) (pos 0))
clamp_int16-Clamped_example = clamp_int16-Clamped (pos 500000) (pos 0)
