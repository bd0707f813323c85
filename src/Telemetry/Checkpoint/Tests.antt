-- ===== src/Telemetry/Checkpoint/Tests.antt =====
-- A reading that telemetry/checkpoint.py writes and reads.
use py.Prelude.{Bytes, some, none, [], ◌∷◌, ◌≡◌, refl, arith, ◌++◌}
use py.Prelude.Int.{ℤ, pos, negsuc}
use py.Prelude.Text.{text}
use py.Telemetry.Json.Hex.{AreBytes}
use py.Telemetry.Checkpoint.{RegisteredReading, reading_to_dict, reading_from_dict, phase_or_none}
use py.Telemetry.Checkpoint.Again.{reading_from_dict_again}
use py.Telemetry.Checkpoint.RoundTrip.{registered, reading_from_dict-reading_to_dict}

abbrev eight_bytes : Bytes
eight_bytes = 0 ∷ 15 ∷ 16 ∷ 255 ∷ 160 ∷ 9 ∷ 10 ∷ 127 ∷ []

abbrev real_power : ℤ × ℤ × ℤ × ℤ × ℤ × ℤ
real_power = (pos 12, pos 2, pos 2, pos 37, negsuc 0, pos 38)

sixteen_bytes : AreBytes (eight_bytes ++ eight_bytes)
unfolding AreBytes
sixteen_bytes = ground arith

reading_from_dict-reading_to_dict_example :
    reading_from_dict (
      reading_to_dict (
        registered
          (eight_bytes ++ eight_bytes)
          (text "W")
          (pos 0, pos 1, pos 2)
          real_power
          (some (pos 19))
          none))
    ≡ some (
        registered
          (eight_bytes ++ eight_bytes)
          (text "W")
          (pos 0, pos 1, pos 2)
          real_power
          (some (pos 19))
          none)
unfolding phase_or_none
reading_from_dict-reading_to_dict_example =
    reading_from_dict-reading_to_dict (eight_bytes ++ eight_bytes) (text "W") (pos 0, pos 1, pos 2)
      real_power (some (pos 19)) none sixteen_bytes refl

abbrev net_power : RegisteredReading
net_power =
    registered (eight_bytes ++ eight_bytes) (text "W") (pos 0, pos 1, pos 2) real_power none
      (some (pos 128))

net_power_is_read : reading_from_dict (reading_to_dict net_power) ≡ some net_power
unfolding phase_or_none
net_power_is_read =
    reading_from_dict-reading_to_dict (eight_bytes ++ eight_bytes) (text "W") (pos 0, pos 1, pos 2)
      real_power none (some (pos 128)) sixteen_bytes refl

reading_from_dict_again_example : reading_from_dict (reading_to_dict net_power) ≡ some net_power
reading_from_dict_again_example =
    reading_from_dict_again (reading_to_dict net_power) net_power net_power_is_read
