-- ===== src/Telemetry/Json/Hex.antt =====
-- The digits of bytes, as `bytes.hex` writes them, are read back by `bytes.fromhex`.
use py.Prelude.{ℕ, Bytes, some, [], ◌∷◌, false, ◌≡◌, refl, ◌<◌, ◌/◌, ◌%◌, ◌*◌, ◌+◌, arith}
use py.Telemetry.Json.{hex_digit, hex, digit_value, is_space, push_byte, fromhex}

-- Every element is a byte.
unfoldable pub AreBytes : Bytes → Type 0
AreBytes [] = Unit
AreBytes (b ∷ bs) = (b < 256) × AreBytes bs

digit_value-hex_digit : (n : ℕ) → n < 16 → digit_value (hex_digit n) ≡ some n
unfolding hex_digit digit_value
digit_value-hex_digit n h = ground (arith, h)

is_space-hex_digit : (n : ℕ) → n < 16 → is_space (hex_digit n) ≡ false
unfolding hex_digit is_space
is_space-hex_digit n h = ground (arith, h)

-- The bytes are read back from their digits.
pub fromhex-hex : (bs : Bytes) → AreBytes bs → fromhex (hex bs) ≡ some bs
unfolding fromhex hex push_byte AreBytes
fromhex-hex [] h = refl
fromhex-hex (b ∷ bs) (b_byte, h) =
    let high : (b / 16) < 16 = omega arith in
    let low : (b % 16) < 16 = omega arith in
    let whole : (16 * (b / 16) + b % 16) ≡ b = omega arith in
    rw
      (
        is_space-hex_digit (b / 16) high,
        digit_value-hex_digit (b / 16) high,
        digit_value-hex_digit (b % 16) low,
        fromhex-hex bs h,
        push_byte,
        whole,
      )
      refl
