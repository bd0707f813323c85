-- ===== src/Security/Tests.antt =====
-- The SFDI of a concrete LFDI.
use py.Prelude.{ℕ, ◌<◌, ◌≡◌, refl, Bytes, [], ◌∷◌, length}
use py.Security.Identity.{
  compute_sfdi, parse_hex, hex_digit, check_digit, digit_sum, sfdi, raised, too_short, Valid,
  compute_sfdi-Valid,
}

-- "3e4f45ab3"
abbrev lfdi : Bytes
lfdi = 51 ∷ 101 ∷ 52 ∷ 102 ∷ 52 ∷ 53 ∷ 97 ∷ 98 ∷ 51 ∷ []

sfdi_test : compute_sfdi lfdi ≡ sfdi 167261211391
unfolding compute_sfdi parse_hex hex_digit check_digit digit_sum
sfdi_test = refl

compute_sfdi-Valid_example :
    (length lfdi < 9 → compute_sfdi lfdi ≡ raised (too_short (length lfdi)))
    × ((n : ℕ) → compute_sfdi lfdi ≡ sfdi n → Valid lfdi n)
compute_sfdi-Valid_example = compute_sfdi-Valid lfdi
