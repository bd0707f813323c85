-- ===== src/Security/Identity.antt =====
-- security/identity.py: `compute_sfdi`. A character is its code point; `int(s, 16)` is written for
-- strings of hex digits, and any other string is taken for the ValueError.
use py.Prelude.{
  ℕ, zero, suc, ◌+◌, ◌-◌, ◌*◌, ◌/◌, ◌%◌, ◌^◌, ◌≤◌, ◌<◌, ◌≡◌, ◌∙◌, refl, sym, ap, Bytes, Option,
  none, some, [], ◌∷◌, ◌&&◌, ltb, leb, length, take, if◌then◌else◌, Option-cases, inl, inr, arith,
  length-take,
}

pub data SfdiError : Type 0 where
  too_short : ℕ → SfdiError
  invalid_literal : SfdiError

pub data Sfdi : Type 0 where
  sfdi : ℕ → Sfdi
  raised : SfdiError → Sfdi

unfoldable pub hex_digit : ℕ → Option ℕ
hex_digit c =
    if leb 48 c && leb c 57
    then some (c - 48)
    else if leb 97 c && leb c 102
    then some (c - 87)
    else if leb 65 c && leb c 70
    then some (c - 55)
    else none

unfoldable pub parse_hex : ℕ → Bytes → Option ℕ
parse_hex acc [] = some acc
parse_hex acc (c ∷ rest) = elim (hex_digit c) [
  | none ↦ none
  | some d ↦ parse_hex (acc * 16 + d) rest
]

-- sum(int(d) for d in str(n)), the last digit first; `fuel` digits at most.
unfoldable pub digit_sum : ℕ → ℕ → ℕ
digit_sum zero n = 0
digit_sum (suc fuel) zero = 0
digit_sum (suc fuel) (suc n) = suc n % 10 + digit_sum fuel (suc n / 10)

unfoldable pub check_digit : ℕ → ℕ
check_digit base = (10 - digit_sum (suc base) base % 10) % 10

unfoldable pub compute_sfdi : Bytes → Sfdi
compute_sfdi lfdi =
    if ltb (length lfdi) 9
    then raised (too_short (length lfdi))
    else elim (parse_hex 0 (take 9 lfdi)) [
      | none ↦ raised invalid_literal
      | some base ↦ sfdi (base * 10 + check_digit base)
    ]

zero_of : (n : ℕ) → n ≤ 0 → n ≡ 0
zero_of n h = omega arith

digit_sum_zero : (fuel : ℕ) → digit_sum fuel 0 ≡ 0
unfolding digit_sum
digit_sum_zero zero = refl
digit_sum_zero (suc fuel) = refl

digit_sum_step : (fuel n : ℕ) → digit_sum (suc fuel) n ≡ n % 10 + digit_sum fuel (n / 10)
unfolding digit_sum
digit_sum_step fuel zero = omega (arith, digit_sum_zero fuel)
digit_sum_step fuel (suc n) = refl

-- As many rounds as the number are enough: more do not change the sum.
digit_sum_enough : (n a b : ℕ) → n ≤ a → n ≤ b → digit_sum a n ≡ digit_sum b n
digit_sum_enough n zero b h k = rw (zero_of n h) (digit_sum_zero zero ∙ sym (digit_sum_zero b))
digit_sum_enough n (suc a) zero h k =
    rw (zero_of n k) (digit_sum_zero (suc a) ∙ sym (digit_sum_zero zero))
digit_sum_enough n (suc a) (suc b) h k =
    digit_sum_step a n
    ∙ ap (λ d. n % 10 + d) (digit_sum_enough (n / 10) a b (omega arith) (omega arith))
    ∙ sym (digit_sum_step b n)

check_digit_lem :
    (base : ℕ) → (check_digit base < 10) × ((check_digit base + digit_sum (suc base) base) % 10 ≡ 0)
unfolding check_digit
check_digit_lem base = (omega arith, omega arith)

digit_sum_cons :
    (base check : ℕ)
    → check < 10
    → digit_sum (suc (base * 10 + check)) (base * 10 + check) ≡ check + digit_sum (suc base) base
digit_sum_cons base check h =
    digit_sum_step (base * 10 + check) (base * 10 + check)
    ∙ rw (last_digit base check h, rest_digits base check h)
        (ap (λ d. check + d)
          (digit_sum_enough base (base * 10 + check) (suc base) (omega arith) (omega arith)))
  where
    last_digit : (base check : ℕ) → check < 10 → (base * 10 + check) % 10 ≡ check
    last_digit base check h = omega arith

    rest_digits : (base check : ℕ) → check < 10 → (base * 10 + check) / 10 ≡ base
    rest_digits base check h = omega arith

hex_digit_lt : (c d : ℕ) → hex_digit c ≡ some d → d < 16
unfolding hex_digit
hex_digit_lt c d h = ground arith

pow_suc : (n : ℕ) → 16 ^ suc n ≡ 16 * 16 ^ n
pow_suc n = grind arith

more_digits :
    (acc d n l : ℕ) → d < 16 → n < (acc * 16 + d + 1) * 16 ^ l → n < (acc + 1) * 16 ^ suc l
more_digits acc d n l h k = rw (pow_suc l) (grind arith)

parse_hex_lt :
    (acc : ℕ) (s : Bytes) (n : ℕ) → parse_hex acc s ≡ some n → n < (acc + 1) * 16 ^ length s
unfolding parse_hex
parse_hex_lt acc [] n h = ground arith
parse_hex_lt acc (c ∷ rest) n h = elim (Option-cases (hex_digit c)) [
  | inl e ↦ ground arith
  | inr (d, e) ↦
      more_digits acc d n (length rest) (hex_digit_lt c d e)
        (parse_hex_lt (acc * 16 + d) rest n (ground arith))
]

-- What the SFDI of an LFDI is.
pub record Valid (lfdi : Bytes) (n : ℕ) : Type 0 where
  pub base : ℕ
  pub leftmost : parse_hex 0 (take 9 lfdi) ≡ some base
  pub quotient : n / 10 ≡ base
  pub checksum : digit_sum (suc n) n % 10 ≡ 0
  pub bound : n < 10 * 16 ^ 9

valid :
    (lfdi : Bytes) (base : ℕ)
    → 9 ≤ length lfdi
    → parse_hex 0 (take 9 lfdi) ≡ some base
    → Valid lfdi (base * 10 + check_digit base)
valid lfdi base long h =
    let (small, sum) = check_digit_lem base in
    record {
      base = base;
      leftmost = h;
      quotient = omega arith;
      checksum = ap (λ d. d % 10) (digit_sum_cons base (check_digit base) small) ∙ sum;
      bound = omega (arith, parse_hex_lt 0 (take 9 lfdi) base h, size);
    }
  where
    size : 16 ^ length (take 9 lfdi) ≡ 16 ^ 9
    size =
        let nine : length (take 9 lfdi) ≡ 9 = omega (arith, length-take 9 lfdi) in
        ap (λ n. 16 ^ n) nine

-- An LFDI of fewer than nine characters is an error. An SFDI that is computed has the number of the
-- first nine hex digits of the LFDI before its last digit, a digit sum that is a multiple of ten, and
-- is below 10 * 16^9.
pub compute_sfdi-Valid :
    (lfdi : Bytes)
    → (length lfdi < 9 → compute_sfdi lfdi ≡ raised (too_short (length lfdi)))
      × ((n : ℕ) → compute_sfdi lfdi ≡ sfdi n → Valid lfdi n)
unfolding compute_sfdi
compute_sfdi-Valid lfdi = (
  λ short. ground arith,
  λ n h. elim (Option-cases (parse_hex 0 (take 9 lfdi))) [
    | inl e ↦ absurd (ground arith)
    | inr (base, e) ↦
        let same : (n ≡ base * 10 + check_digit base) × (9 ≤ length lfdi) = ground arith in
        rw same.0 (valid lfdi base same.1 e)
  ],
)
