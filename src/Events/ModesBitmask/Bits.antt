-- ===== src/Events/ModesBitmask/Bits.antt =====
-- The binary digits of a number, and what `|` makes of them.
use Prim.Native.Nat.{bit_or, bit_or-bitwise, digits}
use py.Prelude.{
  ℕ, zero, suc, ◌+◌, ◌*◌, ◌/◌, ◌%◌, ◌^◌, ◌≤◌, ◌<◌, max, ◌≡◌, refl, ◌==◌, nat_key, if◌then◌else◌,
  arith,
}
use native.Mathlib.Nat.{pow-suc}

-- Digit i, the lowest being 0.
unfoldable pub digit : ℕ → ℕ → ℕ
digit zero n = n % 2
digit (suc i) n = digit i (n / 2)

-- Enough fuel for the digits of the first number gives one result.
or_fuel : (k l x y : ℕ) → x ≤ k → x ≤ l → digits (λ d. d) max k x y ≡ digits (λ d. d) max l x y
or_fuel zero l zero y in_k in_l = elim l as (λ l'. y ≡ digits (λ d. d) max l' 0 y) [
  | zero ↦ refl
  | suc l' ↦ refl
]
or_fuel (suc k) zero zero y in_k in_l = refl
or_fuel (suc k) (suc l) zero y in_k in_l = refl
or_fuel (suc k) (suc l) (suc x) y in_k in_l =
    let half = suc x / 2 in omega (arith, or_fuel k l half (y / 2) (omega arith) (omega arith))
or_fuel zero l (suc x) y in_k in_l = absurd (omega arith)
or_fuel (suc k) zero (suc x) y in_k in_l = absurd (omega arith)

zero-bit_or : (b : ℕ) → bit_or 0 b ≡ b
zero-bit_or b = bit_or-bitwise 0 b

bit_or-halves : (x y : ℕ) → bit_or x y ≡ max (x % 2) (y % 2) + 2 * bit_or (x / 2) (y / 2)
bit_or-halves zero y = omega (arith, zero-bit_or y, zero-bit_or (y / 2))
bit_or-halves (suc x) y =
    let half = suc x / 2 in
    let fuel = or_fuel x half half (y / 2) (omega arith) (omega arith) in
    omega (arith, bit_or-bitwise half (y / 2), bit_or-bitwise (suc x) y, fuel)

pub digit-bit_or : (i a b : ℕ) → digit i (bit_or a b) ≡ max (digit i a) (digit i b)
unfolding digit
digit-bit_or zero a b = omega (arith, bit_or-halves a b)
digit-bit_or (suc i) a b =
    let half : bit_or a b / 2 ≡ bit_or (a / 2) (b / 2) = omega (arith, bit_or-halves a b) in
    rw half (digit-bit_or i (a / 2) (b / 2))

pub digit-zero : (i : ℕ) → digit i 0 ≡ 0
unfolding digit
digit-zero zero = refl
digit-zero (suc i) = digit-zero i

pub digit-pow : (i j : ℕ) → digit i (2 ^ j) ≡ (if i == j then 1 else 0)
unfolding digit
digit-pow zero zero = refl
digit-pow zero (suc j) = ground (arith, pow-suc 2 j)
digit-pow (suc i) zero = ground (arith, digit-zero i)
digit-pow (suc i) (suc j) =
    let half : 2 ^ suc j / 2 ≡ 2 ^ j = omega (arith, pow-suc 2 j) in
    rw half (ground (arith, digit-pow i j))

pub bit_or-lt : (n a b : ℕ) → a < 2 ^ n → b < 2 ^ n → bit_or a b < 2 ^ n
bit_or-lt zero a b p q = let none' : a ≡ 0 = omega arith in rw none' (omega (arith, zero-bit_or b))
bit_or-lt (suc n) a b p q =
    let halves =
      bit_or-lt n (a / 2) (b / 2) (omega (arith, pow-suc 2 n)) (omega (arith, pow-suc 2 n)) in
    omega (arith, bit_or-halves a b, pow-suc 2 n)

pow_pos : (w : ℕ) → 1 ≤ 2 ^ w
pow_pos zero = omega arith
pow_pos (suc w) = omega (arith, pow-suc 2 w, pow_pos w)

pub pow-lt : (j w : ℕ) → j < w → 2 ^ j < 2 ^ w
pow-lt j zero h = absurd (omega arith)
pow-lt zero (suc w) h = omega (arith, pow-suc 2 w, pow_pos w)
pow-lt (suc j) (suc w) h = omega (arith, pow-suc 2 j, pow-suc 2 w, pow-lt j w (omega arith))
