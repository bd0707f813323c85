-- ===== src/Telemetry/ScaleFactor/Bounds.antt =====
-- What `_clamp_int16` leaves of a number.
use py.Prelude.{
  ℕ, zero, suc, ◌+◌, ◌*◌, ◌-◌, ◌^◌, ◌≤◌, ◌<◌, ◌≡◌, ◌∙◌, refl, ap, Option, some, true, false,
  Bool-cases, inl, inr, arith, nat_key,
}
use py.Prelude.Int.{ℤ, pos, negsuc, ◌+ℤ◌, neg_ℕ, magnitude, pos_part, neg_part, ◌≤ℤ◌}
use py.Telemetry.ScaleFactor.{round_tenth_ℕ, round_tenth, needs_scaling, clamp_loop, clamp_int16}

-- Rounding a tenth is off by five at most.
round_tenth_ℕ-close : (n : ℕ) → (10 * round_tenth_ℕ n ≤ n + 5) × (n ≤ 10 * round_tenth_ℕ n + 5)
unfolding round_tenth_ℕ
round_tenth_ℕ-close n = ground arith

round_tenth_pos : (n : ℕ) → round_tenth (pos n) ≡ pos (round_tenth_ℕ n)
unfolding round_tenth
round_tenth_pos n = refl

round_tenth_negsuc : (n : ℕ) → round_tenth (negsuc n) ≡ neg_ℕ (round_tenth_ℕ (suc n))
unfolding round_tenth
round_tenth_negsuc n = refl

in_int16 : (v : ℤ) → needs_scaling v ≡ false → (v ≤ℤ pos 32767) × (negsuc 32767 ≤ℤ v)
in_int16 (pos n) h = ground arith
in_int16 (negsuc n) h = ground arith

-- w * 10^k stands for v: of one sign, and off by less than five ninths of 10^k.
pub record Stands (v w : ℤ) (k : ℕ) : Type 0 where
  pub low :
      9 * pos_part v + 9 * (neg_part w * 10 ^ k)
      ≤ 9 * neg_part v + 9 * (pos_part w * 10 ^ k) + 5 * (10 ^ k - 1)
  pub high :
      9 * neg_part v + 9 * (pos_part w * 10 ^ k)
      ≤ 9 * pos_part v + 9 * (neg_part w * 10 ^ k) + 5 * (10 ^ k - 1)

tenth_parts :
    (v : ℤ)
    → (pos_part v + 10 * neg_part (round_tenth v) ≤ neg_part v + 10 * pos_part (round_tenth v) + 5)
      × (neg_part v + 10 * pos_part (round_tenth v)
          ≤ pos_part v + 10 * neg_part (round_tenth v) + 5)
tenth_parts (pos n) = ground (arith, round_tenth_pos n, round_tenth_ℕ-close n)
tenth_parts (negsuc n) = ground (arith, round_tenth_negsuc n, round_tenth_ℕ-close (suc n))

pow_suc : (k : ℕ) → 10 ^ suc k ≡ 10 * 10 ^ k
pow_suc k = grind arith

times_ten : (a p : ℕ) → a * (10 * p) ≡ 10 * (a * p)
times_ten a p = grind arith

pow_pos : (k : ℕ) → 0 < 10 ^ k
pow_pos zero = omega arith
pow_pos (suc k) = omega (arith, pow_suc k, pow_pos k)

Stands-tenth : (v w : ℤ) (k : ℕ) → Stands (round_tenth v) w k → Stands v w (suc k)
Stands-tenth v w k h =
    let a = times_ten (pos_part w) (10 ^ k) in
    let b = times_ten (neg_part w) (10 ^ k) in
    record {
      low = rw (pow_suc k, a, b) (omega (arith, tenth_parts v, h.low, pow_pos k));
      high = rw (pow_suc k, a, b) (omega (arith, tenth_parts v, h.high, pow_pos k));
    }

Stands-self : (v : ℤ) → Stands v v 0
Stands-self v = record { low = omega arith; high = omega arith }

tenth_smaller : (v : ℤ) → needs_scaling v ≡ true → magnitude (round_tenth v) < magnitude v
tenth_smaller (pos n) h = ground (arith, round_tenth_pos n, round_tenth_ℕ-close n)
tenth_smaller (negsuc n) h = ground (arith, round_tenth_negsuc n, round_tenth_ℕ-close (suc n))

add_assoc_pos : (m : ℤ) (k : ℕ) → (m +ℤ pos 1) +ℤ pos k ≡ m +ℤ pos (suc k)
unfolding ◌+ℤ◌
add_assoc_pos (pos n) k = ground arith
add_assoc_pos (negsuc n) k = ground arith

add_zero : (m : ℤ) → m ≡ m +ℤ pos 0
unfolding ◌+ℤ◌
add_zero (pos n) = ground arith
add_zero (negsuc n) = ground arith

-- What a number and its multiplier are turned into.
pub record Clamped (v m : ℤ) (result : Option (ℤ × ℤ)) : Type 0 where
  pub number : ℤ
  pub raised : ℕ
  pub result_eq : result ≡ some (number, m +ℤ pos raised)
  pub at_most : number ≤ℤ pos 32767
  pub at_least : negsuc 32767 ≤ℤ number
  pub close : Stands v number raised
  pub untouched : needs_scaling v ≡ false → raised ≡ 0

clamp_here :
    (fuel : ℕ) (v m : ℤ) → needs_scaling v ≡ false → clamp_loop (suc fuel) v m ≡ some (v, m)
unfolding clamp_loop
clamp_here fuel v m h = rw h refl

clamp_next :
    (fuel : ℕ) (v m : ℤ)
    → needs_scaling v ≡ true
    → clamp_loop (suc fuel) v m ≡ clamp_loop fuel (round_tenth v) (m +ℤ pos 1)
unfolding clamp_loop
clamp_next fuel v m h = rw h refl

clamp_loop-Clamped : (fuel : ℕ) (v m : ℤ) → magnitude v < fuel → Clamped v m (clamp_loop fuel v m)
clamp_loop-Clamped zero v m h = absurd (omega arith)
clamp_loop-Clamped (suc fuel) v m h = elim (Bool-cases (needs_scaling v)) [
  | inl over ↦
      let less = tenth_smaller v over in
      let r = clamp_loop-Clamped fuel (round_tenth v) (m +ℤ pos 1) (omega (arith, less)) in
      record {
        number = r.number;
        raised = suc r.raised;
        result_eq =
            clamp_next fuel v m over
            ∙ r.result_eq
            ∙ ap (λ k. some (r.number, k)) (add_assoc_pos m r.raised);
        at_most = r.at_most;
        at_least = r.at_least;
        close = Stands-tenth v r.number r.raised r.close;
        untouched = λ e. cc;
      }
  | inr fits ↦
      let (most, least) = in_int16 v fits in
      record {
        number = v;
        raised = 0;
        result_eq = clamp_here fuel v m fits ∙ ap (λ k. some (v, k)) (add_zero m);
        at_most = most;
        at_least = least;
        close = Stands-self v;
        untouched = λ e. refl;
      }
]

-- _clamp_int16 ends on every number; it gives one of 16 bits with a multiplier raised by some k,
-- which is off from the number by less than five ninths of 10^k, and k is 0 where the number fits.
pub clamp_int16-Clamped : (v m : ℤ) → Clamped v m (clamp_int16 v m)
unfolding clamp_int16
clamp_int16-Clamped v m = clamp_loop-Clamped (suc (magnitude v)) v m (omega arith)
