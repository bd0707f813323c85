-- ===== src/History/Intervals/Loop.antt =====
-- The loop of _integrate in history/intervals.py ends, and its split into intervals loses nothing.
use py.Prelude.{
  ℕ, zero, suc, ◌+◌, ◌-◌, ◌*◌, ◌≤◌, ◌<◌, nat_key, some, false, ◌≡◌, refl, ap, ◌∙◌, inl, inr, ltb,
  Bool-cases, arith,
}
use py.Prelude.Int.{ℤ, pos, negsuc, ◌+ℤ◌, int_laws}
use py.Prelude.Dict
use py.Prelude.Dict.{Dict}
use native.Mathlib.Nat.{mod-lt, mod-add-div', mul-add}
use py.History.Intervals.{
  Bucket, empty_bucket, Held, times, hold, floor, span_end, hold_span, integrate_loop,
}
use py.History.Intervals.Available.{available, avail_total, times-add, avail-hold, avail_total-put}
use py.History.Intervals.Totals.{Column, rate, total, column-hold, total-put}

module _ (interval_pred max_gap : ℕ) where
  -- An interval ends after each time in it.
  floor_lt : (at : ℕ) → at < floor interval_pred max_gap at + suc interval_pred
  unfolding floor
  floor_lt at =
      omega (
        arith,
        mod-add-div' at (suc interval_pred),
        mod-lt at {m = suc interval_pred} (omega arith),
      )

  span_end_lt :
      (t0 t1 : ℕ)
      → t0 < t1
      → (t0 < span_end interval_pred max_gap t0 t1) × (span_end interval_pred max_gap t0 t1 ≤ t1)
  span_end_lt t0 t1 h = (omega (arith, floor_lt t0), omega arith)

  hold_span-total :
      (c : Column) (h : Held) (t0 t1 : ℕ) (buckets : Dict ℕ Bucket)
      → total c (hold_span interval_pred max_gap h t0 t1 buckets)
        ≡ total c buckets + rate c h * (span_end interval_pred max_gap t0 t1 - t0)
  unfolding hold_span
  hold_span-total c h t0 t1 buckets =
      let start = floor interval_pred max_gap t0 in
      let dt = span_end interval_pred max_gap t0 t1 - t0 in
      let old = Dict.get_default start buckets empty_bucket in
      omega (arith, total-put c start (hold h dt old) buckets, column-hold c h dt old)

  split :
      (r a b t0 e t1 : ℕ)
      → a ≡ e - t0
      → b ≡ t1 - e
      → t0 ≤ e
      → e ≤ t1
      → r * a + r * b ≡ r * (t1 - t0)
  split r a b t0 e t1 p q l m =
      let sum : t1 - t0 ≡ a + b = omega arith in rw sum (omega (arith, mul-add r a b))

  hold_span-available :
      (h : Held) (t0 t1 : ℕ) (buckets : Dict ℕ Bucket)
      → avail_total (hold_span interval_pred max_gap h t0 t1 buckets)
        ≡ avail_total buckets +ℤ times (available h) (span_end interval_pred max_gap t0 t1 - t0)
  unfolding hold_span
  hold_span-available h t0 t1 buckets =
      let start = floor interval_pred max_gap t0 in
      let dt = span_end interval_pred max_gap t0 t1 - t0 in
      let old = Dict.get_default start buckets empty_bucket in
      grind (int_laws, avail_total-put start (hold h dt old) buckets, avail-hold h dt old)

  no_time :
      (a : ℤ) (buckets : Dict ℕ Bucket) (dt : ℕ)
      → dt ≡ 0
      → avail_total buckets ≡ avail_total buckets +ℤ times a dt
  no_time (pos n) buckets dt e = rw e (grind int_laws)
  no_time (negsuc n) buckets dt e = rw e (grind int_laws)

  split_times :
      (a : ℤ) (t0 e t1 : ℕ)
      → t0 ≤ e
      → e ≤ t1
      → times a (e - t0) +ℤ times a (t1 - e) ≡ times a (t1 - t0)
  split_times a t0 e t1 l m =
      let sum : (e - t0) + (t1 - e) ≡ t1 - t0 = omega arith in
      times-add a (e - t0) (t1 - e) ∙ ap (times a) sum

  -- Given as many rounds as the time to cover, the loop ends, and each column has gained its rate times
  -- that time over all buckets, as has the sum of the available power.
  pub integrate_loop_lem :
      (fuel : ℕ) (h : Held) (t0 t1 : ℕ) (buckets : Dict ℕ Bucket)
      → t1 - t0 ≤ fuel
      → (out : Dict ℕ Bucket) × (integrate_loop interval_pred max_gap fuel h t0 t1 buckets
          ≡ some out)
        × ((c : Column) → total c out ≡ total c buckets + rate c h * (t1 - t0))
        × (avail_total out ≡ avail_total buckets +ℤ times (available h) (t1 - t0))
  unfolding integrate_loop
  integrate_loop_lem zero h t0 t1 buckets enough =
      let over : ltb t0 t1 ≡ false = ground arith in
      let nothing : t1 - t0 ≡ 0 = omega arith in
      (
        buckets,
        rw over refl,
        (λ c. rw nothing (omega arith)),
        no_time (available h) buckets (t1 - t0) nothing,
      )
  integrate_loop_lem (suc fuel) h t0 t1 buckets enough = elim (Bool-cases (ltb t0 t1)) [
    | inr over ↦
        let nothing : t1 - t0 ≡ 0 = ground arith in
        (
          buckets,
          rw over refl,
          (λ c. rw nothing (omega arith)),
          no_time (available h) buckets (t1 - t0) nothing,
        )
    | inl more ↦
        let before : t0 < t1 = ground arith in
        let e = span_end interval_pred max_gap t0 t1 in
        let (up, le) = span_end_lt t0 t1 before in
        let (out, found, sums, gain) =
          integrate_loop_lem fuel h e t1 (hold_span interval_pred max_gap h t0 t1 buckets)
            (omega arith) in
        (
          out,
          rw more found,
          (λ c. omega (
            arith,
            sums c,
            hold_span-total c h t0 t1 buckets,
            split (rate c h) (e - t0) (t1 - e) t0 e t1 refl refl (omega arith) le,
          )),
          grind (
            int_laws,
            gain,
            hold_span-available h t0 t1 buckets,
            split_times (available h) t0 e t1 (omega arith) le,
          ),
        )
  ]
