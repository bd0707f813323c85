-- ===== src/History/Intervals/Available.antt =====
-- The sum of the available power over the rows of history/intervals.py, the column that may be negative.
use py.Prelude.{
  ℕ, ◌+◌, nat_key, Option, none, some, List, [], ◌∷◌, ◌++◌, Bool, not, ◌≡◌, refl, keep,
}
use native.Mathlib.Nat.{mul-add}
use py.Prelude.Int.{ℤ, pos, negsuc, ◌+ℤ◌, int_laws}
use py.Prelude.Dict
use py.Prelude.Dict.{Dict}
use py.History.Intervals.{
  Bucket, empty_bucket, Held, times, hold, hold_w, hold_var, hold_avail, note_sample, insert,
  sorted,
}

-- The power that is available while it is known.
abbrev pub available : Held → ℤ
available h = elim h.avail [ none ↦ pos 0 | some avail ↦ avail ]

abbrev pub avail_total : List (ℕ × Bucket) → ℤ
avail_total [] = pos 0
avail_total (row ∷ rows) = row.1.avail_ws +ℤ avail_total rows

pub times-add : (a : ℤ) (x y : ℕ) → times a x +ℤ times a y ≡ times a (x + y)
times-add (pos n) x y = omega (int_laws, mul-add n x y)
times-add (negsuc n) x y = omega (int_laws, mul-add n x y)

pub avail-hold :
    (h : Held) (dt : ℕ) (b : Bucket) → (hold h dt b).avail_ws ≡ b.avail_ws +ℤ times (available h) dt
unfolding hold hold_w hold_var hold_avail
avail-hold h dt b = grind int_laws

avail-note_sample : (w : Option ℤ) (b : Bucket) → (note_sample w b).avail_ws ≡ b.avail_ws
unfolding note_sample
avail-note_sample none b = refl
avail-note_sample (some w) b = refl

pub avail_total-append :
    (xs ys : List (ℕ × Bucket)) → avail_total (xs ++ ys) ≡ avail_total xs +ℤ avail_total ys
avail_total-append [] ys = omega int_laws
avail_total-append (row ∷ xs) ys = grind (int_laws, avail_total-append xs ys)

avail_total-insert :
    (row : ℕ × Bucket) (rows : List (ℕ × Bucket))
    → avail_total (insert row rows) ≡ row.1.avail_ws +ℤ avail_total rows
unfolding insert
avail_total-insert row [] = refl
avail_total-insert row (other ∷ rows) = grind (int_laws, avail_total-insert row rows)

pub avail_total-sorted : (rows : List (ℕ × Bucket)) → avail_total (sorted rows) ≡ avail_total rows
unfolding sorted
avail_total-sorted [] = refl
avail_total-sorted (row ∷ rows) =
    grind (int_laws, avail_total-insert row (sorted rows), avail_total-sorted rows)

pub avail_total-keep :
    (p : ℕ × Bucket → Bool) (rows : List (ℕ × Bucket))
    → avail_total (keep (λ r. not (p r)) rows) +ℤ avail_total (keep p rows) ≡ avail_total rows
unfolding keep
avail_total-keep p [] = omega int_laws
avail_total-keep p (row ∷ rows) = grind (int_laws, avail_total-keep p rows)

pub avail_total-put :
    (start : ℕ) (b : Bucket) (buckets : Dict ℕ Bucket)
    → avail_total (Dict.put start b buckets)
        +ℤ (Dict.get_default start buckets empty_bucket).avail_ws
      ≡ avail_total buckets +ℤ b.avail_ws
unfolding Dict.put Dict.get Dict.get_default
avail_total-put start b [] = omega int_laws
avail_total-put start b ((k, old) ∷ buckets) = grind (int_laws, avail_total-put start b buckets)

-- A reading's sample in the bucket leaves the sum as it is.
pub avail_total-sample :
    (start : ℕ) (w : Option ℤ) (buckets : Dict ℕ Bucket)
    → avail_total
        (Dict.put start (note_sample w (Dict.get_default start buckets empty_bucket)) buckets)
      ≡ avail_total buckets
avail_total-sample start w buckets =
    let old = Dict.get_default start buckets empty_bucket in
    grind (int_laws, avail_total-put start (note_sample w old) buckets, avail-note_sample w old)
