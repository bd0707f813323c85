-- ===== src/History/Intervals/Totals.antt =====
-- The columns of the rows of history/intervals.py, and their sums.
use py.Prelude.{
  ℕ, ◌+◌, ◌*◌, nat_key, Option, none, some, List, [], ◌∷◌, ◌++◌, Bool, not, ◌≡◌, refl, keep, arith,
}
use py.Prelude.Int.{ℤ, pos_part, neg_part}
use py.Prelude.Dict
use py.Prelude.Dict.{Dict}
use py.History.Intervals.{
  Bucket, empty_bucket, Held, hold, hold_w, hold_var, hold_avail, curtailed, note_sample, insert,
  sorted,
}

-- The columns that are sums of whole numbers.
pub data Column : Type 0 where
  covered_seconds samples ws_positive ws_negative var_seconds vars_positive vars_negative : Column
  avail_seconds curtail_seconds curtailed_ws : Column

abbrev pub column : Column → Bucket → ℕ
column covered_seconds b = b.covered_seconds
column samples b = b.samples
column ws_positive b = b.ws_positive
column ws_negative b = b.ws_negative
column var_seconds b = b.var_seconds
column vars_positive b = b.vars_positive
column vars_negative b = b.vars_negative
column avail_seconds b = b.avail_seconds
column curtail_seconds b = b.curtail_seconds
column curtailed_ws b = b.curtailed_ws

abbrev measured : Option ℤ → (ℤ → ℕ) → ℕ
measured none f = 0
measured (some v) f = f v

-- What a column gains for each unit of time that a reading is held.
abbrev pub rate : Column → Held → ℕ
rate covered_seconds h = measured h.w (λ _. 1)
rate samples h = 0
rate ws_positive h = measured h.w pos_part
rate ws_negative h = measured h.w neg_part
rate var_seconds h = measured h.var (λ _. 1)
rate vars_positive h = measured h.var pos_part
rate vars_negative h = measured h.var neg_part
rate avail_seconds h = measured h.avail (λ _. 1)
rate curtail_seconds h = measured h.avail (λ _. measured h.w (λ _. 1))
rate curtailed_ws h = measured h.avail (λ a. measured h.w (curtailed a))

abbrev pub total : Column → List (ℕ × Bucket) → ℕ
total c [] = 0
total c (row ∷ rows) = column c row.1 + total c rows

-- Over a span a column gains its rate times the span.
pub column-hold :
    (c : Column) (h : Held) (dt : ℕ) (b : Bucket)
    → column c (hold h dt b) ≡ column c b + rate c h * dt
unfolding hold hold_w hold_var hold_avail
column-hold covered_seconds h dt b = ground arith
column-hold samples h dt b = ground arith
column-hold ws_positive h dt b = ground arith
column-hold ws_negative h dt b = ground arith
column-hold var_seconds h dt b = ground arith
column-hold vars_positive h dt b = ground arith
column-hold vars_negative h dt b = ground arith
column-hold avail_seconds h dt b = ground arith
column-hold curtail_seconds h dt b = ground arith
column-hold curtailed_ws h dt b = ground arith

pub total-append :
    (c : Column) (xs ys : List (ℕ × Bucket)) → total c (xs ++ ys) ≡ total c xs + total c ys
total-append c [] ys = omega arith
total-append c (row ∷ xs) ys = omega (arith, total-append c xs ys)

total-insert :
    (c : Column) (row : ℕ × Bucket) (rows : List (ℕ × Bucket))
    → total c (insert row rows) ≡ column c row.1 + total c rows
unfolding insert
total-insert c row [] = refl
total-insert c row (other ∷ rows) = ground (arith, total-insert c row rows)

pub total-sorted : (c : Column) (rows : List (ℕ × Bucket)) → total c (sorted rows) ≡ total c rows
unfolding sorted
total-sorted c [] = refl
total-sorted c (row ∷ rows) = omega (arith, total-insert c row (sorted rows), total-sorted c rows)

-- Rows that are parted by a test have one sum.
pub total-keep :
    (c : Column) (p : ℕ × Bucket → Bool) (rows : List (ℕ × Bucket))
    → total c (keep (λ r. not (p r)) rows) + total c (keep p rows) ≡ total c rows
unfolding keep
total-keep c p [] = refl
total-keep c p (row ∷ rows) = ground (arith, total-keep c p rows)

column-empty : (c : Column) → column c empty_bucket ≡ 0
column-empty covered_seconds = refl
column-empty samples = refl
column-empty ws_positive = refl
column-empty ws_negative = refl
column-empty var_seconds = refl
column-empty vars_positive = refl
column-empty vars_negative = refl
column-empty avail_seconds = refl
column-empty curtail_seconds = refl
column-empty curtailed_ws = refl

-- What a reading adds by itself.
abbrev pub sampled : Column → ℕ
sampled samples = 1
sampled _ = 0

pub column-note_sample :
    (c : Column) (w : Option ℤ) (b : Bucket) → column c (note_sample w b) ≡ column c b + sampled c
unfolding note_sample
column-note_sample covered_seconds w b = ground arith
column-note_sample samples w b = ground arith
column-note_sample ws_positive w b = ground arith
column-note_sample ws_negative w b = ground arith
column-note_sample var_seconds w b = ground arith
column-note_sample vars_positive w b = ground arith
column-note_sample vars_negative w b = ground arith
column-note_sample avail_seconds w b = ground arith
column-note_sample curtail_seconds w b = ground arith
column-note_sample curtailed_ws w b = ground arith

-- One bucket is written in place of another.
pub total-put :
    (c : Column) (start : ℕ) (b : Bucket) (buckets : Dict ℕ Bucket)
    → total c (Dict.put start b buckets) + column c (Dict.get_default start buckets empty_bucket)
      ≡ total c buckets + column c b
unfolding Dict.put Dict.get Dict.get_default
total-put c start b [] = omega (arith, column-empty c)
total-put c start b ((k, old) ∷ buckets) = ground (arith, total-put c start b buckets)
