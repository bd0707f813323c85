-- ===== src/History/Intervals.antt =====
-- history/intervals.py: IntervalHistory, for one of its devices. Times and readings are whole numbers of
-- a unit; a column for negative values is held by its magnitude. The rows that were queued for the
-- database are kept as a list.
pub mod Available
pub mod Totals
pub mod Loop
pub mod Ideal
pub mod Meter
pub mod Tests
use py.Prelude.{
  ℕ, zero, suc, ◌+◌, ◌-◌, ◌*◌, ◌/◌, min, nat_key, Option, none, some, List, [], ◌∷◌, ◌++◌, Bool,
  true, false, not, keep, ltb, leb, if◌then◌else◌,
}
use py.Prelude.Int.{ℤ, pos, negsuc, pos_part, neg_part, ◌+ℤ◌, ◌-ℤ◌, ltb_ℤ}
use py.Prelude.Dict
use py.Prelude.Dict.{Dict}

-- `_Bucket`, but for the number of the batch that stored it.
pub record Bucket : Type 0 where
  pub covered_seconds : ℕ
  pub samples : ℕ
  pub ws_positive : ℕ
  pub ws_negative : ℕ
  pub w_min : Option ℤ
  pub w_max : Option ℤ
  pub var_seconds : ℕ
  pub vars_positive : ℕ
  pub vars_negative : ℕ
  pub avail_seconds : ℕ
  pub avail_ws : ℤ
  pub curtail_seconds : ℕ
  pub curtailed_ws : ℕ

abbrev pub empty_bucket : Bucket
empty_bucket = record {
  covered_seconds = 0;
  samples = 0;
  ws_positive = 0;
  ws_negative = 0;
  w_min = none;
  w_max = none;
  var_seconds = 0;
  vars_positive = 0;
  vars_negative = 0;
  avail_seconds = 0;
  avail_ws = pos 0;
  curtail_seconds = 0;
  curtailed_ws = 0;
}

-- `_Device`, with the rows that were written for it.
pub record Device : Type 0 where
  pub at : Option ℕ
  pub w : Option ℤ
  pub var : Option ℤ
  pub avail : Option ℤ
  pub avail_at : Option ℕ
  pub buckets : Dict ℕ Bucket
  pub written : List (ℕ × Bucket)

abbrev pub new_device : Device
new_device = record {
  at = none;
  w = none;
  var = none;
  avail = none;
  avail_at = none;
  buckets = [];
  written = [];
}

-- A reading times a span.
abbrev pub times : ℤ → ℕ → ℤ
times (pos n) dt = pos (n * dt)
times (negsuc n) dt = (pos 0) -ℤ pos (suc n * dt)

abbrev pub lower : ℤ → Option ℤ → ℤ
lower w none = w
lower w (some v) = if ltb_ℤ w v then w else v

abbrev pub higher : ℤ → Option ℤ → ℤ
higher w none = w
higher w (some v) = if ltb_ℤ v w then w else v

-- The extremes with one more reading.
abbrev pub extremes : ℤ → Bucket → Bucket
extremes w b = record b { w_min = some (lower w b.w_min); w_max = some (higher w b.w_max) }

unfoldable pub hold_w : Option ℤ → ℕ → Bucket → Bucket
hold_w none dt b = b
hold_w (some w) dt b = record (extremes w b) {
  covered_seconds = b.covered_seconds + dt;
  ws_positive = b.ws_positive + pos_part w * dt;
  ws_negative = b.ws_negative + neg_part w * dt;
}

unfoldable pub hold_var : Option ℤ → ℕ → Bucket → Bucket
hold_var none dt b = b
hold_var (some var) dt b = record b {
  var_seconds = b.var_seconds + dt;
  vars_positive = b.vars_positive + pos_part var * dt;
  vars_negative = b.vars_negative + neg_part var * dt;
}

-- `max(0.0, avail - max(w, 0.0))`
abbrev pub curtailed : ℤ → ℤ → ℕ
curtailed avail w = pos_part (avail -ℤ pos (pos_part w))

unfoldable pub hold_avail : Option ℤ → Option ℤ → ℕ → Bucket → Bucket
hold_avail none w dt b = b
hold_avail (some avail) none dt b = record b {
  avail_seconds = b.avail_seconds + dt;
  avail_ws = b.avail_ws +ℤ times avail dt;
}
hold_avail (some avail) (some w) dt b = record b {
  avail_seconds = b.avail_seconds + dt;
  avail_ws = b.avail_ws +ℤ times avail dt;
  curtail_seconds = b.curtail_seconds + dt;
  curtailed_ws = b.curtailed_ws + curtailed avail w * dt;
}

-- What is held over a span: the power, the reactive power and the available power.
pub record Held : Type 0 where
  pub w : Option ℤ
  pub var : Option ℤ
  pub avail : Option ℤ

-- One round of the loop of `_integrate`, on its bucket.
unfoldable pub hold : Held → ℕ → Bucket → Bucket
hold h dt b = hold_avail h.avail h.w dt (hold_var h.var dt (hold_w h.w dt b))

-- The bucket of the new reading, with one more sample.
unfoldable pub note_sample : Option ℤ → Bucket → Bucket
note_sample none b = record b { samples = suc b.samples }
note_sample (some w) b = record (extremes w b) { samples = suc b.samples }

-- `sorted`, by the begin of the interval.
unfoldable pub insert : ℕ × Bucket → List (ℕ × Bucket) → List (ℕ × Bucket)
insert row [] = row ∷ []
insert row (other ∷ rows) =
    if leb row.0 other.0 then row ∷ other ∷ rows else other ∷ insert row rows

unfoldable pub sorted : List (ℕ × Bucket) → List (ℕ × Bucket)
sorted [] = []
sorted (row ∷ rows) = insert row (sorted rows)

-- `interval_seconds` less one, and `max_gap_seconds`.
module _ (interval_pred max_gap : ℕ) where
  abbrev pub interval_seconds : ℕ
  interval_seconds = suc interval_pred

  unfoldable pub floor : ℕ → ℕ
  floor at = at / interval_seconds * interval_seconds

  abbrev pub span_end : ℕ → ℕ → ℕ
  span_end t0 t1 = min t1 (floor t0 + interval_seconds)

  unfoldable pub hold_span : Held → ℕ → ℕ → Dict ℕ Bucket → Dict ℕ Bucket
  hold_span h t0 t1 buckets =
      let start = floor t0 in
      Dict.put start (hold h (span_end t0 t1 - t0) (Dict.get_default start buckets empty_bucket))
        buckets

  -- The loop of `_integrate`; `none` where the fuel ends.
  unfoldable pub integrate_loop : ℕ → Held → ℕ → ℕ → Dict ℕ Bucket → Option (Dict ℕ Bucket)
  integrate_loop zero h t0 t1 buckets = if ltb t0 t1 then none else some buckets
  integrate_loop (suc fuel) h t0 t1 buckets =
      let rest = integrate_loop fuel h (span_end t0 t1) t1 (hold_span h t0 t1 buckets) in
      if ltb t0 t1 then rest else some buckets

  -- The available power, unless its reading is too far from the span's begin.
  unfoldable pub held_avail : Device → ℕ → Option ℤ
  held_avail d t0 = elim d.avail_at [
    | none ↦ none
    | some avail_at ↦ if ltb max_gap ((t0 - avail_at) + (avail_at - t0)) then none else d.avail
  ]

  abbrev pub held_by : Device → ℕ → Held
  held_by d t0 = record { w = d.w; var = d.var; avail = held_avail d t0 }

  unfoldable pub integrate : Device → ℕ → ℕ → Option (Dict ℕ Bucket)
  integrate d t0 t1 = integrate_loop (t1 - t0) (held_by d t0) t0 t1 d.buckets

  -- `_flush_before`
  unfoldable pub flush_before : ℕ → Device → Device
  flush_before start d = record d {
    buckets = keep (λ row. not (ltb row.0 start)) d.buckets;
    written = d.written ++ sorted (keep (λ row. ltb row.0 start) d.buckets);
  }

  -- The buckets with what was held up to the new reading, if the gap is bridged.
  unfoldable pub bridge : Device → ℕ → Option (Dict ℕ Bucket)
  bridge d at = elim d.at [
    | none ↦ some d.buckets
    | some last ↦ if leb (at - last) max_gap then integrate d last at else some d.buckets
  ]

  unfoldable pub take_reading : ℕ → Option ℤ → Option ℤ → Device → Dict ℕ Bucket → Device
  take_reading at w var d buckets =
      let start = floor at in
      flush_before start (record d {
        at = some at;
        w = w;
        var = var;
        buckets =
            Dict.put start (note_sample w (Dict.get_default start buckets empty_bucket)) buckets;
      })

  abbrev pub is_stale : Device → ℕ → Bool
  is_stale d at = elim d.at [ none ↦ false | some last ↦ leb at last ]

  -- `none` only where the fuel of the loop ends.
  unfoldable pub observe : ℕ → Option ℤ → Option ℤ → Device → Option Device
  observe at w var d = if is_stale d at then some d else elim (bridge d at) [
    | none ↦ none
    | some buckets ↦ some (take_reading at w var d buckets)
  ]

unfoldable pub observe_availability : ℕ → Option ℤ → Device → Device
observe_availability at w_avail d = record d {
  avail = w_avail;
  avail_at = elim w_avail [ none ↦ none | some _ ↦ some at ];
}

unfoldable pub interrupt : Device → Device
interrupt d = record d { at = none }

unfoldable pub flush : Device → Device
flush d = record d { buckets = []; written = d.written ++ d.buckets }
