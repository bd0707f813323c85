-- ===== src/History/Intervals/Meter.antt =====
-- A device of history/intervals.py, over all its intervals, against the meter without intervals.
use py.Prelude.{
  ℕ, ◌+◌, ◌-◌, nat_key, Option, none, some, List, [], ◌∷◌, false, ◌≡◌, refl, ap, inl, inr, ◌∙◌,
  keep, ltb, leb, Bool-cases, Option-cases, arith,
}
use py.Prelude.Int.{ℤ, ◌+ℤ◌, int_laws}
use py.Prelude.Dict
use py.Prelude.Dict.{Dict}
use py.History.Intervals.{
  Bucket, empty_bucket, Device, held_avail, held_by, integrate, bridge, take_reading, flush_before,
  is_stale, observe, observe_availability, interrupt, flush, floor, note_sample, sorted,
}
use py.History.Intervals.Available.{
  avail_total, avail_total-append, avail_total-sorted, avail_total-keep, avail_total-sample,
}
use py.History.Intervals.Totals.{
  Column, total, total-append, total-sorted, total-keep, total-put, column-note_sample,
}
use py.History.Intervals.Loop.{integrate_loop_lem}
use py.History.Intervals.Ideal.{
  Meter, Op, reading, availability, lost, flushed, gained, available_since, meter_step, meter_run,
}

-- Every sum over the buckets in memory and the rows that were written.
abbrev pub meter_of : Device → Meter
meter_of d = record {
  at = d.at;
  w = d.w;
  var = d.var;
  avail = d.avail;
  avail_at = d.avail_at;
  sums = λ c. total c d.buckets + total c d.written;
  avail_ws = avail_total d.buckets +ℤ avail_total d.written;
}

module _ (interval_pred max_gap : ℕ) where
  -- `none` only where the fuel of the loop ends.
  abbrev pub device_step : Op → Device → Option Device
  device_step (reading at w var) d = observe interval_pred max_gap at w var d
  device_step (availability at w_avail) d = some (observe_availability at w_avail d)
  device_step lost d = some (interrupt d)
  device_step flushed d = some (flush d)

  abbrev pub device_run : List Op → Device → Option Device
  device_run [] d = some d
  device_run (op ∷ ops) d = elim (device_step op d) [ none ↦ none | some d' ↦ device_run ops d' ]

  -- The two have the same readings and the same sums.
  pub record Shows (d : Device) (m : Meter) : Type 0 where
    pub same_at : d.at ≡ m.at
    pub same_w : d.w ≡ m.w
    pub same_var : d.var ≡ m.var
    pub same_avail : d.avail ≡ m.avail
    pub same_avail_at : d.avail_at ≡ m.avail_at
    pub same_sums : (c : Column) → total c d.buckets + total c d.written ≡ m.sums c
    pub same_avail_ws : avail_total d.buckets +ℤ avail_total d.written ≡ m.avail_ws

  Shows-self : (d : Device) → Shows d (meter_of d)
  Shows-self d = record {
    same_at = refl;
    same_w = refl;
    same_var = refl;
    same_avail = refl;
    same_avail_at = refl;
    same_sums = λ c. refl;
    same_avail_ws = refl;
  }

  bridge_lem :
      (d : Device) (at : ℕ)
      → (buckets : Dict ℕ Bucket) × (bridge interval_pred max_gap d at ≡ some buckets)
        × ((c : Column) → total c buckets ≡ total c d.buckets + gained max_gap (meter_of d) at c)
        × (avail_total buckets ≡ avail_total d.buckets +ℤ available_since max_gap (meter_of d) at)
  unfolding bridge integrate held_avail
  bridge_lem d at = elim (Option-cases d.at) [
    | inl e ↦ (d.buckets, rw (e, bridge) refl, (λ c. rw e (omega arith)), rw e (grind int_laws))
    | inr (last, e) ↦ elim (Bool-cases (leb (at - last) max_gap)) [
      | inl near ↦
          let (out, found, sums, gain) =
            integrate_loop_lem interval_pred max_gap (at - last)
              (held_by interval_pred max_gap d last) last at d.buckets (omega arith) in
          (out, rw (e, bridge) (rw near found), (λ c. rw (e, near) (sums c)), rw (e, near) gain)
      | inr far ↦ (
        d.buckets,
        rw (e, bridge) (rw far refl),
        (λ c. rw (e, far) (omega arith)),
        rw (e, far) (grind int_laws),
      )
    ]
  ]

  flush_before-total :
      (c : Column) (start : ℕ) (d : Device)
      → total c (flush_before interval_pred max_gap start d).buckets
          + total c (flush_before interval_pred max_gap start d).written
        ≡ total c d.buckets + total c d.written
  unfolding flush_before
  flush_before-total c start d =
      let done = keep (λ (row : ℕ × Bucket). ltb row.0 start) d.buckets in
      omega (
        arith,
        total-append c d.written (sorted done),
        total-sorted c done,
        total-keep c (λ row. ltb row.0 start) d.buckets,
      )

  flush_before-available :
      (start : ℕ) (d : Device)
      → avail_total (flush_before interval_pred max_gap start d).buckets
          +ℤ avail_total (flush_before interval_pred max_gap start d).written
        ≡ avail_total d.buckets +ℤ avail_total d.written
  unfolding flush_before
  flush_before-available start d =
      let done = keep (λ (row : ℕ × Bucket). ltb row.0 start) d.buckets in
      grind (
        int_laws,
        avail_total-append d.written (sorted done),
        avail_total-sorted done,
        avail_total-keep (λ (row : ℕ × Bucket). ltb row.0 start) d.buckets,
      )

  take_reading-Shows :
      (at : ℕ) (w var : Option ℤ) (d : Device) (buckets : Dict ℕ Bucket)
      → ((c : Column) → total c buckets ≡ total c d.buckets + gained max_gap (meter_of d) at c)
      → avail_total buckets ≡ avail_total d.buckets +ℤ available_since max_gap (meter_of d) at
      → is_stale interval_pred max_gap d at ≡ false
      → Shows
          (take_reading interval_pred max_gap at w var d buckets)
          (meter_step max_gap (reading at w var) (meter_of d))
  unfolding take_reading flush_before
  take_reading-Shows at w var d buckets sums gain fresh = rw fresh record {
    same_at = refl;
    same_w = refl;
    same_var = refl;
    same_avail = refl;
    same_avail_at = refl;
    same_sums = λ c.
        let start = floor interval_pred max_gap at in
        let old = Dict.get_default start buckets empty_bucket in
        let put = Dict.put start (note_sample w old) buckets in
        omega (
          arith,
          sums c,
          total-put c start (note_sample w old) buckets,
          column-note_sample c w old,
          flush_before-total c start (record d { at = some at; w = w; var = var; buckets = put }),
        );
    same_avail_ws =
        let start = floor interval_pred max_gap at in
        let old = Dict.get_default start buckets empty_bucket in
        let put = Dict.put start (note_sample w old) buckets in
        grind (
          int_laws,
          gain,
          avail_total-sample start w buckets,
          flush_before-available start (record d { at = some at; w = w; var = var; buckets = put }),
        );
  }

  step_lem :
      (op : Op) (d : Device)
      → (d' : Device) × (device_step op d ≡ some d') × Shows d' (meter_step max_gap op (meter_of d))
  unfolding observe observe_availability interrupt flush
  step_lem (reading at w var) d = elim (Bool-cases (is_stale interval_pred max_gap d at)) [
    | inl old ↦ (d, rw (old, observe) refl, rw old (Shows-self d))
    | inr fresh ↦
        let (buckets, e, sums, gain) = bridge_lem d at in
        (
          take_reading interval_pred max_gap at w var d buckets,
          rw (fresh, e, observe) refl,
          take_reading-Shows at w var d buckets sums gain fresh,
        )
  ]
  step_lem (availability at w_avail) d =
      (observe_availability at w_avail d, refl, Shows-self (observe_availability at w_avail d))
  step_lem lost d = (interrupt d, refl, Shows-self (interrupt d))
  step_lem flushed d = (
    flush d,
    refl,
    record {
      same_at = refl;
      same_w = refl;
      same_var = refl;
      same_avail = refl;
      same_avail_at = refl;
      same_sums = λ c. omega (arith, total-append c d.written d.buckets);
      same_avail_ws = grind (int_laws, avail_total-append d.written d.buckets);
    },
  )

  meter_of-Shows : (d : Device) (m : Meter) → Shows d m → meter_of d ≡ m
  meter_of-Shows d m h = λ i. record {
    at = h.same_at i;
    w = h.same_w i;
    var = h.same_var i;
    avail = h.same_avail i;
    avail_at = h.same_avail_at i;
    sums = λ c. h.same_sums c i;
    avail_ws = h.same_avail_ws i;
  }

  -- From any state, and whatever the readings, the gaps and the flushes, no operation fails, and the
  -- sums over all intervals, in memory and written, are those of a meter that has no intervals and
  -- holds each reading until the next one, over gaps up to the bound only.
  pub device_run_lem :
      (ops : List Op) (d : Device)
      → (d' : Device) × (device_run ops d ≡ some d')
        × (meter_of d' ≡ meter_run max_gap ops (meter_of d))
  device_run_lem [] d = (d, refl, refl)
  device_run_lem (op ∷ ops) d =
      let (d', e, shows) = step_lem op d in
      let (d'', e', same) = device_run_lem ops d' in
      (
        d'',
        rw (e, device_run) e',
        same
            ∙ ap (meter_run max_gap ops)
                (meter_of-Shows d' (meter_step max_gap op (meter_of d)) shows),
      )
