-- ===== src/History/Intervals/Ideal.antt =====
-- What the integration of history/intervals.py promises: a meter without intervals, that holds each
-- reading until the next one.
use py.Prelude.{
  ℕ, ◌+◌, ◌-◌, ◌*◌, nat_key, Option, none, some, List, [], ◌∷◌, Bool, false, if◌then◌else◌, ltb,
  leb,
}
use py.Prelude.Int.{ℤ, pos, ◌+ℤ◌}
use py.History.Intervals.{times, Held}
use py.History.Intervals.Available.{available}
use py.History.Intervals.Totals.{Column, rate, sampled}

-- The last reading, and the columns' sums since the beginning; that of the available power has a sign.
pub record Meter : Type 0 where
  pub at : Option ℕ
  pub w : Option ℤ
  pub var : Option ℤ
  pub avail : Option ℤ
  pub avail_at : Option ℕ
  pub sums : Column → ℕ
  pub avail_ws : ℤ

pub data Op : Type 0 where
  reading : ℕ → Option ℤ → Option ℤ → Op
  availability : ℕ → Option ℤ → Op
  lost flushed : Op

module _ (max_gap : ℕ) where
  abbrev pub held_of : Meter → ℕ → Held
  held_of m t0 = record {
    w = m.w;
    var = m.var;
    avail = elim m.avail_at [
      | none ↦ none
      | some avail_at ↦ if ltb max_gap ((t0 - avail_at) + (avail_at - t0)) then none else m.avail
    ];
  }

  -- What the time since the last reading adds to a column.
  abbrev pub gained : Meter → ℕ → Column → ℕ
  gained m at c = elim m.at [
    | none ↦ 0
    | some last ↦ if leb (at - last) max_gap then rate c (held_of m last) * (at - last) else 0
  ]

  -- What it adds to the sum of the available power.
  abbrev pub available_since : Meter → ℕ → ℤ
  available_since m at = elim m.at [
    | none ↦ pos 0
    | some last ↦
        if leb (at - last) max_gap then times (available (held_of m last)) (at - last) else pos 0
  ]

  abbrev pub is_old : Meter → ℕ → Bool
  is_old m at = elim m.at [ none ↦ false | some last ↦ leb at last ]

  abbrev pub meter_step : Op → Meter → Meter
  meter_step (reading at w var) m = if is_old m at then m else record m {
    at = some at;
    w = w;
    var = var;
    sums = λ c. m.sums c + gained m at c + sampled c;
    avail_ws = m.avail_ws +ℤ available_since m at;
  }
  meter_step (availability at w_avail) m = record m {
    avail = w_avail;
    avail_at = elim w_avail [ none ↦ none | some _ ↦ some at ];
  }
  meter_step lost m = record m { at = none }
  meter_step flushed m = m

  abbrev pub meter_run : List Op → Meter → Meter
  meter_run [] m = m
  meter_run (op ∷ ops) m = meter_run ops (meter_step op m)
