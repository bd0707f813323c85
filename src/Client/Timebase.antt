-- ===== src/Client/Timebase.antt =====
-- client/timebase.py: the offset of the server's clock. Times, readings of the two clocks and
-- offsets are integers of one unit, of which a second has `unit`. What is reported is the list of
-- scopes told of; the drift warning and the snapshot are left out.
pub mod Laws
use py.Prelude.{
  ℕ, zero, suc, ◌+◌, ◌-◌, ◌*◌, max, String, string_key, Option, none, some, List, [], ◌∷◌, Bool,
  true, false, ◌&&◌, ltb, if◌then◌else◌, keep, not, ◌==◌,
}
use py.Prelude.Int.{ℤ, pos, ◌+ℤ◌, ◌-ℤ◌}
use py.Prelude.Dict.{Dict, get, put, delete}
use py.Prelude.Sets.{contains, add}

-- `time.time()` and `time.monotonic()` at one moment.
pub record Clock : Type 0 where
  pub wall : ℕ
  pub monotonic : ℕ

pub record TimeObservation : Type 0 where
  pub offset : ℤ
  pub receipt_epoch : ℕ
  pub quality : ℕ
  pub href : String
  pub receipt_monotonic : Option ℕ

pub record ServerTimebase : Type 0 where
  pub enabled : Bool
  pub fsa_stale_override : Option ℕ
  pub fsa_stale_derived : ℕ
  pub global : Option TimeObservation
  pub per_fsa : Dict String TimeObservation
  pub reported_stale : List String

-- Subtraction of readings stops at zero, as `max(0.0, ...)` does.
unfoldable pub age_seconds : Clock → TimeObservation → ℕ
age_seconds clock obs = elim obs.receipt_monotonic [
  | some at ↦ clock.monotonic - at
  | none ↦ clock.wall - obs.receipt_epoch
]

unfoldable pub newer_by : ℕ → ℕ → Option ℕ → Option ℕ → Bool
newer_by epoch epoch' (some a) (some b) = ltb b a
newer_by epoch epoch' _ _ = ltb epoch' epoch

unfoldable pub is_newer : TimeObservation → TimeObservation → Bool
is_newer candidate other =
    newer_by candidate.receipt_epoch other.receipt_epoch candidate.receipt_monotonic
      other.receipt_monotonic

module _ (unit : ℕ) where
  unfoldable pub new_timebase : Bool → Option ℕ → ServerTimebase
  new_timebase enabled stale = record {
    enabled = enabled;
    fsa_stale_override = stale;
    fsa_stale_derived = 3600 * unit;
    global = none;
    per_fsa = [];
    reported_stale = [];
  }

  unfoldable pub fsa_stale_seconds : ServerTimebase → ℕ
  fsa_stale_seconds tb = elim tb.fsa_stale_override [ some s ↦ s | none ↦ tb.fsa_stale_derived ]

  -- A rate of zero or below is skipped, as no rate is.
  unfoldable pub note_time_poll_rate : Option ℕ → ServerTimebase → ServerTimebase
  note_time_poll_rate none tb = tb
  note_time_poll_rate (some zero) tb = tb
  note_time_poll_rate (some (suc rate)) tb = record tb {
    fsa_stale_derived = max (3600 * unit) (3 * suc rate * unit);
  }

  unfoldable pub forget_fsa : String → ServerTimebase → ServerTimebase
  forget_fsa fsa tb = record tb {
    per_fsa = delete fsa tb.per_fsa;
    reported_stale = keep (λ f. not (f == fsa)) tb.reported_stale;
  }

  unfoldable pub observation : Clock → ℕ → ℕ → String → TimeObservation
  observation clock server_time quality href = record {
    offset = pos (server_time * unit) -ℤ pos clock.wall;
    receipt_epoch = clock.wall;
    quality = quality;
    href = href;
    receipt_monotonic = some clock.monotonic;
  }

  unfoldable pub observe : Clock → ℕ → Option String → ℕ → String → ServerTimebase → ServerTimebase
  observe clock server_time none quality href tb = record tb {
    global = some (observation clock server_time quality href);
  }
  observe clock server_time (some fsa) quality href tb = record tb {
    per_fsa = put fsa (observation clock server_time quality href) tb.per_fsa;
    reported_stale = keep (λ f. not (f == fsa)) tb.reported_stale;
  }

  unfoldable pub yields_to_global : Clock → TimeObservation → ServerTimebase → Bool
  yields_to_global clock scoped tb = elim tb.global [
    | none ↦ false
    | some g ↦ ltb (fsa_stale_seconds tb) (age_seconds clock scoped) && is_newer g scoped
  ]

  unfoldable pub report_stale_fallback : String → ServerTimebase → ServerTimebase
  report_stale_fallback fsa tb = record tb { reported_stale = add fsa tb.reported_stale }

  unfoldable pub resolve :
      Clock → Option String → ServerTimebase → Option TimeObservation × ServerTimebase
  resolve clock none tb = (tb.global, tb)
  resolve clock (some fsa) tb = elim (get fsa tb.per_fsa) [
    | none ↦ (tb.global, tb)
    | some scoped ↦
        if yields_to_global clock scoped tb
        then (tb.global, report_stale_fallback fsa tb)
        else (some scoped, tb)
  ]

  unfoldable pub offset_of : Option TimeObservation → ℤ
  offset_of none = pos 0
  offset_of (some obs) = obs.offset

  unfoldable pub offset : Clock → Option String → ServerTimebase → ℤ × ServerTimebase
  offset clock fsa tb =
      if tb.enabled
      then (offset_of ((resolve clock fsa tb).0), (resolve clock fsa tb).1)
      else (pos 0, tb)

  unfoldable pub now : Clock → Option String → ServerTimebase → ℤ × ServerTimebase
  now clock fsa tb = (pos clock.wall +ℤ (offset clock fsa tb).0, (offset clock fsa tb).1)

  unfoldable pub server_now : Clock → Option String → ServerTimebase → Option ℤ × ServerTimebase
  server_now clock fsa tb = (
    elim ((resolve clock fsa tb).0) [
      | none ↦ none
      | some obs ↦ some (pos clock.wall +ℤ obs.offset)
    ],
    (resolve clock fsa tb).1,
  )
