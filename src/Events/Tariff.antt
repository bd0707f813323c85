-- ===== src/Events/Tariff.antt =====
-- events/tariff.py: which interval of a tariff is in effect, and what a poll relays of it. What the
-- server answers in a poll, the clocks of the scopes and what is drawn for an mRID are parameters. The
-- payload that is copied from a tariff's profile is left out, and the task of a relay is its entry.
pub mod Windows
pub mod Active
pub mod Relays
pub mod Tests
pub mod Poll
use py.Prelude.{
  ℕ, nat_key, Bytes, bytes_key, Option, none, some, List, [], ◌∷◌, Bool, true, false, not, ◌&&◌,
  ◌||◌, ◌==◌, ◌++◌, keep, map, or_else, is_empty, if◌then◌else◌,
}
use py.Prelude.Int.{ℤ, pos, ◌+ℤ◌, ◌-ℤ◌, ltb_ℤ, leb_ℤ}
use py.Prelude.Dict
use py.Prelude.Dict.{Dict}
use py.Prelude.Sets
use py.Prelude.Text.{given}
use py.Events.Randomization.{RandomizationCache, get_offsets}
use py.Events.Randomization
use py.Events.Response.{acknowledged, response_required_allows}
use py.Events.Response.Tracker.{
  ResponseTracker, empty_tracker, reserve, must_post, already, wait_for, mark_sent, release,
  retain_mrids, Reserved,
}
use py.Events.Response.Keys.{Key}

pub record TimeTariffInterval : Type 0 where
  pub m_rid : Bytes
  pub current_status : Option ℕ
  pub start : ℤ
  pub duration : ℤ
  pub randomize_start : Option ℤ
  pub randomize_duration : Option ℤ
  pub creation_time : Option ℤ
  pub response_required : Option Bytes
  pub reply_to : Option Bytes
  pub cti_href : Option Bytes

pub record RateComponent : Type 0 where
  pub href : Bytes
  pub time_tariff_intervals : List TimeTariffInterval

pub record TariffProfile : Type 0 where
  pub href : Bytes
  pub primacy : ℕ
  pub discovered_from_fsa_href : Option Bytes
  pub rate_components : List RateComponent

-- The draws of `random.randint`, for the start and for the duration.
abbrev pub Draws : Type 0
Draws = Bytes → (ℕ → ℕ) × (ℕ → ℕ)

abbrev pub Window : Type 0
Window = ℤ × ℤ

unfoldable pub effective_window :
    Draws → TimeTariffInterval → RandomizationCache → Window × RandomizationCache
effective_window draws interval cache =
    let drawn = draws interval.m_rid in
    let offsets =
      get_offsets drawn.0 drawn.1
        (record {
          m_rid = interval.m_rid;
          randomize_start = interval.randomize_start;
          randomize_duration = interval.randomize_duration;
        })
        interval.start interval.duration cache in
    let start = interval.start +ℤ offsets.0.0 in
    ((start, start +ℤ interval.duration +ℤ offsets.0.1), offsets.1)

-- `_INACTIVE_STATUSES`
unfoldable pub is_cancelled : TimeTariffInterval → Bool
is_cancelled interval = elim interval.current_status [
  | none ↦ false
  | some status ↦ status == 2 || status == 3 || status == 4
]

abbrev pub covers : Window → ℤ → Bool
covers window now = leb_ℤ window.0 now && ltb_ℤ now window.1

-- The creation time and the start: Python's order of tuples.
abbrev pub Rank : Type 0
Rank = ℤ × ℤ

abbrev pub rank : TimeTariffInterval → Window → Rank
rank interval window = (or_else interval.creation_time (pos 0), window.0)

unfoldable pub rank_lt : Rank → Rank → Bool
rank_lt a b = ltb_ℤ a.0 b.0 || (not (ltb_ℤ b.0 a.0) && ltb_ℤ a.1 b.1)

abbrev pub Best : Type 0
Best = Option (TimeTariffInterval × Rank)

unfoldable pub better : Rank → Best → Bool
better key none = true
better key (some (best, best_key)) = rank_lt best_key key

-- A round of the loop of `active_interval`.
unfoldable pub weigh :
    Draws → ℤ → TimeTariffInterval → Best → RandomizationCache → Best × RandomizationCache
weigh draws now interval best cache =
    let (window, cache') = effective_window draws interval cache in
    let key = rank interval window in
    if is_cancelled interval
    then (best, cache)
    else (if covers window now && better key best then some (interval, key) else best, cache')

unfoldable pub active_loop :
    Draws → ℤ → List TimeTariffInterval → Best → RandomizationCache → Best × RandomizationCache
active_loop draws now [] best cache = (best, cache)
active_loop draws now (interval ∷ intervals) best cache =
    let (best', cache') = weigh draws now interval best cache in
    active_loop draws now intervals best' cache'

unfoldable pub active_interval :
    Draws
    → List TimeTariffInterval
    → ℤ
    → RandomizationCache
    → Option TimeTariffInterval × RandomizationCache
active_interval draws intervals now cache =
    let (best, cache') = active_loop draws now intervals none cache in
    (elim best [ none ↦ none | some (interval, key) ↦ some interval ], cache')
