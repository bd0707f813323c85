-- ===== src/Events/Tariff/Tests.antt =====
-- A poll of the tariffs on a concrete input.
use py.Prelude.{
  ℕ, nat_key, bytes_key, Bytes, bytes_beq, Option, none, some, List, [], ◌∷◌, ◌≡◌, refl, any,
  length, if◌then◌else◌,
}
use py.Prelude.Int.{pos, ◌+ℤ◌}
use py.Prelude.Dict.{get, get_default, put}
use py.Events.Response.Tracker.{empty_tracker}
use py.Events.Tariff.Relays.{is_current, fetches, relay_polls_lem}
use py.Events.Randomization.{empty, get_offsets, compute_offset}
use py.Events.Tariff.{
  TimeTariffInterval, Draws, active_interval, active_loop, weigh, effective_window, is_cancelled,
  better, rank_lt, RateComponent, TariffProfile,
}
use py.Events.Tariff.Poll.{mrid_of, same_mrid, TariffProcessor, relay_polls}
use py.Events.Tariff.Active.{Selected, active_interval_lem}

abbrev interval : ℕ → ℕ → ℕ → Option ℕ → TimeTariffInterval
interval name start created status = record {
  m_rid = name ∷ [];
  current_status = status;
  start = pos start;
  duration = pos 100;
  randomize_start = some (pos 20);
  randomize_duration = none;
  creation_time = some (pos created);
  response_required = none;
  reply_to = none;
  cti_href = none;
}

-- The start is put off by all it may be.
abbrev draws : Draws
draws mrid = ((λ m. m), (λ m. 0))

-- The last is newer, and cancelled; the second has not started.
abbrev schedule : List TimeTariffInterval
schedule =
    interval 1 0 5 none
    ∷ interval 2 40 9 none
    ∷ interval 3 10 7 (some 1)
    ∷ interval 4 10 8 (some 2)
    ∷ []

active_test : mrid_of (active_interval draws schedule (pos 50) empty).0 ≡ some (3 ∷ [])
unfolding mrid_of active_interval active_loop weigh is_cancelled effective_window ◌+ℤ◌ get_offsets
    get put bytes_beq compute_offset better rank_lt
active_test = refl

active_interval_lem_example :
    Selected (pos 50) schedule (active_interval draws schedule (pos 50) empty)
active_interval_lem_example = active_interval_lem draws schedule (pos 50) empty

abbrev component : RateComponent
component = record { href = 9 ∷ []; time_tariff_intervals = schedule }

abbrev profile : TariffProfile
profile = record {
  href = 8 ∷ [];
  primacy = 1;
  discovered_from_fsa_href = none;
  rate_components = component ∷ [];
}

abbrev fresh : TariffProcessor ℕ
fresh = record { randomization = empty; active = []; response_tracker = empty_tracker; relays = [] }

abbrev priced : TimeTariffInterval
priced = record (interval 1 0 5 none) { cti_href = some (7 ∷ []) }

-- The prices come at the second poll.
abbrev polls : List (Bytes → Option (List ℕ))
polls = (λ href. none) ∷ (λ href. some (5 ∷ [])) ∷ (λ href. some (6 ∷ [])) ∷ []

relay_polls_lem_example :
    (length (relay_polls draws profile component (some priced) [] polls fresh).relays
      ≡ (if any (fetches draws profile component priced []) polls then 1 else 0))
    × (is_current draws profile component priced []
          (relay_polls draws profile component (some priced) [] polls fresh)
        ≡ any (fetches draws profile component priced []) polls)
unfolding get_default get same_mrid
relay_polls_lem_example = relay_polls_lem draws profile component priced [] polls fresh refl
