-- ===== src/Events/Response/Tracker.antt =====
-- The ResponseTracker of events/response.py: what was sent, and which posts have not returned.
use py.Prelude.{
  ℕ, suc, Bytes, bytes_key, none, some, List, [], ◌∷◌, Bool, true, false, not, ◌||◌, ◌==◌, length,
  if◌then◌else◌,
}
use py.Prelude.Int.{ℤ, ◌-ℤ◌, pos, ltb_ℤ}
use py.Prelude.Dict
use py.Prelude.Dict.{Dict}
use py.Prelude.Sets
use py.Events.Response.Keys.{Key, Future, response_key, future_key}

-- `results` has the futures that are done, with their outcomes.
pub record ResponseTracker : Type 0 where
  pub sent : Dict Key ℤ
  pub in_flight : Dict Key Future
  pub results : Dict Future Bool
  pub next_number : ℕ

abbrev pub empty_tracker : ResponseTracker
empty_tracker = record { sent = []; in_flight = []; results = []; next_number = 0 }

unfoldable pub already_sent : Key → ResponseTracker → Bool
already_sent key t = Dict.has key t.sent || Dict.has key t.in_flight

-- What one round of the loop in `reserve` comes to.
pub data Reserved : Type 0 where
  must_post already : Reserved
  wait_for : Future → Reserved

unfoldable pub claim : Key → ResponseTracker → ResponseTracker
claim key t = record t {
  in_flight = Dict.put key (key, t.next_number) t.in_flight;
  next_number = suc t.next_number;
}

unfoldable pub reserve : Key → ResponseTracker → Reserved × ResponseTracker
reserve key t = if Dict.has key t.sent then (already, t) else elim (Dict.get key t.in_flight) [
  | none ↦ (must_post, claim key t)
  | some future ↦ (wait_for future, t)
]

-- `set_result`, of a future that is not done.
unfoldable pub set_result : Future → Bool → Dict Future Bool → Dict Future Bool
set_result future outcome results =
    if Dict.has future results then results else Dict.put future outcome results

-- The claim is given up, and its future gets the outcome.
unfoldable pub finish : Key → Bool → ResponseTracker → ResponseTracker
finish key outcome t = elim (Dict.get key t.in_flight) [
  | none ↦ t
  | some future ↦ record t {
    in_flight = Dict.delete key t.in_flight;
    results = set_result future outcome t.results;
  }
]

unfoldable pub release : Key → ResponseTracker → ResponseTracker
release key t = finish key false t

unfoldable pub mark_sent : Key → ℤ → ResponseTracker → ResponseTracker
mark_sent key now t = finish key true (record t { sent = Dict.put key now t.sent })

unfoldable pub has_mrid : Bytes → Dict Key ℤ → Bool
has_mrid mrid [] = false
has_mrid mrid ((key, at) ∷ sent) = key.0 == mrid || has_mrid mrid sent

unfoldable pub has_responded : Bytes → ResponseTracker → Bool
has_responded mrid t = has_mrid mrid t.sent

-- The entries that pass a test, in place of the deletion of those that do not.
unfoldable pub retain : (Key → ℤ → Bool) → Dict Key ℤ → Dict Key ℤ
retain ok [] = []
retain ok ((key, at) ∷ sent) = if ok key at then (key, at) ∷ retain ok sent else retain ok sent

abbrev pub default_max_age : ℤ
default_max_age = pos 7200

unfoldable pub prune : ℤ → ℤ → ResponseTracker → ResponseTracker
prune now max_age t = record t { sent = retain (λ _ at. not (ltb_ℤ max_age (now -ℤ at))) t.sent }

unfoldable pub retain_mrids : List Bytes → ResponseTracker → ResponseTracker
retain_mrids live_mrids t = record t {
  sent = retain (λ key _. Sets.contains key.0 live_mrids) t.sent;
}

unfoldable pub len : ResponseTracker → ℕ
len t = length t.sent
