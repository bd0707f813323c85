-- ===== src/Events/Supersession/Tests.antt =====
-- Runs on small inputs, and the theorems at them.
use py.Prelude.{
  ◌≡◌, ◌⊎◌, refl, String, string_key, List, [], ◌∷◌, some, true, bytes_key, bytes_beq, keep, all,
}
use py.Prelude.Int.{◌+ℤ◌}
use py.Prelude.Dict
use py.Prelude.Dict.{Dict}
use py.Prelude.Sets
use py.Prelude.Sets.{Distinct}
use py.Events.Store.{EventRecord, end}
use py.Events.Store.Samples.{first, second, third}
use py.Events.Supersession.{
  SupersessionResult, compute_supersession, judge, time_overlaps, first_wins, tie_time, take_over,
  compared_mode_keys,
}
use py.Events.Supersession.Visits.{ids}
use py.Events.Supersession.AllPairs.{all_pairs, compute_supersession-all_pairs}
use py.Events.Supersession.Judge.{TakesOver, judge-TakesOver, judge-ramp_tms}

abbrev map_of : Dict String (List String)
map_of = ("/derp/1", "/edev/1" ∷ []) ∷ ("/derp/2", "/edev/1" ∷ "/edev/2" ∷ []) ∷ []

abbrev events : List EventRecord
events = first ∷ second ∷ third ∷ []

events-Distinct : Distinct (ids events)
unfolding Sets.contains bytes_beq
events-Distinct = (refl, (refl, (refl, tt)))

abbrev second_loses : SupersessionResult
second_loses = record {
  superseded_mrid = 2 ∷ [];
  superseding_mrid = 1 ∷ [];
  affected_devices = "/edev/1" ∷ [];
  superseded_program_href = "/derp/2";
  superseding_program_href = "/derp/1";
  affected_modes = "op_mod_fixed_w" ∷ [];
}

compute_supersession-all_pairs_example :
    compute_supersession events map_of ≡ some (all_pairs map_of events)
compute_supersession-all_pairs_example =
    compute_supersession-all_pairs events map_of events-Distinct

program_run : Unit {0}
unfolding judge time_overlaps first_wins tie_time take_over compared_mode_keys end ◌+ℤ◌ Dict.get
    Dict.get_default Sets.contains Sets.inter Sets.subset Sets.set_eq bytes_beq keep all
program_run = tt

verdict_run : judge map_of first second ≡ second_loses ∷ []
unfolding program_run
verdict_run = refl

judge-TakesOver_example :
    (time_overlaps first second ≡ true)
    × (TakesOver map_of first second second_loses ⊎ TakesOver map_of second first second_loses)
judge-TakesOver_example = judge-TakesOver map_of first second second_loses verdict_run

-- `first` and `third` have no mode in common.
judge-ramp_tms_example :
    (r : SupersessionResult) × (judge map_of first third ≡ r ∷ [])
    × (Sets.contains "ramp_tms" r.affected_modes ≡ true)
unfolding program_run
judge-ramp_tms_example = judge-ramp_tms map_of first third "/edev/1" refl refl refl refl refl
