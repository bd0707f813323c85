-- ===== src/Events/Supersession.antt =====
-- events/supersession.py: which of two DERControls takes over from the other, on which devices and
-- for which modes. `none` is a KeyError or an IndexError. The caches `sharing` and `modes` of the
-- source hold results of pure functions and are left out: the functions are called again.
pub mod Index
pub mod Reach
pub mod Visits
pub mod AllPairs
pub mod Judge
pub mod Tests
use py.Prelude.{
  ℕ, zero, suc, any, is_empty, String, Option, none, some, List, [], ◌∷◌, ◌++◌, Bool, true, false,
  not, ◌&&◌, ◌||◌, Bytes, bytes_key, string_key, ◌==◌, keep, drop, get_elem?, ltb, leb, nat_beq,
  if◌then◌else◌,
}
use py.Prelude.Int.{ℤ, pos, ltb_ℤ, leb_ℤ}
use py.Prelude.Dict
use py.Prelude.Dict.{Dict}
use py.Prelude.Sets
use py.Events.Control.{DercontrolBase}
use py.Events.Store.{EventRecord, end}

pub record SupersessionResult : Type 0 where
  pub superseded_mrid : Bytes
  pub superseding_mrid : Bytes
  pub affected_devices : List String
  pub superseded_program_href : String
  pub superseding_program_href : String
  pub affected_modes : List String

abbrev pub excluded_fields : List String
excluded_fields = "op_mod_connect" ∷ "op_mod_energize" ∷ []

-- The fields of `DercontrolBase` that are None or a value, in the order of the model. The others,
-- `dercontrol_base_r2_3`, `other_element` and `any_attributes`, are those that the loop skips by
-- their prefix.
abbrev pub model_fields : List String
model_fields =
    "op_mod_connect" ∷ "op_mod_delta_var" ∷ "op_mod_delta_w" ∷ "op_mod_energize"
    ∷ "op_mod_fixed_pfabsorb_w" ∷ "op_mod_fixed_pfinject_w" ∷ "op_mod_fixed_v" ∷ "op_mod_fixed_var"
    ∷ "op_mod_fixed_w" ∷ "op_mod_freq_droop" ∷ "op_mod_freq_watt" ∷ "op_mod_grid_connect_permit"
    ∷ "op_mod_hfrtmay_trip" ∷ "op_mod_hfrtmust_trip" ∷ "op_mod_hvrtmay_trip"
    ∷ "op_mod_hvrtmomentary_cessation" ∷ "op_mod_hvrtmust_trip" ∷ "op_mod_island_permit"
    ∷ "op_mod_lfrtmay_trip" ∷ "op_mod_lfrtmust_trip" ∷ "op_mod_lvrtmay_trip"
    ∷ "op_mod_lvrtmomentary_cessation" ∷ "op_mod_lvrtmust_trip" ∷ "op_mod_max_lim_pct_vaabsorb"
    ∷ "op_mod_max_lim_pct_vainject" ∷ "op_mod_max_lim_pct_var_absorb"
    ∷ "op_mod_max_lim_pct_var_inject" ∷ "op_mod_max_lim_pct_wabsorb" ∷ "op_mod_max_lim_var_absorb"
    ∷ "op_mod_max_lim_var_inject" ∷ "op_mod_max_lim_w" ∷ "op_mod_max_lim_wabsorb"
    ∷ "op_mod_max_lim_winject" ∷ "op_mod_target_v" ∷ "op_mod_target_var" ∷ "op_mod_target_w"
    ∷ "op_mod_volt_var" ∷ "op_mod_volt_watt" ∷ "op_mod_watt_pf" ∷ "op_mod_watt_var" ∷ "ramp_tms"
    ∷ []

unfoldable pub compared_mode_keys : DercontrolBase → List String
compared_mode_keys base =
    keep (λ name. not (Sets.contains name excluded_fields) && Sets.contains name base.set_fields)
      model_fields

unfoldable pub time_overlaps : EventRecord → EventRecord → Bool
time_overlaps a b = ltb_ℤ a.start (end b) && ltb_ℤ b.start (end a)

-- `bytes.__lt__`: lexicographic
unfoldable pub bytes_lt : Bytes → Bytes → Bool
bytes_lt [] [] = false
bytes_lt [] (b ∷ bs) = true
bytes_lt (a ∷ as') [] = false
bytes_lt (a ∷ as') (b ∷ bs) = ltb a b || (nat_beq a b && bytes_lt as' bs)

-- `(min(a.mrid, b.mrid), max(a.mrid, b.mrid))`
unfoldable pub pair_key : Bytes → Bytes → Bytes × Bytes
pair_key a b = (if bytes_lt b a then b else a, if bytes_lt a b then b else a)

unfoldable pub pair_beq : Bytes × Bytes → Bytes × Bytes → Bool
pair_beq p q = p.0 == q.0 && p.1 == q.1

-- `program_to_devices.get(program, set())`
abbrev pub devices_of : Dict String (List String) → String → List String
devices_of program_to_devices program = Dict.get_default program program_to_devices []

-- `a.creation_time or a.server_status_time`
unfoldable pub tie_time : EventRecord → ℤ
tie_time e = elim e.creation_time [ pos zero ↦ e.server_status_time | other ↦ e.creation_time ]

-- Whether `a` wins over `b`, where `a` stands first in the list.
unfoldable pub first_wins : EventRecord → EventRecord → Bool
first_wins a b =
    if ltb a.primacy b.primacy
    then true
    else if ltb b.primacy a.primacy
    then false
    else leb_ℤ (tie_time b) (tie_time a)

module _ (program_to_devices : Dict String (List String)) where
  -- The result for a winner and a loser, if their programs share a device.
  unfoldable pub take_over : List String → EventRecord → EventRecord → List SupersessionResult
  take_over overlap winner loser =
      let affected =
        Sets.inter (devices_of program_to_devices winner.program_href)
          (devices_of program_to_devices loser.program_href) in
      if is_empty affected
      then []
      else record {
        superseded_mrid = loser.mrid;
        superseding_mrid = winner.mrid;
        affected_devices = affected;
        superseded_program_href = loser.program_href;
        superseding_program_href = winner.program_href;
        affected_modes = overlap;
      }
        ∷ []

  -- The body of the inner loop behind the test on `checked`: what a pair appends to the results.
  unfoldable pub judge : EventRecord → EventRecord → List SupersessionResult
  judge a b =
      let params_a = compared_mode_keys a.derc.dercontrol_base in
      let params_b = compared_mode_keys b.derc.dercontrol_base in
      let overlap = Sets.inter params_a params_b in
      if not (time_overlaps a b)
      then []
      else if not (Sets.set_eq params_a params_b) && is_empty overlap
      then []
      else if first_wins a b
      then take_over overlap a b
      else take_over overlap b a

-- `programs_on`: each device's programs.
unfoldable pub on_devices :
    String → List String → Dict String (List String) → Dict String (List String)
on_devices program [] acc = acc
on_devices program (device ∷ devices) acc =
    on_devices program devices
      (Dict.put device (Sets.add program (Dict.get_default device acc [])) acc)

unfoldable pub programs_on :
    Dict String (List String) → Dict String (List String) → Dict String (List String)
programs_on [] acc = acc
programs_on ((program, devices) ∷ items) acc = programs_on items (on_devices program devices acc)

-- `for device in ...: reach |= programs_on[device]`
unfoldable pub reach_from :
    List String → Dict String (List String) → List String → Option (List String)
reach_from [] on reach = some reach
reach_from (device ∷ devices) on reach = elim (Dict.get device on) [
  | none ↦ none
  | some programs ↦ reach_from devices on (Sets.union reach programs)
]

unfoldable pub programs_sharing :
    Dict String (List String) → Dict String (List String) → String → Option (List String)
programs_sharing program_to_devices on program =
    reach_from (devices_of program_to_devices program) on []

-- `indices_of`: the places of each program's events.
unfoldable pub indices_of : ℕ → List EventRecord → Dict String (List ℕ) → Dict String (List ℕ)
indices_of index [] acc = acc
indices_of index (event ∷ events) acc =
    indices_of (suc index) events
      (Dict.put event.program_href (Dict.get_default event.program_href acc [] ++ index ∷ []) acc)

-- `bisect.bisect_right`, on a sorted list: how many elements are at most `i`.
unfoldable pub bisect_right : List ℕ → ℕ → ℕ
bisect_right [] i = 0
bisect_right (x ∷ xs) i = if ltb i x then 0 else suc (bisect_right xs i)

-- The inner loop over the programs that fills `later`.
unfoldable pub later_of : Dict String (List ℕ) → ℕ → List String → List ℕ
later_of indices i [] = []
later_of indices i (program ∷ programs) =
    let found = Dict.get_default program indices [] in
    drop (bisect_right found i) found ++ later_of indices i programs

-- `later.sort()`
unfoldable pub insert : ℕ → List ℕ → List ℕ
insert a [] = a ∷ []
insert a (x ∷ xs) = if leb a x then a ∷ x ∷ xs else x ∷ insert a xs

unfoldable pub sort : List ℕ → List ℕ
sort [] = []
sort (x ∷ xs) = insert x (sort xs)

-- The results so far, and the pairs in `checked`.
abbrev pub Progress : Type 0
Progress = List SupersessionResult × List (Bytes × Bytes)

module _ (program_to_devices : Dict String (List String)) where
  unfoldable pub visit : EventRecord → EventRecord → Progress → Progress
  visit a b (results, checked) =
      if any (pair_beq (pair_key a.mrid b.mrid)) checked
      then (results, checked)
      else (results ++ judge program_to_devices a b, checked ++ pair_key a.mrid b.mrid ∷ [])

  -- `for j in later: b = events[j]; ...`
  unfoldable pub inner : List EventRecord → EventRecord → List ℕ → Progress → Option Progress
  inner events a [] p = some p
  inner events a (j ∷ js) p = elim (get_elem? events j) [
    | none ↦ none
    | some b ↦ inner events a js (visit a b p)
  ]

  module _ (events : List EventRecord) (on : Dict String (List String))
      (indices : Dict String (List ℕ)) where
    -- `for i, a in enumerate(events)`, from the place `i` on.
    unfoldable pub outer : ℕ → List EventRecord → Progress → Option (List SupersessionResult)
    outer i [] p = some p.0
    outer i (a ∷ rest) p = elim (programs_sharing program_to_devices on a.program_href) [
      | none ↦ none
      | some reach ↦ elim (inner events a (sort (later_of indices i reach)) p) [
        | none ↦ none
        | some p' ↦ outer (suc i) rest p'
      ]
    ]

unfoldable pub compute_supersession :
    List EventRecord → Dict String (List String) → Option (List SupersessionResult)
unfolding outer programs_on on_devices indices_of programs_sharing reach_from later_of bisect_right
    sort insert inner visit judge take_over pair_key pair_beq bytes_lt
compute_supersession events program_to_devices =
    outer program_to_devices events (programs_on program_to_devices []) (indices_of 0 events []) 0
      events ([], [])
