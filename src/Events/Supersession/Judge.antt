-- ===== src/Events/Supersession/Judge.antt =====
-- What one comparison of two events decides.
use py.Prelude.{
  ◌≡◌, ◌∙◌, ◌<◌, ◌⊎◌, inl, inr, refl, String, string_key, List, [], ◌∷◌, true, false, not, ◌&&◌,
  Bool-cases, is_empty, arith,
}
use py.Prelude.Int.{◌≤ℤ◌}
use py.Prelude.Dict.{Dict}
use py.Prelude.Sets
use py.Prelude.Sets.{contains-inter, contains-keep, contains-is_empty}
use py.Events.Control.{DercontrolBase}
use py.Events.Store.{EventRecord}
use py.Events.Supersession.{
  SupersessionResult, model_fields, excluded_fields, compared_mode_keys, time_overlaps, devices_of,
  tie_time, first_wins, take_over, judge,
}

-- The lower primacy number, or the newer event among equals.
abbrev pub Beats : EventRecord → EventRecord → Type 0
Beats a b = (a.primacy < b.primacy) ⊎ (a.primacy ≡ b.primacy) × (tie_time b ≤ℤ tie_time a)

first_wins-Beats : (a b : EventRecord) → first_wins a b ≡ true → Beats a b
unfolding first_wins
first_wins-Beats a b h = ground arith

loses-Beats : (a b : EventRecord) → first_wins a b ≡ false → Beats b a
unfolding first_wins
loses-Beats a b h = ground arith

-- What a take-over of `loser` by `winner` states.
pub record TakesOver (p2d : Dict String (List String)) (winner loser : EventRecord)
    (r : SupersessionResult) : Type 0 where
  pub beats : Beats winner loser
  pub winner_id : r.superseding_mrid ≡ winner.mrid
  pub loser_id : r.superseded_mrid ≡ loser.mrid
  pub shared : is_empty r.affected_devices ≡ false
  pub devices :
      (d : String)
      → Sets.contains d r.affected_devices ≡ (
          Sets.contains d (devices_of p2d winner.program_href)
          && Sets.contains d (devices_of p2d loser.program_href))

ramp_tms_compared :
    (base : DercontrolBase)
    → Sets.contains "ramp_tms" base.set_fields ≡ true
    → Sets.contains "ramp_tms" (compared_mode_keys base) ≡ true
unfolding compared_mode_keys
ramp_tms_compared base h =
    contains-keep
      (λ name. not (Sets.contains name excluded_fields) && Sets.contains name base.set_fields)
      "ramp_tms" model_fields
    ∙ rw h (unfold Sets.contains in refl)

module _ (p2d : Dict String (List String)) where
  take_over-TakesOver :
      (overlap : List String) (winner loser : EventRecord) (r : SupersessionResult)
      → Beats winner loser
      → take_over p2d overlap winner loser ≡ r ∷ []
      → TakesOver p2d winner loser r
  unfolding take_over
  take_over-TakesOver overlap winner loser r b e = record {
    beats = b;
    winner_id = ground arith;
    loser_id = ground arith;
    shared = ground arith;
    devices = λ d. ground (
      arith,
      contains-inter d (devices_of p2d winner.program_href) (devices_of p2d loser.program_href),
    );
  }

  -- A pair yields a result only if the events overlap in time, and the result names the two events,
  -- the winner by primacy and then by age, and exactly the devices that both programs reach.
  pub judge-TakesOver :
      (a b : EventRecord) (r : SupersessionResult)
      → judge p2d a b ≡ r ∷ []
      → (time_overlaps a b ≡ true) × (TakesOver p2d a b r ⊎ TakesOver p2d b a r)
  unfolding judge
  judge-TakesOver a b r e =
      let overlap =
        Sets.inter (compared_mode_keys a.derc.dercontrol_base)
          (compared_mode_keys b.derc.dercontrol_base) in
      ground (
        arith,
        take_over-TakesOver overlap a b r,
        take_over-TakesOver overlap b a r,
        first_wins-Beats a b,
        loses-Beats a b,
      )

  abbrev overlap_of : EventRecord → EventRecord → List String
  overlap_of a b =
      Sets.inter (compared_mode_keys a.derc.dercontrol_base)
        (compared_mode_keys b.derc.dercontrol_base)

  judge_first :
      (a b : EventRecord) (r : SupersessionResult)
      → time_overlaps a b ≡ true
      → is_empty (overlap_of a b) ≡ false
      → first_wins a b ≡ true
      → take_over p2d (overlap_of a b) a b ≡ r ∷ []
      → judge p2d a b ≡ r ∷ []
  unfolding judge
  judge_first a b r o m w e = ground arith

  judge_second :
      (a b : EventRecord) (r : SupersessionResult)
      → time_overlaps a b ≡ true
      → is_empty (overlap_of a b) ≡ false
      → first_wins a b ≡ false
      → take_over p2d (overlap_of a b) b a ≡ r ∷ []
      → judge p2d a b ≡ r ∷ []
  unfolding judge
  judge_second a b r o m w e = ground arith

  take_over-shared :
      (overlap : List String) (a b : EventRecord) (d : String)
      → Sets.contains d (devices_of p2d a.program_href) ≡ true
      → Sets.contains d (devices_of p2d b.program_href) ≡ true
      → (r : SupersessionResult) × (take_over p2d overlap a b ≡ r ∷ [])
        × (r.affected_modes ≡ overlap)
  unfolding take_over
  take_over-shared overlap a b d da db =
      let affected = Sets.inter (devices_of p2d a.program_href) (devices_of p2d b.program_href) in
      (
        record {
          superseded_mrid = b.mrid;
          superseding_mrid = a.mrid;
          affected_devices = affected;
          superseded_program_href = b.program_href;
          superseding_program_href = a.program_href;
          affected_modes = overlap;
        },
        rw (
            contains-is_empty d affected (
              rw (
                contains-inter d (devices_of p2d a.program_href) (devices_of p2d b.program_href),
                da,
                db,
              ))),
        refl,
      )

  overlap_shared :
      (a b : EventRecord)
      → Sets.contains "ramp_tms" a.derc.dercontrol_base.set_fields ≡ true
      → Sets.contains "ramp_tms" b.derc.dercontrol_base.set_fields ≡ true
      → Sets.contains "ramp_tms" (overlap_of a b) ≡ true
  overlap_shared a b ra rb = rw (
    contains-inter "ramp_tms" (compared_mode_keys a.derc.dercontrol_base)
        (compared_mode_keys b.derc.dercontrol_base),
    ramp_tms_compared a.derc.dercontrol_base ra,
    ramp_tms_compared b.derc.dercontrol_base rb,
  )

  -- Two events that overlap in time and reach a common device take over from each other as soon as
  -- both carry a ramp time: `ramp_tms` is compared as if it were a mode.
  pub judge-ramp_tms :
      (a b : EventRecord) (d : String)
      → time_overlaps a b ≡ true
      → Sets.contains d (devices_of p2d a.program_href) ≡ true
      → Sets.contains d (devices_of p2d b.program_href) ≡ true
      → Sets.contains "ramp_tms" a.derc.dercontrol_base.set_fields ≡ true
      → Sets.contains "ramp_tms" b.derc.dercontrol_base.set_fields ≡ true
      → (r : SupersessionResult) × (judge p2d a b ≡ r ∷ [])
        × (Sets.contains "ramp_tms" r.affected_modes ≡ true)
  judge-ramp_tms a b d o da db ra rb =
      let overlap =
        Sets.inter (compared_mode_keys a.derc.dercontrol_base)
          (compared_mode_keys b.derc.dercontrol_base) in
      let shared = overlap_shared a b ra rb in
      elim (Bool-cases (first_wins a b)) [
        | inl w ↦
            let (r, e, m) = take_over-shared overlap a b d da db in
            (r, judge_first a b r o (contains-is_empty "ramp_tms" overlap shared) w e, rw m shared)
        | inr l ↦
            let (r, e, m) = take_over-shared overlap b a d db da in
            (r, judge_second a b r o (contains-is_empty "ramp_tms" overlap shared) l e, rw m shared)
      ]
