-- ===== src/Events/Life/Plans.antt =====
-- What a device that falls back gets, in events/processor.py.
use py.Prelude.{
  String, string_key, Bytes, none, some, List, [], ◌∷◌, Bool, true, false, not, ◌&&◌, ◌≡◌, ◌⊎◌, ◌↔◌,
  All, In, refl, inl, inr, is_empty, any, is_some, Option-cases, Bool-cases, arith,
}
use py.Prelude.Dict.{Dict}
use py.Prelude.Sets.{contains, contains-union, contains-diff, diff}
use py.Events.Control.{DercontrolBase}
use py.Events.Store.{EventRecord}
use py.Events.ActiveModes.{Registry, covered_among}
use py.Events.Dderc.{DdercTracker, should_apply}
use py.Events.ModesBitmask.{get_active_mode_names}
use py.Events.Life.Fallback.{
  DerProgramState, covers, can_revert, best_program, modes_running_on, Plan, leave_alone,
  clear_device, withdraw, revert, plan_default, plan_fallback,
}
use py.Events.Life.Release.{IsBest, best_program_lem}

-- Whether a running event holds the mode on the device.
abbrev pub is_run : Dict String (List String) → Registry → String → List EventRecord → String → Bool
is_run mapping modes d events m =
    any (λ e. covers mapping e.program_href d && contains m (covered_among d (e.mrid ∷ []) modes))
      events

modes_running_on-contains :
    (mapping : Dict String (List String)) (modes : Registry) (d : String)
    (events : List EventRecord) (m : String)
    → contains m (modes_running_on mapping modes d events) ≡ is_run mapping modes d events m
unfolding modes_running_on any contains
modes_running_on-contains mapping modes d [] m = refl
modes_running_on-contains mapping modes d (e ∷ events) m =
    let rest = modes_running_on-contains mapping modes d events m in
    elim (Bool-cases (covers mapping e.program_href d)) [
      | inl on ↦ rw (on, contains-union) (rw rest refl)
      | inr off ↦ rw off rest
    ]

can_revert-default :
    (mapping : Dict String (List String)) (d : String) (p : DerProgramState)
    → can_revert mapping d p ≡ true
    → is_some p.default_dercontrol ≡ true
unfolding can_revert
can_revert-default mapping d p e = ground arith

module _ (mapping : Dict String (List String)) (d : String) (programs : List DerProgramState) where
  -- No program that covers the device has a default.
  abbrev pub NoDefault : Type 0
  NoDefault = All (λ p. can_revert mapping d p ≡ false) programs

  -- What a plan is, by the modes that are released and those that running events hold.
  abbrev pub Sensible : Bool → Bytes → DdercTracker → List String → (String → Bool) → Plan → Type 0
  Sensible clear lfdi tracker released run leave_alone =
      NoDefault × (clear ≡ false) × (is_empty released ≡ true)
  Sensible clear lfdi tracker released run clear_device = NoDefault × (clear ≡ true)
  Sensible clear lfdi tracker released run (withdraw modes) =
      NoDefault × (clear ≡ false) × (is_empty released ≡ false) × (modes ≡ released)
  Sensible clear lfdi tracker released run (revert best written uncovered sent) =
      In best programs
      × IsBest mapping d programs best
      × ((base : DercontrolBase) × (best.default_dercontrol ≡ some base)
          × ((m : String)
              → (contains m written ≡ (contains m (get_active_mode_names base) && not (run m)))
                × (contains m uncovered ≡ (contains m released && not (contains m written))))
          × ((sent ≡ true) ↔ (
              (should_apply lfdi best.href best.primacy tracker ≡ true)
              × ((is_empty (get_active_mode_names base) ≡ true) ⊎ (is_empty written ≡ false)))))

  plan_none :
      (clear : Bool) (lfdi : Bytes) (released held : List String) (run : String → Bool)
      (tracker : DdercTracker)
      → NoDefault
      → Sensible clear lfdi tracker released run
          (plan_fallback clear lfdi none released held tracker)
  unfolding plan_fallback
  plan_none true lfdi released held run tracker without = (without, refl)
  plan_none false lfdi released held run tracker without = elim (Bool-cases (is_empty released)) [
    | inl e ↦ rw e (without, refl, e)
    | inr e ↦ rw e (without, refl, e, refl)
  ]

  sent_lem :
      (apply none_carried none_written : Bool)
      → ((not (not none_carried && none_written) && apply) ≡ true)
        ↔ ((apply ≡ true) × ((none_carried ≡ true) ⊎ (none_written ≡ false)))
  sent_lem apply none_carried none_written = ground arith

  plan_some :
      (clear : Bool) (lfdi : Bytes) (best : DerProgramState) (base : DercontrolBase)
      (released held : List String) (run : String → Bool) (tracker : DdercTracker)
      → In best programs
      → IsBest mapping d programs best
      → best.default_dercontrol ≡ some base
      → ((m : String) → contains m held ≡ run m)
      → Sensible clear lfdi tracker released run
          (plan_fallback clear lfdi (some best) released held tracker)
  unfolding plan_fallback plan_default
  plan_some clear lfdi best base released held run tracker i ok e same =
      rw (e, plan_fallback)
        (
          i,
          ok,
          (
            base,
            e,
            (λ m.
                let carried = get_active_mode_names base in
                (
                  ground (arith, contains-diff m carried held, same m),
                  ground (arith, contains-diff m released (diff carried held)),
                )),
            sent_lem (should_apply lfdi best.href best.primacy tracker)
                (is_empty (get_active_mode_names base))
                (is_empty (diff (get_active_mode_names base) held)),
          ),
        )

  -- If programs that cover the device have a default, it falls back to that of the best one: what is
  -- written of it is what it carries but for the modes that events still run on the device, the
  -- released modes that are not written are disabled, and it is sent just when the tracker says that it
  -- applies, unless all that it carries is held by events. If no such program has a default, the device
  -- is cleared on demand, and otherwise the released modes, if any, are disabled.
  pub plan_fallback_lem :
      (clear : Bool) (lfdi : Bytes) (modes : Registry) (events : List EventRecord)
      (released : List String) (tracker : DdercTracker)
      → Sensible clear lfdi tracker released (is_run mapping modes d events) (
          plan_fallback clear lfdi
            (best_program mapping d programs none)
            released
            (modes_running_on mapping modes d events)
            tracker)
  plan_fallback_lem clear lfdi modes events released tracker =
      let held = modes_running_on mapping modes d events in
      let run = is_run mapping modes d events in
      elim (best_program_lem mapping d programs) [
        | inl (e, without) ↦ rw e (plan_none clear lfdi released held run tracker without)
        | inr (best, e, i, ok) ↦ elim (Option-cases best.default_dercontrol) [
          | inl without ↦ absurd (ground (arith, can_revert-default mapping d best ok.0))
          | inr (base, with') ↦ rw e (
              plan_some clear lfdi best base released held run tracker i ok with'
                (modes_running_on-contains mapping modes d events))
        ]
      ]
