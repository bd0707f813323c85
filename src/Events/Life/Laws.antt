-- ===== src/Events/Life/Laws.antt =====
-- Every segment of the handlers of events/processor.py but the pruning takes the events of the store onward.
use py.Prelude.{
  ℕ, ◌≤◌, String, string_key, Bytes, bytes_key, Option, none, some, List, [], ◌∷◌, Bool, true,
  false, not, ◌≡◌, ◌∙◌, refl, sym, inl, inr, ◌==◌, keep, is_empty, All, All-keep, All-map,
  Bool-cases, arith,
}
use py.Prelude.Dict
use py.Prelude.Dict.{Dict, get-put}
use py.Events.Store.{
  EventState, scheduled, active, completed, cancelled, superseded, state_eq, EventRecord,
  EventStore, by_state,
}
use py.Events.Store.Laws.{IsWellFormed}
use py.Events.Supersession.{SupersessionResult}
use py.Events.Processor.{deferred, fully_superseded}
use py.Events.Response.{DispatchError}
use py.Events.Life.{World, move_to, write}
use py.Events.Life.Handlers.{
  Outcome, cancel_timers, cover_end, opt_out_event, on_activation, on_completion,
  handle_cancellation, note_superseded, take_modes, settle_superseded, begin_dispatch, respond,
  cancel_one, opt_out_one, cancel_each, opt_out_each, enter_comms_loss, dispatch_targets,
}
use py.Events.Life.Edges.{
  stage, Onward, Onward-self, Onward-trans, put-Onward, change-Onward, either-Onward,
  on_record-Onward, by_state_found, one_found,
}

abbrev pub Sound : World → Type 0
Sound w = IsWellFormed w.store

-- What a segment does takes the store onward.
abbrev pub Goes : World → Outcome → Type 0
Goes w o = Onward w.store o.0.store

abbrev pub Here : EventRecord → World → Type 0
Here r w = Dict.get r.mrid w.store ≡ some r

live_stage : (s t : EventState) → state_eq s t ≡ true → stage s ≡ stage t
unfolding state_eq
live_stage s t e = ground arith

pub stage_max : (s : EventState) → stage s ≤ 3
stage_max scheduled = omega arith
stage_max active = omega arith
stage_max completed = omega arith
stage_max cancelled = omega arith
stage_max superseded = omega arith

not-false : (b : Bool) → not b ≡ false → b ≡ true
not-false b e = ground arith

pub cancellation-Onward :
    (current : Option ℕ) (r : EventRecord) (w : World)
    → Sound w
    → Goes w (handle_cancellation current r w)
unfolding handle_cancellation move_to cancel_timers
cancellation-Onward current r w h =
    put-Onward w.store (record r { state = cancelled }) h (λ r0 e. stage_max r0.state)

pub opt_out-Onward :
    (current : Option ℕ) (r r' : EventRecord) (w : World)
    → Sound w
    → Here r w
    → r.mrid ≡ r'.mrid
    → stage r.state ≤ stage r'.state
    → Goes w (opt_out_event current r' w)
unfolding opt_out_event cancel_timers cover_end write
opt_out-Onward current r r' w h here same le =
    change-Onward w.store r (record r' { opted_out = true }) h here same le

pub activation-Onward :
    (current : Option ℕ) (mrid : Bytes) (w : World)
    → Sound w
    → Goes w (on_activation current mrid w)
unfolding on_activation move_to
activation-Onward current mrid w h = on_record-Onward mrid w _ h (λ r here.
    either-Onward w.store (not (state_eq r.state scheduled)) _ _ (λ _. Onward-self w.store h)
      (λ e.
        let before : stage r.state ≤ 1 =
          omega (arith, live_stage r.state scheduled (not-false (state_eq r.state scheduled) e)) in
        either-Onward w.store w.comms_loss.active _ _
          (λ _. opt_out-Onward current r (record r { state = active }) w h here refl before)
          (λ _. change-Onward w.store r (record r { state = active }) h here refl before)))

pub completion-Onward : (mrid : Bytes) (w : World) → Sound w → Goes w (on_completion mrid w)
unfolding on_completion move_to
completion-Onward mrid w h = on_record-Onward mrid w _ h (λ r here.
    either-Onward w.store (not (state_eq r.state active)) _ _ (λ _. Onward-self w.store h)
      (λ e.
        change-Onward w.store r (record r { state = completed }) h here refl
          (omega (arith, live_stage r.state active (not-false (state_eq r.state active) e)))))

pub supersession-Onward :
    (result : SupersessionResult) (w : World) → Sound w → Goes w (note_superseded result w)
unfolding note_superseded write
supersession-Onward result w h = on_record-Onward result.superseded_mrid w _ h (λ r here.
    on_record-Onward result.superseding_mrid w _ h (λ other _.
      either-Onward w.store (deferred other r) _ _ (λ _. Onward-self w.store h)
        (λ _. change-Onward w.store r _ h here refl (omega arith))))

pub settle-Onward :
    (current : Option ℕ) (device_map : Dict String (List String)) (result : SupersessionResult)
    (w : World)
    → Sound w
    → Goes w (settle_superseded current device_map result w)
unfolding settle_superseded write move_to cancel_timers take_modes
settle-Onward current device_map result w h =
    on_record-Onward result.superseded_mrid w _ h (λ r here.
      either-Onward w.store (fully_superseded (Dict.get_default r.program_href device_map []) r) _ _
        (λ _. change-Onward w.store r _ h here refl (stage_max r.state))
        (λ _. change-Onward w.store r _ h here refl (omega arith)))

pub dispatch-Onward : (mrid : Bytes) (w : World) → Sound w → Goes w (begin_dispatch mrid w)
unfolding begin_dispatch
dispatch-Onward mrid w h = on_record-Onward mrid w _ h (λ r here.
    either-Onward w.store (is_empty (dispatch_targets r w)) _ _ (λ _. Onward-self w.store h)
      (λ _. Onward-self w.store h))

pub respond-Onward :
    (mrid : Bytes) (device : String) (failure : Option DispatchError) (w : World)
    → Sound w
    → Goes w (respond mrid device failure w)
unfolding respond write
respond-Onward mrid device none w h =
    on_record-Onward mrid w _ h (λ r here. change-Onward w.store r _ h here refl (omega arith))
respond-Onward mrid device (some error) w h =
    on_record-Onward mrid w _ h (λ r here. change-Onward w.store r _ h here refl (omega arith))

pub cancel_each-Onward :
    (program : String) (current : Option ℕ) (records : List EventRecord) (acc : Outcome)
    → Sound acc.0
    → Goes acc.0 (cancel_each program current records acc)
unfolding cancel_each cancel_one cancel_timers move_to
cancel_each-Onward program current [] acc h = Onward-self acc.0.store h
cancel_each-Onward program current (r ∷ records) acc h =
    let step : Goes acc.0 (cancel_one program current r acc) =
      either-Onward acc.0.store (r.program_href == program) _ _
        (λ _.
          put-Onward acc.0.store (record r { state = cancelled }) h (λ r0 e. stage_max r0.state))
        (λ _. Onward-self acc.0.store h) in
    Onward-trans acc.0.store _ _ step
      (cancel_each-Onward program current records (cancel_one program current r acc) step.formed)

-- The store has the event no further than active, if it has it.
abbrev StillActive : EventStore → EventRecord → Type 0
StillActive store r = (r0 : EventRecord) → Dict.get r.mrid store ≡ some r0 → stage r0.state ≤ 1

flagged-StillActive :
    (store : EventStore) (r s : EventRecord)
    → stage r.state ≤ 1
    → StillActive store s
    → StillActive (Dict.put r.mrid r store) s
flagged-StillActive store r s low before r0 e = elim (Bool-cases (r.mrid == s.mrid)) [
  | inl same ↦
      let is : r ≡ r0 = one_found r r0 (ground (arith, get-put r.mrid s.mrid r store)) in
      rw (sym is) low
  | inr apart ↦ before r0 (ground (arith, get-put r.mrid s.mrid r store))
]

pub opt_out_each-Onward :
    (current : Option ℕ) (records : List EventRecord) (acc : Outcome)
    → Sound acc.0
    → All (λ r. StillActive acc.0.store r × (stage r.state ≡ 1)) records
    → Goes acc.0 (opt_out_each current records acc)
unfolding opt_out_each opt_out_one cancel_timers cover_end write
opt_out_each-Onward current [] acc h here = Onward-self acc.0.store h
opt_out_each-Onward current (r ∷ records) acc h ((found, one), here) =
    let step : Goes acc.0 (opt_out_one current r acc) =
      put-Onward acc.0.store (record r { opted_out = true }) h
        (λ r0 e. omega (arith, found r0 e, one)) in
    Onward-trans acc.0.store _ _ step (
      opt_out_each-Onward current records (opt_out_one current r acc) step.formed (
        All-map
          (λ s k. (
            flagged-StillActive acc.0.store (record r { opted_out = true }) s (omega arith) k.0,
            k.1,
          ))
          records here))

pub comms_loss-Onward :
    (current : Option ℕ) (w : World) → Sound w → Goes w (enter_comms_loss current w)
unfolding enter_comms_loss
comms_loss-Onward current w h =
    let active_ones = by_state active w.store in
    opt_out_each-Onward current (keep (λ r. not r.opted_out) active_ones) (w, []) h
      (All-keep (λ r. StillActive w.store r × (stage r.state ≡ 1)) (λ r. not r.opted_out)
        active_ones
        (All-map
          (λ r found.
            let one = live_stage r.state active found.1 in
            (
              λ r0 e. let is = one_found r r0 (sym found.0 ∙ e) in rw (sym is, one) (omega arith),
              one,
            ))
          active_ones (by_state_found w.store h)))
