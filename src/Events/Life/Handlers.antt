-- ===== src/Events/Life/Handlers.antt =====
-- events/processor.py: the handlers of an event's timers, of its cancellation, of its dispatch and of
-- lost communications, segment by segment. The record that a handler holds is read from the store,
-- where it is until it is pruned; what is still done with one that was pruned is left out.
use py.Prelude.{
  ℕ, String, string_key, Bytes, bytes_key, Option, none, some, List, [], ◌∷◌, ◌++◌, true, false,
  not, ◌==◌, is_empty, keep, ltb, if◌then◌else◌,
}
use py.Prelude.Int.{ℤ}
use py.Prelude.Dict
use py.Prelude.Dict.{Dict}
use py.Prelude.Sets
use py.Events.Store.{
  scheduled, active, completed, cancelled, superseded, state_eq, EventRecord, end, get, by_state,
  all_active_states,
}
use py.Events.Timers
use py.Events.Timers.{Timers}
use py.Events.ActiveModes.{Registry, register, unregister}
use py.Events.ModesBitmask.{get_active_mode_names}
use py.Events.Supersession.{SupersessionResult}
use py.Events.Processor.{
  deferred, announced, note_modes, fully_superseded, cancellation_wind_down, program_without,
  devices, nobody, lifecycle_audience,
}
use py.Events.Response.{ResponseCode, DispatchError, response_code_for_dispatch_error}
use py.Events.Life.{
  World, Action, post_response, post_for_devices, relay_event, start_fallback, start_dispatch,
  delay_fallback, unique_devices, raise_boundary, move_to, write,
}

abbrev pub Outcome : Type 0
Outcome = World × List Action

-- Nothing is done on an event that the store does not have: the run of supersession skips it, and a
-- handler that moves it to another state raises a KeyError before it does anything else. Left out is
-- what the handlers that do not move it still do with the record of an event that was pruned while they
-- waited, as the answer of a device, and those whose mRID was stored anew.
abbrev pub on_record : Bytes → World → (EventRecord → Outcome) → Outcome
on_record mrid w f = elim (get mrid w.store) [ none ↦ (w, []) | some r ↦ f r ]

unfoldable pub cancel_timers : Bytes → Option ℕ → World → World
cancel_timers mrid current w = record w { timers = Timers.cancel mrid current w.timers }

-- The code of an event's end, to those that it is for.
unfoldable pub post_lifecycle : EventRecord → ResponseCode → List Action
post_lifecycle r code = elim (lifecycle_audience r) [
  | program_without excluded ↦ post_response r.mrid code excluded ∷ []
  | devices told ↦ post_for_devices r.mrid code told ∷ []
  | nobody ↦ []
]

-- The world in which the boundary covers the end of an event.
unfoldable pub cover_end : EventRecord → World → World
cover_end r w = record w {
  comms_loss = record w.comms_loss {
    resume_after_epoch = some (raise_boundary w.comms_loss.resume_after_epoch (end r));
  };
}

-- `_opt_out_event`
unfoldable pub opt_out_event : Option ℕ → EventRecord → World → Outcome
opt_out_event current r w = (
  cancel_timers r.mrid current (cover_end r (write (record r { opted_out = true }) w)),
  start_fallback r.mrid true ∷ [],
)

-- `_on_activation`, once the state is ready and up to the run of supersession.
unfoldable pub on_activation : Option ℕ → Bytes → World → Outcome
on_activation current mrid w = on_record mrid w (λ r.
    if not (state_eq r.state scheduled)
    then (w, [])
    else if w.comms_loss.active
    then opt_out_event current (record r { state = active }) w
    else (move_to active r w, []))

-- `_on_completion`, once the state is ready.
unfoldable pub on_completion : Bytes → World → Outcome
on_completion mrid w = on_record mrid w (λ r. if not (state_eq r.state active) then (w, []) else (
  move_to completed r w,
  relay_event r.mrid "completed" ∷ post_lifecycle r ResponseCode.completed
      ++ start_fallback r.mrid false ∷ [],
))

unfoldable pub after_cancelled : EventRecord → List Action
after_cancelled r =
    if not (state_eq r.state active)
    then []
    else if ltb 0 (cancellation_wind_down r)
    then delay_fallback r.mrid (cancellation_wind_down r) ∷ []
    else start_fallback r.mrid false ∷ []

-- `_handle_cancellation`
unfoldable pub handle_cancellation : Option ℕ → EventRecord → World → Outcome
handle_cancellation current r w = (
  cancel_timers r.mrid current (move_to cancelled r w),
  relay_event r.mrid "cancelled" ∷ post_lifecycle r ResponseCode.cancelled ++ after_cancelled r,
)

-- One result of `_run_supersession`, up to the response.
unfoldable pub note_superseded : SupersessionResult → World → Outcome
note_superseded result w = on_record result.superseded_mrid w (λ r.
    on_record result.superseding_mrid w (λ superseding.
      if deferred superseding r then (w, []) else (
        write
            (record r {
              superseded_devices = Sets.union r.superseded_devices result.affected_devices;
            })
            w,
        if is_empty (announced result r)
            then []
            else post_for_devices r.mrid ResponseCode.superseded (announced result r) ∷ [],
      )))

unfoldable pub take_modes : SupersessionResult → EventRecord → EventRecord
take_modes result r = record r {
  superseded_modes =
      if is_empty result.affected_modes
      then r.superseded_modes
      else note_modes result.affected_devices result.affected_modes r.superseded_modes;
}

-- The rest of it, after the response, over the map of devices made when the run began. The state is
-- not looked at again.
unfoldable pub settle_superseded :
    Option ℕ → Dict String (List String) → SupersessionResult → World → Outcome
settle_superseded current device_map result w = on_record result.superseded_mrid w (λ r.
    if fully_superseded (Dict.get_default r.program_href device_map []) r
    then (
      cancel_timers r.mrid current (move_to superseded (take_modes result r) w),
      relay_event r.mrid "superseded"
          ∷ (if state_eq r.state active then start_fallback r.mrid false ∷ [] else []),
    )
    else (write (take_modes result r) w, []))

-- The devices that a dispatch writes to.
unfoldable pub dispatch_targets : EventRecord → World → List String
dispatch_targets r w = Sets.diff (unique_devices r.program_href w) r.superseded_devices

unfoldable pub register_all : List String → EventRecord → Registry → Registry
register_all [] r modes = modes
register_all (d ∷ targets) r modes =
    register_all targets r (register d r.mrid (get_active_mode_names r.derc.dercontrol_base) modes)

-- `_apply_and_respond` with no `group_lookup`, up to the dispatches.
unfoldable pub begin_dispatch : Bytes → World → Outcome
begin_dispatch mrid w = on_record mrid w (λ r.
    let targets = dispatch_targets r w in
    if is_empty targets
    then (w, post_response mrid ResponseCode.active r.superseded_devices ∷ [])
    else (record w { modes = register_all targets r w.modes }, start_dispatch mrid ∷ []))

-- `respond`, when the dispatch to a device has come to an end.
unfoldable pub respond : Bytes → String → Option DispatchError → World → Outcome
respond mrid device none w = on_record mrid w (λ r. (
  write (record r { applied_devices = Sets.add device r.applied_devices }) w,
  post_for_devices mrid ResponseCode.active (device ∷ []) ∷ [],
))
respond mrid device (some error) w = on_record mrid w (λ r.
    let freed = unregister device mrid w.modes in
    (
      write (record r { rejected_devices = Sets.add device r.rejected_devices })
          (record w { modes = freed.1 }),
      post_for_devices mrid (response_code_for_dispatch_error error) (device ∷ []) ∷ [],
    ))

-- The end of `_on_activation` and of `_handle_late_discovery`.
unfoldable pub after_dispatch : Bytes → World → Outcome
after_dispatch mrid w = on_record mrid w (λ r. (
  record w { timers = (Timers.schedule_completion r w.timers).0 },
  relay_event mrid "active" ∷ [],
))

-- The end of `_handle_new_scheduled`.
unfoldable pub after_acknowledged : Bytes → World → Outcome
after_acknowledged mrid w = on_record mrid w (λ r. (
  record w { timers = (Timers.schedule_activation r w.timers).0 },
  relay_event mrid "scheduled" ∷ [],
))

-- The end of `_handle_cancellation`, with a wind-down.
unfoldable pub after_wind_down : Bytes → ℕ → ℤ → World → Outcome
after_wind_down mrid delay time w =
    on_record mrid w
      (λ r. (record w { timers = (Timers.schedule_delayed_callback r delay time w.timers).0 }, []))

-- One round of the loop of `cancel_program`.
unfoldable pub cancel_one : String → Option ℕ → EventRecord → Outcome → Outcome
cancel_one program current r (w, actions) =
    if r.program_href == program
    then (
      cancel_timers r.mrid current (move_to cancelled r w),
      actions ++ relay_event r.mrid "cancelled" ∷ [],
    )
    else (w, actions)

-- The loop, over the events that were live when it began.
unfoldable pub cancel_each : String → Option ℕ → List EventRecord → Outcome → Outcome
cancel_each program current [] acc = acc
cancel_each program current (r ∷ records) acc =
    cancel_each program current records (cancel_one program current r acc)

unfoldable pub cancel_program : String → Option ℕ → World → Outcome
cancel_program program current w = cancel_each program current (all_active_states w.store) (w, [])

-- One round of the loops of `enter_comms_loss`.
unfoldable pub opt_out_one : Option ℕ → EventRecord → Outcome → Outcome
opt_out_one current r (w, actions) = (
  cancel_timers r.mrid current (cover_end r (write (record r { opted_out = true }) w)),
  actions ++ start_fallback r.mrid true ∷ [],
)

-- The loops, over the active events that are not opted out.
unfoldable pub opt_out_each : Option ℕ → List EventRecord → Outcome → Outcome
opt_out_each current [] acc = acc
opt_out_each current (r ∷ records) acc = opt_out_each current records (opt_out_one current r acc)

unfoldable pub enter_comms_loss : Option ℕ → World → Outcome
enter_comms_loss current w =
    opt_out_each current (keep (λ r. not r.opted_out) (by_state active w.store)) (w, [])
