-- ===== src/Events/Life/Classes.antt =====
-- What process_controls of events/processor.py makes of a control that it does not know.
use py.Prelude.{
  Bytes, bytes_key, Option, none, some, Bool, true, false, ◌&&◌, ◌||◌, ◌≡◌, refl, sym, ap, ◌∙◌,
  ◌==◌, ==→eq, if◌then◌else◌, Bool-cases, inl, inr, arith,
}
use py.Prelude.Int.{ℤ, ◌+ℤ◌, ltb_ℤ, leb_ℤ}
use py.Prelude.Dict
use py.Prelude.Dict.{get-put}
use py.Events.Control.{Dercontrol}
use py.Events.Store.{
  EventState, scheduled, active, cancelled, EventRecord, EventStore, get, upsert, state_eq,
}
use py.Events.Processor.{is_server_cancelled}
use py.Events.Life.{World, write}
use py.Events.Life.Handlers.{Outcome, opt_out_event, cover_end, cancel_timers}
use py.Events.Life.Discovery.{
  Poll, Class, skipped, already_handled, expired, pre_cancelled, joins, classify, new_record,
  add_record, reopen_defaults, join, take_in, process_control, effective_times,
}

-- Whether the start is in the time that was opted out of.
abbrev pub opted_out_time : Option ℤ → ℤ → Bool
opted_out_time resume_after start = elim resume_after [
  | none ↦ false
  | some boundary ↦ leb_ℤ start boundary
]

-- The state that an event comes in with.
abbrev pub first_state : Poll → Dercontrol → ℤ → EventState
first_state p derc start =
    if is_server_cancelled derc then cancelled else if leb_ℤ start p.now then active else scheduled

-- The entry of the store for a new control.
abbrev pub entry : Poll → Dercontrol → World → ℤ → ℤ → Option EventRecord
entry p derc w start duration =
    let state = first_state p derc start in
    if opted_out_time w.comms_loss.resume_after_epoch start || ltb_ℤ (start +ℤ duration) p.now
    then none
    else some (record (new_record p derc start duration state) {
      opted_out = state_eq state active && w.comms_loss.active;
    })

either_get :
    (j : Bytes) (b : Bool) (x y : Outcome) (o : Bool → Option EventRecord)
    → Dict.get j x.0.store ≡ o true
    → Dict.get j y.0.store ≡ o false
    → Dict.get j (if b then x else y).0.store ≡ o b
either_get j true x y o h k = h
either_get j false x y o h k = k

put_twice :
    (m j : Bytes) (r s : EventRecord) (store : EventStore)
    → Dict.get j (Dict.put m r (Dict.put m s store)) ≡ (if m == j then some r else Dict.get j store)
put_twice m j r s store = ground (arith, get-put m j r (Dict.put m s store), get-put m j s store)

module _ (p : Poll) (derc : Dercontrol) (start duration : ℤ) (w : World) (j : Bytes) where
  -- The entry that a branch leaves.
  class_entry : Class → Option EventRecord
  class_entry pre_cancelled = some (new_record p derc start duration cancelled)
  class_entry (joins state) = some (record (new_record p derc start duration state) {
    opted_out = state_eq state active && w.comms_loss.active;
  })
  class_entry _ = none

  unchanged :
      Dict.get derc.m_rid w.store ≡ none
      → Dict.get j w.store ≡ (if derc.m_rid == j then none else Dict.get j w.store)
  unchanged e = elim (Bool-cases (derc.m_rid == j)) [
    | inl same ↦ rw same (ap (λ m. Dict.get m w.store) (sym (==→eq derc.m_rid j same)) ∙ e)
    | inr apart ↦ rw apart refl
  ]

  take_in-get :
      (c : Class)
      → Dict.get derc.m_rid w.store ≡ none
      → Dict.get j (take_in p derc start duration c w).0.store
        ≡ (if derc.m_rid == j then class_entry c else Dict.get j w.store)
  unfolding take_in join add_record reopen_defaults upsert opt_out_event cover_end cancel_timers
      write new_record class_entry state_eq
  take_in-get skipped e = unchanged e
  take_in-get already_handled e = unchanged e
  take_in-get expired e = unchanged e
  take_in-get pre_cancelled e = get-put derc.m_rid j _ w.store
  take_in-get (joins active) e =
      either_get j w.comms_loss.active _ _
        (λ b.
          if derc.m_rid == j
          then some (record (new_record p derc start duration active) { opted_out = b })
          else Dict.get j w.store)
        (put_twice derc.m_rid j _ _ w.store) (get-put derc.m_rid j _ w.store)
  take_in-get (joins _) e = get-put derc.m_rid j _ w.store

  classify-entry :
      class_entry (classify p derc w.comms_loss.resume_after_epoch start duration)
      ≡ entry p derc w start duration
  unfolding classify class_entry new_record state_eq
  classify-entry = ground arith

-- A control that is not tracked is stored just when its start is not in the time that was opted out
-- of and its end has not passed: as cancelled if the server cancelled it, otherwise as active if its
-- start has come and as scheduled if not, and opted out if it is active while communications are
-- lost. The other events stay as they were.
pub process_control_lem :
    (p : Poll) (derc : Dercontrol) (w : World) (j : Bytes)
    → get derc.m_rid w.store ≡ none
    → get j (process_control p derc w).0.store ≡ (
        let (start, duration, _) = effective_times p derc w.store w.offsets in
        if derc.m_rid == j then entry p derc w start duration else get j w.store)
unfolding get process_control
process_control_lem p derc w j e =
    let (start, duration, c) = effective_times p derc w.store w.offsets in
    let w' : World = record w { offsets = c } in
    let found = classify p derc w.comms_loss.resume_after_epoch start duration in
    rw (e, process_control)
      (take_in-get p derc start duration w' j found e
        ∙ ap (λ o. if derc.m_rid == j then o else Dict.get j w.store)
            (classify-entry p derc start duration w' j))
