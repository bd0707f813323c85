-- ===== src/Events/Life/Discovery.antt =====
-- events/processor.py: what one control of a poll comes to in process_controls, up to its first await,
-- the reconciliation with the list that the server served, and the pruning.
use py.Prelude.{
  ℕ, String, string_key, Bytes, bytes_key, Option, none, some, List, [], ◌∷◌, Bool, false, not,
  ◌&&◌, ◌==◌, if◌then◌else◌,
}
use py.Prelude.Int.{ℤ, pos, ◌+ℤ◌, ◌-ℤ◌, ltb_ℤ, leb_ℤ}
use py.Prelude.Dict
use py.Prelude.Sets
use py.Events.Control.{Dercontrol}
use py.Events.Store
use py.Events.Store.{
  EventState, scheduled, active, cancelled, EventRecord, EventStore, end, get, is_live,
  all_active_states, default_grace, upsert,
}
use py.Events.Randomization
use py.Events.Randomization.{RandomizationCache, randomized, get_offsets, override_start_offset}
use py.Events.Dderc
use py.Events.Processor.{is_server_cancelled, is_zero, find_successive_predecessor}
use py.Events.Response.{ResponseCode}
use py.Events.Life.{World, post_response, relay_event, write, program_devices}
use py.Events.Life.Handlers.{Outcome, on_record, opt_out_event, handle_cancellation}

-- What a pass over a program's controls goes by: the program, its primacy and the time; what
-- `random.randint` draws, and whether a response to the control's mRID was sent; the running task.
pub record Poll : Type 0 where
  pub program_href : String
  pub primacy : ℕ
  pub now : ℤ
  pub draw_start : ℕ → ℕ
  pub draw_duration : ℕ → ℕ
  pub has_responded : Bool
  pub current : Option ℕ

abbrev pub Times : Type 0
Times = ℤ × ℤ × RandomizationCache

-- The effective start and duration with these offsets, next to a predecessor where there is one.
unfoldable pub adjoin : Option EventRecord → Dercontrol → ℤ × ℤ → RandomizationCache → Times
adjoin none derc (start_off, dur_off) c =
    (derc.interval_start +ℤ start_off, derc.interval_duration +ℤ dur_off, c)
adjoin (some predecessor) derc (start_off, dur_off) c =
    let new_off = end predecessor -ℤ derc.interval_start in
    (
      derc.interval_start +ℤ new_off,
      derc.interval_duration +ℤ dur_off,
      if is_zero (new_off -ℤ start_off)
          then c
          else override_start_offset derc.m_rid new_off derc.interval_start derc.interval_duration
              c,
    )

unfoldable pub effective_times : Poll → Dercontrol → EventStore → RandomizationCache → Times
effective_times p derc store c =
    let drawn =
      get_offsets p.draw_start p.draw_duration (randomized derc) derc.interval_start
        derc.interval_duration c in
    adjoin
      (find_successive_predecessor p.program_href derc.interval_start (all_active_states store))
      derc drawn.0 drawn.1

abbrev pub status_time : Dercontrol → ℤ
status_time derc = elim derc.event_status [
  | none ↦ pos 0
  | some status ↦ elim status.date_time [ none ↦ pos 0 | some at ↦ at ]
]

abbrev pub creation_or : ℤ → Dercontrol → ℤ
creation_or default derc = elim derc.creation_time [ none ↦ default | some at ↦ at ]

-- The branches that a control not yet tracked takes.
pub data Class : Type 0 where
  skipped already_handled expired pre_cancelled : Class
  joins : EventState → Class

unfoldable pub classify : Poll → Dercontrol → Option ℤ → ℤ → ℤ → Class
classify p derc resume_after start duration =
    if elim resume_after [ none ↦ false | some boundary ↦ leb_ℤ start boundary ]
    then skipped
    else if ltb_ℤ (start +ℤ duration) p.now
    then if p.has_responded then already_handled else expired
    else if is_server_cancelled derc
    then pre_cancelled
    else joins (if leb_ℤ start p.now then active else scheduled)

unfoldable pub new_record : Poll → Dercontrol → ℤ → ℤ → EventState → EventRecord
new_record p derc start duration state = record {
  mrid = derc.m_rid;
  derc = derc;
  program_href = p.program_href;
  primacy = p.primacy;
  state = state;
  start = start;
  duration = duration;
  server_status_time = status_time derc;
  creation_time = creation_or (pos 0) derc;
  superseded_devices = [];
  superseded_modes = [];
  rejected_devices = [];
  applied_devices = [];
  applied_local = [];
  rejected_local = [];
  opted_out = false;
}

unfoldable pub add_record : EventRecord → World → World
add_record r w = record w { store = upsert r w.store }

-- The LFDIs of the devices that have one.
unfoldable pub lfdis_of : List String → World → List Bytes
lfdis_of [] w = []
lfdis_of (d ∷ devices) w =
    let rest = lfdis_of devices w in
    elim (Dict.get d w.lfdi_of) [ none ↦ rest | some lfdi ↦ lfdi ∷ rest ]

unfoldable pub reopen_defaults : String → World → World
reopen_defaults program w = record w {
  dderc = Dderc.clear_devices (lfdis_of (program_devices program w) w) w.dderc;
}

unfoldable pub join : Poll → EventState → EventRecord → World → Outcome
join p active r w =
    let w' = reopen_defaults p.program_href (add_record r w) in
    if w'.comms_loss.active
    then opt_out_event p.current r w'
    else (w', post_response r.mrid ResponseCode.acknowledged [] ∷ [])
join p _ r w = (
  reopen_defaults p.program_href (add_record r w),
  post_response r.mrid ResponseCode.acknowledged [] ∷ [],
)

unfoldable pub take_in : Poll → Dercontrol → ℤ → ℤ → Class → World → Outcome
take_in p derc start duration skipped w = (w, [])
take_in p derc start duration already_handled w = (w, [])
take_in p derc start duration expired w = (w, post_response derc.m_rid ResponseCode.expired [] ∷ [])
take_in p derc start duration pre_cancelled w = (
  add_record (new_record p derc start duration cancelled) w,
  relay_event derc.m_rid "cancelled" ∷ post_response derc.m_rid ResponseCode.cancelled [] ∷ [],
)
take_in p derc start duration (joins state) w =
    join p state (new_record p derc start duration state) w

-- The record with the fields that the server may have changed.
unfoldable pub refresh : Dercontrol → EventRecord → EventRecord
refresh derc r = record r {
  derc = derc;
  server_status_time = status_time derc;
  creation_time = creation_or r.creation_time derc;
}

unfoldable pub update : Poll → Dercontrol → EventRecord → World → Outcome
update p derc r w =
    if is_server_cancelled derc && is_live r.state
    then handle_cancellation p.current (refresh derc r) w
    else (write (refresh derc r) w, relay_event r.mrid "updated" ∷ [])

unfoldable pub process_control : Poll → Dercontrol → World → Outcome
process_control p derc w =
    let (start, duration, c) = effective_times p derc w.store w.offsets in
    let w' : World = record w { offsets = c } in
    elim (get derc.m_rid w.store) [
      | some r ↦ update p derc r w'
      | none ↦
          take_in p derc start duration
            (classify p derc w.comms_loss.resume_after_epoch start duration) w'
    ]

-- One event of the loop for those that the server no longer serves. The loop is over the events
-- that were live when it began; the state is not looked at again.
unfoldable pub reconcile : Poll → List Bytes → Bytes → World → Outcome
reconcile p served mrid w = on_record mrid w (λ r.
    if r.program_href == p.program_href && not (Sets.contains r.mrid served)
    then if leb_ℤ (end r) p.now then (w, []) else handle_cancellation p.current r w
    else (w, []))

abbrev pub offsets_grace : ℤ
offsets_grace = pos 10

-- The deletions of the offsets, in their order, which a key that one of the dicts does not have ends.
unfoldable pub drop_offsets : List Bytes → RandomizationCache → RandomizationCache
drop_offsets [] c = c
drop_offsets (mrid ∷ mrids) c =
    let drawn = record c { cache = Dict.delete mrid c.cache } in
    let rest = drop_offsets mrids (record drawn { expiry = Dict.delete mrid c.expiry }) in
    if not (Dict.has mrid c.cache) then c else if Dict.has mrid c.expiry then rest else drawn

-- The pruning at the end of `process_controls`, of the store and of the offsets.
unfoldable pub prune : ℤ → World → Outcome
prune now w = (
  record w {
    store = (Store.prune_expired now default_grace w.store).1;
    offsets =
        drop_offsets (Randomization.expired_keys now offsets_grace w.offsets.expiry) w.offsets;
  },
  [],
)
