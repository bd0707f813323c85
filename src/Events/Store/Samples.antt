-- ===== src/Events/Store/Samples.antt =====
-- Small events that the tests of the package share.
use py.Prelude.{ℕ, String, none, List, [], ◌∷◌, false, Bytes}
use py.Prelude.Int.{pos}
use py.Events.Control.{Dercontrol}
use py.Events.Store.{EventState, EventRecord}

abbrev pub control : Bytes → List String → Dercontrol
control mrid fields = record {
  m_rid = mrid;
  creation_time = none;
  event_status = none;
  interval_start = pos 100;
  interval_duration = pos 50;
  randomize_start = none;
  randomize_duration = none;
  dercontrol_base = record { set_fields = fields; other_element = [] };
}

-- An event of a program with a primacy, from second 100 to second 150.
abbrev pub event : Bytes → String → ℕ → List String → EventRecord
event mrid program primacy fields = record {
  mrid = mrid;
  derc = control mrid fields;
  program_href = program;
  primacy = primacy;
  state = EventState.scheduled;
  start = pos 100;
  duration = pos 50;
  server_status_time = pos 0;
  creation_time = pos 0;
  superseded_devices = [];
  superseded_modes = [];
  rejected_devices = [];
  applied_devices = [];
  applied_local = [];
  rejected_local = [];
  opted_out = false;
}

abbrev pub first : EventRecord
first = event (1 ∷ []) "/derp/1" 1 ("op_mod_fixed_w" ∷ "ramp_tms" ∷ [])

abbrev pub second : EventRecord
second = event (2 ∷ []) "/derp/2" 2 ("op_mod_fixed_w" ∷ [])

abbrev pub third : EventRecord
third = event (3 ∷ []) "/derp/2" 0 ("op_mod_target_v" ∷ "ramp_tms" ∷ [])
