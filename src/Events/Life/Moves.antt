-- ===== src/Events/Life/Moves.antt =====
-- events/processor.py: the segments of the handlers, the pruning that ends a poll among them, in any
-- order. The processor makes only some of the sequences; what holds of all holds of those. A segment
-- takes the record of its event from the store and does nothing where there is none: what a handler
-- does with a record that was pruned while it waited is not among the segments.
use py.Prelude.{ℕ, String, Bytes, Option, List, [], ◌∷◌}
use py.Prelude.Int.{ℤ}
use py.Prelude.Dict.{Dict}
use py.Events.Control.{Dercontrol}
use py.Events.Supersession.{SupersessionResult}
use py.Events.Response.{DispatchError}
use py.Events.Life.{World}
use py.Events.Life.Handlers
use py.Events.Life.Handlers.{Outcome}
use py.Events.Life.Discovery
use py.Events.Life.Discovery.{Poll}

pub data Segment : Type 0 where
  control : Poll → Dercontrol → Segment
  unserved : Poll → List Bytes → Bytes → Segment
  acknowledged : Bytes → Segment
  activation completion : Option ℕ → Bytes → Segment
  supersession : SupersessionResult → Segment
  superseded_told : Option ℕ → Dict String (List String) → SupersessionResult → Segment
  dispatch dispatched : Bytes → Segment
  answer : Bytes → String → Option DispatchError → Segment
  wound_down : Bytes → ℕ → ℤ → Segment
  program_gone : String → Option ℕ → Segment
  comms_lost : Option ℕ → Segment
  pruning : ℤ → Segment

-- What a segment does to the world, and what it asks for.
unfoldable pub enact : Segment → World → Outcome
enact (control p derc) w = Discovery.process_control p derc w
enact (unserved p served mrid) w = Discovery.reconcile p served mrid w
enact (acknowledged mrid) w = Handlers.after_acknowledged mrid w
enact (activation current mrid) w = Handlers.on_activation current mrid w
enact (completion current mrid) w = Handlers.on_completion mrid w
enact (supersession result) w = Handlers.note_superseded result w
enact (superseded_told current device_map result) w =
    Handlers.settle_superseded current device_map result w
enact (dispatch mrid) w = Handlers.begin_dispatch mrid w
enact (dispatched mrid) w = Handlers.after_dispatch mrid w
enact (answer mrid device failure) w = Handlers.respond mrid device failure w
enact (wound_down mrid delay time) w = Handlers.after_wind_down mrid delay time w
enact (program_gone program current) w = Handlers.cancel_program program current w
enact (comms_lost current) w = Handlers.enter_comms_loss current w
enact (pruning now) w = Discovery.prune now w

unfoldable pub enact_all : List Segment → World → World
enact_all [] w = w
enact_all (s ∷ segments) w = enact_all segments (enact s w).0
