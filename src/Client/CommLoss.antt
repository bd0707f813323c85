-- ===== src/Client/CommLoss.antt =====
-- client/comm_loss_simulation.py: the arm state of a simulated outage, and the requests in flight. What a
-- caller of a request does, on one event loop, is a step.
pub mod Drain
pub mod Tests
use py.Prelude.{
  ℕ, zero, suc, ◌+◌, ◌-◌, nat_key, String, Option, none, some, List, [], ◌∷◌, ◌++◌, Bool, true,
  false, not, ◌≡◌, ◌==◌, if◌then◌else◌,
}
use py.Prelude.Int.{ℤ}

pub data Phase : Type 0 where
  inactive phase_active recovering recovered recovery_failed : Phase

-- `idle` is whether the event that a drain waits for is set.
pub record CommLossSimulation : Type 0 where
  pub active : Bool
  pub started : Option ℤ
  pub expires : Option ℤ
  pub phase : Phase
  pub detail : Option String
  pub in_flight : ℕ
  pub idle : Bool

abbrev pub new_simulation : CommLossSimulation
new_simulation = record {
  active = false;
  started = none;
  expires = none;
  phase = inactive;
  detail = none;
  in_flight = 0;
  idle = true;
}

unfoldable pub arm : ℤ → ℤ → CommLossSimulation → CommLossSimulation
arm now expires_at s = record s {
  active = true;
  started = some now;
  expires = some expires_at;
  phase = phase_active;
  detail = none;
}

unfoldable pub disarm : CommLossSimulation → CommLossSimulation
disarm s = record s { active = false; expires = none; phase = recovering; detail = none }

unfoldable pub abort : CommLossSimulation → CommLossSimulation
abort s = record s {
  active = false;
  started = none;
  expires = none;
  phase = inactive;
  detail = none;
}

unfoldable pub note_recovered : CommLossSimulation → CommLossSimulation
note_recovered s = record s { phase = recovered; started = none; detail = none }

unfoldable pub note_recovery_failed : String → CommLossSimulation → CommLossSimulation
note_recovery_failed detail s = record s { phase = recovery_failed; detail = some detail }

unfoldable pub note_request_started : CommLossSimulation → CommLossSimulation
note_request_started s = record s { in_flight = suc s.in_flight; idle = false }

-- The count stops at 0.
unfoldable pub note_request_finished : CommLossSimulation → CommLossSimulation
note_request_finished s = record s {
  in_flight = s.in_flight - 1;
  idle = if s.in_flight - 1 == 0 then true else s.idle;
}

-- `_GatedRequestContext`: whether it is counted, and whether it has the context of the session.
pub record GatedRequestContext : Type 0 where
  pub counted : Bool
  pub has_inner : Bool

abbrev pub new_context : GatedRequestContext
new_context = record { counted = false; has_inner = false }

-- The simulation, and the contexts that were made.
pub record System : Type 0 where
  pub simulation : CommLossSimulation
  pub contexts : List GatedRequestContext

-- `__aenter__` up to the await of the request: `none` is the simulated error.
unfoldable pub enter :
    GatedRequestContext → CommLossSimulation → Option (GatedRequestContext × CommLossSimulation)
enter c s = if s.active then none else some (record c { counted = true }, note_request_started s)

-- `_release`
unfoldable pub release :
    GatedRequestContext → CommLossSimulation → GatedRequestContext × CommLossSimulation
release c s = if c.counted then (record c { counted = false }, note_request_finished s) else (c, s)

-- One step of one caller, or of whoever drives the simulation. A context is entered once, before
-- it is counted; it is released when its request fails, and again when it is left.
pub data Step : System → System → Type 0 where
  makes : (s : System) → Step s (record s { contexts = new_context ∷ s.contexts })
  enters :
      (sim sim' : CommLossSimulation) (before after : List GatedRequestContext)
      (c c' : GatedRequestContext)
      → c.counted ≡ false
      → enter c sim ≡ some (c', sim')
      → Step
          (record { simulation = sim; contexts = before ++ c ∷ after })
          (record { simulation = sim'; contexts = before ++ c' ∷ after })
  opens :
      (sim : CommLossSimulation) (before after : List GatedRequestContext) (c : GatedRequestContext)
      → c.counted ≡ true
      → Step
          (record { simulation = sim; contexts = before ++ c ∷ after })
          (record { simulation = sim; contexts = before ++ record c { has_inner = true } ∷ after })
  releases :
      (sim : CommLossSimulation) (before after : List GatedRequestContext) (c : GatedRequestContext)
      → Step
          (record { simulation = sim; contexts = before ++ c ∷ after })
          (record {
            simulation = (release c sim).1;
            contexts = before ++ (release c sim).0 ∷ after;
          })
  arms :
      (s : System) (now expires_at : ℤ)
      → Step s (record s { simulation = arm now expires_at s.simulation })
  disarms : (s : System) → Step s (record s { simulation = disarm s.simulation })
  aborts : (s : System) → Step s (record s { simulation = abort s.simulation })
  recovers : (s : System) → Step s (record s { simulation = note_recovered s.simulation })
  fails :
      (s : System) (detail : String)
      → Step s (record s { simulation = note_recovery_failed detail s.simulation })

pub data Reach (s : System) : System → Type 0 where
  here : Reach s s
  next : {t u : System} → Reach s t → Step t u → Reach s u

abbrev pub start : System
start = record { simulation = new_simulation; contexts = [] }
