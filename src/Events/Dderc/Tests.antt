-- ===== src/Events/Dderc/Tests.antt =====
-- The tracker of default controls on small inputs.
use py.Prelude.{
  List, Bytes, ◌≡◌, refl, [], ◌∷◌, false, bytes_key, bytes_beq, string_key, tuple_key, any,
}
use py.Events.Dderc.{DdercTracker, should_apply_initial, is_blocked}

abbrev tracker : DdercTracker
tracker = ((7 ∷ [], "/derp/1"), record { mrid = 1 ∷ []; primacy = 3 }) ∷ []

abbrev listed : List Bytes
listed = (7 ∷ []) ∷ []

abbrev lfdi : Bytes
lfdi = 7 ∷ []

-- Another program of lower priority is kept out.
initial_run : should_apply_initial (7 ∷ []) "/derp/2" (2 ∷ []) 5 tracker ≡ false
unfolding should_apply_initial is_blocked any bytes_beq
initial_run = refl
