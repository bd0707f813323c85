-- ===== src/Client/State/Tests.antt =====
-- Runs of client/state.py.
use py.Prelude.{List, [], ◌∷◌}
use py.Client.State.{empty_mapping, MappingStep, adds, removes, run_mapping}
use py.Client.State.Mapping.{IsMapping}
use py.Client.State.Runs.{empty_mapping-IsMapping, run_mapping-IsMapping}

abbrev two_devices : List MappingStep
two_devices =
    adds "/derp/1" "/edev/1"
    ∷ adds "/derp/1" "/edev/2"
    ∷ adds "/derp/2" "/edev/1"
    ∷ adds "/derp/1" "/edev/1"
    ∷ removes "/derp/1"
    ∷ []

run_mapping-IsMapping_example : IsMapping (run_mapping two_devices empty_mapping)
run_mapping-IsMapping_example =
    run_mapping-IsMapping two_devices empty_mapping empty_mapping-IsMapping
