-- ===== src/History/Intervals/Tests.antt =====
-- A device of history/intervals.py over two intervals.
use py.Prelude.{none, some, List, [], ◌∷◌, ◌≡◌}
use py.Prelude.Int.{pos, negsuc}
use py.History.Intervals.{Device, new_device}
use py.History.Intervals.Ideal.{Op, reading, availability, lost, flushed, meter_run}
use py.History.Intervals.Meter.{meter_of, device_run, device_run_lem}

-- A reading held over the end of an interval of 900 s, one after too long a gap, and negative ones.
abbrev ops : List Op
ops =
    availability 790 (some (negsuc 4))
    ∷ reading 800 (some (pos 5)) none
    ∷ reading 1000 (some (negsuc 2)) none
    ∷ reading 1100 none none
    ∷ flushed
    ∷ lost
    ∷ reading 5000 (some (pos 1)) none
    ∷ []

device_run_lem_example :
    (d' : Device) × (device_run 899 900 ops new_device ≡ some d')
    × (meter_of d' ≡ meter_run 900 ops (meter_of new_device))
device_run_lem_example = device_run_lem 899 900 ops new_device
