-- ===== src/Events/Dderc.antt =====
-- events/dderc.py: at which primacy the default control of a program was applied to a device.
pub mod Laws
pub mod Tests
use py.Prelude.{
  ℕ, nat_key, String, string_key, Bytes, bytes_key, tuple_key, Option, none, some, List, [], ◌∷◌,
  Bool, true, false, not, ◌&&◌, ◌||◌, ◌==◌, ltb, leb, keep, any, length, if◌then◌else◌,
}
use py.Prelude.Dict
use py.Prelude.Dict.{Dict}
use py.Prelude.Sets

pub record DdercEntry : Type 0 where
  pub mrid : Bytes
  pub primacy : ℕ

-- `_applied`, keyed by LFDI and program path.
abbrev pub DdercTracker : Type 0
DdercTracker = Dict (Bytes × String) DdercEntry

unfoldable pub should_apply : Bytes → String → ℕ → DdercTracker → Bool
should_apply lfdi derp_path primacy applied = elim (Dict.get (lfdi, derp_path) applied) [
  | none ↦ true
  | some existing ↦ leb primacy existing.primacy
]

-- Whether another program has applied a default of higher priority to the device.
unfoldable pub is_blocked : Bytes → String → ℕ → DdercTracker → Bool
is_blocked lfdi derp_path primacy applied =
    any (λ kv. kv.0.0 == lfdi && not (kv.0.1 == derp_path) && ltb kv.1.primacy primacy) applied

unfoldable pub should_apply_initial : Bytes → String → Bytes → ℕ → DdercTracker → Bool
should_apply_initial lfdi derp_path mrid primacy applied =
    if is_blocked lfdi derp_path primacy applied
    then false
    else elim (Dict.get (lfdi, derp_path) applied) [
      | none ↦ true
      | some existing ↦
          if ltb primacy existing.primacy
          then true
          else primacy == existing.primacy && not (mrid == existing.mrid)
    ]

unfoldable pub record_application : Bytes → String → Bytes → ℕ → DdercTracker → DdercTracker
record_application lfdi derp_path mrid primacy applied =
    Dict.put (lfdi, derp_path) (record { mrid = mrid; primacy = primacy }) applied

-- The deletions of the keys in `to_remove`, by keeping the others.
unfoldable pub clear_devices : List Bytes → DdercTracker → DdercTracker
clear_devices lfdis applied = keep (λ kv. not (Sets.contains kv.0.0 lfdis)) applied

abbrev pub clear : DdercTracker → DdercTracker
clear applied = []

abbrev pub len : DdercTracker → ℕ
len applied = length applied
