-- ===== src/Client/State.antt =====
-- client/state.py: which devices a program is for, both ways, and the versions of resources.
pub mod Mapping
pub mod Runs
pub mod Tests
use py.Prelude.{
  ℕ, nat_key, Bytes, bytes_key, String, string_key, Option, none, some, List, [], ◌∷◌, Bool, true,
  false, ◌&&◌, ◌==◌, ◌++◌, if◌then◌else◌,
}
use py.Prelude.Dict
use py.Prelude.Dict.{Dict}
use py.Prelude.Sets

pub record DeviceMapping : Type 0 where
  pub program_to_devices : Dict String (List String)
  pub device_to_programs : Dict String (List String)

abbrev pub empty_mapping : DeviceMapping
empty_mapping = record { program_to_devices = []; device_to_programs = [] }

-- `d.setdefault(k, []).append(v)`
unfoldable pub append_at : String → String → Dict String (List String) → Dict String (List String)
append_at k v d = Dict.put k (Dict.get_default k d [] ++ v ∷ []) d

unfoldable pub add : String → String → DeviceMapping → DeviceMapping
add program_href device_href m =
    let programs = Dict.get_default device_href m.device_to_programs [] in
    if Sets.contains program_href programs then m else record {
      program_to_devices = append_at program_href device_href m.program_to_devices;
      device_to_programs = append_at device_href program_href m.device_to_programs;
    }

-- `xs.remove(v)`, where a ValueError is suppressed.
unfoldable pub remove_first : String → List String → List String
remove_first v [] = []
remove_first v (x ∷ xs) = if x == v then xs else x ∷ remove_first v xs

unfoldable pub detach_one : String → String → Dict String (List String) → Dict String (List String)
detach_one program_href device_href d = elim (Dict.get device_href d) [
  | none ↦ d
  | some programs ↦ Dict.put device_href (remove_first program_href programs) d
]

unfoldable pub detach : String → List String → Dict String (List String) → Dict String (List String)
detach program_href [] d = d
detach program_href (device_href ∷ devices) d =
    detach program_href devices (detach_one program_href device_href d)

unfoldable pub remove_program : String → DeviceMapping → DeviceMapping
remove_program program_href m = record {
  program_to_devices = Dict.delete program_href m.program_to_devices;
  device_to_programs =
      detach program_href (Dict.get_default program_href m.program_to_devices [])
        m.device_to_programs;
}

-- What discovery does to the mapping.
pub data MappingStep : Type 0 where
  adds : String → String → MappingStep
  removes : String → MappingStep

unfoldable pub run_mapping : List MappingStep → DeviceMapping → DeviceMapping
run_mapping [] m = m
run_mapping (adds program_href device_href ∷ steps) m =
    run_mapping steps (add program_href device_href m)
run_mapping (removes program_href ∷ steps) m = run_mapping steps (remove_program program_href m)

-- The mRID and the version that a path had last.
abbrev pub ResourceVersionCache : Type 0
ResourceVersionCache = Dict String (Bytes × ℕ)

unfoldable pub is_unchanged :
    String → Bytes → ℕ → ResourceVersionCache → Bool × ResourceVersionCache
is_unchanged path m_rid version versions =
    let changed : Bool × ResourceVersionCache = (false, Dict.put path (m_rid, version) versions) in
    elim (Dict.get path versions) [
      | none ↦ changed
      | some cached ↦ if cached.0 == m_rid && cached.1 == version then (true, versions) else changed
    ]
