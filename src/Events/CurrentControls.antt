-- ===== src/Events/CurrentControls.antt =====
-- events/current_controls.py: the modes in force on a device, by the name of the method that set
-- them. The names and the parameters are texts; a text is the list of its code points.
pub mod Laws
pub mod Occurs
pub mod Tests
use py.Prelude.{
  ℕ, nat_key, Bytes, bytes_key, Option, none, some, List, [], ◌∷◌, Bool, true, false, not, ◌&&◌,
  ◌||◌, ◌==◌, is_empty, keep, any,
}
use py.Prelude.Dict
use py.Prelude.Dict.{Dict}

-- A device's methods, with their parameters.
abbrev pub Modes : Type 0
Modes = Dict Bytes (Dict Bytes Bytes)

-- `_state`
abbrev pub Tracker : Type 0
Tracker = Dict Bytes Modes

unfoldable pub dispatch_all : List (Bytes × Dict Bytes Bytes) → Modes → Modes
dispatch_all [] dev = dev
dispatch_all ((method_name, params) ∷ rest) dev =
    dispatch_all rest (Dict.put method_name params dev)

unfoldable pub update : Bytes → List (Bytes × Dict Bytes Bytes) → Tracker → Tracker
update device_href dispatched_modes state =
    Dict.put device_href (dispatch_all dispatched_modes (Dict.get_default device_href state []))
      state

unfoldable pub starts_with : Bytes → Bytes → Bool
starts_with [] text = true
starts_with (c ∷ m) [] = false
starts_with (c ∷ m) (d ∷ text) = c == d && starts_with m text

-- `m in k` of two texts.
unfoldable pub occurs_in : Bytes → Bytes → Bool
occurs_in m [] = starts_with m []
occurs_in m (d ∷ text) = starts_with m (d ∷ text) || occurs_in m text

unfoldable pub named_by : List Bytes → Bytes → Bool
named_by mode_names method_name = any (λ m. occurs_in m method_name) mode_names

-- The deletions of the keys in `to_remove`, by keeping the others.
unfoldable pub clear_modes : Bytes → List Bytes → Tracker → Tracker
clear_modes device_href mode_names state = elim (Dict.get device_href state) [
  | none ↦ state
  | some dev ↦ Dict.put device_href (keep (λ kv. not (named_by mode_names kv.0)) dev) state
]

unfoldable pub clear_device : Bytes → Tracker → Tracker
clear_device device_href state = Dict.delete device_href state

unfoldable pub get_active_modes : Bytes → Tracker → Modes
get_active_modes device_href state = Dict.get_default device_href state []

unfoldable pub has_changes : Bytes → Tracker → Bool
has_changes device_href state = not (is_empty (Dict.get_default device_href state []))

abbrev pub clear : Tracker → Tracker
clear state = []
