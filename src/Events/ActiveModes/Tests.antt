-- ===== src/Events/ActiveModes/Tests.antt =====
-- The mode registry on a small input.
use py.Prelude.{
  String, ◌≡◌, refl, [], ◌∷◌, false, not, ◌&&◌, bytes_key, bytes_beq, string_key, some, keep, ◌==◌,
}
use py.Prelude.Dict
use py.Prelude.Sets
use py.Events.ActiveModes.{Registry, events_on, unregister, cover, covered}
use py.Events.ActiveModes.Laws.{held, unregister_lem}

abbrev device : String
device = "/edev/1"

-- Two events on one device share a mode.
abbrev registry : Registry
registry =
    (
      "/edev/1",
      ((1 ∷ []), "op_mod_fixed_w" ∷ "op_mod_volt_var" ∷ [])
          ∷ ((2 ∷ []), "op_mod_volt_var" ∷ [])
          ∷ [],
    )
    ∷ []

unregister_run : (unregister "/edev/1" (1 ∷ []) registry).0 ≡ "op_mod_fixed_w" ∷ []
unfolding unregister cover Dict.get Dict.get_default Dict.delete Sets.diff Sets.contains Sets.union
    Sets.add keep bytes_beq
unregister_run = refl

unregister_lem_example :
    (Sets.contains "op_mod_fixed_w" (unregister "/edev/1" (1 ∷ []) registry).0 ≡ (
      not (Sets.contains "op_mod_fixed_w" (covered "/edev/1" (some (1 ∷ [])) registry))
      && Sets.contains "op_mod_fixed_w" (held "/edev/1" (1 ∷ []) registry)))
    × (held "/edev/1" (1 ∷ []) (unregister "/edev/1" (1 ∷ []) registry).1 ≡ [])
    × ((device == "/edev/2") ≡ false
        → events_on "/edev/2" (unregister "/edev/1" (1 ∷ []) registry).1
          ≡ events_on "/edev/2" registry)
unregister_lem_example = unregister_lem "/edev/1" (1 ∷ []) registry "op_mod_fixed_w" "/edev/2"
