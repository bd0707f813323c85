-- ===== src/Events/CurrentControls/Tests.antt =====
-- The modes of two devices.
use py.Prelude.{Bytes, bytes_key, nat_key, none, [], ◌∷◌, true, false, ◌==◌, ◌≡◌, ◌⊎◌, refl, any}
use py.Prelude.Dict
use py.Prelude.Dict.{Dict}
use py.Events.CurrentControls.{
  Tracker, clear_modes, get_active_modes, named_by, occurs_in, starts_with,
}
use py.Events.CurrentControls.Occurs.{Named}
use py.Events.CurrentControls.Laws.{clear_modes_lem}

-- "fixed_v" and "fixed_var"
abbrev fixed_v : Bytes
fixed_v = 102 ∷ 105 ∷ 120 ∷ 101 ∷ 100 ∷ 95 ∷ 118 ∷ []

abbrev fixed_var : Bytes
fixed_var = 102 ∷ 105 ∷ 120 ∷ 101 ∷ 100 ∷ 95 ∷ 118 ∷ 97 ∷ 114 ∷ []

-- Clearing the first mode also takes the second one.
caught_test : named_by (fixed_v ∷ []) fixed_var ≡ true
unfolding named_by occurs_in starts_with any
caught_test = refl

abbrev tracked : Tracker
tracked = (1 ∷ [], (fixed_v, []) ∷ (fixed_var, []) ∷ []) ∷ (2 ∷ [], (fixed_v, []) ∷ []) ∷ []

clear_modes_lem_example :
    ((method : Bytes)
      → (Named (fixed_v ∷ []) method
          × (Dict.get method
                (get_active_modes (1 ∷ []) (clear_modes (1 ∷ []) (fixed_v ∷ []) tracked))
              ≡ none))
        ⊎ ((¬ Named (fixed_v ∷ []) method)
            × (Dict.get method
                  (get_active_modes (1 ∷ []) (clear_modes (1 ∷ []) (fixed_v ∷ []) tracked))
                ≡ Dict.get method (get_active_modes (1 ∷ []) tracked))))
    × ((other : Bytes)
        → ((1 ∷ []) == other) ≡ false
        → get_active_modes other (clear_modes (1 ∷ []) (fixed_v ∷ []) tracked)
          ≡ get_active_modes other tracked)
clear_modes_lem_example = clear_modes_lem (1 ∷ []) (fixed_v ∷ []) tracked
