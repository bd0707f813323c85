-- ===== src/Events/CurrentControls/Laws.antt =====
-- What clearing some modes of a device leaves.
use py.Prelude.{
  nat_key, Bytes, bytes_key, none, some, List, [], ◌∷◌, Bool, false, not, ◌==◌, ◌≡◌, ◌⊎◌, refl,
  keep, arith, Bool-cases, Option-cases, inl, inr, if◌then◌else◌,
}
use py.Prelude.Dict
use py.Prelude.Dict.{Dict, get-put, get_default-put}
use py.Events.CurrentControls.Occurs.{Named, named_by-Named, Named-named_by}
use py.Events.CurrentControls.{Modes, Tracker, named_by, clear_modes, get_active_modes}

get-keep :
    (p : Bytes → Bool) (k : Bytes) (d : Modes)
    → Dict.get k (keep (λ kv. p kv.0) d) ≡ (if p k then Dict.get k d else none)
unfolding Dict.get keep
get-keep p k [] = ground arith
get-keep p k ((j, v) ∷ d) = elim (Bool-cases (j == k)) [
  | inl same ↦
      rw ((bytes_key.same_iff j k).0 same) (ground (arith, get-keep p k d, bytes_key.same_iff k k))
  | inr apart ↦ ground (arith, get-keep p k d)
]

module _ (device_href : Bytes) (mode_names : List Bytes) (state : Tracker) where
  cleared : Modes → Modes
  cleared dev = keep (λ kv. not (named_by mode_names kv.0)) dev

  clear_modes-none :
      Dict.get device_href state ≡ none → clear_modes device_href mode_names state ≡ state
  unfolding clear_modes
  clear_modes-none e = rw (e, clear_modes) refl

  clear_modes-some :
      (dev : Modes)
      → Dict.get device_href state ≡ some dev
      → clear_modes device_href mode_names state ≡ Dict.put device_href (cleared dev) state
  unfolding clear_modes cleared
  clear_modes-some dev e = rw (e, clear_modes) refl

  active_none : Dict.get device_href state ≡ none → get_active_modes device_href state ≡ []
  unfolding get_active_modes Dict.get_default
  active_none e = rw (e, Dict.get_default) refl

  active_some :
      (dev : Modes)
      → Dict.get device_href state ≡ some dev
      → get_active_modes device_href state ≡ dev
  unfolding get_active_modes Dict.get_default
  active_some dev e = rw (e, Dict.get_default) refl

  active-put :
      (other : Bytes) (dev : Modes)
      → get_active_modes other (Dict.put device_href dev state)
        ≡ (if device_href == other then dev else get_active_modes other state)
  unfolding get_active_modes
  active-put other dev = get_default-put device_href other dev [] state

  get-cleared :
      (method : Bytes) (dev : Modes)
      → Dict.get method (cleared dev)
        ≡ (if named_by mode_names method then none else Dict.get method dev)
  unfolding cleared
  get-cleared method dev = ground (arith, get-keep (λ k. not (named_by mode_names k)) method dev)

  nothing_left :
      (method : Bytes) (empty : Modes)
      → empty ≡ []
      → Dict.get method empty ≡ (if named_by mode_names method then none else Dict.get method empty)
  unfolding Dict.get
  nothing_left method empty e = rw e (ground arith)

  clear_modes_by_test :
      ((method : Bytes)
        → Dict.get method (get_active_modes device_href (clear_modes device_href mode_names state))
          ≡ (if named_by mode_names method
              then none
              else Dict.get method (get_active_modes device_href state)))
      × ((other : Bytes)
          → (device_href == other) ≡ false
          → get_active_modes other (clear_modes device_href mode_names state)
            ≡ get_active_modes other state)
  clear_modes_by_test = elim (Option-cases (Dict.get device_href state)) [
    | inl e ↦
        rw (clear_modes-none e, active_none e)
          ((λ method. nothing_left method [] refl), λ other apart. refl)
    | inr (dev, e) ↦
        rw (clear_modes-some dev e, active_some dev e)
          (
            (λ method.
                rw
                  (
                    active-put device_href (cleared dev),
                    (bytes_key.same_iff device_href device_href).1 refl,
                  )
                  (get-cleared method dev)),
            λ other apart. rw (active-put other (cleared dev), apart) refl,
          )
  ]

  -- Clearing modes of a device removes from it exactly the methods whose name has the name of one of
  -- the modes somewhere in it, with any texts before and after, and leaves the parameters of its other
  -- methods and the other devices.
  pub clear_modes_lem :
      ((method : Bytes)
        → (Named mode_names method
            × (Dict.get method
                  (get_active_modes device_href (clear_modes device_href mode_names state))
                ≡ none))
          ⊎ ((¬ Named mode_names method)
              × (Dict.get method
                    (get_active_modes device_href (clear_modes device_href mode_names state))
                  ≡ Dict.get method (get_active_modes device_href state))))
      × ((other : Bytes)
          → (device_href == other) ≡ false
          → get_active_modes other (clear_modes device_href mode_names state)
            ≡ get_active_modes other state)
  clear_modes_lem = (
    (λ method. elim (Bool-cases (named_by mode_names method)) [
      | inl with_name ↦ inl (
        named_by-Named mode_names method with_name,
        ground (arith, clear_modes_by_test.0 method, with_name),
      )
      | inr without ↦ inr (
        (λ named. absurd (ground (arith, without, Named-named_by mode_names method named))),
        ground (arith, clear_modes_by_test.0 method, without),
      )
    ]),
    clear_modes_by_test.1,
  )
