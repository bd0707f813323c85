-- ===== src/Events/Life/Release.antt =====
-- What the end of an event brings back, in events/processor.py, and from which program.
use py.Prelude.{
  ◌≤◌, String, string_key, bytes_key, none, some, List, [], ◌∷◌, ◌++◌, Bool, true, false, ◌&&◌,
  ◌||◌, ◌≡◌, refl, ◌⊎◌, inl, inr, ◌==◌, ==→eq, ==-comm, sym, ◌∙◌, any, any-snoc, if◌then◌else◌, All,
  Bool-cases, arith, ltb, In, here, there,
}
use py.Prelude.Dict.{Dict}
use py.Prelude.Sets.{contains}
use py.Events.Store.{EventRecord}
use py.Events.ActiveModes.{Registry, unregister}
use py.Events.ActiveModes.Laws.{held, unregister_lem}
use py.Events.Life.Fallback.{
  DerProgramState, device_has_other_active, left_to_other, falls_back, release_each, can_revert,
  better, best_program,
}

-- Whether the device is among those that fall back.
abbrev pub listed : String → Dict String (List String) → Bool
listed d needs = any (λ n. n.0 == d) needs

module _ (mapping : Dict String (List String)) (r : EventRecord) (events : List EventRecord)
    (d : String) where
  abbrev next_needs : String → List String → Dict String (List String) → Dict String (List String)
  next_needs device released needs =
      if falls_back mapping r events device released
      then needs ++ (device, released) ∷ []
      else needs

  next_needs-listed :
      (device : String) (released : List String) (needs : Dict String (List String))
      → listed d (next_needs device released needs)
        ≡ (listed d needs || falls_back mapping r events device released && device == d)
  next_needs-listed device released needs =
      ground (arith, any-snoc (λ (n : String × List String). n.0 == d) needs (device, released))

  falls_alone :
      (device : String) (released : List String)
      → device_has_other_active mapping d r.mrid events ≡ false
      → device == d ≡ true
      → falls_back mapping r events device released ≡ true
  unfolding falls_back left_to_other
  falls_alone device released e same =
      let one : device ≡ d = ==→eq device d same in rw one (ground arith)

  falls_left :
      (device : String) (released : List String)
      → left_to_other mapping r events d ≡ true
      → device == d ≡ true
      → falls_back mapping r events device released ≡ false
  unfolding falls_back
  falls_left device released e same = let one : device ≡ d = ==→eq device d same in rw (one, e) refl

  -- The event holds nothing on the device from its turn on.
  unregister-held :
      (device : String) (modes : Registry)
      → (held d r.mrid modes ≡ []) ⊎ ((device == d) ≡ true)
      → held d r.mrid (unregister device r.mrid modes).1 ≡ []
  unregister-held device modes h =
      let (_, gone, kept) = unregister_lem device r.mrid modes "" d in
      elim (Bool-cases (device == d)) [
        | inl same ↦ rw (sym (==→eq device d same)) gone
        | inr apart ↦ rw (kept apart) (elim h [ inl e ↦ e | inr same ↦ absurd (cc) ])
      ]

  release_each-listed :
      (devices : List String) (modes : Registry) (needs : Dict String (List String))
      → device_has_other_active mapping d r.mrid events ≡ false
      → listed d (release_each mapping r events devices (modes, needs)).1
        ≡ (listed d needs || contains d devices)
  unfolding release_each contains
  release_each-listed [] modes needs e = ground arith
  release_each-listed (device ∷ devices) modes needs e =
      let freed = unregister device r.mrid modes in
      release_each-listed devices freed.1 (next_needs device freed.0 needs) e
      ∙ ground (
        arith,
        next_needs-listed device freed.0 needs,
        falls_alone device freed.0 e,
        ==-comm device d,
      )

  release_each-left :
      (devices : List String) (modes : Registry) (needs : Dict String (List String))
      → left_to_other mapping r events d ≡ true
      → listed d (release_each mapping r events devices (modes, needs)).1 ≡ listed d needs
  unfolding release_each
  release_each-left [] modes needs e = refl
  release_each-left (device ∷ devices) modes needs e =
      let freed = unregister device r.mrid modes in
      release_each-left devices freed.1 (next_needs device freed.0 needs) e
      ∙ ground (arith, next_needs-listed device freed.0 needs, falls_left device freed.0 e)

  still_held :
      (device : String) (devices : List String) (modes : Registry)
      → (held d r.mrid modes ≡ []) ⊎ (contains d (device ∷ devices) ≡ true)
      → (held d r.mrid (unregister device r.mrid modes).1 ≡ []) ⊎ (contains d devices ≡ true)
  unfolding contains
  still_held device devices modes (inl e) = inl (unregister-held device modes (inl e))
  still_held device devices modes (inr e) = elim (Bool-cases (device == d)) [
    | inl same ↦ inl (unregister-held device modes (inr same))
    | inr apart ↦ inr (ground (arith, ==-comm device d))
  ]

  release_each-held :
      (devices : List String) (modes : Registry) (needs : Dict String (List String))
      → (held d r.mrid modes ≡ []) ⊎ (contains d devices ≡ true)
      → held d r.mrid (release_each mapping r events devices (modes, needs)).0 ≡ []
  unfolding release_each contains
  release_each-held [] modes needs (inl e) = e
  release_each-held [] modes needs (inr e) = absurd (cc)
  release_each-held (device ∷ devices) modes needs h =
      let freed = unregister device r.mrid modes in
      release_each-held devices freed.1 (next_needs device freed.0 needs)
        (still_held device devices modes h)

-- After the loop the ended event holds no mode on any of the devices. A device falls back if no
-- other event runs on it, and does not if another event took it over whole and one runs on it.
pub release_each_lem :
    (mapping : Dict String (List String)) (r : EventRecord) (events : List EventRecord) (d : String)
    (devices : List String) (modes : Registry)
    → (contains d devices ≡ true
        → held d r.mrid (release_each mapping r events devices (modes, [])).0 ≡ [])
      × (device_has_other_active mapping d r.mrid events ≡ false
          → listed d (release_each mapping r events devices (modes, [])).1 ≡ contains d devices)
      × (left_to_other mapping r events d ≡ true
          → listed d (release_each mapping r events devices (modes, [])).1 ≡ false)
unfolding any
release_each_lem mapping r events d devices modes = (
  λ e. release_each-held mapping r events d devices modes [] (inr e),
  λ e. release_each-listed mapping r events d devices modes [] e,
  λ e. release_each-left mapping r events d devices modes [] e,
)

-- A program that comes before all others that can revert the device.
abbrev pub IsBest :
    Dict String (List String) → String → List DerProgramState → DerProgramState → Type 0
IsBest mapping d programs best =
    (can_revert mapping d best ≡ true)
    × All (λ p. can_revert mapping d p ≡ true → best.primacy ≤ p.primacy) programs

better_le :
    (b p : DerProgramState)
    → ((better (some b) p).primacy ≤ b.primacy) × ((better (some b) p).primacy ≤ p.primacy)
unfolding better
better_le b p = ground arith

better_can :
    (mapping : Dict String (List String)) (d : String) (b p : DerProgramState)
    → can_revert mapping d b ≡ true
    → can_revert mapping d p ≡ true
    → can_revert mapping d (better (some b) p) ≡ true
unfolding better
better_can mapping d b p h k = elim (Bool-cases (ltb p.primacy b.primacy)) [
  | inl lower ↦ rw (lower, better) k
  | inr not' ↦ rw (not', better) h
]

better_one :
    (b p : DerProgramState) (programs : List DerProgramState)
    → In (better (some b) p) (b ∷ p ∷ programs)
unfolding better
better_one b p programs = elim (Bool-cases (ltb p.primacy b.primacy)) [
  | inl lower ↦ rw (lower, better) (there (here refl))
  | inr no_lower ↦ rw (no_lower, better) (here refl)
]

skip_second :
    (b b' p best : DerProgramState) (programs : List DerProgramState)
    → In b' (b ∷ p ∷ programs)
    → In best (b' ∷ programs)
    → In best (b ∷ p ∷ programs)
skip_second b b' p best programs one (here same) = rw (← same) one
skip_second b b' p best programs one (there i) = there (there i)

before_second :
    (b p best : DerProgramState) (programs : List DerProgramState)
    → In best (b ∷ programs)
    → In best (b ∷ p ∷ programs)
before_second b p best programs (here same) = here same
before_second b p best programs (there i) = there (there i)

IsBest-from :
    (mapping : Dict String (List String)) (d : String) (programs : List DerProgramState)
    (b : DerProgramState)
    → can_revert mapping d b ≡ true
    → (best : DerProgramState) × (best_program mapping d programs (some b) ≡ some best)
      × (best.primacy ≤ b.primacy)
      × In best (b ∷ programs)
      × IsBest mapping d programs best
unfolding best_program better
IsBest-from mapping d [] b h = (b, refl, omega arith, here refl, (h, tt))
IsBest-from mapping d (p ∷ programs) b h = elim (Bool-cases (can_revert mapping d p)) [
  | inl can ↦
      let (le_b, le_p) = better_le b p in
      let (best, e, le, i, (ok, all')) =
        IsBest-from mapping d programs (better (some b) p) (better_can mapping d b p h can) in
      (
        best,
        rw (can, best_program) e,
        omega arith,
        skip_second b (better (some b) p) p best programs (better_one b p programs) i,
        (ok, ((λ _. omega arith), all')),
      )
  | inr cannot ↦
      let (best, e, le, i, (ok, all')) = IsBest-from mapping d programs b h in
      (
        best,
        rw (cannot, best_program) e,
        le,
        before_second b p best programs i,
        (ok, ((λ can. absurd (cc)), all')),
      )
]

-- The program that is found is one of them, covers the device, has a default, and no program that does
-- both has a lower primacy number; none is found only if there is none.
pub best_program_lem :
    (mapping : Dict String (List String)) (d : String) (programs : List DerProgramState)
    → ((best_program mapping d programs none ≡ none)
        × All (λ p. can_revert mapping d p ≡ false) programs)
      ⊎ ((best : DerProgramState) × (best_program mapping d programs none ≡ some best)
          × In best programs
          × IsBest mapping d programs best)
unfolding best_program better
best_program_lem mapping d [] = inl (refl, tt)
best_program_lem mapping d (p ∷ programs) = elim (Bool-cases (can_revert mapping d p)) [
  | inl can ↦
      let (best, e, le, i, (ok, all')) = IsBest-from mapping d programs p can in
      inr (best, rw (can, best_program) e, i, (ok, ((λ _. le), all')))
  | inr cannot ↦ elim (best_program_lem mapping d programs) [
    | inl (e, none') ↦ inl (rw (cannot, best_program) e, (cannot, none'))
    | inr (best, e, i, (ok, all')) ↦
        inr (best, rw (cannot, best_program) e, there i, (ok, ((λ can. absurd (cc)), all')))
  ]
]
