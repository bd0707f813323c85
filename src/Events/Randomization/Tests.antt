-- ===== src/Events/Randomization/Tests.antt =====
-- The randomization cache on small inputs.
use py.Prelude.{ℕ, ◌≡◌, refl, some, none, [], ◌∷◌, Bytes, bytes_key, false, if◌then◌else◌, min}
use py.Prelude.Int.{pos, negsuc}
use py.Prelude.Dict
use py.Events.Control.{Dercontrol}
use py.Events.Store.Samples.{control}
use py.Events.Randomization.{
  RandomizationCache, randomized, empty, compute_offset, get_offsets, is_over, prune,
}
use py.Events.Randomization.Laws.{InStep, get_offsets-InStep, prune_lem}

-- A draw that never passes 40.
abbrev draw : ℕ → ℕ
draw m = min m 40

abbrev early : Dercontrol
early = record (control (1 ∷ []) []) { randomize_start = some (negsuc 99) }

empty-InStep : InStep empty
unfolding Dict.get
empty-InStep = record { distinct = tt; same_keys = λ m. refl }

abbrev drawn : RandomizationCache
drawn = (get_offsets draw draw (randomized early) (pos 100) (pos 50) empty).1

drawn-InStep : InStep drawn
drawn-InStep = get_offsets-InStep draw draw (randomized early) (pos 100) (pos 50) empty empty-InStep

offsets_run :
    (get_offsets draw draw (randomized early) (pos 100) (pos 50) empty).0 ≡ (negsuc 39, pos 0)
unfolding get_offsets compute_offset Dict.get
offsets_run = refl

prune_lem_example :
    (c' : RandomizationCache) × (prune (pos 121) (pos 10) drawn ≡ some c')
    × InStep c'
    × ((m : Bytes)
        → Dict.get m c'.cache ≡ (
            if elim (Dict.get m drawn.expiry) [
              | none ↦ false
              | some end ↦ is_over (pos 121) (pos 10) end
            ]
            then none
            else Dict.get m drawn.cache))
prune_lem_example = prune_lem (pos 121) (pos 10) drawn drawn-InStep
