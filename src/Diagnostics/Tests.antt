-- ===== src/Diagnostics/Tests.antt =====
-- Runs of the store of diagnostics on concrete inputs.
use py.Prelude.{string_key, ◌≡◌, refl, some, [], ◌∷◌}
use py.Diagnostics.{
  warnings, DiagnosticsStore, empty_store, entries, add, resolve_dedup, hit_key, hit, put_entries,
  append, has_key,
}
use py.Diagnostics.Laws.{made, added, resolved, AllFine, Reachable-AllFine}

abbrev once : DiagnosticsStore
once = (add warnings "unreachable" (some "connection:h") 10 1 (empty_store 2)).0

-- The second report of one key is counted in the first one's entry.
abbrev twice : DiagnosticsStore
twice = (add warnings "still unreachable" (some "connection:h") 20 2 once).0

twice_test :
    entries twice warnings
    ≡ record {
      timestamp = 10;
      message = "unreachable";
      dedup_key = some "connection:h";
      last_seen = 20;
      count = 2;
      id = 1;
    }
      ∷ []
unfolding entries add empty_store hit_key hit put_entries append has_key
twice_test = refl

Reachable-AllFine_example : AllFine ((resolve_dedup "connection:h" twice).0)
Reachable-AllFine_example = Reachable-AllFine ((resolve_dedup "connection:h" twice).0) (
    resolved "connection:h" (
      added warnings "still unreachable" (some "connection:h") 20 2
        (added warnings "unreachable" (some "connection:h") 10 1 (made 2))))
