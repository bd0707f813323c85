-- ===== src/Events/Response/Tests.antt =====
-- The responses of events/response.py at concrete inputs.
use py.Prelude.{none, some, List, [], ◌∷◌, true, false, ◌≡◌, refl, ◌⊎◌, all, All, keep, bytes_beq}
use py.Prelude.Int.{pos}
use py.Prelude.Dict
use py.Prelude.Sets
use py.Prelude.Sets.{contains, Distinct}
use py.Events.Response.{
  ResponseCode, code_value, active, opt_out, unclassified, resolve_wire_code,
  response_code_for_dispatch_error,
}
use py.Events.Response.Wording.{Resolved, Rejected, resolve_wire_code_lem, rejection_lem}
use py.Events.Response.Keys.{Key, response_key, future_key}
use py.Events.Response.Tracker.{reserve, must_post, claim, finish, set_result, release, mark_sent}
use py.Events.Response.Callers.{
  Move, arrives, lands, fails, wakes, run, start, step, ask, land, fail, resume, note_reserved,
  remove_waiter, leave,
}
use py.Events.Response.Callers.Once.{evicts, posts_apart, waiters_wake, landed_once}

abbrev key : Key
key = (1 ∷ [], (active, 7 ∷ []))

-- Two callers of one response: the first fails, the second posts it, a third is turned away.
abbrev moves : List Move
moves =
    arrives key ∷ arrives key ∷ fails key ∷ wakes (key, 0) ∷ lands key (pos 10) ∷ arrives key ∷ []

resolve_wire_code_lem_example :
    (wire : ResponseCode) × (resolve_wire_code true (some (3 ∷ [])) opt_out ≡ some wire)
    × Resolved true (some (3 ∷ [])) opt_out wire
resolve_wire_code_lem_example = resolve_wire_code_lem true (some (3 ∷ [])) opt_out

rejection_lem_example :
    (wire : ResponseCode) × (resolve_wire_code true
        (some (3 ∷ []))
        (response_code_for_dispatch_error unclassified)
      ≡ some wire)
    × Rejected true (some (3 ∷ [])) unclassified wire
rejection_lem_example = rejection_lem true (some (3 ∷ [])) unclassified

posts_apart_example :
    Distinct (run moves start).posting
    × ((k : Key)
        → contains k (run moves start).posting ≡ true
        → Dict.get k (run moves start).tracker.sent ≡ none)
    × All (λ k. contains k (run moves start).landed ≡ true) (run moves start).turned_away
posts_apart_example = posts_apart moves

waiters_wake_example :
    All
      (λ f.
        (Dict.has f (run moves start).tracker.results ≡ true)
        ⊎ (contains f.0 (run moves start).posting ≡ true))
      (run moves start).waiting
    × ((k : Key)
        → contains k (run moves start).posting ≡ false
        → Dict.get k (run moves start).tracker.sent ≡ none
        → (reserve k (run moves start).tracker).0 ≡ must_post)
waiters_wake_example = waiters_wake moves

landed_once_example : Distinct (run moves start).landed
unfolding evicts all
landed_once_example = landed_once moves refl

moves_land : (run moves start).landed ≡ key ∷ []
unfolding run step ask land fail resume note_reserved reserve claim finish set_result release
    mark_sent Dict.get Dict.put Dict.delete Sets.contains remove_waiter response_key future_key
    bytes_beq code_value keep leave
moves_land = refl
