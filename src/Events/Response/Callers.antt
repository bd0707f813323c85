-- ===== src/Events/Response/Callers.antt =====
-- The callers of post_der_response and post_price_response in events/response.py, on one event
-- loop: a move is what one of them does between two awaits, or what ends an await.
pub mod Sound
pub mod Moves
pub mod Once
use py.Prelude.{
  ℕ, Bytes, Option, none, some, List, [], ◌∷◌, ◌++◌, Bool, true, false, not, ◌==◌, keep,
  if◌then◌else◌,
}
use py.Prelude.Int.{ℤ}
use py.Prelude.Dict
use py.Prelude.Sets
use py.Events.Response.Tracker
use py.Events.Response.Keys.{Key, Future, response_key, future_key}
use py.Events.Response.Tracker.{
  ResponseTracker, empty_tracker, Reserved, must_post, already, wait_for, reserve, release,
  mark_sent,
}

-- The tracker, the callers whose post has not returned, those that wait for a future, the log of
-- the responses that reached the server, and the callers that were told there is nothing to post.
pub record System : Type 0 where
  pub tracker : ResponseTracker
  pub posting : List Key
  pub waiting : List Future
  pub landed : List Key
  pub turned_away : List Key

abbrev pub start : System
start = record {
  tracker = empty_tracker;
  posting = [];
  waiting = [];
  landed = [];
  turned_away = [];
}

-- `arrives`: a caller that is to post asks for the claim. `lands`, `fails`: a post returns, or
-- raises or is cancelled. `wakes`: the future of a waiter is done. `gives_up`: a waiter is cancelled.
pub data Move : Type 0 where
  arrives : Key → Move
  lands : Key → ℤ → Move
  fails : Key → Move
  wakes : Future → Move
  gives_up : Future → Move
  prunes : ℤ → ℤ → Move
  retains : List Bytes → Move

unfoldable pub leave : Key → List Key → List Key
leave key callers = keep (λ k. not (k == key)) callers

unfoldable pub remove_waiter : Future → List Future → List Future
remove_waiter future [] = []
remove_waiter future (f ∷ fs) = if f == future then fs else f ∷ remove_waiter future fs

unfoldable pub note_reserved : Key → Reserved → System → System
note_reserved key must_post s = record s { posting = key ∷ s.posting }
note_reserved key already s = record s { turned_away = key ∷ s.turned_away }
note_reserved key (wait_for future) s = record s { waiting = future ∷ s.waiting }

-- One round of `reserve`.
unfoldable pub ask : Key → System → System
ask key s =
    let asked = reserve key s.tracker in note_reserved key asked.0 (record s { tracker = asked.1 })

unfoldable pub land : Key → ℤ → System → System
land key now s = record s {
  tracker = mark_sent key now s.tracker;
  posting = leave key s.posting;
  landed = key ∷ s.landed;
}

unfoldable pub fail : Key → System → System
fail key s = record s { tracker = release key s.tracker; posting = leave key s.posting }

-- A waiter whose future is done is turned away, or goes round again.
unfoldable pub resume : Future → System → System
resume future s = elim (Dict.get future s.tracker.results) [
  | none ↦ s
  | some landed' ↦
      let woken : System = record s { waiting = remove_waiter future s.waiting } in
      if landed'
      then record woken { turned_away = future.0 ∷ woken.turned_away }
      else ask future.0 woken
]

-- A move that nobody is there to make changes nothing.
unfoldable pub step : Move → System → System
step (arrives key) s = ask key s
step (lands key now) s = if Sets.contains key s.posting then land key now s else s
step (fails key) s = if Sets.contains key s.posting then fail key s else s
step (wakes future) s = if Sets.contains future s.waiting then resume future s else s
step (gives_up future) s = record s { waiting = remove_waiter future s.waiting }
step (prunes now max_age) s = record s { tracker = Tracker.prune now max_age s.tracker }
step (retains live_mrids) s = record s { tracker = Tracker.retain_mrids live_mrids s.tracker }

unfoldable pub run : List Move → System → System
run [] s = s
run (m ∷ ms) s = run ms (step m s)
