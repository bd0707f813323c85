-- ===== src/Events/Response/Callers/Once.antt =====
-- What the tracker of events/response.py promises the server and the callers.
use py.Prelude.{
  none, List, [], ◌∷◌, Bool, true, false, not, ◌≡◌, refl, ◌⊎◌, inl, inr, ==-comm, if◌then◌else◌,
  all, All, All-map, Option-cases, arith,
}
use py.Prelude.Int.{ℤ}
use py.Prelude.Dict
use py.Prelude.Dict.{Dict, get-put}
use py.Prelude.Sets.{contains, Distinct}
use py.Events.Response.Keys.{Key, Future, response_key, future_key}
use py.Events.Response.Tracker.{
  ResponseTracker, must_post, reserve, claim, mark_sent, release, finish,
}
use py.Events.Response.Callers.{
  System, start, Move, arrives, lands, fails, wakes, gives_up, prunes, retains, ask, land, fail,
  resume, step, run, note_reserved, remove_waiter,
}
use py.Events.Response.Callers.Sound.{Awaited, IsSound}
use py.Events.Response.Callers.Moves.{step-IsSound, start_run-IsSound, start-IsSound}

-- No two callers post the same response at the same time, none posts one that is taken for sent,
-- and a caller is turned away only if the response did reach the server.
pub posts_apart :
    (ms : List Move)
    → Distinct (run ms start).posting
      × ((k : Key)
          → contains k (run ms start).posting ≡ true
          → Dict.get k (run ms start).tracker.sent ≡ none)
      × All (λ k. contains k (run ms start).landed ≡ true) (run ms start).turned_away
posts_apart ms =
    let sound = start_run-IsSound ms in
    (sound.exclusive.one_each, sound.exclusive.unsent, sound.away_landed)

reserve_free :
    (k : Key) (t : ResponseTracker)
    → Dict.get k t.sent ≡ none
    → Dict.get k t.in_flight ≡ none
    → (reserve k t).0 ≡ must_post
unfolding reserve
reserve_free k t free idle = rw (free, idle, reserve) refl

-- A waiter's future is done, or some caller posts its response. Where no caller posts a
-- response that is not taken for sent, the next one that asks gets the claim.
pub waiters_wake :
    (ms : List Move)
    → All
        (λ f.
          (Dict.has f (run ms start).tracker.results ≡ true)
          ⊎ (contains f.0 (run ms start).posting ≡ true))
        (run ms start).waiting
      × ((k : Key)
          → contains k (run ms start).posting ≡ false
          → Dict.get k (run ms start).tracker.sent ≡ none
          → (reserve k (run ms start).tracker).0 ≡ must_post)
waiters_wake ms =
    let s = run ms start in
    let sound = start_run-IsSound ms in
    (
      All-map (λ f. posted s sound f) s.waiting sound.awaited,
      λ k idle free. reserve_free k s.tracker free (unclaimed s sound k idle),
    )
  where
    posted :
        (s : System)
        → IsSound s
        → (f : Future) → Awaited s.tracker f
        → (Dict.has f s.tracker.results ≡ true) ⊎ (contains f.0 s.posting ≡ true)
    posted s sound f (inl e) = inl e
    posted s sound f (inr e) = inr (rw (sound.exclusive.claimed f.0, e) refl)

    unclaimed :
        (s : System)
        → IsSound s
        → (k : Key) → contains k s.posting ≡ false
        → Dict.get k s.tracker.in_flight ≡ none
    unclaimed s sound k idle = elim (Option-cases (Dict.get k s.tracker.in_flight)) [
      | inl e ↦ e
      | inr (f, e) ↦ absurd (ground (arith, sound.exclusive.claimed k))
    ]

-- Whether a move may forget what was sent.
unfoldable pub evicts : Move → Bool
evicts (prunes now max_age) = true
evicts (retains live_mrids) = true
evicts _ = false

-- Each response landed once at most, and what landed is taken for sent.
record Once (sent : Dict Key ℤ) (landed : List Key) : Type 0 where
  distinct : Distinct landed
  kept : (k : Key) → contains k landed ≡ true → Dict.has k sent ≡ true

abbrev OnceOf : System → Type 0
OnceOf s = Once s.tracker.sent s.landed

-- What is taken for sent and what landed are as they were.
record Alike (s s' : System) : Type 0 where
  same_sent : s'.tracker.sent ≡ s.tracker.sent
  same_landed : s'.landed ≡ s.landed

OnceOf-Alike : (s s' : System) → Alike s s' → OnceOf s → OnceOf s'
OnceOf-Alike s s' a h = rw (a.same_sent, a.same_landed) h

finish_sent : (k : Key) (outcome : Bool) (t : ResponseTracker) → (finish k outcome t).sent ≡ t.sent
unfolding finish
finish_sent k outcome t = ground arith

ask-Alike : (k : Key) (s : System) → Alike s (ask k s)
unfolding ask reserve note_reserved claim
ask-Alike k s = elim (Option-cases (Dict.get k s.tracker.sent)) [
  | inr (at, e) ↦ rw (e, reserve) record { same_sent = refl; same_landed = refl }
  | inl free ↦ elim (Option-cases (Dict.get k s.tracker.in_flight)) [
    | inr (f, e) ↦ rw (free, e, reserve) record { same_sent = refl; same_landed = refl }
    | inl idle ↦ rw (free, idle, reserve) record { same_sent = refl; same_landed = refl }
  ]
]

resume-Alike : (f : Future) (s : System) → Alike s (resume f s)
unfolding resume
resume-Alike f s = elim (Option-cases (Dict.get f s.tracker.results)) [
  | inl e ↦ rw (e, resume) record { same_sent = refl; same_landed = refl }
  | inr (true, e) ↦ rw (e, resume) record { same_sent = refl; same_landed = refl }
  | inr (false, e) ↦
      let same = ask-Alike f.0 (record s { waiting = remove_waiter f s.waiting }) in
      rw (e, resume) record { same_sent = same.same_sent; same_landed = same.same_landed }
]

fail-Alike : (k : Key) (s : System) → Alike s (fail k s)
unfolding fail release
fail-Alike k s = record { same_sent = finish_sent k false s.tracker; same_landed = refl }

land-OnceOf :
    (k : Key) (now : ℤ) (s : System)
    → IsSound s
    → contains k s.posting ≡ true
    → OnceOf s
    → OnceOf (land k now s)
unfolding land mark_sent contains
land-OnceOf k now s sound e h =
    let sent' = Dict.put k now s.tracker.sent in
    rw (finish_sent k true (record s.tracker { sent = sent' })) record {
      distinct = (ground (arith, h.kept k, sound.exclusive.unsent k), h.distinct);
      kept = λ j m. ground (arith, get-put k j now s.tracker.sent, ==-comm j k, h.kept j);
    }

guarded : (b : Bool) (s t : System) → OnceOf t → (b ≡ true → OnceOf s) → OnceOf (if b then s else t)
guarded true s t h f = f refl
guarded false s t h f = h

step-OnceOf : (m : Move) (s : System) → evicts m ≡ false → IsSound s → OnceOf s → OnceOf (step m s)
unfolding step evicts
step-OnceOf (arrives k) s e sound h = OnceOf-Alike s (ask k s) (ask-Alike k s) h
step-OnceOf (lands k now) s e sound h =
    guarded (contains k s.posting) (land k now s) s h (λ held. land-OnceOf k now s sound held h)
step-OnceOf (fails k) s e sound h =
    guarded (contains k s.posting) (fail k s) s h
      (λ _. OnceOf-Alike s (fail k s) (fail-Alike k s) h)
step-OnceOf (wakes f) s e sound h =
    guarded (contains f s.waiting) (resume f s) s h
      (λ _. OnceOf-Alike s (resume f s) (resume-Alike f s) h)
step-OnceOf (gives_up f) s e sound h = h
step-OnceOf (prunes now max_age) s e sound h = absurd (cc)
step-OnceOf (retains live_mrids) s e sound h = absurd (cc)

run-OnceOf :
    (ms : List Move) (s : System)
    → all (λ m. not (evicts m)) ms ≡ true
    → IsSound s
    → OnceOf s
    → OnceOf (run ms s)
unfolding run all
run-OnceOf [] s e sound h = h
run-OnceOf (m ∷ ms) s e sound h =
    run-OnceOf ms (step m s) (ground arith) (step-IsSound m s sound)
      (step-OnceOf m s (ground arith) sound h)

start-OnceOf : OnceOf start
unfolding contains
start-OnceOf = record { distinct = tt; kept = λ k m. cc }

-- While nothing that was sent is forgotten, no response reaches the server twice, whatever the
-- order in which its callers arrive, wake, fail and are cancelled.
pub landed_once :
    (ms : List Move) → all (λ m. not (evicts m)) ms ≡ true → Distinct (run ms start).landed
landed_once ms e = (run-OnceOf ms start e start-IsSound start-OnceOf).distinct
