-- ===== src/Events/Response/Callers/Moves.antt =====
-- Every move of the callers of events/response.py keeps the invariant.
use py.Prelude.{
  none, some, List, [], ◌∷◌, Bool, true, false, ◌≡◌, refl, ap, ◌∙◌, inl, inr, if◌then◌else◌, All,
  All-map, Option-cases, ==-comm, arith,
}
use py.Prelude.Int.{ℤ}
use py.Prelude.Dict
use py.Prelude.Dict.{Dict, get-put}
use py.Prelude.Sets.{contains}
use py.Events.Response.Keys.{Key, Future, response_key, future_key}
use py.Events.Response.Tracker.{reserve, claim, mark_sent, release, retain, prune, retain_mrids}
use py.Events.Response.Callers.{
  System, start, Move, arrives, lands, fails, wakes, gives_up, prunes, retains, ask, land, fail,
  resume, step, run, note_reserved, remove_waiter,
}
use py.Events.Response.Callers.Sound.{
  Awaited, IsSound, All-remove, claim-Awaited, claim-Exclusive, finish_held, settled-Exclusive,
  settled-Truthful, settled-Awaited,
}

pub start-IsSound : IsSound start
unfolding contains Dict.get
start-IsSound = record {
  exclusive = record {
    claimed = λ k. refl;
    unsent = λ k e. refl;
    one_each = tt;
    named = λ k f e. cc;
  };
  truthful = record { told = λ f e. cc; sent_landed = λ k e. e };
  away_landed = tt;
  awaited = tt;
}

All-snoc_landed :
    (k : Key) (landed away : List Key)
    → All (λ j. contains j landed ≡ true) away
    → All (λ j. contains j (k ∷ landed) ≡ true) away
unfolding contains
All-snoc_landed k landed = All-map (λ j e. ground arith)

module _ (k : Key) (s : System) (h : IsSound s) where
  ask_sent : (at : ℤ) → Dict.get k s.tracker.sent ≡ some at → IsSound (ask k s)
  unfolding ask reserve note_reserved
  ask_sent at e =
      rw (e, reserve)
        record {
          exclusive = h.exclusive;
          truthful = h.truthful;
          away_landed = (h.truthful.sent_landed k (rw e refl), h.away_landed);
          awaited = h.awaited;
        }

  ask_busy :
      (f : Future)
      → Dict.get k s.tracker.sent ≡ none
      → Dict.get k s.tracker.in_flight ≡ some f
      → IsSound (ask k s)
  unfolding ask reserve note_reserved
  ask_busy f free e =
      rw (free, e, reserve)
        record {
          exclusive = h.exclusive;
          truthful = h.truthful;
          away_landed = h.away_landed;
          awaited = (
            inr (ap (λ j. Dict.get j s.tracker.in_flight) (h.exclusive.named k f e) ∙ e),
            h.awaited,
          );
        }

  ask_claim :
      Dict.get k s.tracker.sent ≡ none → Dict.get k s.tracker.in_flight ≡ none → IsSound (ask k s)
  unfolding ask reserve note_reserved claim
  ask_claim free idle =
      rw (free, idle, reserve)
        record {
          exclusive = claim-Exclusive k s.tracker s.posting free idle h.exclusive;
          truthful = record { told = h.truthful.told; sent_landed = h.truthful.sent_landed };
          away_landed = h.away_landed;
          awaited = All-map (λ f. claim-Awaited k s.tracker f idle) s.waiting h.awaited;
        }

  ask-IsSound : IsSound (ask k s)
  ask-IsSound = elim (Option-cases (Dict.get k s.tracker.sent)) [
    | inr (at, e) ↦ ask_sent at e
    | inl free ↦ elim (Option-cases (Dict.get k s.tracker.in_flight)) [
      | inr (f, e) ↦ ask_busy f free e
      | inl idle ↦ ask_claim free idle
    ]
  ]

  held : contains k s.posting ≡ true → (f : Future) × (Dict.get k s.tracker.in_flight ≡ some f)
  held e = elim (Option-cases (Dict.get k s.tracker.in_flight)) [
    | inr found ↦ found
    | inl idle ↦ absurd (ground (arith, h.exclusive.claimed k))
  ]

  land-IsSound : (now : ℤ) → contains k s.posting ≡ true → IsSound (land k now s)
  unfolding land mark_sent contains
  land-IsSound now e =
      let (f, found) = held e in
      let sent' = Dict.put k now s.tracker.sent in
      rw (finish_held k f true sent' s.tracker found) record {
        exclusive =
            settled-Exclusive k f true sent' s.tracker s.posting
              (λ j apart. rw (get-put k j now s.tracker.sent, apart) refl) h.exclusive;
        truthful =
            settled-Truthful k f true sent' s.tracker s.landed (k ∷ s.landed)
              (h.exclusive.named k f found) (λ j m. ground arith)
              (λ _. ground (arith, response_key.same_iff k k))
              (λ j m.
                ground
                  (arith, get-put k j now s.tracker.sent, ==-comm j k, h.truthful.sent_landed j))
              h.truthful;
        away_landed = All-snoc_landed k s.landed s.turned_away h.away_landed;
        awaited =
            All-map (λ g. settled-Awaited k f true sent' s.tracker g found) s.waiting h.awaited;
      }

  fail-IsSound : contains k s.posting ≡ true → IsSound (fail k s)
  unfolding fail release
  fail-IsSound e =
      let (f, found) = held e in
      let sent' = s.tracker.sent in
      rw (finish_held k f false sent' s.tracker found) record {
        exclusive =
            settled-Exclusive k f false sent' s.tracker s.posting (λ j apart. refl) h.exclusive;
        truthful =
            settled-Truthful k f false sent' s.tracker s.landed s.landed
              (h.exclusive.named k f found) (λ j m. m) (λ no. absurd (cc)) h.truthful.sent_landed
              h.truthful;
        away_landed = h.away_landed;
        awaited =
            All-map (λ g. settled-Awaited k f false sent' s.tracker g found) s.waiting h.awaited;
      }

-- What passes a test was there before.
has-retain :
    (ok : Key → ℤ → Bool) (k : Key) (sent : Dict Key ℤ)
    → Dict.has k (retain ok sent) ≡ true
    → Dict.has k sent ≡ true
unfolding retain Dict.get
has-retain ok k [] e = e
has-retain ok k ((j, at) ∷ sent) e = ground (arith, has-retain ok k sent)

evict-IsSound :
    (ok : Key → ℤ → Bool) (s : System)
    → IsSound s
    → IsSound (record s { tracker = record s.tracker { sent = retain ok s.tracker.sent } })
evict-IsSound ok s h = record {
  exclusive = record {
    claimed = h.exclusive.claimed;
    unsent = λ k e. ground (arith, has-retain ok k s.tracker.sent, h.exclusive.unsent k);
    one_each = h.exclusive.one_each;
    named = h.exclusive.named;
  };
  truthful = record {
    told = h.truthful.told;
    sent_landed = λ k e. h.truthful.sent_landed k (has-retain ok k s.tracker.sent e);
  };
  away_landed = h.away_landed;
  awaited = h.awaited;
}

remove-IsSound :
    (f : Future) (s : System)
    → IsSound s
    → IsSound (record s { waiting = remove_waiter f s.waiting })
remove-IsSound f s h = record {
  exclusive = h.exclusive;
  truthful = h.truthful;
  away_landed = h.away_landed;
  awaited = All-remove (Awaited s.tracker) f s.waiting h.awaited;
}

resume_done :
    (f : Future) (outcome : Bool) (s : System)
    → IsSound s
    → Dict.get f s.tracker.results ≡ some outcome
    → IsSound (resume f s)
unfolding resume
resume_done f true s h e =
    let h' = remove-IsSound f s h in
    rw (e, resume)
      record {
        exclusive = h'.exclusive;
        truthful = h'.truthful;
        away_landed = (h.truthful.told f e, h.away_landed);
        awaited = h'.awaited;
      }
resume_done f false s h e =
    rw (e, resume)
      (ask-IsSound f.0 (record s { waiting = remove_waiter f s.waiting }) (remove-IsSound f s h))

resume-IsSound : (f : Future) (s : System) → IsSound s → IsSound (resume f s)
unfolding resume
resume-IsSound f s h = elim (Option-cases (Dict.get f s.tracker.results)) [
  | inl e ↦ rw (e, resume) h
  | inr (outcome, e) ↦ resume_done f outcome s h e
]

guarded :
    (b : Bool) (s t : System) → IsSound t → (b ≡ true → IsSound s) → IsSound (if b then s else t)
guarded true s t h f = f refl
guarded false s t h f = h

pub step-IsSound : (m : Move) (s : System) → IsSound s → IsSound (step m s)
unfolding step prune retain_mrids
step-IsSound (arrives k) s h = ask-IsSound k s h
step-IsSound (lands k now) s h =
    guarded (contains k s.posting) (land k now s) s h (land-IsSound k s h now)
step-IsSound (fails k) s h = guarded (contains k s.posting) (fail k s) s h (fail-IsSound k s h)
step-IsSound (wakes f) s h =
    guarded (contains f s.waiting) (resume f s) s h (λ _. resume-IsSound f s h)
step-IsSound (gives_up f) s h = remove-IsSound f s h
step-IsSound (prunes now max_age) s h = evict-IsSound _ s h
step-IsSound (retains live_mrids) s h = evict-IsSound _ s h

pub run-IsSound : (ms : List Move) (s : System) → IsSound s → IsSound (run ms s)
unfolding run
run-IsSound [] s h = h
run-IsSound (m ∷ ms) s h = run-IsSound ms (step m s) (step-IsSound m s h)

pub start_run-IsSound : (ms : List Move) → IsSound (run ms start)
start_run-IsSound ms = run-IsSound ms start start-IsSound
