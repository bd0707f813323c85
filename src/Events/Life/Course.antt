-- ===== src/Events/Life/Course.antt =====
-- The course of an event through the segments of the handlers of events/processor.py.
use py.Prelude.{
  ℕ, ◌≤◌, Bytes, bytes_key, some, List, [], ◌∷◌, ◌++◌, true, ◌≡◌, ◌⊎◌, inl, inr, refl, ap, ◌∙◌,
  Bool-cases, arith,
}
use py.Prelude.Int.{ℤ}
use py.Prelude.Dict
use py.Events.Store.{EventRecord, EventStore, get, is_expired, default_grace}
use py.Events.Store.Laws.{IsWellFormed, prune_expired_lem, prune_expired-IsWellFormed}
use py.Events.Life.{World}
use py.Events.Life.Discovery.{prune}
use py.Events.Life.Handlers.{cancel_program, after_dispatch, after_acknowledged, after_wind_down}
use py.Events.Life.Moves.{
  Segment, control, unserved, acknowledged, activation, completion, supersession, superseded_told,
  dispatch, dispatched, answer, wound_down, program_gone, comms_lost, pruning, enact, enact_all,
}
use py.Events.Life.Edges.{stage, Onward-self, on_record-Onward}
use py.Events.Life.Laws.{
  Goes, Sound, activation-Onward, completion-Onward, supersession-Onward, settle-Onward,
  dispatch-Onward, respond-Onward, cancel_each-Onward, comms_loss-Onward,
}
use py.Events.Life.Arrival.{control-Onward, reconcile-Onward}

-- The event is in the store, no earlier than at the stage.
pub Followed : Bytes → ℕ → EventStore → Type 0
Followed m reached store =
    (r : EventRecord) × (Dict.get m store ≡ some r) × (reached ≤ stage r.state)

-- One of the segments is a pruning before which the event was in the store, no earlier than at the
-- stage, with its end and the grace past.
pub Pruned : Bytes → ℕ → List Segment → World → Type 0
Pruned m reached segments w =
    (before : List Segment) × (now : ℤ) × (after : List Segment) × (r : EventRecord) × (segments
      ≡ before ++ pruning now ∷ after)
    × (Dict.get m (enact_all before w).store ≡ some r)
    × (reached ≤ stage r.state)
    × (is_expired now default_grace r ≡ true)

prune-IsWellFormed : (now : ℤ) (w : World) → Sound w → IsWellFormed (prune now w).0.store
unfolding prune
prune-IsWellFormed now w h = prune_expired-IsWellFormed now default_grace w.store h

pruning_lem :
    (now : ℤ) (w : World) (m : Bytes) (r : EventRecord)
    → Sound w
    → Dict.get m w.store ≡ some r
    → Followed m (stage r.state) (prune now w).0.store ⊎ (is_expired now default_grace r ≡ true)
unfolding prune get Followed
pruning_lem now w m r h e = elim (Bool-cases (is_expired now default_grace r)) [
  | inl over ↦ inr over
  | inr running ↦
      let left = (prune_expired_lem now default_grace w.store m h).0 in
      inl (r, left ∙ rw (e, running) refl, omega arith)
]

stays :
    (m : Bytes) (r : EventRecord) (store : EventStore)
    → Dict.get m store ≡ some r
    → Followed m (stage r.state) store
unfolding Followed
stays m r store e = (r, e, omega arith)

pruned_first :
    (m : Bytes) (r : EventRecord) (now : ℤ) (s : Segment) (segments : List Segment) (w : World)
    → s ≡ pruning now
    → Dict.get m w.store ≡ some r
    → is_expired now default_grace r ≡ true
    → Pruned m (stage r.state) (s ∷ segments) w
unfolding Pruned enact_all
pruned_first m r now s segments w is_pruning e over = (
  [],
  now,
  segments,
  r,
  ap (λ (first : Segment). first ∷ segments) is_pruning,
  e,
  omega arith,
  over,
)

-- What a segment does: the store stays well formed, and each event stays where it is or goes on, unless
-- the segment is a pruning and the event is over.
record Stepped (s : Segment) (w : World) : Type 0 where
  formed : IsWellFormed (enact s w).0.store
  fate :
      (m : Bytes) (r : EventRecord)
      → Dict.get m w.store ≡ some r
      → Followed m (stage r.state) (enact s w).0.store
        ⊎ ((now : ℤ) × (s ≡ pruning now) × (is_expired now default_grace r ≡ true))

onward : (s : Segment) (w : World) → Goes w (enact s w) → Stepped s w
unfolding Followed
onward s w go = record { formed = go.formed; fate = λ m r e. inl (go.forward m r e) }

enact-Stepped : (s : Segment) (w : World) → Sound w → Stepped s w
unfolding enact cancel_program after_dispatch after_acknowledged after_wind_down
enact-Stepped (control p derc) w h = onward _ w (control-Onward p derc w h)
enact-Stepped (unserved p served mrid) w h = onward _ w (reconcile-Onward p served mrid w h)
enact-Stepped (acknowledged mrid) w h =
    onward _ w (on_record-Onward mrid w _ h (λ r here. Onward-self w.store h))
enact-Stepped (activation current mrid) w h = onward _ w (activation-Onward current mrid w h)
enact-Stepped (completion current mrid) w h = onward _ w (completion-Onward mrid w h)
enact-Stepped (supersession result) w h = onward _ w (supersession-Onward result w h)
enact-Stepped (superseded_told current device_map result) w h =
    onward _ w (settle-Onward current device_map result w h)
enact-Stepped (dispatch mrid) w h = onward _ w (dispatch-Onward mrid w h)
enact-Stepped (dispatched mrid) w h =
    onward _ w (on_record-Onward mrid w _ h (λ r here. Onward-self w.store h))
enact-Stepped (answer mrid device failure) w h = onward _ w (respond-Onward mrid device failure w h)
enact-Stepped (wound_down mrid delay time) w h =
    onward _ w (on_record-Onward mrid w _ h (λ r here. Onward-self w.store h))
enact-Stepped (program_gone program current) w h =
    onward _ w (cancel_each-Onward program current _ (w, []) h)
enact-Stepped (comms_lost current) w h = onward _ w (comms_loss-Onward current w h)
enact-Stepped (pruning now) w h = record {
  formed = prune-IsWellFormed now w h;
  fate = λ m r e. elim (pruning_lem now w m r h e) [
    | inl stays ↦ inl stays
    | inr over ↦ inr (now, refl, over)
  ];
}

later :
    (m : Bytes) (low reached : ℕ) (segments : List Segment) (w : World)
    → low ≤ reached
    → Followed m reached (enact_all segments w).store ⊎ Pruned m reached segments w
    → Followed m low (enact_all segments w).store ⊎ Pruned m low segments w
unfolding Followed Pruned
later m low reached segments w le (inl (r, e, at)) = inl (r, e, omega arith)
later m low reached segments w le (inr (before, now, after, r, split, e, at, over)) =
    inr (before, now, after, r, split, e, omega arith, over)

one_more :
    (m : Bytes) (reached : ℕ) (s : Segment) (segments : List Segment) (w : World)
    → Followed m reached (enact_all segments (enact s w).0).store
      ⊎ Pruned m reached segments (enact s w).0
    → Followed m reached (enact_all (s ∷ segments) w).store ⊎ Pruned m reached (s ∷ segments) w
unfolding Pruned enact_all
one_more m reached s segments w (inl here) = inl here
one_more m reached s segments w (inr (before, now, after, r, split, e, at, over)) =
    inr (s ∷ before, now, after, r, ap (λ (l : List Segment). s ∷ l) split, e, at, over)

-- From a well-formed store, and whatever the order in which the segments run, the store stays well
-- formed, and each event of it stays and does not go back, unless a pruning finds its end and the grace
-- past: until then one that has started is not scheduled again, one that is over never runs again, and
-- one that was cancelled or superseded does not complete.
pub enact_all_lem :
    (segments : List Segment) (w : World)
    → IsWellFormed w.store
    → IsWellFormed (enact_all segments w).store
      × ((m : Bytes) (r : EventRecord)
          → Dict.get m w.store ≡ some r
          → Followed m (stage r.state) (enact_all segments w).store
            ⊎ Pruned m (stage r.state) segments w)
unfolding enact_all Followed
enact_all_lem [] w h = (h, λ m r e. inl (stays m r w.store e))
enact_all_lem (s ∷ segments) w h =
    let step = enact-Stepped s w h in
    let rest = enact_all_lem segments (enact s w).0 step.formed in
    (
      rest.0,
      λ m r e. elim (step.fate m r e) [
        | inl on ↦
            let (r', e', le) = on in
            one_more m (stage r.state) s segments w
              (later m (stage r.state) (stage r'.state) segments (enact s w).0 le (rest.1 m r' e'))
        | inr (now, is_pruning, over) ↦ inr (pruned_first m r now s segments w is_pruning e over)
      ],
    )
