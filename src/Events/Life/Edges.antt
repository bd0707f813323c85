-- ===== src/Events/Life/Edges.antt =====
-- How the events of a store may change when it is written to: a state has a stage, and no write takes
-- an event back to an earlier one.
use py.Prelude.{
  ℕ, ◌≤◌, Bytes, bytes_key, bytes_beq_iff, Option, none, some, List, [], ◌∷◌, Bool, true, false,
  ◌≡◌, refl, sym, ap, ◌∙◌, inl, inr, ◌==◌, ==→eq, keep, if◌then◌else◌, All, All-map, All-both,
  All-keep, Bool-cases, arith,
}
use py.Prelude.Dict
use py.Prelude.Dict.{IsDict, get-put}
use py.Events.Store.{
  EventState, scheduled, active, completed, cancelled, superseded, state_eq, EventRecord,
  EventStore, upsert, get, by_state,
}
use py.Events.Store.Laws.{IsWellFormed, Keyed, upsert-IsWellFormed, get-Keyed}
use py.Events.Life.{World}
use py.Events.Life.Handlers.{Outcome, on_record}

-- A scheduled event may start, an active one complete, and any be cancelled or superseded.
abbrev pub stage : EventState → ℕ
stage scheduled = 0
stage active = 1
stage completed = 2
stage cancelled = 3
stage superseded = 3

-- The store is well formed, and no event of the other has been lost or taken back.
pub record Onward (store store' : EventStore) : Type 0 where
  pub formed : IsWellFormed store'
  pub forward :
      (m : Bytes) (r : EventRecord)
      → Dict.get m store ≡ some r
      → (r' : EventRecord) × (Dict.get m store' ≡ some r') × (stage r.state ≤ stage r'.state)

pub Onward-self : (store : EventStore) → IsWellFormed store → Onward store store
Onward-self store h = record { formed = h; forward = λ m r e. (r, e, omega arith) }

pub Onward-trans : (s t u : EventStore) → Onward s t → Onward t u → Onward s u
Onward-trans s t u a b = record {
  formed = b.formed;
  forward = λ m r e.
      let (r', e', le) = a.forward m r e in
      let (r'', e'', le') = b.forward m r' e' in (r'', e'', omega arith);
}

-- A record is written that is not behind the one in its place.
pub put-Onward :
    (store : EventStore) (r : EventRecord)
    → IsWellFormed store
    → ((r0 : EventRecord) → Dict.get r.mrid store ≡ some r0 → stage r0.state ≤ stage r.state)
    → Onward store (Dict.put r.mrid r store)
unfolding upsert
put-Onward store r h ahead = record {
  formed = upsert-IsWellFormed r store h;
  forward = λ m r0 e. elim (Bool-cases (r.mrid == m)) [
    | inl same ↦
        let one : r.mrid ≡ m = ==→eq r.mrid m same in
        (r, rw (get-put r.mrid m r store, same) refl, ahead r0 (rw one e))
    | inr apart ↦ (r0, rw (get-put r.mrid m r store, apart) e, omega arith)
  ];
}

pub one_found : (r s : EventRecord) → some r ≡ some s → r ≡ s
one_found r s e = cc

-- The record of an event is changed and does not go back.
pub change-Onward :
    (store : EventStore) (r r' : EventRecord)
    → IsWellFormed store
    → Dict.get r.mrid store ≡ some r
    → r.mrid ≡ r'.mrid
    → stage r.state ≤ stage r'.state
    → Onward store (Dict.put r'.mrid r' store)
change-Onward store r r' h here same le = put-Onward store r' h (λ r0 e.
    let is : r ≡ r0 = one_found r r0 (sym here ∙ ap (λ m. Dict.get m store) same ∙ e) in
    rw (sym is) le)

pub either-Onward :
    (store : EventStore) (b : Bool) (x y : Outcome)
    → (b ≡ true → Onward store x.0.store)
    → (b ≡ false → Onward store y.0.store)
    → Onward store (if b then x else y).0.store
either-Onward store true x y f g = f refl
either-Onward store false x y f g = g refl

found_lem :
    (o : Option EventRecord) (store : EventStore) (w : World) (f : EventRecord → Outcome)
    → Onward store w.store
    → ((r : EventRecord) → o ≡ some r → Onward store (f r).0.store)
    → Onward store (elim o as (λ _. Outcome) [ none ↦ (w, []) | some r ↦ f r ]).0.store
found_lem none store w f h k = h
found_lem (some r) store w f h k = k r refl

-- A handler that looks its event up.
pub on_record-Onward :
    (mrid : Bytes) (w : World) (f : EventRecord → Outcome)
    → IsWellFormed w.store
    → ((r : EventRecord) → Dict.get r.mrid w.store ≡ some r → Onward w.store (f r).0.store)
    → Onward w.store (on_record mrid w f).0.store
unfolding get
on_record-Onward mrid w f h k =
    found_lem (get mrid w.store) w.store w f (Onward-self w.store h)
      (λ r e. k r (ap (λ m. Dict.get m w.store) (sym (get-Keyed mrid w.store r h.keyed e)) ∙ e))

-- Each record of a store is what its mRID finds.
pub values_found :
    (store : EventStore)
    → IsDict store
    → Keyed store
    → All (λ r. Dict.get r.mrid store ≡ some r) (Dict.values store)
unfolding Dict.get
values_found [] d k = tt
values_found ((m, r) ∷ store) d k = (
  ground (arith, bytes_beq_iff m r.mrid),
  All-map (λ s e. ground (arith, bytes_beq_iff m s.mrid)) (Dict.values store)
      (values_found store d.1 k.1),
)

kept_pass {ℓ} : {A : Type ℓ} (p : A → Bool) (xs : List A) → All (λ x. p x ≡ true) (keep p xs)
unfolding keep
kept_pass p [] = tt
kept_pass p (x ∷ xs) = elim (Bool-cases (p x)) [
  | inl e ↦ rw e (e, kept_pass p xs)
  | inr e ↦ rw e (kept_pass p xs)
]

-- The active events of a store, each under its mRID.
pub by_state_found :
    (store : EventStore)
    → IsWellFormed store
    → All
        (λ r. (Dict.get r.mrid store ≡ some r) × (state_eq r.state active ≡ true))
        (by_state active store)
unfolding by_state
by_state_found store h =
    All-both _ _ (by_state active store)
      (All-keep (λ (r : EventRecord). Dict.get r.mrid store ≡ some r) (λ r. state_eq r.state active)
        (Dict.values store) (values_found store h.distinct h.keyed))
      (kept_pass (λ r. state_eq r.state active) (Dict.values store))
