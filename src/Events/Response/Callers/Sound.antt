-- ===== src/Events/Response/Callers/Sound.antt =====
-- The invariant of the callers of events/response.py, and that it holds of what each of their moves does.
use py.Prelude.{
  none, some, List, [], ◌∷◌, Bool, true, false, not, ◌&&◌, ◌||◌, ◌≡◌, refl, sym, ap, ◌⊎◌, inl, inr,
  ◌==◌, if◌then◌else◌, All, keep, Bool-cases, ==-comm, ==→eq, ==-refl, arith,
}
use py.Prelude.Int.{ℤ}
use py.Prelude.Dict
use py.Prelude.Dict.{Dict, get-put, get-delete}
use py.Prelude.Sets.{contains, contains-keep, Distinct}
use py.Events.Response.Keys.{Key, Future, response_key, future_key}
use py.Events.Response.Tracker.{ResponseTracker, claim, set_result, finish}
use py.Events.Response.Callers.{System, leave, remove_waiter}

-- The claims are those of the callers that post: each key has one of them at most, and none
-- if it was sent.
pub record Exclusive (t : ResponseTracker) (posting : List Key) : Type 0 where
  pub claimed : (k : Key) → contains k posting ≡ Dict.has k t.in_flight
  pub unsent : (k : Key) → contains k posting ≡ true → Dict.get k t.sent ≡ none
  pub one_each : Distinct posting
  pub named : (k : Key) (f : Future) → Dict.get k t.in_flight ≡ some f → f.0 ≡ k

-- What the tracker takes for sent did reach the server.
pub record Truthful (t : ResponseTracker) (landed : List Key) : Type 0 where
  pub told : (f : Future) → Dict.get f t.results ≡ some true → contains f.0 landed ≡ true
  pub sent_landed : (k : Key) → Dict.has k t.sent ≡ true → contains k landed ≡ true

-- The future is done, or its claim is held.
abbrev pub Awaited : ResponseTracker → Future → Type 0
Awaited t f = (Dict.has f t.results ≡ true) ⊎ (Dict.get f.0 t.in_flight ≡ some f)

pub record IsSound (s : System) : Type 0 where
  pub exclusive : Exclusive s.tracker s.posting
  pub truthful : Truthful s.tracker s.landed
  pub away_landed : All (λ k. contains k s.landed ≡ true) s.turned_away
  pub awaited : All (Awaited s.tracker) s.waiting

Distinct-leave : (k : Key) (ks : List Key) → Distinct ks → Distinct (leave k ks)
unfolding leave keep
Distinct-leave k [] d = tt
Distinct-leave k (j ∷ ks) d =
    ground (arith, Distinct-leave k ks d.1, contains-keep (λ i. not (i == k)) j ks)

contains-leave :
    (j k : Key) (ks : List Key) → contains j (leave k ks) ≡ (not (j == k) && contains j ks)
unfolding leave
contains-leave j k ks = contains-keep (λ i. not (i == k)) j ks

pub All-remove {κ} :
    (P : Future → Type κ) (f : Future) (fs : List Future) → All P fs → All P (remove_waiter f fs)
unfolding remove_waiter
All-remove P f [] h = h
All-remove P f (g ∷ fs) h =
    elim (g == f) as (λ b. All P (if b then fs else g ∷ remove_waiter f fs)) [
      | true ↦ h.1
      | false ↦ (h.0, All-remove P f fs h.1)
    ]

module _ (k : Key) (t : ResponseTracker) where
  claim-get :
      (j : Key)
      → Dict.get j (claim k t).in_flight
        ≡ (if k == j then some (k, t.next_number) else Dict.get j t.in_flight)
  unfolding claim
  claim-get j = get-put k j (k, t.next_number) t.in_flight

  pub claim-Awaited :
      (f : Future) → Dict.get k t.in_flight ≡ none → Awaited t f → Awaited (claim k t) f
  unfolding claim
  claim-Awaited f idle (inl e) = inl e
  claim-Awaited f idle (inr e) = elim (Bool-cases (k == f.0)) [
    | inl same ↦ let one : k ≡ f.0 = ==→eq k f.0 same in absurd (cc)
    | inr apart ↦ inr (rw (claim-get f.0, apart) e)
  ]

  pub claim-Exclusive :
      (posting : List Key)
      → Dict.get k t.sent ≡ none
      → Dict.get k t.in_flight ≡ none
      → Exclusive t posting
      → Exclusive (claim k t) (k ∷ posting)
  unfolding contains claim
  claim-Exclusive posting free idle h = record {
    claimed = λ j. elim (Bool-cases (k == j)) [
      | inl same ↦ rw (claim-get j, same, ==-comm j k, same) refl
      | inr apart ↦ rw (claim-get j, apart, ==-comm j k, apart) (h.claimed j)
    ];
    unsent = λ j e. elim (Bool-cases (k == j)) [
      | inl same ↦ rw (sym (==→eq k j same)) free
      | inr apart ↦ h.unsent j (ground (arith, ==-comm j k))
    ];
    one_each = (rw (h.claimed k, idle) refl, h.one_each);
    named = λ j f e. elim (Bool-cases (k == j)) [
      | inl same ↦
          let held : some (k, t.next_number) ≡ some f = ground (arith, claim-get j) in
          let one : k ≡ j = ==→eq k j same in cc
      | inr apart ↦ h.named j f (ground (arith, claim-get j))
    ];
  }

-- A claim that is given up, with the responses then taken for sent.
module _ (k : Key) (f : Future) (outcome : Bool) (sent' : Dict Key ℤ) (t : ResponseTracker) where
  abbrev pub settled : ResponseTracker
  settled = record t {
    sent = sent';
    in_flight = Dict.delete k t.in_flight;
    results = set_result f outcome t.results;
  }

  pub finish_held :
      Dict.get k t.in_flight ≡ some f → finish k outcome (record t { sent = sent' }) ≡ settled
  unfolding finish
  finish_held e = rw (e, finish) refl

  set_result-get :
      (g : Future)
      → Dict.get g settled.results
        ≡ (if not (Dict.has f t.results) && f == g then some outcome else Dict.get g t.results)
  unfolding set_result
  set_result-get g = ground (arith, get-put f g outcome t.results)

  set_result-has : (g : Future) → Dict.has g settled.results ≡ (f == g || Dict.has g t.results)
  set_result-has g = ground (arith, set_result-get g, future_key.same_iff f g)

  pub settled-Exclusive :
      (posting : List Key)
      → ((j : Key) → (k == j) ≡ false → Dict.get j sent' ≡ Dict.get j t.sent)
      → Exclusive t posting
      → Exclusive settled (leave k posting)
  settled-Exclusive posting others h = record {
    claimed = λ j.
        ground
          (arith, contains-leave j k posting, get-delete k j t.in_flight, ==-comm k j, h.claimed j);
    unsent = λ j e. ground (arith, contains-leave j k posting, others j, ==-comm k j, h.unsent j);
    one_each = Distinct-leave k posting h.one_each;
    named = λ j g e. h.named j g (ground (arith, get-delete k j t.in_flight));
  }

  pub settled-Truthful :
      (landed landed' : List Key)
      → f.0 ≡ k
      → ((j : Key) → contains j landed ≡ true → contains j landed' ≡ true)
      → (outcome ≡ true → contains k landed' ≡ true)
      → ((j : Key) → Dict.has j sent' ≡ true → contains j landed' ≡ true)
      → Truthful t landed
      → Truthful settled landed'
  settled-Truthful landed landed' name more did logged h = record {
    told = λ g e. elim (Bool-cases (not (Dict.has f t.results) && f == g)) [
      | inl now ↦
          let one : f ≡ g = ==→eq f g (ground arith) in
          rw (sym (ap (λ (i : Future). i.0) one), name) (did (ground (arith, set_result-get g)))
      | inr then' ↦ more g.0 (h.told g (ground (arith, set_result-get g)))
    ];
    sent_landed = logged;
  }

  pub settled-Awaited :
      (g : Future) → Dict.get k t.in_flight ≡ some f → Awaited t g → Awaited settled g
  settled-Awaited g held (inl e) = inl (rw (set_result-has g, e) (ground arith))
  settled-Awaited g held (inr e) = elim (Bool-cases (k == g.0)) [
    | inl same ↦
        let one : k ≡ g.0 = ==→eq k g.0 same in
        let it : f ≡ g = cc in inl (rw (set_result-has g, it, ==-refl g) refl)
    | inr apart ↦ inr (rw (get-delete k g.0 t.in_flight, apart) e)
  ]
