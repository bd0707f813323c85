-- ===== src/Client/CommLoss/Drain.antt =====
-- What a drain of client/comm_loss_simulation.py may rely on.
use py.Prelude.{
  ℕ, suc, ◌+◌, ◌≤◌, nat_key, some, List, [], ◌∷◌, ◌++◌, true, false, ◌≡◌, refl, sym, ap, ◌==◌,
  if◌then◌else◌, Bool-cases, inl, inr, arith,
}
use py.Client.CommLoss.{
  CommLossSimulation, GatedRequestContext, System, enter, release, note_request_started,
  note_request_finished, arm, disarm, abort, note_recovered, note_recovery_failed, Step, makes,
  enters, opens, releases, arms, disarms, aborts, recovers, fails, Reach, here, next, start,
}

abbrev pub flag : GatedRequestContext → ℕ
flag c = if c.counted then 1 else 0

-- How many requests are counted.
abbrev pub counted : List GatedRequestContext → ℕ
counted [] = 0
counted (c ∷ contexts) = flag c + counted contexts

-- The count is that of the contexts, and the event is set just when it is 0.
pub record IsCounted (s : System) : Type 0 where
  pub exact : s.simulation.in_flight ≡ counted s.contexts
  pub drained : s.simulation.idle ≡ (s.simulation.in_flight == 0)

counted-append : (xs ys : List GatedRequestContext) → counted (xs ++ ys) ≡ counted xs + counted ys
counted-append [] ys = omega arith
counted-append (c ∷ xs) ys = omega (arith, counted-append xs ys)

counted-middle :
    (before after : List GatedRequestContext) (c : GatedRequestContext)
    → counted (before ++ c ∷ after) ≡ flag c + (counted before + counted after)
counted-middle before after c = omega (arith, counted-append before (c ∷ after))

entered : (x y : GatedRequestContext × CommLossSimulation) → some x ≡ some y → x ≡ y
entered x y e = cc

-- A request that is let through is counted, and none is while the outage is simulated.
enter_lem :
    (c c' : GatedRequestContext) (sim sim' : CommLossSimulation)
    → enter c sim ≡ some (c', sim')
    → (sim.active ≡ false)
      × (c'.counted ≡ true)
      × (sim'.in_flight ≡ suc sim.in_flight)
      × (sim'.idle ≡ false)
unfolding enter note_request_started
enter_lem c c' sim sim' e = elim (Bool-cases sim.active) [
  | inl armed ↦ absurd (ground arith)
  | inr free ↦
      let same =
        entered (record c { counted = true }, note_request_started sim) (c', sim') (ground arith) in
      (
        free,
        sym (ap (λ (x : GatedRequestContext × CommLossSimulation). x.0.counted) same),
        sym (ap (λ (x : GatedRequestContext × CommLossSimulation). x.1.in_flight) same),
        sym (ap (λ (x : GatedRequestContext × CommLossSimulation). x.1.idle) same),
      )
]

release_lem :
    (c : GatedRequestContext) (sim : CommLossSimulation)
    → (sim.idle ≡ (sim.in_flight == 0))
    → (flag c ≤ sim.in_flight)
    → (flag ((release c sim).0) ≡ 0)
      × ((release c sim).1.in_flight + flag c ≡ sim.in_flight)
      × ((release c sim).1.idle ≡ ((release c sim).1.in_flight == 0))
unfolding release note_request_finished
release_lem c sim e h = ground arith

Step-IsCounted : {s t : System} → Step s t → IsCounted s → IsCounted t
unfolding arm disarm abort note_recovered note_recovery_failed
Step-IsCounted (makes s) h = record { exact = omega (arith, h.exact); drained = h.drained }
Step-IsCounted (enters sim sim' before after c c' out e) h =
    let (_, in', one, busy) = enter_lem c c' sim sim' e in
    record {
      exact = ground (
        arith,
        h.exact,
        counted-middle before after c,
        counted-middle before after c',
        one,
        in',
        out,
      );
      drained = ground (arith, busy, one);
    }
Step-IsCounted (opens sim before after c e) h = record {
  exact = omega (
    arith,
    h.exact,
    counted-middle before after c,
    counted-middle before after (record c { has_inner = true }),
  );
  drained = h.drained;
}
Step-IsCounted (releases sim before after c) h =
    let sum = counted-middle before after c in
    let (none', less, idle) = release_lem c sim h.drained (omega (arith, h.exact)) in
    record {
      exact = omega (arith, h.exact, counted-middle before after ((release c sim).0));
      drained = idle;
    }
Step-IsCounted (arms s now expires_at) h = record { exact = h.exact; drained = h.drained }
Step-IsCounted (disarms s) h = record { exact = h.exact; drained = h.drained }
Step-IsCounted (aborts s) h = record { exact = h.exact; drained = h.drained }
Step-IsCounted (recovers s) h = record { exact = h.exact; drained = h.drained }
Step-IsCounted (fails s detail) h = record { exact = h.exact; drained = h.drained }

Reach-IsCounted : {s t : System} → IsCounted s → Reach s t → IsCounted t
Reach-IsCounted h here = h
Reach-IsCounted h (next r st) = Step-IsCounted st (Reach-IsCounted h r)

start-IsCounted : IsCounted start
start-IsCounted = record { exact = refl; drained = refl }

-- While the outage is simulated no step lets a request through: the count does not grow.
Step-armed :
    {s t : System}
    → Step s t
    → IsCounted s
    → s.simulation.active ≡ true
    → t.simulation.in_flight ≤ s.simulation.in_flight
unfolding arm disarm abort note_recovered note_recovery_failed release note_request_finished
Step-armed (makes s) h on = omega arith
Step-armed (enters sim sim' before after c c' out e) h on =
    let (off, _, _, _) = enter_lem c c' sim sim' e in absurd (cc)
Step-armed (opens sim before after c e) h on = omega arith
Step-armed (releases sim before after c) h on = ground arith
Step-armed (arms s now expires_at) h on = omega arith
Step-armed (disarms s) h on = omega arith
Step-armed (aborts s) h on = omega arith
Step-armed (recovers s) h on = omega arith
Step-armed (fails s detail) h on = omega arith

-- However requests are made, let through, failed and left, and however the simulation is driven, the
-- count is that of the requests in flight; a drain returns at once just when there are none; and
-- while the outage is simulated no step adds one.
pub Reach-drains :
    (s : System)
    → Reach start s
    → (s.simulation.in_flight ≡ counted s.contexts)
      × (s.simulation.idle ≡ (counted s.contexts == 0))
      × (s.simulation.active ≡ true
          → (t : System) → Step s t
          → counted t.contexts ≤ counted s.contexts)
Reach-drains s r =
    let h = Reach-IsCounted start-IsCounted r in
    (
      h.exact,
      rw (sym h.exact) h.drained,
      λ on t st.
          let h' = Step-IsCounted st h in omega (arith, h.exact, h'.exact, Step-armed st h on),
    )
