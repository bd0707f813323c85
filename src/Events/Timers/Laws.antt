-- ===== src/Events/Timers/Laws.antt =====
-- When a timer fires, and what a cancellation does.
use py.Prelude.{
  ℕ, ◌*◌, ◌≤◌, ◌≡◌, ◌↔◌, ◌∙◌, refl, ap, Bytes, bytes_key, nat_key, Option, List, [], ◌∷◌, true,
  false, ◌&&◌, ◌||◌, ◌==◌, arith, Bool-cases, inl, inr, keep,
}
use py.Prelude.Int.{ℤ, pos, ◌-ℤ◌, ◌≤ℤ◌, ◌<ℤ◌, leb_ℤ, -ℤ_parts}
use py.Prelude.Dict.{get, get_default, get-delete}
use py.Prelude.Sets.{contains, contains-append, contains-keep}
use py.Events.Store.{EventState}
use py.Events.Timers.{
  sleep_time, Tick, wait, due, wait_and_fire, fired, is_over, Timers, has_pending, cancel,
  other_than,
}

-- A sleep is never longer than the whole seconds that are left, and never shorter than 20 ms.
pub sleep_time-le :
    (remaining : ℕ)
    → 1 ≤ remaining
    → (20 ≤ sleep_time (pos remaining)) × (sleep_time (pos remaining) ≤ 1000 * remaining)
unfolding sleep_time
sleep_time-le remaining h = ground arith

-- A round that sleeps through.
abbrev pub Slept : ℤ → Tick → Type 0
Slept target t =
    (t.shutdown ≡ false) × (t.now <ℤ target) × (t.task_cancelled ≡ false) × (t.signalled ≡ false)

-- Rounds that sleep through, and then one that reads the target or later, with no shutdown.
pub data DueAt (target : ℤ) : List Tick → Type 0 where
  at_last :
      (t : Tick) (ticks : List Tick)
      → t.shutdown ≡ false
      → target ≤ℤ t.now
      → DueAt target (t ∷ ticks)
  later :
      (t : Tick) (ticks : List Tick)
      → Slept target t
      → DueAt target ticks
      → DueAt target (t ∷ ticks)

remaining_iff : (target now : ℤ) → (leb_ℤ (target -ℤ now) (pos 0) ≡ true) ↔ (target ≤ℤ now)
remaining_iff target now = ground (arith, -ℤ_parts target now)

Slept-step :
    (target : ℤ) (t : Tick) (ticks : List Tick)
    → t.shutdown ≡ false
    → leb_ℤ (target -ℤ t.now) (pos 0) ≡ false
    → wait target (t ∷ ticks) ≡ due
    → Slept target t × (wait target ticks ≡ due)
unfolding wait
Slept-step target t ticks up early h = ground (arith, remaining_iff target t.now)

wait-DueAt : (target : ℤ) (ticks : List Tick) → wait target ticks ≡ due → DueAt target ticks
unfolding wait
wait-DueAt target [] h = cc
wait-DueAt target (t ∷ ticks) h = elim (Bool-cases t.shutdown) [
  | inl down ↦ absurd (ground arith)
  | inr up ↦ elim (Bool-cases (leb_ℤ (target -ℤ t.now) (pos 0))) [
    | inl over ↦ at_last t ticks up ((remaining_iff target t.now).0 over)
    | inr early ↦
        let (slept, more) = Slept-step target t ticks up early h in
        later t ticks slept (wait-DueAt target ticks more)
  ]
]

DueAt-wait : (target : ℤ) (ticks : List Tick) → DueAt target ticks → wait target ticks ≡ due
unfolding wait
DueAt-wait target ticks (at_last t rest up over) = ground (arith, remaining_iff target t.now)
DueAt-wait target ticks (later t rest slept d) =
    let ih = DueAt-wait target rest d in ground (arith, remaining_iff target t.now)

-- A timer fires just when it comes, through rounds of sleep with no shutdown and no cancellation,
-- to one that reads its target or later, and its event is then not cancelled, superseded or completed.
pub wait_and_fire-DueAt :
    (target : ℤ) (ticks : List Tick) (state : EventState)
    → (wait_and_fire target ticks state ≡ fired) ↔ (DueAt target ticks × (is_over state ≡ false))
unfolding wait_and_fire
wait_and_fire-DueAt target ticks state = (λ h. there h, λ d. back d)
  where
    there : wait_and_fire target ticks state ≡ fired → DueAt target ticks × (is_over state ≡ false)
    there h =
        let both : (wait target ticks ≡ due) × (is_over state ≡ false) = ground arith in
        (wait-DueAt target ticks both.0, both.1)

    back : DueAt target ticks × (is_over state ≡ false) → wait_and_fire target ticks state ≡ fired
    back d = let e = DueAt-wait target ticks d.0 in rw (e, wait_and_fire) (ground (arith, d.1))

-- After a cancellation no timer of the event is pending and those of the other events are as they
-- were; a task is cancelled just when it was before, or is one of the event's and not the one
-- that runs.
pub cancel_lem :
    (mrid : Bytes) (current : Option ℕ) (s : Timers)
    → (has_pending mrid (cancel mrid current s) ≡ false)
      × ((other : Bytes)
          → (mrid == other) ≡ false
          → get other (cancel mrid current s).tasks ≡ get other s.tasks)
      × ((task : ℕ)
          → contains task (cancel mrid current s).cancelled_tasks ≡ (
              contains task s.cancelled_tasks
              || (other_than current task && contains task (get_default mrid s.tasks []))))
unfolding cancel has_pending
cancel_lem mrid current s = (
  rw (get-delete mrid mrid s.tasks) (ground (arith, bytes_key.same_iff mrid mrid)),
  λ other h. rw (get-delete mrid other s.tasks, h) refl,
  λ task.
      contains-append task s.cancelled_tasks
        (keep (other_than current) (get_default mrid s.tasks []))
      ∙ ap (λ b. contains task s.cancelled_tasks || b)
          (contains-keep (other_than current) task (get_default mrid s.tasks [])),
)
