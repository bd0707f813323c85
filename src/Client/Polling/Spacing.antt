-- ===== src/Client/Polling/Spacing.antt =====
-- The time between polls of one resource, in client/polling.py.
use mathlib.Core.Path.{ap}
use py.Prelude.{
  ℕ, ◌+◌, ◌-◌, ◌≤◌, String, string_key, Option, List, [], ◌∷◌, Bool, true, false, ◌==◌, ◌≡◌,
  leb_iff, sym, refl, All, All-map, inl, inr, Bool-cases, ==→eq, ==-refl, arith,
}
use py.Prelude.Dict
use py.Prelude.Dict.{Dict, get_default-put}
use py.Prelude.Sets
use py.Client.Polling.{
  PollScheduler, new_scheduler, schedule, set_interval, suppress, unsuppress, threshold,
  heartbeat_due, begin_round, end_round, begin_exclusive, end_exclusive, Move, schedules, tunes,
  suppresses, unsuppresses, begins, ends, enters, leaves, Start, start_of, add_start, move,
  run_moves,
}

-- When the callback of a key last ran, or was scheduled.
abbrev pub ran : PollScheduler → String → ℕ
ran s key = Dict.get_default key s.last_run 0

-- Every start is in the last runs.
abbrev Covers : (String → ℕ) → List Start → Type 0
Covers last log = All (λ e. e.at ≤ last e.key) log

-- A heartbeat comes with them enabled, and the backstop and its key's interval after every start of
-- its key before it.
abbrev pub Spaced : Bool → Option ℕ → List Start → Type 0
Spaced enabled seconds [] = Unit
Spaced enabled seconds (e ∷ log) =
    (e.heartbeat ≡ true
      → (enabled ≡ true)
        × All (λ f. (f.key == e.key) ≡ true → f.at + threshold seconds e.interval ≤ e.at) log)
    × Spaced enabled seconds log

module _ (enabled : Bool) (seconds : Option ℕ) where
  abbrev Paced : ℕ → PollScheduler × List Start → Type 0
  Paced clock at =
      (at.0.heartbeat_enabled ≡ enabled)
      × (at.0.heartbeat_seconds ≡ seconds)
      × ((k : String) → ran at.0 k ≤ clock)
      × Covers (ran at.0) at.1
      × Spaced enabled seconds at.1

  heartbeat_due_lem :
      (key : String) (interval now : ℕ) (s : PollScheduler)
      → heartbeat_due key interval now s ≡ true
      → (s.heartbeat_enabled ≡ true) × (threshold s.heartbeat_seconds interval ≤ now - ran s key)
  unfolding heartbeat_due
  heartbeat_due_lem key interval now s due =
      let t = leb_iff (threshold s.heartbeat_seconds interval) (now - ran s key) in
      (ground arith, t.0 (ground arith))

  put-rises :
      (key k : String) (clock now : ℕ) (s : PollScheduler)
      → clock ≤ now
      → ran s k ≤ clock
      → (ran s k ≤ Dict.get_default k (Dict.put key now s.last_run) 0)
        × (Dict.get_default k (Dict.put key now s.last_run) 0 ≤ now)
  put-rises key k clock now s h b =
      let put = get_default-put key k now 0 s.last_run in (ground arith, ground arith)

  wait-Paced :
      (clock now : ℕ) (at : PollScheduler × List Start)
      → clock ≤ now
      → Paced clock at
      → Paced now at
  wait-Paced clock now at h (e, c, b, covers, p) =
      (e, c, (λ k. let bk = b k in omega arith), covers, p)

  -- The last run of the key is put to now.
  touch-Covers :
      (key : String) (clock now : ℕ) (s : PollScheduler) (log : List Start)
      → clock ≤ now
      → ((k : String) → ran s k ≤ clock)
      → Covers (ran s) log
      → Covers (λ k. Dict.get_default k (Dict.put key now s.last_run) 0) log
  touch-Covers key clock now s log h b =
      All-map (λ e at. let rises = put-rises key e.key clock now s h (b e.key) in omega arith) log

  due-Spaced :
      (key : String) (interval clock now : ℕ) (s : PollScheduler) (log : List Start)
      → clock ≤ now
      → Paced clock (s, log)
      → heartbeat_due key interval now s ≡ true
      → (enabled ≡ true)
        × All (λ f. (f.key == key) ≡ true → f.at + threshold seconds interval ≤ now) log
  due-Spaced key interval clock now s log h (e, c, b, covers, _) due =
      let (on, late) = heartbeat_due_lem key interval now s due in
      let same_wait = ap (λ w. threshold w interval) c in
      let bk = b key in
      (
        rw (sym e) on,
        All-map (λ f at same. let same_run = ap (ran s) (==→eq f.key key same) in omega arith) log
            covers,
      )

  -- A callback starts.
  start-Paced :
      (key : String) (heartbeat : Bool) (clock now : ℕ) (s : PollScheduler) (log : List Start)
      → clock ≤ now
      → Paced clock (s, log)
      → (heartbeat ≡ true → heartbeat_due key (Dict.get_default key s.intervals 0) now s ≡ true)
      → Paced now (
        record s { locked = key ∷ s.locked; last_run = Dict.put key now s.last_run },
        start_of key now heartbeat s ∷ log,
      )
  start-Paced key heartbeat clock now s log h ok due =
      let (e, c, b, covers, p) = ok in
      (
        e,
        c,
        (λ k. (put-rises key k clock now s h (b k)).1),
        (
          ground (arith, get_default-put key key now 0 s.last_run, ==-refl key),
          touch-Covers key clock now s log h b covers,
        ),
        (
          (λ fired.
              due-Spaced key (Dict.get_default key s.intervals 0) clock now s log h ok (due fired)),
          p,
        ),
      )

  begins-Paced :
      (key : String) (clock now : ℕ) (s : PollScheduler) (log : List Start)
      → clock ≤ now
      → Paced clock (s, log)
      → Paced now ((begin_round key now s).1, add_start now key s log (begin_round key now s).0)
  unfolding begin_round
  begins-Paced key clock now s log h ok =
      let due = heartbeat_due key (Dict.get_default key s.intervals 0) now s in
      elim (Bool-cases (Sets.contains key s.suppressed)) [
        | inl on ↦ elim (Bool-cases due) [
          | inl is_due ↦ elim (Bool-cases (Sets.contains key s.locked)) [
            | inl held ↦ rw (on, is_due, held) (wait-Paced clock now (s, log) h ok)
            | inr free ↦
                rw (on, is_due, free) (start-Paced key true clock now s log h ok (λ _. is_due))
          ]
          | inr not_due ↦ rw (on, not_due) (wait-Paced clock now (s, log) h ok)
        ]
        | inr off ↦ elim (Bool-cases (Sets.contains key s.locked)) [
          | inl held ↦ rw (off, held) (wait-Paced clock now (s, log) h ok)
          | inr free ↦
              rw (off, free)
                (start-Paced key false clock now s log h ok (λ e. absurd (ground arith)))
        ]
      ]

  move-Paced :
      (clock now : ℕ) (m : Move) (at : PollScheduler × List Start)
      → clock ≤ now
      → Paced clock at
      → Paced now (move now m at)
  unfolding move schedule set_interval suppress unsuppress end_round begin_exclusive end_exclusive
  move-Paced clock now (schedules key interval) (s, log) h (e, c, b, covers, p) = (
    e,
    c,
    (λ k. (put-rises key k clock now s h (b k)).1),
    touch-Covers key clock now s log h b covers,
    p,
  )
  move-Paced clock now (tunes key interval) (s, log) h ok =
      elim (Bool-cases (Dict.has key s.intervals)) [
        | inl there ↦ rw there (wait-Paced clock now (s, log) h ok)
        | inr missing ↦ rw missing (wait-Paced clock now (s, log) h ok)
      ]
  move-Paced clock now (suppresses key) (s, log) h ok = wait-Paced clock now (s, log) h ok
  move-Paced clock now (unsuppresses key) (s, log) h ok = wait-Paced clock now (s, log) h ok
  move-Paced clock now (begins key) (s, log) h ok = begins-Paced key clock now s log h ok
  move-Paced clock now (ends key done) (s, log) h ok = wait-Paced clock now (s, log) h ok
  move-Paced clock now (enters key) (s, log) h ok = elim (Bool-cases (Sets.contains key s.locked)) [
    | inl held ↦ rw held (wait-Paced clock now (s, log) h ok)
    | inr free ↦ rw free (start-Paced key false clock now s log h ok (λ e. absurd (ground arith)))
  ]
  move-Paced clock now (leaves key) (s, log) h ok = wait-Paced clock now (s, log) h ok

  run_moves-Paced :
      (clock : ℕ) (ms : List (ℕ × Move)) (at : PollScheduler × List Start)
      → Paced clock at
      → Spaced enabled seconds (run_moves clock ms at).1
  unfolding run_moves
  run_moves-Paced clock [] at (_, _, _, _, p) = p
  run_moves-Paced clock ((later, m) ∷ ms) at ok =
      run_moves-Paced (clock + later) ms (move (clock + later) m at)
        (move-Paced clock (clock + later) m at (omega arith) ok)

  -- However keys are scheduled, tuned, suppressed, polled and run on demand, no heartbeat starts with
  -- heartbeats off, or sooner after any start of its key's callback than the backstop and the interval
  -- that the key has.
  pub run_moves-Spaced :
      (clock : ℕ) (ms : List (ℕ × Move))
      → Spaced enabled seconds (run_moves clock ms (new_scheduler enabled seconds, [])).1
  unfolding Dict.get_default Dict.get
  run_moves-Spaced clock ms =
      run_moves-Paced clock ms (new_scheduler enabled seconds, [])
        (refl, refl, (λ k. omega arith), tt, tt)
