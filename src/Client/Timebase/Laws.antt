-- ===== src/Client/Timebase/Laws.antt =====
-- What the server's clock reads, and where a scope's offset comes from.
use py.Prelude.{
  ℕ, ◌+◌, ◌-◌, ◌*◌, ◌≤◌, ◌≡◌, ◌↔◌, ◌∙◌, refl, ap, String, string_key, Option, none, some, Bool,
  true, false, arith, Option-cases, inl, inr, if◌then◌else◌,
}
use py.Prelude.Int.{ℤ, pos, ◌+ℤ◌, ◌-ℤ◌}
use py.Prelude.Dict.{get, get-put}
use py.Client.Timebase.{
  Clock, TimeObservation, ServerTimebase, age_seconds, fsa_stale_seconds, observation, observe,
  yields_to_global, report_stale_fallback, resolve, offset_of, offset, now,
}

when_true {ℓ} : {A : Type ℓ} (x y : A) (b : Bool) → b ≡ true → (if b then x else y) ≡ x
when_true x y true h = refl
when_true x y false h = cc

module _ (unit : ℕ) where
  elapsed : (a w e : ℕ) → pos (w + e) +ℤ (pos a -ℤ pos w) ≡ pos (a + e)
  unfolding ◌+ℤ◌ ◌-ℤ◌
  elapsed a w e = ground arith

  -- An observation that is not older than the threshold does not yield.
  fresh_stays :
      (clock' clock : Clock) (server_time quality : ℕ) (href : String) (tb : ServerTimebase)
      → clock'.monotonic - clock.monotonic ≤ fsa_stale_seconds unit tb
      → yields_to_global unit clock' (observation unit clock server_time quality href) tb ≡ false
  unfolding yields_to_global observation age_seconds
  fresh_stays clock' clock server_time quality href tb h = elim (Option-cases tb.global) [
    | inl e ↦ rw (e, yields_to_global) refl
    | inr (g, e) ↦ rw (e, yields_to_global) (ground (arith, h))
  ]

  resolve_missing :
      (clock : Clock) (fsa : String) (tb : ServerTimebase)
      → get fsa tb.per_fsa ≡ none
      → resolve unit clock (some fsa) tb ≡ (tb.global, tb)
  unfolding resolve
  resolve_missing clock fsa tb e = rw (e, resolve) refl

  resolve_scoped :
      (clock : Clock) (fsa : String) (tb : ServerTimebase) (obs : TimeObservation)
      → get fsa tb.per_fsa ≡ some obs
      → resolve unit clock (some fsa) tb ≡ (
          if yields_to_global unit clock obs tb
          then (tb.global, report_stale_fallback unit fsa tb)
          else (some obs, tb))
  unfolding resolve
  resolve_scoped clock fsa tb obs e = rw (e, resolve) refl

  resolve_fresh :
      (clock : Clock) (fsa : String) (tb : ServerTimebase) (obs : TimeObservation)
      → get fsa tb.per_fsa ≡ some obs
      → yields_to_global unit clock obs tb ≡ false
      → (resolve unit clock (some fsa) tb).0 ≡ some obs
  resolve_fresh clock fsa tb obs e y = rw (resolve_scoped clock fsa tb obs e, y) refl

  resolve-observe :
      (clock clock' : Clock) (server_time quality : ℕ) (scope : Option String) (href : String)
      (tb : ServerTimebase)
      → clock'.monotonic - clock.monotonic ≤ fsa_stale_seconds unit tb
      → (resolve unit clock' scope (observe unit clock server_time scope quality href tb)).0
        ≡ some (observation unit clock server_time quality href)
  unfolding observe
  resolve-observe clock clock' server_time quality none href tb h = unfold resolve in refl
  resolve-observe clock clock' server_time quality (some fsa) href tb h =
      let obs = observation unit clock server_time quality href in
      let tb' = observe unit clock server_time (some fsa) quality href tb in
      resolve_fresh clock' fsa tb' obs
        (rw (get-put fsa fsa obs tb.per_fsa) (ground (arith, string_key.same_iff fsa fsa)))
        (fresh_stays clock' clock server_time quality href tb' (unfold fsa_stale_seconds in h))

  enabled-observe :
      (clock : Clock) (server_time quality : ℕ) (scope : Option String) (href : String)
      (tb : ServerTimebase)
      → (observe unit clock server_time scope quality href tb).enabled ≡ tb.enabled
  unfolding observe
  enabled-observe clock server_time quality none href tb = refl
  enabled-observe clock server_time quality (some fsa) href tb = refl

  now-resolve :
      (clock : Clock) (scope : Option String) (tb : ServerTimebase) (obs : TimeObservation)
      → tb.enabled ≡ true
      → (resolve unit clock scope tb).0 ≡ some obs
      → (now unit clock scope tb).0 ≡ pos clock.wall +ℤ obs.offset
  unfolding now offset offset_of
  now-resolve clock scope tb obs on found =
      ap (λ (o : ℤ × ServerTimebase). pos clock.wall +ℤ o.0)
        (when_true
          (offset_of unit ((resolve unit clock scope tb).0), (resolve unit clock scope tb).1)
          (pos 0, tb) tb.enabled on)
      ∙ ap (λ r. pos clock.wall +ℤ offset_of unit r) found

  -- While the timebase is in use, the time of a scope that was observed at some moment is the
  -- server's own, moved on by what the wall clock has moved on since, as long as the observation
  -- is not older than the threshold.
  pub now-observe :
      (clock clock' : Clock) (server_time quality elapsed_time : ℕ) (scope : Option String)
      (href : String) (tb : ServerTimebase)
      → tb.enabled ≡ true
      → clock'.wall ≡ clock.wall + elapsed_time
      → clock'.monotonic - clock.monotonic ≤ fsa_stale_seconds unit tb
      → (now unit clock' scope (observe unit clock server_time scope quality href tb)).0
        ≡ pos (server_time * unit + elapsed_time)
  now-observe clock clock' server_time quality elapsed_time scope href tb on wall fresh =
      let obs = observation unit clock server_time quality href in
      now-resolve clock' scope (observe unit clock server_time scope quality href tb) obs
        (enabled-observe clock server_time quality scope href tb ∙ on)
        (resolve-observe clock clock' server_time quality scope href tb fresh)
      ∙ ap (λ w. pos w +ℤ obs.offset) wall
      ∙ (unfold observation in elapsed (server_time * unit) clock.wall elapsed_time)

  yields-global :
      (clock : Clock) (obs : TimeObservation) (tb : ServerTimebase)
      → tb.global ≡ none
      → yields_to_global unit clock obs tb ≡ false
  unfolding yields_to_global
  yields-global clock obs tb e = rw (e, yields_to_global) refl

  -- A scope reads no observation just when neither it nor the whole server has one: a stale one is
  -- left only for a newer global one.
  pub resolve-none :
      (clock : Clock) (fsa : String) (tb : ServerTimebase)
      → ((resolve unit clock (some fsa) tb).0 ≡ none)
        ↔ ((tb.global ≡ none) × (get fsa tb.per_fsa ≡ none))
  resolve-none clock fsa tb = elim (Option-cases (get fsa tb.per_fsa)) [
    | inl e ↦ rw (resolve_missing clock fsa tb e) ((λ h. (h, e)), (λ h. h.0))
    | inr (obs, e) ↦
        rw (resolve_scoped clock fsa tb obs e) (ground (arith, e, yields-global clock obs tb))
  ]
