-- ===== src/Client/Retry/Bounds.antt =====
-- How often `with_retry` calls the operation, and what its result stands for.
use py.Prelude.{
  [], ap, sym, ◌∙◌, ◌⊎◌, inl, inr, if◌then◌else◌, true, false, ℕ, zero, suc, max, Option, ◌+◌, ◌-◌,
  ◌≤◌, ◌<◌, ◌≡◌, ◌≢◌, refl, Bool, List, ◌++◌, arith,
}
use py.Client.Retry.{
  Outcome, returned, tls_error, rate_limit, redirect, unreachable, other_error, RetryPolicy, Effect,
  tls_failed, connection_failed, rate_limit_raised, redirect_raised, other_raised, Result, value,
  failure, Attempts, Handled, leave, again, handle, Run, retry_loop, with_retry,
}

eq_or_lt : (a b : ℕ) → a ≤ b → (a ≡ b) ⊎ (suc a ≤ b)
eq_or_lt a b h = ground arith

-- The last call's outcome accounts for the result, and the attempts an error names are the policy's.
pub data Explains {ℓ} {A : Type ℓ} (policy : RetryPolicy) : Outcome A → Result A → Type ℓ where
  by_value : (a : A) → Explains policy (returned a) (value a)
  by_tls :
      (m : Bool) (n : ℕ)
      → n ≡ max 1 policy.max_tls
      → Explains policy (tls_error m) (failure (tls_failed n))
  by_connection :
      (n : ℕ)
      → n ≡ max 1 policy.max_transient
      → Explains policy unreachable (failure (connection_failed n))
  by_rate_limit : (o : Option ℕ) → Explains policy (rate_limit o) (failure rate_limit_raised)
  by_redirect : (n : ℕ) → Explains policy (redirect n) (failure redirect_raised)
  by_other : Explains policy other_error (failure other_raised)

-- The attempts that are left.
left : RetryPolicy → Attempts → ℕ
left policy s = (policy.max_transient - 1 - s.transient) + (policy.max_tls - 1 - s.tls)

-- Neither count has come to its limit.
Within : RetryPolicy → Attempts → Type 0
Within policy s = (s.transient ≤ policy.max_transient - 1) × (s.tls ≤ policy.max_tls - 1)

abbrev start : Attempts
start = record { transient = 0; tls = 0 }

left_start :
    (policy : RetryPolicy) → left policy start ≡ (policy.max_transient - 1) + (policy.max_tls - 1)
unfolding left
left_start policy = omega arith

sub_suc : (n : ℕ) → suc n - 1 ≡ n
sub_suc n = omega arith

module _ {ℓ} {A : Type ℓ} (policy : RetryPolicy) (peer : Bool) where
  handle-again :
      (o : Outcome A) (s s' : Attempts) (more : List Effect)
      → Within policy s
      → handle policy peer o s ≡ again more s'
      → (left policy s' < left policy s) × Within policy s' × ((a : A) → o ≢ returned a)
  unfolding handle left Within
  handle-again (returned a) s s' more w e = cc
  handle-again (tls_error m) s s' more w e = ground arith
  handle-again (rate_limit a) s s' more w e = ground arith
  handle-again (redirect n) s s' more w e = ground arith
  handle-again unreachable s s' more w e = ground arith
  handle-again other_error s s' more w e = cc

  at_limit :
      (b : Bool) (r r' : Result A) (more more' more'' : List Effect) (s : Attempts)
      → (if b then leave more' r' else again more'' s) ≡ leave more r
      → (r ≡ r') × (b ≡ true)
  at_limit true r r' more more' more'' s e = (cc, refl)
  at_limit false r r' more more' more'' s e = cc

  handle-leave :
      (o : Outcome A) (s : Attempts) (r : Result A) (more : List Effect)
      → Within policy s
      → handle policy peer o s ≡ leave more r
      → Explains policy o r
  unfolding handle Within
  handle-leave (returned a) s r more w e = let same : r ≡ value a = cc in rw same (by_value a)
  handle-leave (tls_error m) s r more w e =
      let (same, over) = at_limit _ _ _ _ _ _ _ e in rw same (by_tls m (s.tls + 1) (ground arith))
  handle-leave (rate_limit a) s r more w e =
      let (same, over) = at_limit _ _ _ _ _ _ _ e in rw same (by_rate_limit a)
  handle-leave (redirect n) s r more w e =
      let (same, over) = at_limit _ _ _ _ _ _ _ e in rw same (by_redirect n)
  handle-leave unreachable s r more w e =
      let (same, over) = at_limit _ _ _ _ _ _ _ e in
      rw same (by_connection (s.transient + 1) (ground arith))
  handle-leave other_error s r more w e =
      let same : r ≡ failure other_raised = cc in rw same by_other

  -- What a run that starts at call `first` has done.
  pub record Accounted (operation : ℕ → Outcome A) (first bound : ℕ) (run : Run A) : Type ℓ where
    pub began : first < run.calls
    pub bounded : run.calls ≤ first + suc bound
    pub explained : Explains policy (operation (run.calls - 1)) run.result
    pub failed_before : (i : ℕ) → first ≤ i → suc i < run.calls → (a : A) → operation i ≢ returned a

  module _ (operation : ℕ → Outcome A) where
    retry_stop :
        (fuel calls : ℕ) (effects more : List Effect) (s : Attempts) (r : Result A)
        → handle policy peer (operation calls) s ≡ leave more r
        → retry_loop policy peer operation (suc fuel) calls effects s
          ≡ record { result = r; calls = suc calls; effects = effects ++ more }
    unfolding retry_loop
    retry_stop fuel calls effects more s r e = rw (e, retry_loop) refl

    retry_go :
        (fuel calls : ℕ) (effects more : List Effect) (s s' : Attempts)
        → handle policy peer (operation calls) s ≡ again more s'
        → retry_loop policy peer operation (suc fuel) calls effects s
          ≡ retry_loop policy peer operation fuel (suc calls) (effects ++ more) s'
    unfolding retry_loop
    retry_go fuel calls effects more s s' e = rw (e, retry_loop) refl

    stop-Accounted :
        (calls bound : ℕ) (effects : List Effect) (r : Result A)
        → Explains policy (operation calls) r
        → Accounted operation calls bound
            (record { result = r; calls = suc calls; effects = effects })
    stop-Accounted calls bound effects r why = record {
      began = omega arith;
      bounded = omega arith;
      explained = rw (sub_suc calls) why;
      failed_before = λ i lo hi. absurd (omega (arith, lo, hi));
    }

    go-Accounted :
        (calls bound bound' : ℕ) (run : Run A)
        → bound' < bound
        → ((a : A) → operation calls ≢ returned a)
        → Accounted operation (suc calls) bound' run
        → Accounted operation calls bound run
    go-Accounted calls bound bound' run less failed h = record {
      began = omega (arith, h.began);
      bounded = omega (arith, h.bounded);
      explained = h.explained;
      failed_before = λ i lo hi a e. elim (eq_or_lt calls i lo) [
        | inl same ↦ failed a (ap operation same ∙ e)
        | inr more ↦ h.failed_before i more hi a e
      ];
    }

    retry_loop-Accounted :
        (fuel calls : ℕ) (effects : List Effect) (s : Attempts)
        → Within policy s
        → left policy s < fuel
        → Accounted operation calls
            (left policy s)
            (retry_loop policy peer operation fuel calls effects s)
    retry_loop-Accounted zero calls effects s w m = absurd (omega arith)
    retry_loop-Accounted (suc fuel) calls effects s w m =
        go (retry_loop-Accounted fuel (suc calls)) (handle policy peer (operation calls) s) refl
      where
        go :
            ((effects : List Effect) (s' : Attempts)
              → Within policy s'
              → left policy s' < fuel
              → Accounted operation
                  (suc calls)
                  (left policy s')
                  (retry_loop policy peer operation fuel (suc calls) effects s'))
            → (h : Handled A) → handle policy peer (operation calls) s ≡ h
            → Accounted operation calls
                (left policy s)
                (retry_loop policy peer operation (suc fuel) calls effects s)
        go rest (leave more r) e = rw (retry_stop fuel calls effects more s r e) (
            stop-Accounted calls (left policy s) (effects ++ more) r
              (handle-leave (operation calls) s r more w e))
        go rest (again more s') e =
            let (less, w', failed) = handle-again (operation calls) s s' more w e in
            rw (retry_go fuel calls effects more s s' e) (
              go-Accounted calls (left policy s) (left policy s') _ less failed
                (rest (effects ++ more) s' w' (omega arith)))

  -- with_retry ends, after at most max_transient - 1 + max_tls - 1 calls and one more; it returns the
  -- value of the first call that has one, and otherwise its error is accounted for by the last
  -- call, and the number of attempts that it names, if it names one, is the policy's.
  pub with_retry-Accounted :
      (operation : ℕ → Outcome A)
      → Accounted operation 0
          ((policy.max_transient - 1) + (policy.max_tls - 1))
          (with_retry policy peer operation)
  unfolding with_retry Within
  with_retry-Accounted operation = rw (sym (left_start policy)) (
      retry_loop-Accounted operation (suc (left policy start)) 0 [] start (omega arith, omega arith)
        (omega arith))
