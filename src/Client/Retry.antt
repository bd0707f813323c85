-- ===== src/Client/Retry.antt =====
-- client/retry.py: `with_retry`. The operation is the sequence of what its calls do; a delay is the
-- exponent of the backoff, or the seconds the server named. Log lines are left out.
pub mod Bounds
use py.Prelude.{
  ℕ, zero, suc, ◌+◌, ◌-◌, Option, none, some, List, [], ◌∷◌, ◌++◌, Bool, true, false, leb, is_some,
  if◌then◌else◌,
}

-- One call of the operation: its value, or the exception by the `except` clause that takes it.
pub data Outcome {ℓ} (A : Type ℓ) : Type ℓ where
  returned : A → Outcome A
  tls_error : Bool → Outcome A
  rate_limit : Option ℕ → Outcome A
  redirect : ℕ → Outcome A
  unreachable : Outcome A
  other_error : Outcome A

pub record RetryPolicy : Type 0 where
  pub max_transient : ℕ
  pub max_tls : ℕ

-- `backoff n` is base_delay * backoff_factor ** n.
pub data Delay : Type 0 where
  backoff : ℕ → Delay
  retry_after : ℕ → Delay

pub data Report : Type 0 where
  hostname_mismatch : ℕ → Report
  tls_handshake : ℕ → Report
  redirected : ℕ → ℕ → Report
  cannot_reach : Report

pub data Effect : Type 0 where
  sleep : Delay → Effect
  report : Report → Effect

-- The exceptions that leave `with_retry`: the two it makes, with the attempts they name, and those
-- that pass through.
pub data Failure : Type 0 where
  tls_failed : ℕ → Failure
  connection_failed : ℕ → Failure
  rate_limit_raised redirect_raised other_raised out_of_fuel : Failure

pub data Result {ℓ} (A : Type ℓ) : Type ℓ where
  value : A → Result A
  failure : Failure → Result A

pub record Attempts : Type 0 where
  pub transient : ℕ
  pub tls : ℕ

pub data Handled {ℓ} (A : Type ℓ) : Type ℓ where
  leave : List Effect → Result A → Handled A
  again : List Effect → Attempts → Handled A

-- `report` runs only for a caller that names its peer.
abbrev pub tell : Bool → Report → List Effect
tell peer r = if peer then report r ∷ [] else []

abbrev pub rate_delay : Option ℕ → ℕ → Delay
rate_delay none n = backoff n
rate_delay (some zero) n = backoff n
rate_delay (some (suc s)) n = retry_after (suc s)

-- One round of the loop: the `try` and its `except` clauses.
unfoldable pub handle {ℓ} : {A : Type ℓ} → RetryPolicy → Bool → Outcome A → Attempts → Handled A
handle policy peer (returned a) s = leave [] (value a)
handle policy peer (tls_error mismatch) s =
    if leb policy.max_tls (s.tls + 1)
    then leave
        (tell peer (if mismatch then hostname_mismatch (s.tls + 1) else tls_handshake (s.tls + 1)))
        (failure (tls_failed (s.tls + 1)))
    else again (sleep (backoff s.tls) ∷ []) (record s { tls = s.tls + 1 })
handle policy peer (rate_limit after) s =
    if leb policy.max_transient (s.transient + 1)
    then leave [] (failure rate_limit_raised)
    else again (sleep (rate_delay after s.transient) ∷ [])
        (record s { transient = s.transient + 1 })
handle policy peer (redirect status) s =
    if leb policy.max_transient (s.transient + 1)
    then leave [] (failure redirect_raised)
    else again (tell peer (redirected status (s.transient + 1)) ++ sleep (backoff s.transient) ∷ [])
        (record s { transient = s.transient + 1 })
handle policy peer unreachable s =
    if leb policy.max_transient (s.transient + 1)
    then leave (tell peer cannot_reach) (failure (connection_failed (s.transient + 1)))
    else again (sleep (backoff s.transient) ∷ []) (record s { transient = s.transient + 1 })
handle policy peer other_error s = leave [] (failure other_raised)

-- What a run has done: its result, the calls of the operation, and the effects in their order.
pub record Run {ℓ} (A : Type ℓ) : Type ℓ where
  pub result : Result A
  pub calls : ℕ
  pub effects : List Effect

unfoldable pub retry_loop {ℓ} :
    {A : Type ℓ} → RetryPolicy → Bool → (ℕ → Outcome A) → ℕ → ℕ → List Effect → Attempts → Run A
retry_loop policy peer operation zero calls effects s = record {
  result = failure out_of_fuel;
  calls = calls;
  effects = effects;
}
retry_loop policy peer operation (suc fuel) calls effects s =
    elim (handle policy peer (operation calls) s) [
      | leave more r ↦ record { result = r; calls = suc calls; effects = effects ++ more }
      | again more s' ↦ retry_loop policy peer operation fuel (suc calls) (effects ++ more) s'
    ]

-- The rounds that can be gone on from, and the last.
abbrev pub retry_fuel : RetryPolicy → ℕ
retry_fuel policy = suc ((policy.max_transient - 1) + (policy.max_tls - 1))

unfoldable pub with_retry {ℓ} : {A : Type ℓ} → RetryPolicy → Bool → (ℕ → Outcome A) → Run A
with_retry policy peer operation =
    retry_loop policy peer operation (retry_fuel policy) 0 [] (record { transient = 0; tls = 0 })
