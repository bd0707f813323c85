-- ===== src/Client/Tests.antt =====
-- Runs of the poll rate and the retries on concrete inputs.
use py.Prelude.{ℕ, zero, suc, ◌≡◌, refl, string_key, some, [], ◌∷◌, true, false}
use py.Prelude.Int.{pos}
use py.Client.PollRate.{normalize_poll_rate}
use py.Client.Retry.{
  Outcome, returned, unreachable, tls_error, RetryPolicy, value, with_retry, retry_loop, handle,
  sleep, backoff,
}
use py.Client.Retry.Bounds.{Accounted, with_retry-Accounted}

slow_rate : normalize_poll_rate (some (pos 3)) 900 ≡ some 10
unfolding normalize_poll_rate
slow_rate = refl

abbrev default_policy : RetryPolicy
default_policy = record { max_transient = 3; max_tls = 8 }

-- Two calls that fail, and then a value.
abbrev flaky : ℕ → Outcome ℕ
flaky zero = unreachable
flaky (suc zero) = tls_error false
flaky (suc (suc n)) = returned (suc (suc n))

flaky_test :
    with_retry default_policy true flaky
    ≡ record { result = value 2; calls = 3; effects = sleep (backoff 0) ∷ sleep (backoff 0) ∷ [] }
unfolding with_retry retry_loop handle
flaky_test = refl

with_retry-Accounted_example :
    Accounted default_policy true flaky 0 9 (with_retry default_policy true flaky)
with_retry-Accounted_example = with_retry-Accounted default_policy true flaky
