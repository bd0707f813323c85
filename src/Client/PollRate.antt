-- ===== src/Client/PollRate.antt =====
-- client/poll_rate.py: the poll rate a server asks for, put into a safe range. The log lines are
-- left out.
use py.Prelude.{ℕ, ◌≤◌, ◌≡◌, Option, none, some, ltb, max, arith, if◌then◌else◌}
use py.Prelude.Int.{ℤ, pos, negsuc}

abbrev pub min_poll_rate : ℕ
min_poll_rate = 10

-- `raw_value <= 0` of a number below zero, or zero, turns polling off.
unfoldable pub normalize_poll_rate : Option ℤ → ℕ → Option ℕ
normalize_poll_rate none default = some default
normalize_poll_rate (some (negsuc n)) default = none
normalize_poll_rate (some (pos n)) default = if ltb 0 n then some (max min_poll_rate n) else none

-- A rate that comes out for a raw value is 10 or more, and comes out as it is when it is asked for;
-- where the raw value is a natural number it is not below that, and it is that if that is 10 or more.
pub normalize_poll_rate_lem :
    (raw : ℤ) (default rate : ℕ)
    → normalize_poll_rate (some raw) default ≡ some rate
    → (10 ≤ rate)
      × (normalize_poll_rate (some (pos rate)) default ≡ some rate)
      × ((n : ℕ) → raw ≡ pos n → (n ≤ rate) × (10 ≤ n → rate ≡ n))
unfolding normalize_poll_rate
normalize_poll_rate_lem (negsuc n) default rate h = cc
normalize_poll_rate_lem (pos n) default rate h = ground arith
