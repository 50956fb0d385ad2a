-- ===== src/Image.antt =====
-- pkg/image/image.go: Retry, on a clock in nanoseconds that only the attempts and the waits move, and
-- pretty; Write is in a child.
pub mod Write
pub mod Whole
pub mod Retried
pub mod Units
mod Tests
use actions.Prelude.{
  ℕ, zero, suc, ◌+◌, ◌*◌, ◌/◌, Bool, true, false, ◌||◌, List, [], ◌∷◌, Option, none, some, Error,
  Result, ok, err, cancelled, ltb, leb, ◌==◌, if◌then◌else◌,
}

-- RetryBase and RetryCap
abbrev pub retry_base : ℕ
retry_base = 1000000000

abbrev pub retry_cap : ℕ
retry_cap = 30000000000

-- What the attempts meet: how each ends, how long it takes, and whether the context is done in the
-- wait after it.
pub record Attempts : Type 0 where
  pub outcome : ℕ → Result (Unit {0})
  pub duration : ℕ → ℕ
  pub done : ℕ → Bool

-- How Retry ended, and after how many attempts.
pub record Ended : Type 0 where
  pub result : Result (Unit {0})
  pub attempts : ℕ

-- `delay *= 2`, up to the cap.
abbrev pub next_delay : ℕ → ℕ
next_delay delay = if ltb retry_cap (delay * 2) then retry_cap else delay * 2

module _ (window : ℕ) (deadline : ℕ) (world : Attempts) where
  -- What follows attempt k, which ended at this time: the end, or another round.
  unfoldable pub after_attempt : ℕ → ℕ → ℕ → Result (Unit {0}) → Option Ended → Option Ended
  after_attempt now delay k (ok u) rest = some (record { result = ok u; attempts = k + 1 })
  after_attempt now delay k (err e) rest =
      if window == 0 || ltb deadline (now + delay)
      then some (record { result = err e; attempts = k + 1 })
      else if world.done k
      then some (record { result = err cancelled; attempts = k + 1 })
      else rest

  -- The loop from attempt k on; none where the fuel is used up.
  unfoldable pub retry_from : ℕ → ℕ → ℕ → ℕ → Option Ended
  retry_from zero now delay k = none
  retry_from (suc fuel) now delay k =
      let ended = now + world.duration k in
      let rest = retry_from fuel (ended + delay) (next_delay delay) (k + 1) in
      after_attempt ended delay k (world.outcome k) rest

-- Retry at a time. Every round but the last waits for at least a nanosecond within the window, so one
-- more round than its nanoseconds is enough.
unfoldable pub retry : ℕ → ℕ → Attempts → Option Ended
retry now window world = retry_from window (now + window) world (window + 1) now retry_base 0

-- The loop of pretty: the divisor and the exponent.
unfoldable pub unit_of : ℕ → ℕ → ℕ → ℕ → ℕ × ℕ
unit_of zero n div exp = (div, exp)
unit_of (suc fuel) n div exp =
    let more = unit_of fuel (n / 1024) (div * 1024) (exp + 1) in
    if leb 1024 n then more else (div, exp)

-- The unit that pretty prints a number of bytes in: none for less than 1024, and else the divisor and
-- the index of the letter in "KMGTPE". An int64 is divided six times at most, so fuel 6 is enough.
unfoldable pub pretty_unit : ℕ → Option (ℕ × ℕ)
unfolding unit_of
pretty_unit b = if ltb b 1024 then none else some (unit_of 6 (b / 1024) 1024 0)
