-- ===== src/Waiter.antt =====
-- waiter.go: how long the client waits for the last replies. The parsers of strconv and time are parameters, and
-- so is the mean of the round-trip times, a floating-point number.
use irtt.Prelude.{ℕ, List, [], ◌∷◌, Option, none, some, ◌⊎◌, inl, inr, ◌==◌, if◌then◌else◌}
use irtt.Prelude.Int.{ℤ}
use irtt.Prelude.Word.{mul64}
use irtt.Code.{
  Code, no_such_waiter, invalid_wait_string, invalid_wait_factor, invalid_wait_duration,
}
use irtt.Recorder.{DurationStats}

-- `WaitDuration`, `WaitMaxRTT` and `WaitMeanRTT`: a duration, and a factor of the two statistics.
pub data Waiter : Type 0 where
  wait_duration : ℤ → Waiter
  wait_max_rtt : ℤ → ℤ → Waiter
  wait_mean_rtt : ℤ → ℤ → Waiter

-- `Waiter.Wait`, by the statistics of the round-trip times and their mean
unfoldable pub wait_time : DurationStats → ℤ → Waiter → ℤ
wait_time stats mean (wait_duration d) = d
wait_time stats mean (wait_max_rtt d factor) = if stats.n == 0 then d else mul64 factor stats.max
wait_time stats mean (wait_mean_rtt d factor) = if stats.n == 0 then d else mul64 factor mean

-- The text before and after the first byte `c`, as by strings.Index, if it is there
unfoldable pub split_at : ℕ → List ℕ → Option (List ℕ × List ℕ)
split_at c [] = none
split_at c (x ∷ s) =
    let rest = split_at c s in
    if x == c then some ([], s) else elim rest [ none ↦ none | some (a, b) ↦ some (x ∷ a, b) ]

module _ (atoi parse_duration : List ℕ → Option ℤ) where
  -- `parseWait`: the factor and the duration
  unfoldable pub parse_wait : List ℕ → List ℕ → (ℤ × ℤ) ⊎ Code
  parse_wait fstr dstr = elim (atoi fstr) [
    | none ↦ inr invalid_wait_factor
    | some factor ↦ elim (parse_duration dstr) [
      | none ↦ inr invalid_wait_duration
      | some d ↦ inl (factor, d)
    ]
  ]

  -- The first two registered factories, for a text with the byte `c` in it. The error of `parseWait` becomes a
  -- part of the message.
  unfoldable pub make_waiter : ℕ → (ℤ → ℤ → Waiter) → List ℕ → Option (Waiter ⊎ Code)
  make_waiter c make s = elim (split_at c s) [
    | none ↦ none
    | some (fstr, dstr) ↦ elim (parse_wait fstr dstr) [
      | inr e ↦ some (inr invalid_wait_string)
      | inl (factor, d) ↦ some (inl (make d factor))
    ]
  ]

  -- The third
  unfoldable pub make_duration : List ℕ → Waiter ⊎ Code
  make_duration s = elim (parse_duration s) [
    | none ↦ inr no_such_waiter
    | some d ↦ inl (wait_duration d)
  ]

  -- `NewWaiter` with the three factories that `init` registers: "x", then "r", then a duration
  unfoldable pub new_waiter : List ℕ → Waiter ⊎ Code
  new_waiter s = elim (make_waiter 120 wait_max_rtt s) [
    | some r ↦ r
    | none ↦ elim (make_waiter 114 wait_mean_rtt s) [ some r ↦ r | none ↦ make_duration s ]
  ]
