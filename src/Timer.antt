-- ===== src/Timer.antt =====
-- timer.go: the timers that wait for the next send. What Go's time.Timer and the clock do is an argument;
-- `none` is a panic.
pub mod Waits
use irtt.Prelude.{
  ℕ, Bool, false, ◌&&◌, ◌||◌, List, [], ◌∷◌, Option, none, some, ◌⊎◌, inl, inr, if◌then◌else◌,
  ◌>>=◌,
}
use irtt.Prelude.Int.{ℤ, pos}
use irtt.Prelude.Float.{Float64}
use irtt.Code.{Code, no_such_timer, invalid_sleep_factor}
use irtt.Time.{Time, sub, add, before}
use irtt.Net.{bytes_equal}
use irtt.Filler.{until_colon, after_colon}
use irtt.Averager.{Averager, push_value, average}

-- `CompTimer`, without the timer of Go that it has
pub record CompTimer : Type 0 where
  pub min_error_factor : ℕ
  pub max_error_factor : ℕ
  pub avg : Averager

-- `Timer`: a hybrid one has a sleep factor.
pub data Timer : Type 0 where
  simple : Timer
  comp : CompTimer → Timer
  busy : Timer
  hybrid : CompTimer → ℕ → Timer

-- What `Sleep` returns: the time, and whether the context was done.
pub record Slept : Type 0 where
  pub now : Time
  pub cancelled : Bool

-- One pass of a busy loop: the context is done, or the time is read.
pub data Poll : Type 0 where
  done : Poll
  tick : Time → Poll

-- `DefaultCompTimerMinErrorFactor`, `DefaultCompTimerMaxErrorFactor` and `DefaultHybridTimerSleepFactor`: the bits
-- of 0.0, 2.0 and 0.9.
abbrev pub default_min_error_factor : ℕ
default_min_error_factor = 0

abbrev pub default_max_error_factor : ℕ
default_max_error_factor = 4_611_686_018_427_387_904

abbrev pub default_sleep_factor : ℕ
default_sleep_factor = 4_606_281_698_874_543_309

-- `NewCompTimer`
unfoldable pub new_comp_timer : Averager → CompTimer
new_comp_timer a = record {
  min_error_factor = default_min_error_factor;
  max_error_factor = default_max_error_factor;
  avg = a;
}

-- The loop until `e` of `BusyTimer.Sleep` and `HybridTimer.Sleep`, over its passes: what it returns, or `inr` of
-- the time where it is still waiting after the last of them.
unfoldable pub poll_until : Time → List Poll → Time → Option (Slept ⊎ Time)
poll_until e [] now = do
  early ← before now e
  some (if early then inr now else inl (record { now = now; cancelled = false }))
poll_until e (done ∷ polls) now = do
  early ← before now e
  some (inl (record { now = now; cancelled = early }))
poll_until e (tick t ∷ polls) now = do
  early ← before now e
  let rest = poll_until e polls t
  if early then rest else some (inl (record { now = now; cancelled = false }))

-- `SimpleTimer.Sleep`: what Go's timer and the clock give for the duration
abbrev pub simple_sleep : (ℤ → Slept) → ℤ → Slept
simple_sleep wait d = wait d

-- `BusyTimer.Sleep`
unfoldable pub busy_sleep : List Poll → Time → ℤ → Option (Slept ⊎ Time)
busy_sleep polls now d = do e ← add now d; poll_until e polls now

module _ (f : Float64) where
  -- The duration that a `CompTimer` sleeps, by the average of its errors
  unfoldable pub compensated : ℕ → ℤ → ℤ
  compensated average d =
      if f.eq average (f.of_int (pos 0)) then d else f.to_int (f.over (f.of_int d) average)

  -- The error of that sleep is recorded, unless it is an outlier.
  unfoldable pub record_error : ℕ → CompTimer → Option CompTimer
  record_error erf ct =
      if f.le ct.min_error_factor erf && f.le erf ct.max_error_factor
      then (do a ← push_value f erf ct.avg; some (record ct { avg = a }))
      else some ct

  -- `CompTimer.Sleep`
  unfoldable pub comp_sleep : (ℤ → Slept) → Time → ℤ → CompTimer → Option (Slept × CompTimer)
  comp_sleep wait now d ct = do
    mean ← average f ct.avg
    let d' = compensated mean d
    let slept = simple_sleep wait d'
    elapsed ← sub slept.now now
    ct' ← record_error (f.over (f.of_int elapsed) (f.of_int d')) ct
    some (slept, ct')

  -- `HybridTimer.Sleep`
  unfoldable pub hybrid_sleep :
      (ℤ → Slept) → List Poll → Time → ℤ → ℕ → CompTimer → Option ((Slept ⊎ Time) × CompTimer)
  hybrid_sleep wait polls now d factor ct = do
    e ← add now d
    (slept, ct') ← comp_sleep wait now (f.to_int (f.times (f.of_int d) factor)) ct
    if slept.cancelled
        then some (inl slept, ct')
        else (do r ← poll_until e polls slept.now; some (r, ct'))

  -- `Timer.Sleep`
  unfoldable pub sleep :
      (ℤ → Slept) → List Poll → Time → ℤ → Timer → Option ((Slept ⊎ Time) × Timer)
  sleep wait polls now d simple = some (inl (simple_sleep wait d), simple)
  sleep wait polls now d (comp ct) = do
    (slept, ct') ← comp_sleep wait now d ct
    some (inl slept, comp ct')
  sleep wait polls now d busy = do r ← busy_sleep polls now d; some (r, busy)
  sleep wait polls now d (hybrid ct factor) = do
    (r, ct') ← hybrid_sleep wait polls now d factor ct
    some (r, hybrid ct' factor)

  -- "simple", "comp", "hybrid" and "busy"
  abbrev simple_text : List ℕ
  simple_text = 115 ∷ 105 ∷ 109 ∷ 112 ∷ 108 ∷ 101 ∷ []

  abbrev comp_text : List ℕ
  comp_text = 99 ∷ 111 ∷ 109 ∷ 112 ∷ []

  abbrev hybrid_text : List ℕ
  hybrid_text = 104 ∷ 121 ∷ 98 ∷ 114 ∷ 105 ∷ 100 ∷ []

  abbrev busy_text : List ℕ
  busy_text = 98 ∷ 117 ∷ 115 ∷ 121 ∷ []

  module _ (parse_float : List ℕ → Option ℕ) where
    -- The third registered factory, for a text that starts with its name. The sleep factor is above 0 and below 1.
    unfoldable pub make_hybrid : List ℕ → Averager → Timer ⊎ Code
    make_hybrid s a = elim (after_colon s) [
      | none ↦ inl (hybrid (new_comp_timer a) default_sleep_factor)
      | some rest ↦ elim (parse_float (until_colon rest)) [
        | none ↦ inr invalid_sleep_factor
        | some x ↦
            if f.le x (f.of_int (pos 0)) || f.le (f.of_int (pos 1)) x
            then inr invalid_sleep_factor
            else inl (hybrid (new_comp_timer a) x)
      ]
    ]

    -- `NewTimer` with the four factories that `init` registers
    unfoldable pub new_timer : List ℕ → Averager → Timer ⊎ Code
    new_timer s a =
        if bytes_equal s simple_text
        then inl simple
        else if bytes_equal s comp_text
        then inl (comp (new_comp_timer a))
        else if bytes_equal (until_colon s) hybrid_text
        then make_hybrid s a
        else if bytes_equal s busy_text
        then inl busy
        else inr no_such_timer
