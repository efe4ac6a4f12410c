-- ===== src/Averager/Tests.antt =====
-- The theorem on the averager at a window of two values. The arithmetic here is not that of float64.
use irtt.Averager.{new_window_average, average_window, sum_values, WindowAverager}
use irtt.Averager.Ring.{pushes, mean_of, pushes-average}
use irtt.Prelude.{
  ℕ, ◌+◌, ◌/◌, ◌%◌, ◌≤◌, ◌<◌, ◌≡◌, refl, arith, some, ltb, leb, [], ◌∷◌, ◌==◌, get_elem?,
}
use irtt.Prelude.Int.{pos, pos_part}
use irtt.Prelude.Float.{Float64}

abbrev whole : Float64
whole = record {
  of_int = λ z. pos_part z;
  plus = λ a b. a + b;
  minus = λ a b. a;
  times = λ a b. a;
  over = λ a b. a / b;
  lt = λ a b. ltb a b;
  le = λ a b. leb a b;
  eq = λ a b. a == b;
  to_int = λ a. pos a;
}

abbrev value : ℕ → ℕ
value i = i + 5

-- Of 5, 6 and 7, the last two are 13 together.
mean-run : mean_of whole 2 3 (7 ∷ 6 ∷ []) ≡ 6
unfolding mean_of sum_values
mean-run = refl

pushes-average_example :
    (wa : WindowAverager) × (pushes 3 value (new_window_average 2) ≡ some wa)
    × (average_window whole wa ≡ some (mean_of whole 2 3 wa.values))
    × ((t : ℕ) → t < 3 → 3 ≤ t + 2 → get_elem? wa.values (t % 2) ≡ some (value t))
pushes-average_example = pushes-average whole 2 value 3 (omega arith)
