-- ===== src/Averager.antt =====
-- averager.go: the averages of the timer errors. `none` is a panic; the parsers of strconv are parameters.
pub mod Ring
mod Tests
use irtt.Prelude.{
  ℕ, ◌+◌, Bool, true, false, not, ◌&&◌, ◌||◌, List, [], ◌∷◌, Option, none, some, ◌⊎◌, inl, inr,
  ◌==◌, ltb, leb, if◌then◌else◌, ◌>>=◌, ◌>>◌, guard, length, set, take, replicate,
}
use irtt.Prelude.Int.{ℤ, pos, ltb_ℤ, pos_part}
use irtt.Prelude.Float.{Float64}
use irtt.Code.{Code, no_such_averager, invalid_win_avg_window, invalid_exp_avg_alpha}
use irtt.Net.{bytes_equal}
use irtt.Filler.{until_colon, after_colon}

-- `CumulativeAverager`
pub record CumulativeAverager : Type 0 where
  pub sum : ℕ
  pub n : ℕ

-- `ExponentialAverager`
pub record ExponentialAverager : Type 0 where
  pub alpha : ℕ
  pub avg : ℕ
  pub prev : ℕ

-- `WindowAverager`
pub record WindowAverager : Type 0 where
  pub window : ℕ
  pub values : List ℕ
  pub at : ℕ
  pub filled : Bool

-- `Averager`
pub data Averager : Type 0 where
  cumulative : CumulativeAverager → Averager
  exponential : ExponentialAverager → Averager
  windowed : WindowAverager → Averager

-- `NewWindowAverage`
unfoldable pub new_window_average : ℕ → WindowAverager
new_window_average window = record {
  window = window;
  values = replicate window 0;
  at = 0;
  filled = false;
}

-- `WindowAverager.Push`
unfoldable pub push_window : ℕ → WindowAverager → Option WindowAverager
push_window val wa = do
  guard (ltb wa.at (length wa.values))
  let wraps = wa.at + 1 == wa.window
  some (record wa {
    values = set wa.values wa.at val;
    at = if wraps then 0 else wa.at + 1;
    filled = if wraps then true else wa.filled;
  })

-- `DefaultAverageWindow` and, as the bits of 0.1, `DefaultExponentialAverageAlpha`
abbrev pub default_average_window : ℕ
default_average_window = 5

abbrev pub default_alpha : ℕ
default_alpha = 4_591_870_180_066_957_722

-- `NewExponentialAverager`
unfoldable pub new_exponential_averager : ℕ → ExponentialAverager
new_exponential_averager alpha = record { alpha = alpha; avg = 0; prev = 0 }

module _ (f : Float64) where
  abbrev zero_value : ℕ
  zero_value = f.of_int (pos 0)

  abbrev one_value : ℕ
  one_value = f.of_int (pos 1)

  -- `CumulativeAverager.Push`
  unfoldable pub push_cumulative : ℕ → CumulativeAverager → CumulativeAverager
  push_cumulative val ca = record { sum = f.plus ca.sum val; n = f.plus ca.n one_value }

  -- `CumulativeAverager.Average`
  unfoldable pub average_cumulative : CumulativeAverager → ℕ
  average_cumulative ca = if f.eq ca.n zero_value then zero_value else f.over ca.sum ca.n

  -- `ExponentialAverager.Push`
  unfoldable pub push_exponential : ℕ → ExponentialAverager → ExponentialAverager
  push_exponential val ea =
      if f.eq ea.avg zero_value then record ea { prev = val; avg = val } else record ea {
        prev = ea.avg;
        avg = f.plus (f.times ea.alpha val) (f.times (f.minus one_value ea.alpha) ea.avg);
      }

  -- The sum of `WindowAverager.Average`, from the first value on
  unfoldable pub sum_values : ℕ → List ℕ → ℕ
  sum_values sum [] = sum
  sum_values sum (v ∷ vs) = sum_values (f.plus sum v) vs

  -- `WindowAverager.Average`: the values before the position, if the window was not filled yet.
  unfoldable pub average_window : WindowAverager → Option ℕ
  average_window wa = do
    let n = if wa.filled then wa.window else wa.at
    if not wa.filled && (wa.at == 0)
        then some zero_value
        else guard (leb n (length wa.values))
          >> some (f.over (sum_values zero_value (take n wa.values)) (f.of_int (pos n)))

  -- `Averager.Push` and `Averager.Average`
  unfoldable pub push_value : ℕ → Averager → Option Averager
  push_value val (cumulative ca) = some (cumulative (push_cumulative val ca))
  push_value val (exponential ea) = some (exponential (push_exponential val ea))
  push_value val (windowed wa) = do wa' ← push_window val wa; some (windowed wa')

  unfoldable pub average : Averager → Option ℕ
  average (cumulative ca) = some (average_cumulative ca)
  average (exponential ea) = some ea.avg
  average (windowed wa) = average_window wa

  -- "avg", "win" and "exp"
  abbrev avg_text : List ℕ
  avg_text = 97 ∷ 118 ∷ 103 ∷ []

  abbrev win_text : List ℕ
  win_text = 119 ∷ 105 ∷ 110 ∷ []

  abbrev exp_text : List ℕ
  exp_text = 101 ∷ 120 ∷ 112 ∷ []

  module _ (atoi : List ℕ → Option ℤ) (parse_float : List ℕ → Option ℕ) where
    -- The second registered factory, for a text that starts with its name
    unfoldable pub make_window : List ℕ → Averager ⊎ Code
    make_window s = elim (after_colon s) [
      | none ↦ inl (windowed (new_window_average default_average_window))
      | some rest ↦ elim (atoi (until_colon rest)) [
        | none ↦ inr invalid_win_avg_window
        | some w ↦
            if ltb_ℤ w (pos 1)
            then inr invalid_win_avg_window
            else inl (windowed (new_window_average (pos_part w)))
      ]
    ]

    -- and the third
    unfoldable pub make_exponential : List ℕ → Averager ⊎ Code
    make_exponential s = elim (after_colon s) [
      | none ↦ inl (exponential (new_exponential_averager default_alpha))
      | some rest ↦ elim (parse_float (until_colon rest)) [
        | none ↦ inr invalid_exp_avg_alpha
        | some a ↦
            if f.lt a zero_value || f.lt one_value a
            then inr invalid_exp_avg_alpha
            else inl (exponential (new_exponential_averager a))
      ]
    ]

    -- `NewAverager` with the three factories that `init` registers
    unfoldable pub new_averager : List ℕ → Averager ⊎ Code
    new_averager s =
        if bytes_equal s avg_text
        then inl (cumulative (record { sum = zero_value; n = zero_value }))
        else if bytes_equal (until_colon s) win_text
        then make_window s
        else if bytes_equal (until_colon s) exp_text
        then make_exponential s
        else inr no_such_averager
