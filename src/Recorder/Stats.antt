-- ===== src/Recorder/Stats.antt =====
-- recorder.go: `DurationStats`, the running statistics of durations. Its fields of type float64 (the mean,
-- the sum of squares and the median) are left out: nothing here reads them.
use irtt.Prelude.{ℕ, zero, suc, ◌+◌, ◌%◌, ◌^◌, ◌/◌, ◌==◌, if◌then◌else◌, Option, none, some}
use irtt.Prelude.Int.{ℤ, pos, negsuc, ltb_ℤ, sub_ℕ}
use irtt.Prelude.Word.{add64, sub64, unsigned64}

-- `DurationStats`
pub record DurationStats : Type 0 where
  pub total : ℤ
  pub n : ℕ
  pub min : ℤ
  pub max : ℤ

abbrev pub no_stats : DurationStats
no_stats = record { total = pos 0; n = 0; min = pos 0; max = pos 0 }

-- `push`
unfoldable pub push : ℤ → DurationStats → DurationStats
push d s =
    if s.n == 0 then record { total = d; n = (s.n + 1) % 2 ^ 64; min = d; max = d } else record {
      total = add64 s.total d;
      n = (s.n + 1) % 2 ^ 64;
      min = if ltb_ℤ d s.min then d else s.min;
      max = if ltb_ℤ s.max d then d else s.max;
    }

-- `AbsDuration`
unfoldable pub abs_duration : ℤ → ℤ
abs_duration d = if ltb_ℤ (pos 0) d then d else sub64 (pos 0) d

-- `d / i` on `int64`: towards zero. It panics where `i` is 0, and wraps around for the least of them over -1.
unfoldable pub divide : ℤ → ℤ → Option ℤ
divide d (pos zero) = none
divide (pos a) (pos (suc b)) = some (pos (a / suc b))
divide (negsuc a) (pos (suc b)) = some (sub_ℕ 0 (suc a / suc b))
divide (pos a) (negsuc b) = some (sub_ℕ 0 (a / suc b))
divide (negsuc a) (negsuc b) = some (add64 (pos 0) (pos (suc a / suc b)))

-- `d % i` on `int64`, which has the sign of `d`.
unfoldable pub remainder : ℤ → ℤ → Option ℤ
remainder d (pos zero) = none
remainder (pos a) (pos (suc b)) = some (pos (a % suc b))
remainder (negsuc a) (pos (suc b)) = some (sub_ℕ 0 (suc a % suc b))
remainder (pos a) (negsuc b) = some (pos (a % suc b))
remainder (negsuc a) (negsuc b) = some (sub_ℕ 0 (suc a % suc b))

-- `pcount`
unfoldable pub pcount : ℤ → ℤ → Option ℕ
pcount d i = elim (divide d i) [ none ↦ none | some q ↦ some ((1 + unsigned64 q) % 2 ^ 64) ]
