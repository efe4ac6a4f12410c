-- ===== src/Time/Midpoint.antt =====
-- `Time.Sub`, `Add` and `Midpoint` of time.go.
use irtt.Prelude.{◌≤◌, ◌<◌, ◌≡◌, false, arith, if◌then◌else◌}
use irtt.Prelude.Int.{ℤ, pos, negsuc, pos_part, neg_part, eqb_ℤ, ◌+ℤ◌}
use irtt.Prelude.Word.{IsInt64, add64, quot}
use irtt.Time.{Time, is_mono_zero}

-- The time has a value of the monotonic clock.
abbrev pub HasMono : Time → Type 0
HasMono t = is_mono_zero t ≡ false

quot_parts :
    (d : ℤ)
    → neg_part d ≤ 9_223_372_036_854_775_808
    → pos_part d < 9_223_372_036_854_775_808
    → IsInt64 (quot d 2)
unfolding quot
quot_parts (pos n) h k = omega arith
quot_parts (negsuc n) h k = ground arith

-- The time moved by `d` on the clocks that it has.
shifted : Time → ℤ → Time
shifted t d = record {
  wall = if eqb_ℤ t.wall (pos 0) then t.wall else add64 t.wall d;
  mono = t.mono +ℤ d;
}
