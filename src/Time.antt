-- ===== src/Time.antt =====
-- time.go: wall and monotonic times, timestamps, and the enumerations that say which are taken.
-- A `none` is the panic of a function on values that it does not cover. `StampAt`, `Clock` and
-- `AllowStamp` are Go integers; the parsers give none below 0, so they are natural numbers here.
pub mod Midpoint
pub mod Names
mod Tests
use Prim.Native.String.{String}
use text.Mathlib.Text.{◌==◌ as str_eq}
use irtt.Prelude.{
  ℕ, zero, suc, ◌+◌, ◌-◌, ◌≤◌, ◌≡◌, Bool, true, false, not, ◌&&◌, ◌||◌, List, [], ◌∷◌, Option, none,
  some, ◌==◌, ltb, leb, if◌then◌else◌, ◌>>=◌, ◌>>◌, guard, bit_and, ◌⊎◌, inl, inr, get_elem?,
  length,
}
use irtt.Prelude.Int.{ℤ, pos, negsuc, ltb_ℤ, eqb_ℤ}
use irtt.Prelude.Word.{add64, sub64, quot}
use irtt.Code.{
  Code, invalid_stamp_at_int, invalid_stamp_at_string, invalid_clock_int, invalid_clock_string,
  invalid_allow_stamp_string,
}

-- `InvalidDuration`, math.MaxInt64
abbrev pub invalid_duration : ℤ
invalid_duration = pos 9_223_372_036_854_775_807

-- Nanoseconds; 0 stands for "no value".
pub record Time : Type 0 where
  pub wall : ℤ
  pub mono : ℤ

abbrev pub no_time : Time
no_time = record { wall = pos 0; mono = pos 0 }

abbrev pub is_wall_zero : Time → Bool
is_wall_zero t = eqb_ℤ t.wall (pos 0)

abbrev pub is_mono_zero : Time → Bool
is_mono_zero t = eqb_ℤ t.mono (pos 0)

abbrev pub is_zero : Time → Bool
is_zero t = is_wall_zero t && is_mono_zero t

-- The clock that two times are compared by: the monotonic one if both have it, else the wall clock if
-- both have that. The branches of `Sub`, `After` and `Before` are the same three.
by_clock {ℓ} : {A : Type ℓ} → (ℤ → ℤ → A) → Time → Time → Option A
by_clock op t u =
    if not (is_mono_zero t) && not (is_mono_zero u)
    then some (op t.mono u.mono)
    else if not (is_wall_zero t) && not (is_wall_zero u)
    then some (op t.wall u.wall)
    else none

unfoldable pub sub : Time → Time → Option ℤ
unfolding by_clock
sub = by_clock sub64

unfoldable pub after : Time → Time → Option Bool
unfolding by_clock
after = by_clock (λ a b. ltb_ℤ b a)

unfoldable pub before : Time → Time → Option Bool
unfolding by_clock
before = by_clock ltb_ℤ

unfoldable pub add : Time → ℤ → Option Time
add t d =
    if is_wall_zero t && is_mono_zero t
    then none
    else some (record {
      wall = if is_wall_zero t then t.wall else add64 t.wall d;
      mono = if is_mono_zero t then t.mono else add64 t.mono d;
    })

unfoldable pub midpoint : Time → Time → Option Time
midpoint t u = do d ← sub u t; add t (quot d 2)

abbrev pub wall : ℕ
wall = 1

abbrev pub monotonic : ℕ
monotonic = 2

abbrev pub both_clocks : ℕ
both_clocks = 3

unfoldable pub keep_clocks : Time → ℕ → Option Time
keep_clocks t c =
    if c == wall
    then some (record t { mono = pos 0 })
    else if c == monotonic
    then some (record t { wall = pos 0 })
    else if c == both_clocks
    then some t
    else none

pub record Timestamp : Type 0 where
  pub receive : Time
  pub send : Time

abbrev pub is_both_mono : Timestamp → Bool
is_both_mono t = not (is_mono_zero t.receive) && not (is_mono_zero t.send)

abbrev pub is_both_wall : Timestamp → Bool
is_both_wall t = not (is_wall_zero t.receive) && not (is_wall_zero t.send)

abbrev pub best_send : Timestamp → Time
best_send t = if is_zero t.send then t.receive else t.send

abbrev pub best_receive : Timestamp → Time
best_receive t = if is_zero t.receive then t.send else t.receive

-- `StampAt`
abbrev pub at_none : ℕ
at_none = 0

abbrev pub at_send : ℕ
at_send = 1

abbrev pub at_receive : ℕ
at_receive = 2

abbrev pub at_both : ℕ
at_both = 3

abbrev pub at_midpoint : ℕ
at_midpoint = 4

-- `x & mask != 0`
abbrev pub has : ℕ → ℕ → Bool
has x mask = not (bit_and x mask == 0)

-- The range test of `StampAtFromInt`, `ClockFromInt` and `ReceivedStatsFromInt`.
abbrev pub in_range : ℕ → ℕ → Code → ℤ → ℕ ⊎ Code
in_range lo hi e (pos n) = if ltb n lo || ltb hi n then inr e else inl n
in_range lo hi e (negsuc n) = inr e

unfoldable pub stamp_at_from_int : ℤ → ℕ ⊎ Code
stamp_at_from_int = in_range at_none at_midpoint invalid_stamp_at_int

unfoldable pub clock_from_int : ℤ → ℕ ⊎ Code
clock_from_int = in_range wall both_clocks invalid_clock_int

-- The loops of `ParseStampAt`, `ParseClock`, `ParseAllowStamp` and `ParseReceivedStats` over a table
-- of names; `i` is the value of the first one.
unfoldable pub parse_name : Code → ℕ → List String → String → ℕ ⊎ Code
parse_name e i [] s = inr e
parse_name e i (v ∷ vs) s =
    let rest = parse_name e (i + 1) vs s in if str_eq v s then inl i else rest

-- `sas`, `tcs` and `als`
abbrev pub stamp_at_names : List String
stamp_at_names = "none" ∷ "send" ∷ "receive" ∷ "both" ∷ "midpoint" ∷ []

abbrev pub clock_names : List String
clock_names = "wall" ∷ "monotonic" ∷ "both" ∷ []

abbrev pub allow_stamp_names : List String
allow_stamp_names = "none" ∷ "single" ∷ "dual" ∷ []

unfoldable pub parse_stamp_at : String → ℕ ⊎ Code
parse_stamp_at = parse_name invalid_stamp_at_string at_none stamp_at_names

unfoldable pub parse_clock : String → ℕ ⊎ Code
parse_clock = parse_name invalid_clock_string wall clock_names

unfoldable pub parse_allow_stamp : String → ℕ ⊎ Code
parse_allow_stamp = parse_name invalid_allow_stamp_string 0 allow_stamp_names

-- `String` of the three types; `none` is the text with the number in it, for a value out of range.
unfoldable pub stamp_at_name : ℕ → Option String
stamp_at_name at = get_elem? stamp_at_names at

unfoldable pub clock_name : ℕ → Option String
clock_name c = if c == 0 then none else get_elem? clock_names (c - 1)

unfoldable pub allow_stamp_name : ℕ → Option String
allow_stamp_name a = get_elem? allow_stamp_names a

-- `clockFromBools`
unfoldable pub clock_from_bools : Bool → Bool → Option ℕ
clock_from_bools true true = some both_clocks
clock_from_bools true false = some wall
clock_from_bools false true = some monotonic
clock_from_bools false false = none

-- `AllowStamp`
abbrev pub no_stamp : ℕ
no_stamp = 0

abbrev pub single_stamp : ℕ
single_stamp = 1

abbrev pub dual_stamps : ℕ
dual_stamps = 2

-- `AllowStamp.Restrict`
unfoldable pub restrict : ℕ → ℕ → Option ℕ
restrict a at =
    if at == at_none
    then some at_none
    else if a == no_stamp
    then some at_none
    else if a == single_stamp
    then some (if at == at_both then at_midpoint else at)
    else if a == dual_stamps
    then some at
    else none
