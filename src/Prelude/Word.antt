-- ===== src/Prelude/Word.antt =====
-- Go's 64-bit integers: an `int64` is an integer in range, and arithmetic wraps around 2 ^ 64.
use Prim.Native.Nat.{ℕ, suc, ◌-◌, ◌/◌, ◌%◌, ◌^◌, ◌<◌}
use mathlib.Core.Path.{◌≡◌}
use native.Mathlib.Omega.{arith}
use irtt.Prelude.Tests.{ltb, if◌then◌else◌}
use irtt.Prelude.Int.{ℤ, pos, negsuc, sub_ℕ, ◌+ℤ◌, ◌-ℤ◌, ◌*ℤ◌, ◌≤ℤ◌}

-- The integer that a 64-bit pattern stands for, as in `int64(w)`.
abbrev pub signed64 : ℕ → ℤ
signed64 w = if ltb w (2 ^ 63) then pos w else negsuc (2 ^ 64 - w - 1)

-- The pattern of an integer, as in `uint64(z)`.
abbrev pub unsigned64 : ℤ → ℕ
unsigned64 (pos n) = n % 2 ^ 64
unsigned64 (negsuc n) = 2 ^ 64 - 1 - n % 2 ^ 64

abbrev pub wrap64 : ℤ → ℤ
wrap64 z = signed64 (unsigned64 z)

abbrev pub IsInt64 : ℤ → Type 0
IsInt64 z = (negsuc (2 ^ 63 - 1) ≤ℤ z) × (z ≤ℤ pos (2 ^ 63 - 1))

abbrev pub IsUint64 : ℕ → Type 0
IsUint64 w = w < 2 ^ 64

pub signed64-unsigned64 : (z : ℤ) → IsInt64 z → signed64 (unsigned64 z) ≡ z
signed64-unsigned64 (pos n) h = ground arith
signed64-unsigned64 (negsuc n) h = ground arith

pub unsigned64-signed64 : (w : ℕ) → IsUint64 w → unsigned64 (signed64 w) ≡ w
unsigned64-signed64 w h = ground arith

-- `a + b` and `a - b` on `int64` and `time.Duration`
unfoldable pub add64 : ℤ → ℤ → ℤ
unfolding ◌+ℤ◌
add64 a b = wrap64 (a +ℤ b)

unfoldable pub sub64 : ℤ → ℤ → ℤ
unfolding ◌-ℤ◌
sub64 a b = wrap64 (a -ℤ b)

unfoldable pub mul64 : ℤ → ℤ → ℤ
unfolding ◌*ℤ◌
mul64 a b = wrap64 (a *ℤ b)

-- `a / k` for a positive constant `k`: towards zero
unfoldable pub quot : ℤ → ℕ → ℤ
quot (pos n) k = pos (n / k)
quot (negsuc n) k = sub_ℕ 0 (suc n / k)

-- Where the true sum or difference is an `int64`, it is the result.
pub add64_exact : (a b : ℤ) → IsInt64 (a +ℤ b) → add64 a b ≡ a +ℤ b
unfolding add64
add64_exact a b h = signed64-unsigned64 (a +ℤ b) h

pub sub64_exact : (a b : ℤ) → IsInt64 (a -ℤ b) → sub64 a b ≡ a -ℤ b
unfolding sub64
sub64_exact a b h = signed64-unsigned64 (a -ℤ b) h

pub mul64_exact : (a b : ℤ) → IsInt64 (a *ℤ b) → mul64 a b ≡ a *ℤ b
unfolding mul64
mul64_exact a b h = signed64-unsigned64 (a *ℤ b) h
