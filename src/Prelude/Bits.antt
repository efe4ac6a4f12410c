-- ===== src/Prelude/Bits.antt =====
-- The bits of a number: shifts of a 64-bit word, and the lowest bit set.
use Prim.Native.Nat.{
  ℕ, zero, suc, ◌+◌, ◌-◌, ◌*◌, ◌/◌, ◌%◌, ◌^◌, ◌≤◌, ◌<◌, min, max, bit_or, digits, bit_or-bitwise,
}
use mathlib.Core.Path.{◌≡◌, refl, sym, ap, ◌∙◌, subst}
use mathlib.Core.Logic.{◌⊎◌, inl, inr}
use mathlib.Core.Bool.{Bool, true, false}
use native.Mathlib.Omega.{arith}
use native.Mathlib.Nat.{
  div-div-eq-div-mul, mod-add-div, mul_assoc, pow-succ', zero-add, suc-add, sub-zero, max-zero,
  zero-max, max-eq_right, min-eq_left, min-eq_right, add-mul-mod_self_left, add-mul, mul-mod_left,
  le_of_lt, lt_of_lt_of_le,
}
use irtt.Prelude.Tests.{◌==◌, ltb, ltb-eq-false, lt→ltb, ==-eq-false, ==-eq-true, if◌then◌else◌}

-- Bit `k` of a number.
unfoldable pub bit : ℕ → ℕ → Bool
bit zero w = w % 2 == 1
bit (suc k) w = bit k (w / 2)

-- `w << n` on a uint64 is `n` shifts by one place.
unfoldable pub shift : ℕ → ℕ → ℕ
shift zero w = w
shift (suc n) w = shift n (w * 2 % 2 ^ 64)

-- After 64 of them nothing is left, whatever `n` is.
unfoldable pub shl64 : ℕ → ℕ → ℕ
shl64 w n = shift (min n 64) w

half_mod : (w m : ℕ) → (w % (2 * m)) / 2 ≡ (w / 2) % m
half_mod w m = omega (
  arith,
  div-div-eq-div-mul w 2 m,
  mod-add-div w (2 * m),
  mod-add-div (w / 2) m,
  mul_assoc 2 m (w / 2 / m),
  ap (λ q. 2 * m * q) (div-div-eq-div-mul w 2 m),
)

low_bit : (w m : ℕ) → w % (2 * m) % 2 ≡ w % 2
low_bit w m = omega (arith, mod-add-div w (2 * m), mul_assoc 2 m (w / (2 * m)))

gone : (k n : ℕ) → k ≡ n → k - n ≡ 0
gone k n e = omega arith

suc_gone : (k n j : ℕ) → k ≡ suc (j + n) → k - n ≡ suc j
suc_gone k n j e = omega arith

all_gone : (k n j : ℕ) → k ≡ suc (j + n) → j ≡ k - suc n
all_gone k n j e = omega arith

compared : (k n : ℕ) → (k < n) ⊎ ((k ≡ n) ⊎ ((j : ℕ) × (k ≡ suc (j + n))))
compared zero zero = inr (inl refl)
compared zero (suc n) = inl (omega arith)
compared (suc k) zero = inr (inr (k, omega arith))
compared (suc k) (suc n) = elim (compared k n) [
  | inl l ↦ inl (omega arith)
  | inr (inl e) ↦ inr (inl (omega arith))
  | inr (inr (j, e)) ↦ inr (inr (j, omega arith))
]

bit-mod : (k m w : ℕ) → bit k (w % 2 ^ (k + suc m)) ≡ bit k w
unfolding bit
bit-mod zero m w = ap (λ b. b == 1) (low m w)
  where
    low : (m w : ℕ) → w % 2 ^ (0 + suc m) % 2 ≡ w % 2
    low m w = rw (zero-add (suc m), pow-succ' 2 m) (low_bit w (2 ^ m))
bit-mod (suc k) m w = ap (bit k) (half k m w) ∙ bit-mod k m (w / 2)
  where
    half : (k m w : ℕ) → (w % 2 ^ (suc k + suc m)) / 2 ≡ (w / 2) % 2 ^ (k + suc m)
    half k m w = rw (suc-add k (suc m), pow-succ' 2 (k + suc m)) (half_mod w (2 ^ (k + suc m)))

-- One place: bit `j` moves to `j + 1`.
bit-double : (j w : ℕ) → suc j < 64 → bit (suc j) (w * 2 % 2 ^ 64) ≡ bit j w
unfolding bit
bit-double j w h =
    ap (bit j) (step w)
    ∙ subst (λ e. bit j (w % 2 ^ e) ≡ bit j w) (enough j h) (bit-mod j (62 - j) w)
  where
    step : (w : ℕ) → (w * 2 % 2 ^ 64) / 2 ≡ w % 2 ^ 63
    step w = omega arith

    enough : (j : ℕ) → suc j < 64 → j + suc (62 - j) ≡ 63
    enough j h = omega arith

bit-zero_double : (w : ℕ) → bit 0 (w * 2 % 2 ^ 64) ≡ false
unfolding bit
bit-zero_double w = ==-eq-false _ 1 (λ e. omega arith)

moved :
    (k n w : ℕ)
    → k < 64
    → (if ltb k n then false else bit (k - n) (w * 2 % 2 ^ 64))
      ≡ (if ltb k (suc n) then false else bit (k - suc n) w)
moved k n w h = elim (compared k n) [
  | inl lt ↦ rw (lt→ltb k n lt, lt→ltb k (suc n) (omega arith)) refl
  | inr (inl e) ↦
      rw
        (
          ltb-eq-false k n (λ l. omega arith),
          lt→ltb k (suc n) (omega arith),
          ap (λ j. bit j (w * 2 % 2 ^ 64)) (gone k n e),
        )
        (bit-zero_double w)
  | inr (inr (j, e)) ↦
      rw (ltb-eq-false k n (λ l. omega arith), ltb-eq-false k (suc n) (λ l. omega arith))
        (ap (λ i. bit i (w * 2 % 2 ^ 64)) (suc_gone k n j e)
          ∙ (bit-double j w (omega arith) ∙ ap (λ i. bit i w) (all_gone k n j e)))
]

pub bit-shift :
    (k n w : ℕ) → k < 64 → bit k (shift n w) ≡ (if ltb k n then false else bit (k - n) w)
unfolding shift
bit-shift k zero w h = rw (ltb-eq-false k 0 (λ l. omega arith), sub-zero k) refl
bit-shift k (suc n) w h = bit-shift k n (w * 2 % 2 ^ 64) h ∙ moved k n w h

abbrev or_digits : ℕ → ℕ → ℕ → ℕ
or_digits n a b = digits (λ b. b) max n a b

or_digits_fuel : (n m a b : ℕ) → a ≤ n → a ≤ m → or_digits n a b ≡ or_digits m a b
or_digits_fuel zero zero a b p q = refl
or_digits_fuel zero (suc m) zero b p q = refl
or_digits_fuel zero (suc m) (suc a) b p q = absurd (omega arith)
or_digits_fuel (suc n) zero zero b p q = refl
or_digits_fuel (suc n) zero (suc a) b p q = absurd (omega arith)
or_digits_fuel (suc n) (suc m) zero b p q = refl
or_digits_fuel (suc n) (suc m) (suc a) b p q =
    ap (λ d. d * 2 + max (suc a % 2) (b % 2))
      (or_digits_fuel n m (suc a / 2) (b / 2) (omega arith) (omega arith))

zero-bit_or : (b : ℕ) → bit_or 0 b ≡ b
zero-bit_or b = bit_or-bitwise 0 b

bit_or_step : (a b : ℕ) → bit_or a b ≡ bit_or (a / 2) (b / 2) * 2 + max (a % 2) (b % 2)
bit_or_step zero b = omega (arith, zero-bit_or b, zero-bit_or (b / 2), zero-max (b % 2))
bit_or_step (suc a) b =
    bit_or-bitwise (suc a) b
    ∙ ap (λ d. d * 2 + max (suc a % 2) (b % 2))
        (or_digits_fuel a (suc a / 2) (suc a / 2) (b / 2) (omega arith) (omega arith)
          ∙ sym (bit_or-bitwise (suc a / 2) (b / 2)))

bit_or-zero_fuel : (n a : ℕ) → a ≤ n → bit_or a 0 ≡ a
bit_or-zero_fuel n zero h = refl
bit_or-zero_fuel zero (suc a) h = absurd (omega arith)
bit_or-zero_fuel (suc n) (suc a) h = omega (
  arith,
  bit_or_step (suc a) 0,
  max-zero (suc a % 2),
  bit_or-zero_fuel n (suc a / 2) (omega arith),
)

-- The lowest bit set.
pub bit_or-one : (a : ℕ) → bit_or a 1 ≡ a / 2 * 2 + 1
bit_or-one a =
    omega
      (arith, bit_or_step a 1, bit_or-zero_fuel (a / 2) (a / 2) (omega arith), max-eq_right (low a))
  where
    low : (a : ℕ) → a % 2 ≤ 1
    low a = omega arith

pub bit-bit_or_one : (k w : ℕ) → bit k (bit_or w 1) ≡ (if k == 0 then true else bit k w)
unfolding bit
bit-bit_or_one zero w = ==-eq-true _ 1 (omega (arith, bit_or-one w))
bit-bit_or_one (suc k) w =
    rw (==-eq-false (suc k) 0 (λ e. omega arith)) (ap (bit k) (omega (arith, bit_or-one w)))

pub shl64-lt : (w n : ℕ) → w < 2 ^ 64 → shl64 w n < 2 ^ 64
unfolding shl64 shift
shl64-lt w n h = go (min n 64) w h
  where
    go : (n w : ℕ) → w < 2 ^ 64 → shift n w < 2 ^ 64
    go zero w h = h
    go (suc n) w h = go n (w * 2 % 2 ^ 64) (omega arith)

-- Beyond the word's width no bit is left of it.
pub bit-shl64 :
    (k n w : ℕ) → k < 64 → bit k (shl64 w n) ≡ (if ltb k n then false else bit (k - n) w)
unfolding shl64
bit-shl64 k n w h = bit-shift k (min n 64) w h ∙ capped k n w h
  where
    above : (n j : ℕ) → n ≡ suc (j + 64) → 64 ≤ n
    above n j e = omega arith

    capped :
        (k n w : ℕ)
        → k < 64
        → (if ltb k (min n 64) then false else bit (k - min n 64) w)
          ≡ (if ltb k n then false else bit (k - n) w)
    capped k n w h = elim (compared n 64) [
      | inl l ↦ rw (min-eq_left (le_of_lt l)) refl
      | inr (inl e) ↦ rw e refl
      | inr (inr (j, e)) ↦
          rw
            (min-eq_right (above n j e), lt→ltb k 64 h, lt→ltb k n (lt_of_lt_of_le h (above n j e)))
            refl
    ]

mul-mod : (x p m : ℕ) → ((x % m) * p) % m ≡ (x * p) % m
mul-mod x p m =
    sym (add-mul-mod_self_left (x % m * p) m (x / m * p))
    ∙ ap (λ t. t % m)
        (ap (λ t. x % m * p + t) (sym (mul_assoc m (x / m) p))
          ∙ (sym (add-mul (x % m) (m * (x / m)) p) ∙ ap (λ t. t * p) (mod-add-div x m)))

shift_lem : (n w : ℕ) → w < 2 ^ 64 → shift n w ≡ (w * 2 ^ n) % 2 ^ 64
unfolding shift
shift_lem zero w h = omega arith
shift_lem (suc n) w h =
    shift_lem n (w * 2 % 2 ^ 64) (omega arith)
    ∙ (mul-mod (w * 2) (2 ^ n) (2 ^ 64)
        ∙ ap (λ t. t % 2 ^ 64) (mul_assoc w 2 (2 ^ n) ∙ ap (λ t. w * t) (sym (pow-succ' 2 n))))

pub shl64_all : (w n : ℕ) → w < 2 ^ 64 → 64 ≤ n → shl64 w n ≡ 0
unfolding shl64
shl64_all w n h l = rw (min-eq_right l, shift_lem 64 w h) (mul-mod_left w (2 ^ 64))
