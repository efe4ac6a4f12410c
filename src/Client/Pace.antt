-- ===== src/Client/Pace.antt =====
-- client.go: when the client sends its packets: the arithmetic of `next_send`.
use native.Mathlib.Nat.{
  div-add-mod, mod-lt, le-div_iff_mul-le, mul-div-le, mul_comm, mul-suc, mul-add, mul-le-mul_left,
}
use irtt.Prelude.{
  ℕ, zero, suc, ◌+◌, ◌*◌, ◌/◌, ◌%◌, ◌^◌, ◌≤◌, ◌<◌, ◌≡◌, refl, ◌∙◌, ◌⊎◌, inl, inr, true, List, [],
  ◌∷◌, Option, some, arith, ltb, if◌then◌else◌, Bool-cases,
}
use irtt.Prelude.Int.{pos, ltb_ℤ}
use irtt.Prelude.Word.{add64, sub64, mul64, quot}
use irtt.Time.{Time, sub, add, before}
use irtt.Recorder.{divide, remainder}
use irtt.Client.Send.{Turn, next_send}

-- The number of the interval at which the next packet is sent, for a packet sent after `s` nanoseconds and the
-- time `n` nanoseconds after the start.
unfoldable pub slot : ℕ → ℕ → ℕ → ℕ
slot i s n = n / i + (if ltb (s % i) (i / 2) then 1 else 2)

div_mono : (i s n : ℕ) → 0 < i → s ≤ n → s / i ≤ n / i
div_mono i s n h o = (le-div_iff_mul-le h).1 (omega (arith, mul_comm i (s / i), mul-div-le s i))

-- Fewer than `q` whole intervals
below : (i c q r : ℕ) → 0 < i → i * c ≤ i * q + r → r < i → c ≤ q
below i c q r h e l = elim (cases c q) [
  | inl z ↦ z
  | inr z ↦ absurd (omega (arith, mul-le-mul_left i z, mul-suc i q))
]
  where
    cases : (c q : ℕ) → (c ≤ q) ⊎ (suc q ≤ c)
    cases c q = ground arith

-- A packet that was planned for interval `c` and was sent no earlier than half an interval before it is
-- followed by one in a later interval.
pub slot_later : (i c s n : ℕ) → 0 < i → i * c ≤ s + i / 2 → s ≤ n → c < slot i s n
unfolding slot
slot_later i c s n h e o = elim (Bool-cases (ltb (s % i) (i / 2))) [
  | inl z ↦ rw z (
      omega (
        arith,
        below i c (s / i) (s % i + i / 2) h (omega (arith, div-add-mod s i)) (first (s % i) i z),
        div_mono i s n h o,
      ))
  | inr z ↦ rw z (
      omega (
        arith,
        below i c (suc (s / i)) (i / 2) h
            (omega (arith, div-add-mod s i, mod-lt s h, mul-suc i (s / i))) (half i h),
        div_mono i s n h o,
      ))
]
  where
    first : (r i : ℕ) → ltb r (i / 2) ≡ true → r + i / 2 < i
    first r i z = ground arith

    half : (i : ℕ) → 0 < i → i / 2 < i
    half i h = omega arith

pub sub_mono :
    (t u : Time) (a b : ℕ)
    → t.mono ≡ pos (b + a)
    → u.mono ≡ pos b
    → 0 < b
    → b + a < 2 ^ 63
    → sub t u ≡ some (pos a)
unfolding sub sub64
sub_mono t u a b e f h l = rw (e, f) (ground arith)

abbrev pub at_time : ℕ → ℕ → Time
at_time w m = record { wall = pos w; mono = pos m }

pub add_time :
    (w m d : ℕ)
    → 0 < w
    → 0 < m
    → w + d < 2 ^ 63
    → m + d < 2 ^ 63
    → add (at_time w m) (pos d) ≡ some (at_time (w + d) (m + d))
unfolding add add64
add_time w m d hw hm lw lm = ground arith

pub before_time :
    (w m v n : ℕ) → 0 < m → 0 < n → before (at_time w m) (at_time v n) ≡ some (ltb m n)
unfolding before
before_time w m v n h l = ground arith

mul_small : (a b : ℕ) → a * b < 2 ^ 63 → mul64 (pos a) (pos b) ≡ pos (a * b)
unfolding mul64
mul_small a b h = ground arith

same_time :
    {w m v n : ℕ} → w ≡ v → m ≡ n → ◌≡◌ {A = Option Time} (some (at_time w m)) (some (at_time v n))
same_time e f = rw (e, f) refl

same_test : (a b : ℕ) → ltb (a + 0) (b + 0) ≡ ltb a b
same_test a b = ground arith

-- One interval further, or two
further :
    (w m i r : ℕ)
    → 0 < w
    → 0 < m
    → w + 2 * i < 2 ^ 63
    → m + 2 * i < 2 ^ 63
    → (if ltb_ℤ (pos r) (quot (pos i) 2)
        then add (at_time w m) (pos i)
        else add (at_time w m) (mul64 (pos 2) (pos i)))
      ≡ some (
          at_time
            (w + i * (if ltb r (i / 2) then 1 else 2))
            (m + i * (if ltb r (i / 2) then 1 else 2)))
unfolding quot
further w m i r hw hm l k = elim (Bool-cases (ltb r (i / 2))) [
  | inl z ↦
      rw (same_test r (i / 2), z)
        (add_time w m i hw hm (omega arith) (omega arith) ∙ same_time (omega arith) (omega arith))
  | inr z ↦
      rw (same_test r (i / 2), z, mul_small 2 i (omega arith))
        (add_time w m (2 * i) hw hm (omega arith) (omega arith)
          ∙ same_time (omega arith) (omega arith))
]

-- The next send is planned for the start of an interval.
pub next_send_lem :
    (w m i s n : ℕ) (now tsent : Time)
    → 0 < i
    → 0 < w
    → 0 < m
    → now.mono ≡ pos (m + n)
    → tsent.mono ≡ pos (m + s)
    → s ≤ n
    → w + m + n + 2 * i < 2 ^ 63
    → next_send (pos i) (at_time w m) now tsent
      ≡ some (at_time (w + i * slot i s n) (m + i * slot i s n))
unfolding next_send slot divide remainder quot
next_send_lem w m zero s n now tsent h hw hm en es o l = absurd (omega arith)
next_send_lem w m (suc j) s n now tsent h hw hm en es o l =
    let i = suc j in
    rw
      (
        sub_mono now (at_time w m) n m en refl hm (omega arith),
        sub_mono tsent (at_time w m) s m es refl hm (omega arith),
        mul_small i (n / i) (omega (arith, mul-div-le n i)),
        add_time w m (i * (n / i)) hw hm (omega (arith, mul-div-le n i))
            (omega (arith, mul-div-le n i)),
      )
      (further (w + i * (n / i)) (m + i * (n / i)) i (s % i) (omega arith) (omega arith)
          (omega (arith, mul-div-le n i)) (omega (arith, mul-div-le n i))
        ∙ same_time (omega (arith, mul-add i (n / i) (if ltb (s % i) (i / 2) then 1 else 2)))
            (omega (arith, mul-add i (n / i) (if ltb (s % i) (i / 2) then 1 else 2))))

-- The turns of a loop that started `m` nanoseconds after the clock's zero, the first of them planned for
-- interval `c`: no packet is sent more than half an interval before the time that was planned for it, and the
-- clock does not go back between a send and what follows it, or overflow.
pub data IsOnTime (i w m : ℕ) : ℕ → List Turn → Type 0 where
  no_more : {c : ℕ} → IsOnTime i w m c []
  one_more :
      {c : ℕ} {t : Turn} {turns : List Turn} (s n : ℕ)
      → t.net.sent_at.mono ≡ pos (m + s)
      → t.now.mono ≡ pos (m + n)
      → s ≤ n
      → i * c ≤ s + i / 2
      → w + m + n + 2 * i < 2 ^ 63
      → IsOnTime i w m (slot i s n) turns
      → IsOnTime i w m c (t ∷ turns)
