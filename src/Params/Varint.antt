-- ===== src/Params/Varint.antt =====
-- `PutUvarint`, `Uvarint`, `PutVarint` and `Varint` of Go's encoding/binary, which params.go calls:
-- seven bits a byte, the lowest first, with the top bit set on every byte but the last.
use mathlib.Core.Path.{ap₂}
use irtt.Prelude.{
  ℕ, zero, suc, ◌+◌, ◌*◌, ◌/◌, ◌%◌, ◌^◌, ◌≤◌, ◌<◌, ◌≡◌, refl, ap, ◌∙◌, ◌&&◌, List, [], ◌∷◌, ◌++◌,
  arith, ◌==◌, ltb, if◌then◌else◌, length, lt→ltb, ltb-eq-false,
}
use irtt.Prelude.Int.{ℤ, pos, negsuc}
use irtt.Prelude.Word.{IsInt64, IsUint64}
use native.Mathlib.Nat.{div-add-mod}
use native.Mathlib.Decide.{dec_lt}
use native.Mathlib.Numerals.{towards_suc}

-- At most `more` bytes with the top bit, and a last one.
unfoldable pub uvarint_bytes : ℕ → ℕ → List ℕ
uvarint_bytes zero x = x ∷ []
uvarint_bytes (suc more) x =
    let rest = uvarint_bytes more (x / 128) in if ltb x 128 then x ∷ [] else (x % 128 + 128) ∷ rest

-- Ten bytes hold a `uint64`.
unfoldable pub put_uvarint : ℕ → List ℕ
put_uvarint x = uvarint_bytes 9 x

-- The results of `binary.Uvarint`: the value with the number of bytes read, a count of 0 at the end of
-- the buffer, a negative count for more than 64 bits.
pub data Uvarint : Type 0 where
  value : ℕ → ℕ → Uvarint
  too_short too_long : Uvarint

-- The list is what is left of the buffer, `i` the index. Or-ing a group of bits into `x` is a sum,
-- since `x` has no bits from `s` on.
unfoldable pub uvarint_loop : ℕ → ℕ → ℕ → List ℕ → Uvarint
uvarint_loop i x s [] = too_short
uvarint_loop i x s (b ∷ bs) =
    let more = uvarint_loop (i + 1) (x + b % 128 * 2 ^ s % 2 ^ 64) (s + 7) bs in
    if i == 10
    then too_long
    else if ltb b 128
    then (if (i == 9) && ltb 1 b then too_long else value (x + b * 2 ^ s % 2 ^ 64) (i + 1))
    else more

unfoldable pub uvarint : List ℕ → Uvarint
uvarint b = uvarint_loop 0 0 0 b

-- `PutVarint` and `Varint` map signed integers to unsigned ones with the sign in the lowest bit.
unfoldable pub zigzag : ℤ → ℕ
zigzag (pos n) = n * 2 % 2 ^ 64
zigzag (negsuc n) = (n * 2 + 1) % 2 ^ 64

unfoldable pub from_zigzag : ℕ → ℤ
from_zigzag u = if u % 2 == 0 then pos (u / 2) else negsuc (u / 2)

unfoldable pub put_varint : ℤ → List ℕ
put_varint v = put_uvarint (zigzag v)

pub from_zigzag-zigzag : (v : ℤ) → IsInt64 v → from_zigzag (zigzag v) ≡ v
unfolding from_zigzag zigzag
from_zigzag-zigzag (pos n) h = ground arith
from_zigzag-zigzag (negsuc n) h = ground arith

pub zigzag-IsUint64 : (v : ℤ) → IsUint64 (zigzag v)
unfolding zigzag
zigzag-IsUint64 (pos n) = omega arith
zigzag-IsUint64 (negsuc n) = omega arith

-- One round on the last byte and on a byte before it.
last_round :
    (w i x s : ℕ) (rest : List ℕ)
    → w < 128
    → i < 10
    → (i ≡ 9 → w ≤ 1)
    → w * 2 ^ s < 2 ^ 64
    → uvarint_loop i x s (w ∷ rest) ≡ value (x + w * 2 ^ s) (i + 1)
unfolding uvarint_loop
last_round w i x s rest hw hi top fits = ground arith

inner_round :
    (g i x s : ℕ) (rest : List ℕ)
    → g < 128
    → i < 10
    → g * 2 ^ s < 2 ^ 64
    → uvarint_loop i x s ((g + 128) ∷ rest) ≡ uvarint_loop (i + 1) (x + g * 2 ^ s) (s + 7) rest
unfolding uvarint_loop
inner_round g i x s rest hg hi fits = ground arith

next_shift : (s : ℕ) → 2 ^ (s + 7) ≡ 128 * 2 ^ s
next_shift s = simp towards_suc (omega arith)

-- The lowest seven bits of `w`, and the others, at shift `s`.
groups : (w s : ℕ) → w * 2 ^ s ≡ w % 128 * 2 ^ s + w / 128 * 2 ^ (s + 7)
groups w s = omega (
  arith,
  ap (λ (t : ℕ). t * 2 ^ s) (div-add-mod w 128),
  ap (λ (t : ℕ). w / 128 * t) (next_shift s),
)

uvarint_loop-uvarint_bytes :
    (k w i x s : ℕ) (rest : List ℕ)
    → k + i ≡ 9
    → s ≡ 7 * i
    → w * 2 ^ s < 2 ^ 64
    → uvarint_loop i x s (uvarint_bytes k w ++ rest)
      ≡ value (x + w * 2 ^ s) (i + length (uvarint_bytes k w))
unfolding uvarint_bytes
uvarint_loop-uvarint_bytes zero w i x s rest e es fits =
    let e63 : s ≡ 63 = omega arith in
    let small : w * 2 ^ 63 < 2 ^ 64 = rw e63 at fits in
    last_round w i x s rest (omega arith) (omega arith) (λ _. omega arith) fits
uvarint_loop-uvarint_bytes (suc k) w i x s rest e es fits = elim (dec_lt w 128) [
  | yes l ↦
      rw (lt→ltb w 128 l)
        (last_round w i x s rest l (omega arith) (λ i9. absurd (omega arith)) fits)
  | no l ↦
      let parts = groups w s in
      let ih =
        uvarint_loop-uvarint_bytes k (w / 128) (i + 1) (x + w % 128 * 2 ^ s) (s + 7) rest
          (omega arith) (omega arith) (omega arith) in
      rw (ltb-eq-false w 128 l) (
        inner_round (w % 128) i x s _ (omega arith) (omega arith) (omega arith)
        ∙ ih
        ∙ ap₂ value (omega (arith, parts)) (omega arith))
]

-- `Uvarint` reads what `PutUvarint` wrote, whatever follows it.
pub uvarint-put_uvarint :
    (w : ℕ) (rest : List ℕ)
    → IsUint64 w
    → uvarint (put_uvarint w ++ rest) ≡ value w (length (put_uvarint w))
unfolding uvarint put_uvarint
uvarint-put_uvarint w rest h =
    uvarint_loop-uvarint_bytes 9 w 0 0 0 rest refl refl (omega arith)
    ∙ ap₂ value (omega arith) (omega arith)

length-uvarint_bytes :
    (k w : ℕ) → (1 ≤ length (uvarint_bytes k w)) × (length (uvarint_bytes k w) ≤ k + 1)
unfolding uvarint_bytes
length-uvarint_bytes zero w = omega arith
length-uvarint_bytes (suc k) w = ground (arith, length-uvarint_bytes k (w / 128))

pub length-put_uvarint : (w : ℕ) → (1 ≤ length (put_uvarint w)) × (length (put_uvarint w) ≤ 10)
unfolding put_uvarint
length-put_uvarint w = length-uvarint_bytes 9 w

pub length-put_uvarint_small : (w : ℕ) → w < 128 → length (put_uvarint w) ≡ 1
unfolding put_uvarint uvarint_bytes
length-put_uvarint_small w h = ground arith

-- A successful `Uvarint` reads a byte at least, and no further than the buffer goes.
uvarint_loop_count :
    (b : List ℕ) (i x s v n : ℕ) → uvarint_loop i x s b ≡ value v n → (i < n) × (n ≤ i + length b)
unfolding uvarint_loop
uvarint_loop_count [] i x s v n e = cc
uvarint_loop_count (c ∷ b) i x s v n e =
    ground (arith, uvarint_loop_count b (i + 1) (x + c % 128 * 2 ^ s % 2 ^ 64) (s + 7) v n)

pub uvarint_count : (b : List ℕ) (v n : ℕ) → uvarint b ≡ value v n → (0 < n) × (n ≤ length b)
unfolding uvarint
uvarint_count b v n e = omega (arith, uvarint_loop_count b 0 0 0 v n e)
