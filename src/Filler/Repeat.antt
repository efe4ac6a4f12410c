-- ===== src/Filler/Repeat.antt =====
-- filler.go: a pattern repeated without end, and its parts.
use native.Mathlib.Nat.{suc-mod, mod-eq_of_lt}
use irtt.Prelude.{
  ℕ, zero, suc, ◌+◌, ◌-◌, ◌%◌, ◌<◌, ◌≤◌, ◌≡◌, refl, ap, ◌∙◌, sym, List, [], ◌∷◌, ◌++◌, arith, min,
  length, take, drop, get_or,
}
use irtt.Prelude.Slice.{write_front}
use irtt.Filler.{}

-- `n` bytes of the pattern repeated without end, from its byte `t` on.
unfoldable pub repeated : List ℕ → ℕ → ℕ → List ℕ
repeated bytes t zero = []
repeated bytes t (suc n) = get_or bytes (t % length bytes) 0 ∷ repeated bytes (suc t) n

module _ (bytes : List ℕ) where
  pub length-repeated : (t n : ℕ) → length (repeated bytes t n) ≡ n
  unfolding repeated
  length-repeated t zero = refl
  length-repeated t (suc n) = ap suc (length-repeated (suc t) n)

  pub repeated-add :
      (t m n : ℕ) → repeated bytes t (m + n) ≡ repeated bytes t m ++ repeated bytes (t + m) n
  unfolding repeated
  repeated-add t zero n =
      let q : 0 + n ≡ n = omega arith in let q' : t + 0 ≡ t = omega arith in rw (q, q') refl
  repeated-add t (suc m) n =
      let q : suc m + n ≡ suc (m + n) = omega arith in
      let q' : t + suc m ≡ suc t + m = omega arith in
      rw (q, q') (ap (λ r. get_or bytes (t % length bytes) 0 ∷ r) (repeated-add (suc t) m n))

  pub drop-repeated : (p t n : ℕ) → drop p (repeated bytes t n) ≡ repeated bytes (t + p) (n - p)
  unfolding repeated
  drop-repeated zero t n =
      let q : t + 0 ≡ t = omega arith in let q' : n - 0 ≡ n = omega arith in rw (q, q') refl
  drop-repeated (suc p) t zero = let q : zero - suc p ≡ zero = omega arith in rw q refl
  drop-repeated (suc p) t (suc n) =
      let q : t + suc p ≡ suc t + p = omega arith in
      let q' : suc n - suc p ≡ n - p = omega arith in rw (q, q') (drop-repeated p (suc t) n)

  pub take-repeated : (k t n : ℕ) → take k (repeated bytes t n) ≡ repeated bytes t (min k n)
  unfolding repeated
  take-repeated zero t n = let q : min zero n ≡ zero = omega arith in rw q refl
  take-repeated (suc k) t zero = let q : min (suc k) zero ≡ zero = omega arith in rw q refl
  take-repeated (suc k) t (suc n) =
      let q : min (suc k) (suc n) ≡ suc (min k n) = omega arith in
      rw q (ap (λ r. get_or bytes (t % length bytes) 0 ∷ r) (take-repeated k (suc t) n))

  -- The start only counts up to whole patterns.
  pub repeated-start :
      (s t n : ℕ) → s % length bytes ≡ t % length bytes → repeated bytes s n ≡ repeated bytes t n
  unfolding repeated
  repeated-start s t zero e = refl
  repeated-start s t (suc n) e = rw e (
      ap (λ r. get_or bytes (t % length bytes) 0 ∷ r)
        (repeated-start (suc s) (suc t) n (
          suc-mod s (length bytes)
          ∙ (ap (λ m. suc m % length bytes) e ∙ sym (suc-mod t (length bytes))))))

get_or-drop : (t : ℕ) (xs : List ℕ) → t < length xs → drop t xs ≡ get_or xs t 0 ∷ drop (suc t) xs
get_or-drop t [] h = absurd (omega arith)
get_or-drop zero (x ∷ xs) h = refl
get_or-drop (suc t) (x ∷ xs) h = get_or-drop t xs (omega arith)

-- Within the pattern,
pub repeated_within :
    (bytes : List ℕ) (t n : ℕ) → t + n ≤ length bytes → repeated bytes t n ≡ take n (drop t bytes)
unfolding repeated
repeated_within bytes t zero h = refl
repeated_within bytes t (suc n) h =
    rw (get_or-drop t bytes (omega arith), mod-eq_of_lt {n = t} {m = length bytes} (omega arith))
      (ap (λ r. get_or bytes t 0 ∷ r) (repeated_within bytes (suc t) n (omega arith)))

pub take-write_front_all :
    (bytes xs : List ℕ) → take (length bytes) (write_front bytes xs) ≡ take (length xs) bytes
take-write_front_all [] [] = refl
take-write_front_all [] (x ∷ xs) = refl
take-write_front_all (b ∷ bytes) [] = refl
take-write_front_all (b ∷ bytes) (x ∷ xs) = ap (λ r. b ∷ r) (take-write_front_all bytes xs)

pub drop-write_front_all :
    (bytes xs : List ℕ) → drop (length bytes) (write_front bytes xs) ≡ drop (length bytes) xs
drop-write_front_all [] xs = refl
drop-write_front_all (b ∷ bytes) [] = refl
drop-write_front_all (b ∷ bytes) (x ∷ xs) = drop-write_front_all bytes xs

pub take_min : (n : ℕ) (xs : List ℕ) → take n xs ≡ take (min n (length xs)) xs
take_min zero xs = let q : min zero (length xs) ≡ zero = omega arith in rw q refl
take_min (suc n) [] = let q : min (suc n) zero ≡ zero = omega arith in rw q refl
take_min (suc n) (x ∷ xs) =
    let q : min (suc n) (suc (length xs)) ≡ suc (min n (length xs)) = omega arith in
    rw q (ap (λ r. x ∷ r) (take_min n xs))
