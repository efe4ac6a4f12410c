-- ===== src/Prelude/Slice.antt =====
-- Parts of an array: `slice p n xs` is what Go writes `xs[p : p+n]`, and `overwrite d src xs` the
-- array after `copy(xs[d:], src)`.
use Prim.Native.Nat.{ℕ, zero, suc, ◌+◌, ◌≤◌}
use mathlib.Core.Path.{◌≡◌, refl, ap, ◌∙◌}
use mathlib.Core.List.{List, [], ◌∷◌}
use native.Mathlib.Omega.{arith}
use irtt.Prelude.Lists.{length, take, drop, length-take, length-drop}

module _ {ℓ} {A : Type ℓ} where
  abbrev pub slice : ℕ → ℕ → List A → List A
  slice p n xs = take n (drop p xs)

  -- `copy(xs, src)`
  abbrev pub write_front : List A → List A → List A
  write_front [] xs = xs
  write_front (s ∷ src) [] = []
  write_front (s ∷ src) (x ∷ xs) = s ∷ write_front src xs

  abbrev pub overwrite : ℕ → List A → List A → List A
  overwrite zero src xs = write_front src xs
  overwrite (suc d) src [] = []
  overwrite (suc d) src (x ∷ xs) = x ∷ overwrite d src xs

module _ {ℓ} {A : Type ℓ} where
  length-write_front : (src xs : List A) → length (write_front src xs) ≡ length xs
  length-write_front [] xs = refl
  length-write_front (s ∷ src) [] = refl
  length-write_front (s ∷ src) (x ∷ xs) = ap suc (length-write_front src xs)

  pub length-overwrite : (d : ℕ) (src xs : List A) → length (overwrite d src xs) ≡ length xs
  length-overwrite zero src xs = length-write_front src xs
  length-overwrite (suc d) src [] = refl
  length-overwrite (suc d) src (x ∷ xs) = ap suc (length-overwrite d src xs)

  pub length-slice : (p n : ℕ) (xs : List A) → p + n ≤ length xs → length (slice p n xs) ≡ n
  length-slice p n xs h = omega (arith, length-take n (drop p xs), length-drop p xs)

  pub take-nil : (n : ℕ) → ◌≡◌ {A = List A} (take n []) []
  take-nil zero = refl
  take-nil (suc n) = refl

  pub drop-nil : (n : ℕ) → ◌≡◌ {A = List A} (drop n []) []
  drop-nil zero = refl
  drop-nil (suc n) = refl

  take-overwrite : (n d : ℕ) (src xs : List A) → n ≤ d → take n (overwrite d src xs) ≡ take n xs
  take-overwrite zero d src xs h = refl
  take-overwrite (suc n) zero src xs h = absurd (omega arith)
  take-overwrite (suc n) (suc d) src [] h = refl
  take-overwrite (suc n) (suc d) src (x ∷ xs) h =
      ap (λ t. x ∷ t) (take-overwrite n d src xs (omega arith))

  -- A copy leaves alone what stands before it,
  pub slice-overwrite_before :
      (p n d : ℕ) (src xs : List A) → p + n ≤ d → slice p n (overwrite d src xs) ≡ slice p n xs
  slice-overwrite_before zero n d src xs h = take-overwrite n d src xs (omega arith)
  slice-overwrite_before (suc p) n zero src xs h = absurd (omega arith)
  slice-overwrite_before (suc p) n (suc d) src [] h = refl
  slice-overwrite_before (suc p) n (suc d) src (x ∷ xs) h =
      slice-overwrite_before p n d src xs (omega arith)

  slice-write_front_after :
      (p n : ℕ) (src xs : List A) → length src ≤ p → slice p n (write_front src xs) ≡ slice p n xs
  slice-write_front_after p n [] xs h = refl
  slice-write_front_after zero n (s ∷ src) xs h = absurd (omega arith)
  slice-write_front_after (suc p) n (s ∷ src) [] h = refl
  slice-write_front_after (suc p) n (s ∷ src) (x ∷ xs) h =
      slice-write_front_after p n src xs (omega arith)

  -- and what stands behind it;
  pub slice-overwrite_after :
      (p n d : ℕ) (src xs : List A)
      → d + length src ≤ p
      → slice p n (overwrite d src xs) ≡ slice p n xs
  slice-overwrite_after p n zero src xs h = slice-write_front_after p n src xs (omega arith)
  slice-overwrite_after zero n (suc d) src xs h = absurd (omega arith)
  slice-overwrite_after (suc p) n (suc d) src [] h = refl
  slice-overwrite_after (suc p) n (suc d) src (x ∷ xs) h =
      slice-overwrite_after p n d src xs (omega arith)

  take-write_front :
      (n : ℕ) (src xs : List A)
      → n ≤ length src
      → length src ≤ length xs
      → take n (write_front src xs) ≡ take n src
  take-write_front zero src xs h k = refl
  take-write_front (suc n) [] xs h k = absurd (omega arith)
  take-write_front (suc n) (s ∷ src) [] h k = absurd (omega arith)
  take-write_front (suc n) (s ∷ src) (x ∷ xs) h k =
      ap (λ t. s ∷ t) (take-write_front n src xs (omega arith) (omega arith))

  slice-write_front :
      (k n : ℕ) (src xs : List A)
      → k + n ≤ length src
      → length src ≤ length xs
      → slice k n (write_front src xs) ≡ slice k n src
  slice-write_front zero n src xs h e = take-write_front n src xs (omega arith) e
  slice-write_front (suc k) n [] xs h e = absurd (omega arith)
  slice-write_front (suc k) n (s ∷ src) [] h e = absurd (omega arith)
  slice-write_front (suc k) n (s ∷ src) (x ∷ xs) h e =
      slice-write_front k n src xs (omega arith) (omega arith)

  -- inside it one reads the source.
  pub slice-overwrite_inside :
      (d k n q : ℕ) (src xs : List A)
      → q ≡ d + k
      → k + n ≤ length src
      → d + length src ≤ length xs
      → slice q n (overwrite d src xs) ≡ slice k n src
  slice-overwrite_inside zero k n q src xs e h b =
      let e' : q ≡ k = omega arith in rw e' (slice-write_front k n src xs h (omega arith))
  slice-overwrite_inside (suc d) k n zero src xs e h b = absurd (omega arith)
  slice-overwrite_inside (suc d) k n (suc q) src [] e h b = absurd (omega arith)
  slice-overwrite_inside (suc d) k n (suc q) src (x ∷ xs) e h b =
      slice-overwrite_inside d k n q src xs (omega arith) h (omega arith)

  drop-take :
      (k n m : ℕ) (xs : List A) → k + n ≤ m → take n (drop k (take m xs)) ≡ take n (drop k xs)
  drop-take zero zero m xs h = refl
  drop-take zero (suc n) zero xs h = absurd (omega arith)
  drop-take zero (suc n) (suc m) [] h = refl
  drop-take zero (suc n) (suc m) (x ∷ xs) h = ap (λ t. x ∷ t) (drop-take zero n m xs (omega arith))
  drop-take (suc k) n zero xs h = absurd (omega arith)
  drop-take (suc k) n (suc m) [] h = refl
  drop-take (suc k) n (suc m) (x ∷ xs) h = drop-take k n m xs (omega arith)

  drop-drop : (k p q : ℕ) (xs : List A) → q ≡ p + k → drop k (drop p xs) ≡ drop q xs
  drop-drop k zero q xs e = let e' : q ≡ k = omega arith in rw e'
  drop-drop k (suc p) zero xs e = absurd (omega arith)
  drop-drop k (suc p) (suc q) [] e = drop-nil k
  drop-drop k (suc p) (suc q) (x ∷ xs) e = drop-drop k p q xs (omega arith)

  -- A part of a part.
  pub slice-slice :
      (k n p m q : ℕ) (xs : List A)
      → q ≡ p + k
      → k + n ≤ m
      → slice k n (slice p m xs) ≡ slice q n xs
  slice-slice k n p m q xs e h = rw (drop-take k n m (drop p xs) h, drop-drop k p q xs e)

  pub take_all : (n : ℕ) (xs : List A) → length xs ≤ n → take n xs ≡ xs
  take_all zero [] h = refl
  take_all zero (x ∷ xs) h = absurd (omega arith)
  take_all (suc n) [] h = refl
  take_all (suc n) (x ∷ xs) h = ap (λ t. x ∷ t) (take_all n xs (omega arith))

  -- What was copied in is read back.
  pub slice-overwrite_self :
      (d n : ℕ) (src xs : List A)
      → n ≡ length src
      → d + n ≤ length xs
      → slice d n (overwrite d src xs) ≡ src
  slice-overwrite_self d n src xs e h =
      slice-overwrite_inside d 0 n d src xs (omega arith) (omega arith) (omega arith)
      ∙ take_all n src (omega arith)
