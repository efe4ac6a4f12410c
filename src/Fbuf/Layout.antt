-- ===== src/Fbuf/Layout.antt =====
-- Where the fields of a buffer stand: one behind the other, each absent or whole.
use irtt.Prelude.{
  ℕ, zero, suc, ◌+◌, ◌≤◌, ◌<◌, ◌≡◌, refl, ap, ◌⊎◌, inl, inr, Bool, false, ◌||◌, List, [], ◌∷◌,
  Option, none, some, arith, ◌==◌, if◌then◌else◌, get_elem?, Bool-cases,
}
use mathlib.Core.Option.{some-injective}
use irtt.Fbuf.{Field, Fbuf, sum_lens, sum_caps, capacity, named, advance, set_loop, add_loop}

-- The fields stand without gaps from position `p` on.
abbrev pub IsLaid : ℕ → List Field → Type 0
IsLaid p [] = Unit {0}
IsLaid p (f ∷ fs) = (f.pos ≡ p) × ((f.len ≡ 0) ⊎ (f.len ≡ f.cap)) × IsLaid (p + f.len) fs

pub record IsValid (fb : Fbuf) : Type 0 where
  pub laid : IsLaid 0 fb.fields
  pub fits : sum_lens fb.fields ≤ fb.blen
  pub shown : fb.blen ≤ capacity fb
  pub room : sum_caps fb.fields ≤ capacity fb

pub set_loop-IsLaid : (xs : List ℕ) (j p : ℕ) (fs : List Field) → IsLaid p (set_loop xs j p fs).0
unfolding set_loop
set_loop-IsLaid xs j p [] = tt
set_loop-IsLaid xs j p (f ∷ fs) = elim (Bool-cases (named xs j)) [
  | inl e ↦ rw e (refl, inr refl, set_loop-IsLaid (advance xs j) (j + 1) (p + f.cap) fs)
  | inr e ↦ rw e (refl, inl refl, set_loop-IsLaid (advance xs j) (j + 1) (p + 0) fs)
]

pub add_loop-IsLaid :
    (xs : List ℕ) (j p q : ℕ) (fs : List Field) → IsLaid q fs → IsLaid p (add_loop xs j p fs).0
unfolding add_loop
add_loop-IsLaid xs j p q [] h = tt
add_loop-IsLaid xs j p q (f ∷ fs) (e, w, h) = elim (Bool-cases (named xs j)) [
  | inl e ↦ rw e (refl, inr refl, add_loop-IsLaid (advance xs j) (j + 1) (p + f.cap) _ fs h)
  | inr e ↦ rw e (refl, w, add_loop-IsLaid (advance xs j) (j + 1) (p + f.len) _ fs h)
]

-- The last `pos` of the loops is the end of the fields.
pub set_loop_end :
    (xs : List ℕ) (j p : ℕ) (fs : List Field)
    → (set_loop xs j p fs).1 ≡ p + sum_lens (set_loop xs j p fs).0
unfolding set_loop sum_lens
set_loop_end xs j p [] = omega arith
set_loop_end xs j p (f ∷ fs) =
    let len = if named xs j then f.cap else 0 in
    omega (arith, set_loop_end (advance xs j) (j + 1) (p + len) fs)

pub add_loop_end :
    (xs : List ℕ) (j p : ℕ) (fs : List Field)
    → (add_loop xs j p fs).1 ≡ p + sum_lens (add_loop xs j p fs).0
unfolding add_loop sum_lens
add_loop_end xs j p [] = omega arith
add_loop_end xs j p (f ∷ fs) =
    let len = if named xs j then f.cap else f.len in
    omega (arith, add_loop_end (advance xs j) (j + 1) (p + len) fs)

pub sum_caps-set_loop :
    (xs : List ℕ) (j p : ℕ) (fs : List Field) → sum_caps (set_loop xs j p fs).0 ≡ sum_caps fs
unfolding set_loop sum_caps
sum_caps-set_loop xs j p [] = refl
sum_caps-set_loop xs j p (f ∷ fs) =
    let len = if named xs j then f.cap else 0 in
    omega (arith, sum_caps-set_loop (advance xs j) (j + 1) (p + len) fs)

pub sum_caps-add_loop :
    (xs : List ℕ) (j p : ℕ) (fs : List Field) → sum_caps (add_loop xs j p fs).0 ≡ sum_caps fs
unfolding add_loop sum_caps
sum_caps-add_loop xs j p [] = refl
sum_caps-add_loop xs j p (f ∷ fs) =
    let len = if named xs j then f.cap else f.len in
    omega (arith, sum_caps-add_loop (advance xs j) (j + 1) (p + len) fs)

-- In whole fields the lengths stay within the capacities.
pub sum_lens-le-sum_caps : (p : ℕ) (fs : List Field) → IsLaid p fs → sum_lens fs ≤ sum_caps fs
unfolding sum_lens sum_caps
sum_lens-le-sum_caps p [] h = omega arith
sum_lens-le-sum_caps p (f ∷ fs) (e, w, h) = omega (arith, sum_lens-le-sum_caps (p + f.len) fs h)

-- A field lies within the fields' bytes.
pub IsLaid-get_elem? :
    (p i : ℕ) (fs : List Field) {fld : Field}
    → IsLaid p fs
    → get_elem? fs i ≡ some fld
    → (p ≤ fld.pos) × (fld.pos + fld.len ≤ p + sum_lens fs) × ((fld.len ≡ 0) ⊎ (fld.len ≡ fld.cap))
unfolding sum_lens
IsLaid-get_elem? p i [] h e = cc
IsLaid-get_elem? p zero (f ∷ fs) h e = ground arith
IsLaid-get_elem? p (suc i) (f ∷ fs) (ep, w, h) e =
    let r = IsLaid-get_elem? (p + f.len) i fs h e in (omega arith, omega arith, r.2)

-- Every list of indices that grows, as those of packet.go do.
abbrev pub IsIncreasing : ℕ → List ℕ → Type 0
IsIncreasing lo [] = Unit {0}
IsIncreasing lo (x ∷ xs) = (lo ≤ x) × IsIncreasing (x + 1) xs

abbrev pub contains : List ℕ → ℕ → Bool
contains [] k = false
contains (x ∷ xs) k = k == x || contains xs k

contains_below : (lo k : ℕ) (xs : List ℕ) → IsIncreasing lo xs → k < lo → contains xs k ≡ false
contains_below lo k [] h l = refl
contains_below lo k (x ∷ xs) h l = ground (arith, contains_below (x + 1) k xs h.1 (omega arith))

IsIncreasing-weaken :
    (lo lo' : ℕ) (xs : List ℕ) → IsIncreasing lo xs → lo' ≤ lo → IsIncreasing lo' xs
IsIncreasing-weaken lo lo' [] h l = tt
IsIncreasing-weaken lo lo' (x ∷ xs) h l = (omega arith, h.1)

named-contains : (j : ℕ) (xs : List ℕ) → IsIncreasing j xs → named xs j ≡ contains xs j
named-contains j [] h = refl
named-contains j (x ∷ xs) h = ground (arith, contains_below (x + 1) j xs h.1)

advance-IsIncreasing :
    (j : ℕ) (xs : List ℕ) → IsIncreasing j xs → IsIncreasing (j + 1) (advance xs j)
advance-IsIncreasing j [] h = tt
advance-IsIncreasing j (x ∷ xs) (l, h) = elim (Bool-cases (j == x)) [
  | inl e ↦ rw e (IsIncreasing-weaken (x + 1) (j + 1) xs h (omega arith))
  | inr e ↦ rw e (ground arith, h)
]

contains-advance :
    (j k : ℕ) (xs : List ℕ) → IsIncreasing j xs → j < k → contains (advance xs j) k ≡ contains xs k
contains-advance j k [] h l = refl
contains-advance j k (x ∷ xs) h l = ground arith

-- What is said of a field's length by the loops, its capacity being kept.
abbrev pub HasLen : Field → Option Field → ℕ → Type 0
HasLen f none n = ⊥
HasLen f (some g) n = (g.len ≡ n) × (g.cap ≡ f.cap)

-- After the loops of `setFields` exactly the named fields are there,
pub set_loop-get_elem? :
    (xs : List ℕ) (j p i k : ℕ) (fs : List Field) {fld : Field}
    → IsIncreasing j xs
    → k ≡ j + i
    → get_elem? fs i ≡ some fld
    → HasLen fld (get_elem? (set_loop xs j p fs).0 i) (if contains xs k then fld.cap else 0)
unfolding set_loop
set_loop-get_elem? xs j p i k [] inc ek e = cc
set_loop-get_elem? xs j p zero k (f ∷ fs) inc ek e =
    let ek' : k ≡ j = omega arith in rw (ek', named-contains j xs inc) (ground arith, ground arith)
set_loop-get_elem? xs j p (suc i) k (f ∷ fs) inc ek e =
    let rest =
      set_loop-get_elem? (advance xs j) (j + 1) (p + (if named xs j then f.cap else 0)) i k fs
        (advance-IsIncreasing j xs inc) (omega arith) e in
    rw (contains-advance j k xs inc (omega arith)) at rest

-- and after those of `addFields` the others are as they were.
pub add_loop-get_elem? :
    (xs : List ℕ) (j p i k : ℕ) (fs : List Field) {fld : Field}
    → IsIncreasing j xs
    → k ≡ j + i
    → get_elem? fs i ≡ some fld
    → HasLen fld (get_elem? (add_loop xs j p fs).0 i) (if contains xs k then fld.cap else fld.len)
unfolding add_loop
add_loop-get_elem? xs j p i k [] inc ek e = cc
add_loop-get_elem? xs j p zero k (f ∷ fs) inc ek e =
    let ek' : k ≡ j = omega arith in rw (ek', named-contains j xs inc) (ground arith, ground arith)
add_loop-get_elem? xs j p (suc i) k (f ∷ fs) inc ek e =
    let rest =
      add_loop-get_elem? (advance xs j) (j + 1) (p + (if named xs j then f.cap else f.len)) i k fs
        (advance-IsIncreasing j xs inc) (omega arith) e in
    rw (contains-advance j k xs inc (omega arith)) at rest

-- Two fields do not share a byte: the one of the smaller index ends where the other begins, or before.
pub IsLaid-disjoint :
    (p i m : ℕ) (fs : List Field) {f g : Field}
    → IsLaid p fs
    → get_elem? fs i ≡ some f
    → get_elem? fs m ≡ some g
    → i < m
    → f.pos + f.len ≤ g.pos
IsLaid-disjoint p i m [] h e k l = cc
IsLaid-disjoint p zero zero (a ∷ fs) h e k l = absurd (omega arith)
IsLaid-disjoint p (suc i) zero (a ∷ fs) h e k l = absurd (omega arith)
IsLaid-disjoint p zero (suc m) (a ∷ fs) {f} (ea, w, h) e k l =
    let r = IsLaid-get_elem? (p + a.len) m fs h k in
    let eq = some-injective a f e in
    omega (arith, r.0, ap (λ (t : Field). t.pos) eq, ap (λ (t : Field). t.len) eq)
IsLaid-disjoint p (suc i) (suc m) (a ∷ fs) (ea, w, h) e k l =
    IsLaid-disjoint (p + a.len) i m fs h e k (omega arith)
