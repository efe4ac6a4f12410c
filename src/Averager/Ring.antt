-- ===== src/Averager/Ring.antt =====
-- averager.go: what a `WindowAverager` averages.
use native.Mathlib.Nat.{
  div-add-mod, mod-lt, mod-le, mod-eq_of_lt, suc-mod, mod_self, mul-le-mul_left, mul-suc,
}
use mathlib.Core.Path.{subst}
use irtt.Prelude.{
  ℕ, zero, suc, ◌+◌, ◌/◌, ◌%◌, ◌≤◌, ◌<◌, min, ◌≡◌, ◌≢◌, refl, ap, ◌∙◌, sym, ◌⊎◌, inl, inr, true,
  false, List, Option, some, arith, ◌==◌, leb, lt→ltb, leb→le, leb-eq-true, if◌then◌else◌, ◌>>=◌,
  Bool-cases, length, set, get_elem?, take, length-replicate, length-set, get_elem?-set_self,
  get_elem?-set_ne,
}
use irtt.Prelude.Int.{pos}
use irtt.Prelude.Float.{Float64}
use irtt.Averager.{WindowAverager, new_window_average, push_window, sum_values, average_window}

-- The averager after the values `v 0` … `v (n - 1)`
unfoldable pub pushes : ℕ → (ℕ → ℕ) → WindowAverager → Option WindowAverager
pushes zero v wa = some wa
pushes (suc n) v wa = do wa' ← pushes n v wa; push_window (v n) wa'

-- Its state: the position, whether the window was filled, and the last values, as many as the window has room for.
pub record IsHolding (w n : ℕ) (v : ℕ → ℕ) (wa : WindowAverager) : Type 0 where
  pub window : wa.window ≡ w
  pub size : length wa.values ≡ w
  pub position : wa.at ≡ n % w
  pub full : wa.filled ≡ leb w n
  pub held : (t : ℕ) → t < n → n ≤ t + w → get_elem? wa.values (t % w) ≡ some (v t)

-- Two of `w` numbers in a row have different places.
apart : (w t n : ℕ) → t < n → n < t + w → t % w ≢ n % w
apart w t n h l e = elim (order (n / w) (t / w)) [
  | inl q ↦ absurd (omega (arith, div-add-mod n w, div-add-mod t w, mul-le-mul_left w q))
  | inr q ↦
      absurd
        (omega (arith, div-add-mod n w, div-add-mod t w, mul-le-mul_left w q, mul-suc w (t / w)))
]
  where
    order : (a b : ℕ) → (a ≤ b) ⊎ (suc b ≤ a)
    order a b = ground arith

next_place : (w n : ℕ) → 0 < w → (if n % w + 1 == w then 0 else n % w + 1) ≡ suc n % w
next_place w n h = elim (Bool-cases (n % w + 1 == w)) [
  | inl z ↦ rw z (sym (suc-mod n w ∙ (ap (λ x. x % w) (whole (n % w) z) ∙ mod_self w)))
  | inr z ↦
      rw z (one_more (n % w) ∙ sym (suc-mod n w ∙ mod-eq_of_lt (within (n % w) z (mod-lt n h))))
]
  where
    one_more : (r : ℕ) → r + 1 ≡ suc r
    one_more r = omega arith

    whole : (r : ℕ) → (r + 1 == w) ≡ true → suc r ≡ w
    whole r z = ground arith

    within : (r : ℕ) → (r + 1 == w) ≡ false → r < w → suc r < w
    within r z l = ground arith

now_full : (w n : ℕ) → 0 < w → (if n % w + 1 == w then true else leb w n) ≡ leb w (suc n)
now_full w n h = at (n % w) (mod-le n w) (mod-lt n h) small
  where
    small : n < w → n % w ≡ n
    small l = mod-eq_of_lt l

    cases : (n w : ℕ) → (n < w) ⊎ (w ≤ n)
    cases n w = ground arith

    at :
        (r : ℕ)
        → r ≤ n
        → r < w
        → (n < w → r ≡ n)
        → (if r + 1 == w then true else leb w n) ≡ leb w (suc n)
    at r a b c = elim (cases n w) [ inl l ↦ let e = c l in ground arith | inr l ↦ ground arith ]

module _ (w n : ℕ) (v : ℕ → ℕ) (wa : WindowAverager) (some_room : 0 < w)
    (g : IsHolding w n v wa) where
  place : wa.at < length wa.values
  place = omega (arith, g.position, g.size, mod-lt n some_room)

  pushed : WindowAverager
  pushed = record wa {
    values = set wa.values wa.at (v n);
    at = if wa.at + 1 == wa.window then 0 else wa.at + 1;
    filled = if wa.at + 1 == wa.window then true else wa.filled;
  }

  push_window-pushed : push_window (v n) wa ≡ some pushed
  unfolding push_window pushed
  push_window-pushed = rw (lt→ltb wa.at (length wa.values) place) refl

  pushed-IsHolding : IsHolding w (suc n) v pushed
  unfolding pushed
  pushed-IsHolding = record {
    window = g.window;
    size = length-set wa.values wa.at (v n) ∙ g.size;
    position = rw (g.position, g.window) (next_place w n some_room);
    full = rw (g.position, g.window, g.full) (now_full w n some_room);
    held = λ t a b. elim (last t a) [
      | inl e ↦
          subst (λ i. get_elem? (set wa.values wa.at (v n)) i ≡ some (v t))
            (g.position ∙ ap (λ i. i % w) (sym e))
            (get_elem?-set_self wa.values wa.at (v n) place ∙ ap (λ i. some (v i)) (sym e))
      | inr l ↦
          get_elem?-set_ne wa.values (v n) (λ e. apart w t n l (omega arith) (sym e ∙ g.position))
          ∙ g.held t l (omega arith)
    ];
  }
    where
      last : (t : ℕ) → t < suc n → (t ≡ n) ⊎ (t < n)
      last t a = ground arith

-- A full window holds the last values, one at the place of each; before it is full, all of them.
pub pushes-IsHolding :
    (w : ℕ) (v : ℕ → ℕ) (n : ℕ)
    → 0 < w
    → (wa : WindowAverager) × (pushes n v (new_window_average w) ≡ some wa) × IsHolding w n v wa
unfolding pushes new_window_average
pushes-IsHolding w v zero h = (
  new_window_average w,
  refl,
  record {
    window = refl;
    size = length-replicate w 0;
    position = sym (mod-eq_of_lt h);
    full = empty w h;
    held = λ t a. absurd (omega arith);
  },
)
  where
    empty : (w : ℕ) → 0 < w → false ≡ leb w 0
    empty w h = ground arith
pushes-IsHolding w v (suc n) h =
    let (wa, e, g) = pushes-IsHolding w v n h in
    (pushed w n v wa h g, rw e (push_window-pushed w n v wa h g), pushed-IsHolding w n v wa h g)

-- The average of what a window holds after `n` values
unfoldable pub mean_of : Float64 → ℕ → ℕ → List ℕ → ℕ
mean_of f w n values =
    if n == 0
    then f.of_int (pos 0)
    else f.over (sum_values f (f.of_int (pos 0)) (take (min n w) values)) (f.of_int (pos (min n w)))

averaged :
    (f : Float64) (w n : ℕ) (v : ℕ → ℕ) (wa : WindowAverager)
    → 0 < w
    → IsHolding w n v wa
    → average_window f wa ≡ some (mean_of f w n wa.values)
unfolding average_window mean_of
averaged f w n v wa h g = elim (Bool-cases (leb w n)) [
  | inl z ↦
      rw
        (
          g.full,
          z,
          g.window,
          g.size,
          leb-eq-true w w (omega arith),
          some_pushed z,
          least n w (leb→le w n z),
        )
        refl
  | inr z ↦ elim (Bool-cases (n == 0)) [
    | inl y ↦ rw (g.full, z, g.position, mod-eq_of_lt (below w n z), y) refl
    | inr y ↦
        rw
          (
            g.full,
            z,
            g.position,
            mod-eq_of_lt (below w n z),
            y,
            g.size,
            leb-eq-true n w (omega (arith, below w n z)),
            most n w (below w n z),
          )
          refl
  ]
]
  where
    least : (n w : ℕ) → w ≤ n → min n w ≡ w
    least n w l = omega arith

    most : (n w : ℕ) → n < w → min n w ≡ n
    most n w l = omega arith

    some_pushed : leb w n ≡ true → (n == 0) ≡ false
    some_pushed z = ground arith

    below : (w n : ℕ) → leb w n ≡ false → n < w
    below w n z = ground arith

-- After `n` values, a window averager for `w` of them gives the sum of what it holds over their number, the lesser
-- of the two, or 0 if there are none; and what it holds at place `t % w` is value `t`, for each of the last `w`.
pub pushes-average :
    (f : Float64) (w : ℕ) (v : ℕ → ℕ) (n : ℕ)
    → 0 < w
    → (wa : WindowAverager) × (pushes n v (new_window_average w) ≡ some wa)
      × (average_window f wa ≡ some (mean_of f w n wa.values))
      × ((t : ℕ) → t < n → n ≤ t + w → get_elem? wa.values (t % w) ≡ some (v t))
pushes-average f w v n h =
    let (wa, e, g) = pushes-IsHolding w v n h in (wa, e, averaged f w n v wa h g, g.held)
