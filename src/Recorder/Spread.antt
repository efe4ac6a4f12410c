-- ===== src/Recorder/Spread.antt =====
-- recorder.go: what `DurationStats` has kept of the durations that were pushed.
use irtt.Prelude.{
  ℕ, zero, suc, ◌^◌, ◌<◌, ◌≡◌, refl, ap, ◌∙◌, sym, List, [], ◌∷◌, some, arith, length, get_elem?,
  ◌⊎◌, Bool, ◌-◌, if◌then◌else◌, ==-eq-false, inl, inr, true, false,
}
use irtt.Prelude.Int.{ℤ, pos, ltb_ℤ, ◌≤ℤ◌, ◌+ℤ◌}
use irtt.Prelude.Word.{wrap64, IsInt64, add64}
use irtt.Recorder.{DurationStats, push, no_stats}
use mathlib.Core.Option.{some-injective, none-ne-some}

-- The statistics after durations, of which the last pushed stands first.
unfoldable pub pushes : List ℤ → DurationStats
pushes [] = no_stats
pushes (d ∷ ds) = push d (pushes ds)

unfoldable pub total_of : List ℤ → ℤ
total_of [] = pos 0
total_of (d ∷ ds) = d +ℤ total_of ds

-- The statistics are those of `ds`: their number, their sum on an int64, and their bounds, which are reached.
pub record IsSummary (ds : List ℤ) (s : DurationStats) : Type 0 where
  pub count : s.n ≡ length ds
  pub sum : s.total ≡ wrap64 (total_of ds)
  pub bounds : (i : ℕ) (x : ℤ) → get_elem? ds i ≡ some x → (s.min ≤ℤ x) × (x ≤ℤ s.max)
  pub least : 0 < length ds → (i : ℕ) × (get_elem? ds i ≡ some s.min)
  pub greatest : 0 < length ds → (i : ℕ) × (get_elem? ds i ≡ some s.max)

wrap_add : (d z : ℤ) → add64 (wrap64 z) d ≡ wrap64 (d +ℤ z)
unfolding add64 ◌+ℤ◌
wrap_add d z = ground arith

wrap_one : (d : ℤ) → IsInt64 d → d ≡ wrap64 (d +ℤ pos 0)
unfolding ◌+ℤ◌
wrap_one d h = ground arith

first_lem : (d : ℤ) → IsInt64 d → IsSummary (d ∷ []) (push d no_stats)
unfolding push total_of
first_lem d h = record {
  count = omega arith;
  sum = wrap_one d h;
  bounds = λ i x e. only i x e;
  least = λ _. (0, refl);
  greatest = λ _. (0, refl);
}
  where
    only : (i : ℕ) (x : ℤ) → get_elem? (d ∷ []) i ≡ some x → (d ≤ℤ x) × (x ≤ℤ d)
    only zero x e = let q : d ≡ x = some-injective _ _ e in rw q (omega arith, omega arith)
    only (suc i) x e = absurd (none-ne-some x e)

-- The bounds after one more duration.
low : ℤ → DurationStats → ℤ
low d s = if ltb_ℤ d s.min then d else s.min

high : ℤ → DurationStats → ℤ
high d s = if ltb_ℤ s.max d then d else s.max

low_lem : (d : ℤ) (s : DurationStats) → (low d s ≤ℤ d) × (low d s ≤ℤ s.min)
unfolding low
low_lem d s = (ground arith, ground arith)

high_lem : (d : ℤ) (s : DurationStats) → (d ≤ℤ high d s) × (s.max ≤ℤ high d s)
unfolding high
high_lem d s = (ground arith, ground arith)

if_which : (b : Bool) (x y : ℤ) → ((if b then x else y) ≡ x) ⊎ ((if b then x else y) ≡ y)
if_which true x y = inl refl
if_which false x y = inr refl

low_which : (d : ℤ) (s : DurationStats) → (low d s ≡ d) ⊎ (low d s ≡ s.min)
unfolding low
low_which d s = if_which (ltb_ℤ d s.min) d s.min

high_which : (d : ℤ) (s : DurationStats) → (high d s ≡ d) ⊎ (high d s ≡ s.max)
unfolding high
high_which d s = if_which (ltb_ℤ s.max d) d s.max

module _ (d e : ℤ) (ds : List ℤ) (s : DurationStats) (g : IsSummary (e ∷ ds) s) where
  stays : (i : ℕ) (x : ℤ) → get_elem? (d ∷ e ∷ ds) i ≡ some x → (low d s ≤ℤ x) × (x ≤ℤ high d s)
  stays zero x q =
      let q' : d ≡ x = some-injective _ _ q in rw (sym q') ((low_lem d s).0, (high_lem d s).0)
  stays (suc i) x q =
      let (a, b) = g.bounds i x q in
      (omega (arith, (low_lem d s).1), omega (arith, (high_lem d s).1))

  push_next : suc (suc (length ds)) < 2 ^ 64 → IsSummary (d ∷ e ∷ ds) (push d s)
  unfolding push total_of low high
  push_next h = rw (==-eq-false s.n 0 (λ z. omega (arith, g.count))) (record {
    count = omega (arith, g.count);
    sum = ap (λ t. add64 t d) g.sum ∙ wrap_add d (total_of (e ∷ ds));
    bounds = stays;
    least = λ _. elim (low_which d s) [
      | inl q ↦ (0, ap some (sym q))
      | inr q ↦ let (i, r) = g.least (omega arith) in (suc i, r ∙ ap some (sym q))
    ];
    greatest = λ _. elim (high_which d s) [
      | inl q ↦ (0, ap some (sym q))
      | inr q ↦ let (i, r) = g.greatest (omega arith) in (suc i, r ∙ ap some (sym q))
    ];
  })

-- `DurationStats` keeps of any durations, fewer than 2 ^ 64 of them and each an int64, their number, their
-- sum on an int64, and a minimum and a maximum that bound all of them and are among them.
pub pushes-IsSummary :
    (d : ℤ) (ds : List ℤ)
    → length ds < 2 ^ 64 - 1
    → ((i : ℕ) (x : ℤ) → get_elem? (d ∷ ds) i ≡ some x → IsInt64 x)
    → IsSummary (d ∷ ds) (pushes (d ∷ ds))
unfolding pushes
pushes-IsSummary d [] h k = first_lem d (k 0 d refl)
pushes-IsSummary d (e ∷ ds) h k =
    push_next d e ds (pushes (e ∷ ds))
      (pushes-IsSummary e ds (omega arith) (λ i x q. k (suc i) x q)) (omega arith)
