-- ===== src/Prelude/Dict.antt =====
-- Go's maps with integer keys, as association lists.
use Prim.Native.Nat.{ℕ}
use mathlib.Core.Path.{◌≡◌, refl, sym, ap, ◌∙◌}
use mathlib.Core.Logic.{inl, inr}
use mathlib.Core.Bool.{true}
use mathlib.Core.Option.{Option, none, some}
use mathlib.Core.List.{List, [], ◌∷◌}
use irtt.Prelude.Tests.{◌==◌, if◌then◌else◌, ==-eq-true, ==-eq-false, ==_iff, Bool-cases}

abbrev pub Dict {ℓ} : Type ℓ → Type ℓ
Dict V = List (ℕ × V)

unfoldable pub lookup {ℓ} : {V : Type ℓ} → ℕ → Dict V → Option V
lookup k [] = none
lookup k ((j, v) ∷ m) = if j == k then some v else lookup k m

-- `delete(m, k)`
unfoldable pub erase {ℓ} : {V : Type ℓ} → ℕ → Dict V → Dict V
erase k [] = []
erase k ((j, v) ∷ m) = let rest = erase k m in if j == k then rest else ((j, v) ∷ rest)

-- `m[k] = v`
unfoldable pub insert {ℓ} : {V : Type ℓ} → ℕ → V → Dict V → Dict V
insert k v m = (k, v) ∷ erase k m

pub lookup-erase {ℓ} : {V : Type ℓ} (k : ℕ) (m : Dict V) → lookup k (erase k m) ≡ none
unfolding lookup erase
lookup-erase k [] = refl
lookup-erase k ((j, v) ∷ m) = elim (Bool-cases (j == k)) [
  | inl e ↦ rw e (lookup-erase k m)
  | inr e ↦ rw e (rw (e, lookup) (lookup-erase k m))
]

pub lookup-erase_ne {ℓ} :
    {V : Type ℓ} (k l : ℕ) (m : Dict V) → ¬ (l ≡ k) → lookup l (erase k m) ≡ lookup l m
unfolding lookup erase
lookup-erase_ne k l [] h = refl
lookup-erase_ne k l ((j, v) ∷ m) h = elim (Bool-cases (j == k)) [
  | inl e ↦ rw (e, ==-eq-false j l (other k l j e h)) (lookup-erase_ne k l m h)
  | inr e ↦ rw e (ap (λ r. if j == l then some v else r) (lookup-erase_ne k l m h))
]
  where
    other : (k l j : ℕ) → (j == k) ≡ true → ¬ (l ≡ k) → ¬ (j ≡ l)
    other k l j e h q = h (sym q ∙ (==_iff j k).0 e)

pub lookup-insert {ℓ} : {V : Type ℓ} (k : ℕ) (v : V) (m : Dict V) → lookup k (insert k v m) ≡ some v
unfolding lookup insert
lookup-insert k v m = rw (==-eq-true k k refl) refl

pub lookup-insert_ne {ℓ} :
    {V : Type ℓ} (k l : ℕ) (v : V) (m : Dict V) → ¬ (l ≡ k) → lookup l (insert k v m) ≡ lookup l m
unfolding lookup insert
lookup-insert_ne k l v m h = rw (==-eq-false k l (λ e. h (sym e))) (lookup-erase_ne k l m h)
