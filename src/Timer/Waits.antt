-- ===== src/Timer/Waits.antt =====
-- timer.go: the busy loop waits until its time.
use mathlib.Core.Option.{some-injective}
use mathlib.Core.Path.{subst}
use irtt.Prelude.{
  ◌≡◌, ap, ◌∙◌, true, false, List, [], ◌∷◌, some, ◌⊎◌, inl, inr, bind-inv, Bool-cases,
}
use irtt.Time.{Time, before}
use irtt.Timer.{Slept, Poll, done, tick, poll_until}

-- What the loop returns is not before its time, unless the context was done.
pub IsWaited : Time → Slept ⊎ Time → Type 0
IsWaited e (inl s) = s.cancelled ≡ false → before s.now e ≡ some false
IsWaited e (inr t) = before t e ≡ some true

-- Whatever the clock shows, the busy loop of a timer returns at no time before the one that it waits for, unless
-- the context was done; and as long as it has not returned, the last time it read is before that.
pub poll_until-IsWaited :
    (e : Time) (polls : List Poll) (now : Time) (r : Slept ⊎ Time)
    → poll_until e polls now ≡ some r
    → IsWaited e r
unfolding poll_until IsWaited
poll_until-IsWaited e [] now r q =
    let (early, z, q1) = bind-inv (before now e) _ q in
    elim (Bool-cases early) [
      | inl y ↦ subst (IsWaited e) (some-injective _ r (rw y at q1)) (z ∙ ap some y)
      | inr y ↦ subst (IsWaited e) (some-injective _ r (rw y at q1)) (λ _. z ∙ ap some y)
    ]
poll_until-IsWaited e (done ∷ polls) now r q =
    let (early, z, q1) = bind-inv (before now e) _ q in
    subst (IsWaited e) (some-injective _ r q1) (λ y. z ∙ ap some y)
poll_until-IsWaited e (tick t ∷ polls) now r q =
    let (early, z, q1) = bind-inv (before now e) _ q in
    elim (Bool-cases early) [
      | inl y ↦ poll_until-IsWaited e polls t r (rw y at q1)
      | inr y ↦ subst (IsWaited e) (some-injective _ r (rw y at q1)) (λ _. z ∙ ap some y)
    ]
