-- ===== src/Result/Loss.antt =====
-- result.go: what the status of a round trip says.
use irtt.Prelude.{
  ℕ, zero, suc, ◌+◌, ◌/◌, ◌%◌, ◌≡◌, refl, ap, ◌∙◌, Bool, true, false, ◌&&◌, ◌||◌, List, [], ◌∷◌,
  ◌++◌, some, arith, ◌==◌, ltb, if◌then◌else◌, length, get_elem?, Bool-cases, inl, inr,
  ltb-eq-false, lt→ltb,
}
use irtt.Prelude.Bits.{bit}
use irtt.Recorder.{RoundTripData, reply_received}
use mathlib.Core.Option.{some-injective, none-ne-some}
use irtt.Result.{
  Lost, lost_true, lost_down, lost_up, lost_false, mark, mark_window, has_window, set_lost,
  set_losses,
}

-- A reply whose window reaches the round trip `k + 1` before its own.
unfoldable pub covers : ℕ → ℕ → RoundTripData → Bool
covers stats k d = reply_received d && (has_window stats d && ltb k 63)

-- Such a reply whose window says that the server had received it.
unfoldable pub confirms : ℕ → ℕ → RoundTripData → Bool
confirms stats k d = covers stats k d && bit (suc k) d.received_window

-- Whether one of the round trips that follow does so; the first of them is at the distance `k + 1`.
unfoldable pub any_after : (ℕ → RoundTripData → Bool) → ℕ → List RoundTripData → Bool
any_after test k [] = false
any_after test k (d ∷ ds) = test k d || any_after test (suc k) ds

-- The status of a round trip, from its own reply and from the windows of the replies after it.
unfoldable pub status : ℕ → RoundTripData → List RoundTripData → Lost
status stats d after =
    if reply_received d
    then lost_false
    else if any_after (confirms stats) 0 after
    then lost_down
    else if any_after (covers stats) 0 after
    then lost_up
    else lost_true

-- What the turn of a later round trip does to a status at the distance `k + 1`.
touch : ℕ → ℕ → RoundTripData → Lost → Lost
touch stats k d l = if covers stats k d then mark (bit (suc k) d.received_window) l else l

settle : ℕ → ℕ → List RoundTripData → Lost → Lost
settle stats k [] l = l
settle stats k (d ∷ ds) l = settle stats (suc k) ds (touch stats k d l)

ltb-suc : (k n : ℕ) → ltb (suc k) (suc n) ≡ ltb k n
ltb-suc k n = ground arith

get_elem?-mark_window :
    (n w k : ℕ) (ls : List Lost) (l : Lost)
    → get_elem? ls k ≡ some l
    → get_elem? (mark_window n w ls) k ≡ some (if ltb k n then mark (bit k w) l else l)
unfolding mark_window bit
get_elem?-mark_window zero w k ls l e = rw (ltb-eq-false k 0 (λ h. omega arith)) e
get_elem?-mark_window (suc n) w k [] l e = absurd (none-ne-some l e)
get_elem?-mark_window (suc n) w zero (x ∷ ls) l e =
    rw (lt→ltb 0 (suc n) (omega arith))
      (ap (λ y. some (mark (w % 2 == 1) y)) (some-injective x l e))
get_elem?-mark_window (suc n) w (suc k) (x ∷ ls) l e =
    rw (ltb-suc k n) (get_elem?-mark_window n (w / 2) k ls l e)

get_elem?-set_lost :
    (stats k : ℕ) (d : RoundTripData) (ls : List Lost) (l : Lost)
    → get_elem? ls k ≡ some l
    → get_elem? (set_lost stats d ls) (suc k) ≡ some (touch stats k d l)
unfolding set_lost touch covers bit
get_elem?-set_lost stats k d ls l e = elim (Bool-cases (reply_received d)) [
  | inl y ↦ elim (Bool-cases (has_window stats d)) [
    | inl z ↦ rw (y, z) (get_elem?-mark_window 63 (d.received_window / 2) k ls l e)
    | inr z ↦ rw (y, z) e
  ]
  | inr y ↦ rw y e
]

get_elem?-set_losses :
    (stats k : ℕ) (ds : List RoundTripData) (ls : List Lost) (l : Lost)
    → get_elem? ls k ≡ some l
    → get_elem? (set_losses stats ds ls) (length ds + k) ≡ some (settle stats k ds l)
unfolding set_losses settle
get_elem?-set_losses stats k [] ls l e =
    let q : length {A = RoundTripData} [] + k ≡ k = omega arith in rw q e
get_elem?-set_losses stats k (d ∷ ds) ls l e =
    let q : suc (length ds) + k ≡ length ds + suc k = omega arith in
    rw q (
      get_elem?-set_losses stats (suc k) ds (set_lost stats d ls) (touch stats k d l)
        (get_elem?-set_lost stats k d ls l e))

mark-down : (b : Bool) → mark b lost_down ≡ lost_down
unfolding mark
mark-down true = refl
mark-down false = refl

mark-false : (b : Bool) → mark b lost_false ≡ lost_false
unfolding mark
mark-false true = refl
mark-false false = refl

if_same : (c : Bool) (x y : Lost) → x ≡ y → (if c then x else y) ≡ y
if_same true x y e = e
if_same false x y e = refl

settle-false : (stats k : ℕ) (ds : List RoundTripData) → settle stats k ds lost_false ≡ lost_false
unfolding settle touch
settle-false stats k [] = refl
settle-false stats k (d ∷ ds) =
    ap (settle stats (suc k) ds) (if_same (covers stats k d) _ lost_false (mark-false _))
    ∙ settle-false stats (suc k) ds

settle-down : (stats k : ℕ) (ds : List RoundTripData) → settle stats k ds lost_down ≡ lost_down
unfolding settle touch
settle-down stats k [] = refl
settle-down stats k (d ∷ ds) =
    ap (settle stats (suc k) ds) (if_same (covers stats k d) _ lost_down (mark-down _))
    ∙ settle-down stats (suc k) ds

settle-up :
    (stats k : ℕ) (ds : List RoundTripData)
    → settle stats k ds lost_up ≡ (if any_after (confirms stats) k ds then lost_down else lost_up)
unfolding settle touch any_after confirms mark
settle-up stats k [] = refl
settle-up stats k (d ∷ ds) = elim (Bool-cases (covers stats k d)) [
  | inl y ↦ elim (Bool-cases (bit (suc k) d.received_window)) [
    | inl z ↦ rw (y, z) (settle-down stats (suc k) ds)
    | inr z ↦ rw (y, z) (settle-up stats (suc k) ds)
  ]
  | inr y ↦ rw y (settle-up stats (suc k) ds)
]

settle-true :
    (stats k : ℕ) (ds : List RoundTripData)
    → settle stats k ds lost_true ≡ (
        if any_after (confirms stats) k ds
        then lost_down
        else if any_after (covers stats) k ds
        then lost_up
        else lost_true)
unfolding settle touch any_after confirms mark
settle-true stats k [] = refl
settle-true stats k (d ∷ ds) = elim (Bool-cases (covers stats k d)) [
  | inl y ↦ elim (Bool-cases (bit (suc k) d.received_window)) [
    | inl z ↦ rw (y, z) (settle-down stats (suc k) ds)
    | inr z ↦ rw (y, z) (settle-up stats (suc k) ds)
  ]
  | inr y ↦ rw y (settle-true stats (suc k) ds)
]

settle_lem :
    (stats : ℕ) (d : RoundTripData) (ds : List RoundTripData)
    → settle stats 0 ds (if reply_received d then lost_false else lost_true) ≡ status stats d ds
unfolding status
settle_lem stats d ds = elim (Bool-cases (reply_received d)) [
  | inl y ↦ rw y (settle-false stats 0 ds)
  | inr y ↦ rw y (settle-true stats 0 ds)
]

first_lost :
    (stats : ℕ) (d : RoundTripData) (ls : List Lost)
    → get_elem? (set_lost stats d ls) 0 ≡ some (if reply_received d then lost_false else lost_true)
unfolding set_lost
first_lost stats d ls = elim (Bool-cases (reply_received d)) [
  | inl y ↦ rw y refl
  | inr y ↦ rw y refl
]

set_losses-append :
    (stats : ℕ) (before after : List RoundTripData) (ls : List Lost)
    → set_losses stats (before ++ after) ls ≡ set_losses stats after (set_losses stats before ls)
unfolding set_losses
set_losses-append stats [] after ls = refl
set_losses-append stats (d ∷ before) after ls =
    set_losses-append stats before after (set_lost stats d ls)

-- The status of each round trip of a result, given by the replies that follow it: it is not lost if and only
-- if it has a reply; else it is lost on the way down if a reply at most 63 round trips later has a valid
-- window that says the server received it; else on the way up if such a window reaches it; else it is
-- lost without a direction. So of any run of lost packets before a reply with such a window, the last 63
-- get a direction, and those before them get none from it. The list of the statuses has the last round trip
-- first.
pub set_losses-status :
    (stats : ℕ) (before after : List RoundTripData) (d : RoundTripData)
    → get_elem? (set_losses stats (before ++ (d ∷ after)) []) (length after)
      ≡ some (status stats d after)
unfolding set_losses
set_losses-status stats before after d =
    let ls = set_losses stats before [] in
    let q : length after ≡ length after + 0 = omega arith in
    rw (set_losses-append stats before (d ∷ after) [], q)
      (get_elem?-set_losses stats 0 after (set_lost stats d ls)
          (if reply_received d then lost_false else lost_true) (first_lost stats d ls)
        ∙ ap some (settle_lem stats d after))
