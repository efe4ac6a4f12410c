-- ===== src/Time/Names.antt =====
-- The names of `StampAt`, `Clock` and `AllowStamp`, printed and parsed, and `AllowStamp.Restrict`.
use Prim.Native.String.{String}
use text.Mathlib.Text.{◌==◌ as str_eq}
use text.Mathlib.TextEquality.{eq_iff}
use mathlib.Core.Path.{subst}
use mathlib.Core.Logic.{◌↔◌}
use mathlib.Core.Option.{some-injective}
use native.Mathlib.Nat.{sub-zero}
use irtt.Prelude.{
  ℕ, zero, suc, ◌+◌, ◌-◌, ◌≤◌, ◌≡◌, refl, ap, ◌⊎◌, inl, inr, List, [], ◌∷◌, some, arith, get_elem?,
  ◌==◌, if◌then◌else◌, Bool-cases, ==-eq-false, ◌||◌,
}
use irtt.Code.{Code}
use irtt.Time.{
  parse_name, stamp_at_names, clock_names, allow_stamp_names, stamp_at_name, clock_name,
  allow_stamp_name, parse_stamp_at, parse_clock, parse_allow_stamp, restrict, at_none, at_both,
  at_midpoint, dual_stamps,
}

-- What the loop finds stands in the table, at the distance of its value from the first one.
pub parse_name_sound :
    (e : Code) (i : ℕ) (vs : List String) (s : String) (k : ℕ)
    → parse_name e i vs s ≡ inl k
    → (i ≤ k) × (get_elem? vs (k - i) ≡ some s)
unfolding parse_name
parse_name_sound e i [] s k h = cc
parse_name_sound e i (v ∷ vs) s k h = elim (Bool-cases (str_eq v s)) [
  | inl q ↦ let e0 : k - i ≡ 0 = ground arith in (ground arith, rw e0 (ap some ((eq_iff v s).0 q)))
  | inr q ↦
      let (le, found) = parse_name_sound e (i + 1) vs s k (rw q at h) in
      let e1 : k - i ≡ suc (k - (i + 1)) = omega arith in (omega arith, rw e1 found)
]

parse_first :
    (e : Code) (vs : List String) (s : String) (k : ℕ)
    → parse_name e 0 vs s ≡ inl k
    → get_elem? vs k ≡ some s
parse_first e vs s k h = rw sub-zero at ((parse_name_sound e 0 vs s k h).1)

-- A text that names the value `k`, parsed.
abbrev Parses : (String → ℕ ⊎ Code) → ℕ → String → Type 0
Parses parse k s = parse s ≡ inl k

transfer :
    (parse : String → ℕ ⊎ Code) (k : ℕ) (t s : String)
    → some t ≡ some s
    → Parses parse k t
    → Parses parse k s
transfer parse k t s e = subst (Parses parse k) (some-injective t s e)

stamp_at_back : (at : ℕ) (s : String) → stamp_at_name at ≡ some s → parse_stamp_at s ≡ inl at
unfolding stamp_at_name parse_stamp_at parse_name
stamp_at_back zero s h = transfer parse_stamp_at 0 "none" s h refl
stamp_at_back (suc zero) s h = transfer parse_stamp_at 1 "send" s h refl
stamp_at_back (suc (suc zero)) s h = transfer parse_stamp_at 2 "receive" s h refl
stamp_at_back (suc (suc (suc zero))) s h = transfer parse_stamp_at 3 "both" s h refl
stamp_at_back (suc (suc (suc (suc zero)))) s h = transfer parse_stamp_at 4 "midpoint" s h refl
stamp_at_back (suc (suc (suc (suc (suc n))))) s h = cc

clock_back : (c : ℕ) (s : String) → clock_name c ≡ some s → parse_clock s ≡ inl c
unfolding clock_name parse_clock parse_name
clock_back zero s h = cc
clock_back (suc zero) s h = transfer parse_clock 1 "wall" s h refl
clock_back (suc (suc zero)) s h = transfer parse_clock 2 "monotonic" s h refl
clock_back (suc (suc (suc zero))) s h = transfer parse_clock 3 "both" s h refl
clock_back (suc (suc (suc (suc n)))) s h = absurd (ground arith)

allow_stamp_back : (a : ℕ) (s : String) → allow_stamp_name a ≡ some s → parse_allow_stamp s ≡ inl a
unfolding allow_stamp_name parse_allow_stamp parse_name
allow_stamp_back zero s h = transfer parse_allow_stamp 0 "none" s h refl
allow_stamp_back (suc zero) s h = transfer parse_allow_stamp 1 "single" s h refl
allow_stamp_back (suc (suc zero)) s h = transfer parse_allow_stamp 2 "dual" s h refl
allow_stamp_back (suc (suc (suc n))) s h = cc

-- `ParseStampAt` and `String` are inverse: a text is parsed to a value just if it is that value's name.
pub parse_stamp_at_iff :
    (at : ℕ) (s : String) → (parse_stamp_at s ≡ inl at) ↔ (stamp_at_name at ≡ some s)
unfolding parse_stamp_at stamp_at_name
parse_stamp_at_iff at s = (parse_first _ stamp_at_names s at, stamp_at_back at s)

clock_forward : (c : ℕ) (s : String) → parse_clock s ≡ inl c → clock_name c ≡ some s
unfolding parse_clock clock_name
clock_forward c s h =
    let (le, found) = parse_name_sound _ 1 clock_names s c h in
    rw (==-eq-false c 0 (omega arith)) found

-- The same of `ParseClock`, whose values begin at 1,
pub parse_clock_iff : (c : ℕ) (s : String) → (parse_clock s ≡ inl c) ↔ (clock_name c ≡ some s)
parse_clock_iff c s = (clock_forward c s, clock_back c s)

-- and of `ParseAllowStamp`.
pub parse_allow_stamp_iff :
    (a : ℕ) (s : String) → (parse_allow_stamp s ≡ inl a) ↔ (allow_stamp_name a ≡ some s)
unfolding parse_allow_stamp allow_stamp_name
parse_allow_stamp_iff a s = (parse_first _ allow_stamp_names s a, allow_stamp_back a s)

-- The result of `Restrict`, for a setting that is known.
allowed : ℕ → ℕ → ℕ
allowed a at =
    if at == 0 || a == 0
    then 0
    else if a == dual_stamps
    then at
    else if at == at_both
    then at_midpoint
    else at

-- What a server with a known setting allows is `AtNone`, `AtMidpoint` or what was asked for. Asking for
-- what was allowed gives the same again, and `DualStamps` allows what was asked for.
pub restrict_allowed :
    (a at : ℕ)
    → a ≤ dual_stamps
    → (r : ℕ) × (restrict a at ≡ some r)
      × ((r ≡ at_none) ⊎ ((r ≡ at) ⊎ (r ≡ at_midpoint)))
      × (restrict a r ≡ some r)
unfolding restrict allowed
restrict_allowed a at h = (allowed a at, ground arith, ground arith, ground arith)
