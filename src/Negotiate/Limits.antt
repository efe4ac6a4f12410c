-- ===== src/Negotiate/Limits.antt =====
-- The results of `sconn.restrictParams` of sconn.go.
use mathlib.Core.Path.{subst}
use mathlib.Core.Option.{some-injective, none-ne-some}
use irtt.Prelude.{
  ℕ, ◌≡◌, refl, ◌⊎◌, inl, inr, Bool, not, ◌||◌, some, arith, if◌then◌else◌, Option-cases,
}
use irtt.Prelude.Int.{ℤ, pos, ◌≤ℤ◌, ◌<ℤ◌}
use irtt.Prelude.Word.{quot}
use irtt.Time.{restrict}
use irtt.Params.{Params}
use irtt.Config.{ServerConfig, protocol_version}
use irtt.Negotiate.{cap_at, restrict_interval, restrict_fill, restrict_params}

-- The longest interval that the server grants.
abbrev pub top_interval : ServerConfig → ℤ
top_interval cfg = quot cfg.timeout 4

-- A result within the limits of `cfg`, for a request `p`: nothing that is capped is above its cap or what
-- was asked; the interval is at most a quarter of the timeout, and only for that below the minimum.
pub record IsWithin (cfg : ServerConfig) (p r : Params) : Type 0 where
  pub version : r.protocol_version ≡ protocol_version
  pub duration : r.duration ≤ℤ p.duration
  pub max_duration : (cfg.max_duration ≤ℤ pos 0) ⊎ (r.duration ≤ℤ cfg.max_duration)
  pub len : r.len ≤ℤ p.len
  pub max_length : (cfg.max_length ≤ℤ pos 0) ⊎ (r.len ≤ℤ cfg.max_length)
  pub timeout : (cfg.timeout ≤ℤ pos 0) ⊎ (r.interval ≤ℤ top_interval cfg)
  pub min_interval :
      (cfg.min_interval ≤ℤ pos 0)
      ⊎ ((cfg.min_interval ≤ℤ r.interval) ⊎ (r.interval ≡ top_interval cfg))
  pub raised :
      (p.interval ≤ℤ r.interval) ⊎ ((pos 0 <ℤ cfg.timeout) × (r.interval ≡ top_interval cfg))
  pub received_stats : r.received_stats ≡ p.received_stats
  pub clock : r.clock ≡ p.clock

cap_at_le : (l v : ℤ) → cap_at l v ≤ℤ v
unfolding cap_at
cap_at_le l v = ground arith

cap_at_limit : (l v : ℤ) → (l ≤ℤ pos 0) ⊎ (cap_at l v ≤ℤ l)
unfolding cap_at
cap_at_limit l v = ground arith

pub interval_top :
    (cfg : ServerConfig) (v : ℤ)
    → (cfg.timeout ≤ℤ pos 0) ⊎ (restrict_interval cfg v ≤ℤ top_interval cfg)
unfolding restrict_interval
interval_top cfg v = ground arith

interval_min :
    (cfg : ServerConfig) (v : ℤ)
    → (cfg.min_interval ≤ℤ pos 0)
      ⊎ ((cfg.min_interval ≤ℤ restrict_interval cfg v)
          ⊎ (restrict_interval cfg v ≡ top_interval cfg))
unfolding restrict_interval
interval_min cfg v = ground arith

pub interval_raised :
    (cfg : ServerConfig) (v : ℤ)
    → (v ≤ℤ restrict_interval cfg v)
      ⊎ ((pos 0 <ℤ cfg.timeout) × (restrict_interval cfg v ≡ top_interval cfg))
unfolding restrict_interval
interval_raised cfg v = ground arith

unfoldable pub granted : ServerConfig → Bool → Params → ℕ → Params
granted cfg d p at = record p {
  protocol_version = protocol_version;
  duration = cap_at cfg.max_duration p.duration;
  interval = restrict_interval cfg p.interval;
  len = cap_at cfg.max_length p.len;
  stamp_at = at;
  dscp = if not cfg.allow_dscp || not d then pos 0 else p.dscp;
  server_fill = restrict_fill cfg p.server_fill;
}

granted-IsWithin :
    (cfg : ServerConfig) (d : Bool) (p : Params) (at : ℕ) → IsWithin cfg p (granted cfg d p at)
unfolding granted
granted-IsWithin cfg d p at = record {
  version = refl;
  duration = cap_at_le cfg.max_duration p.duration;
  max_duration = cap_at_limit cfg.max_duration p.duration;
  len = cap_at_le cfg.max_length p.len;
  max_length = cap_at_limit cfg.max_length p.len;
  timeout = interval_top cfg p.interval;
  min_interval = interval_min cfg p.interval;
  raised = interval_raised cfg p.interval;
  received_stats = refl;
  clock = refl;
}

-- What a result of `restrictParams` consists of.
pub restrict_params-inv :
    (cfg : ServerConfig) (d : Bool) (p r : Params)
    → restrict_params cfg d p ≡ some r
    → (at : ℕ) × (restrict cfg.allow_stamp p.stamp_at ≡ some at) × (granted cfg d p at ≡ r)
unfolding restrict_params granted
restrict_params-inv cfg d p r e = elim (Option-cases (restrict cfg.allow_stamp p.stamp_at)) [
  | inl z ↦ absurd (none-ne-some r (rw z at e))
  | inr (at, z) ↦ (at, z, some-injective _ r (rw z at e))
]

-- What `restrictParams` returns has the server's version, and no higher duration and length than was asked
-- for and than the server's maximum, if it has one. The interval is at most a quarter of the timeout, if
-- there is one; it is below the server's minimum, or below what was asked for, only where it is that
-- quarter. The received statistics and the clock are what was asked for.
pub restrict_params-IsWithin :
    (cfg : ServerConfig) (d : Bool) (p r : Params)
    → restrict_params cfg d p ≡ some r
    → IsWithin cfg p r
restrict_params-IsWithin cfg d p r e =
    let (at, _, g) = restrict_params-inv cfg d p r e in
    subst (IsWithin cfg p) g (granted-IsWithin cfg d p at)
