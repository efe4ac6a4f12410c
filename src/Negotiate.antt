-- ===== src/Negotiate.antt =====
-- The parameters of a test, as the two sides settle them: `sconn.restrictParams` of sconn.go, with which
-- the server limits what a client asks for, `Client.checkParameters` of client.go, with which the client
-- judges the answer, and `ClientConfig.validate` of cconfig.go.
pub mod Limits
pub mod Accord
mod Tests
use irtt.Prelude.{
  ℕ, suc, ◌*◌, ◌≡◌, Bool, true, false, not, ◌&&◌, ◌||◌, List, [], ◌∷◌, ◌++◌, Option, none, some,
  ◌==◌, ltb, length, if◌then◌else◌, ◌>>=◌,
}
use irtt.Prelude.Int.{ℤ, pos, ltb_ℤ, eqb_ℤ}
use irtt.Prelude.Word.{quot}
use irtt.Code.{
  Code, protocol_version_mismatch, server_restriction, invalid_server_restriction,
  interval_non_positive, duration_non_positive, server_fill_too_long,
}
use irtt.Net.{bytes_equal}
use irtt.Time.{restrict}
use irtt.Glob.{glob_any}
use irtt.Params.{Params, max_server_fill_len}
use irtt.Config.{
  ServerConfig, protocol_version, max_interval_timeout_factor, min_restricted_interval,
}

-- `max` where it is a limit at all, that is positive
unfoldable pub cap_at : ℤ → ℤ → ℤ
cap_at limit v = if ltb_ℤ (pos 0) limit && ltb_ℤ limit v then limit else v

-- The two steps on the interval: up to the minimum, and then down to a quarter of the timeout.
unfoldable pub restrict_interval : ServerConfig → ℤ → ℤ
restrict_interval cfg v =
    let low =
      if ltb_ℤ (pos 0) cfg.min_interval && ltb_ℤ v cfg.min_interval then cfg.min_interval else v in
    let top = quot cfg.timeout max_interval_timeout_factor in
    if ltb_ℤ (pos 0) cfg.timeout && ltb_ℤ top low then top else low

unfoldable pub restrict_fill : ServerConfig → List ℕ → List ℕ
restrict_fill cfg s =
    if ltb 0 (length s) && not (glob_any cfg.allow_fills s) then cfg.default_filler else s

-- `restrictParams`; `dscp_support` is the socket's. `none` is the panic for an unknown `AllowStamp`.
unfoldable pub restrict_params : ServerConfig → Bool → Params → Option Params
restrict_params cfg dscp_support p = do
  at ← restrict cfg.allow_stamp p.stamp_at
  some (record p {
    protocol_version = protocol_version;
    duration = cap_at cfg.max_duration p.duration;
    interval = restrict_interval cfg p.interval;
    len = cap_at cfg.max_length p.len;
    stamp_at = at;
    dscp = if not cfg.allow_dscp || not dscp_support then pos 0 else p.dscp;
    server_fill = restrict_fill cfg p.server_fill;
  })

-- The events of `checkParameters`, or its error. `paramEvent` is an event for a loose client, and an
-- error, which ends the check, for any other.
pub data Verdict : Type 0 where
  accepted : ℕ → Verdict
  rejected : Code → Verdict

-- A restriction by the server, if there is one, and then the rest of the check. The number counts the events.
abbrev pub noted : Bool → Bool → Verdict → Verdict
noted loose false rest = rest
noted true true (accepted n) = accepted (suc n)
noted true true (rejected e) = rejected e
noted false true rest = rejected server_restriction

-- An error in any case.
abbrev pub refused : Bool → Code → Verdict → Verdict
refused true e rest = rejected e
refused false e rest = rest

-- `checkParameters` from the length on: `p` is what the server returned, `s` what was supplied.
unfoldable pub check_others : Bool → Params → Params → Verdict
check_others loose s p = noted loose (ltb_ℤ p.len s.len) (
    refused (ltb_ℤ s.len p.len) invalid_server_restriction (
      noted loose (not (p.stamp_at == s.stamp_at)) (
        noted loose (not (p.clock == s.clock)) (
          noted loose (not (eqb_ℤ p.dscp s.dscp))
            (noted loose (not (bytes_equal p.server_fill s.server_fill)) (accepted 0))))))

-- `checkParameters`: `p` is what the server returned, `s` what was supplied.
unfoldable pub check_parameters : Bool → Params → Params → Verdict
check_parameters loose s p =
    refused (not (eqb_ℤ p.protocol_version protocol_version)) protocol_version_mismatch (
      noted loose (ltb_ℤ p.duration s.duration) (
        refused (ltb_ℤ s.duration p.duration) invalid_server_restriction (
          noted loose (ltb_ℤ s.interval p.interval) (
            refused (ltb_ℤ p.interval s.interval && ltb_ℤ p.interval min_restricted_interval)
              invalid_server_restriction
              (noted loose (ltb_ℤ p.interval s.interval) (check_others loose s p))))))

-- `ClientConfig.validate` on its parameters. The last check of the code, `validateInterval`, depends on
-- the build and on the user, and is `permitted`.
unfoldable pub validate_config : (ℤ → Option Code) → Params → Option Code
validate_config permitted p =
    if not (ltb_ℤ (pos 0) p.interval)
    then some interval_non_positive
    else if not (ltb_ℤ (pos 0) p.duration)
    then some duration_non_positive
    else if ltb max_server_fill_len (length p.server_fill)
    then some server_fill_too_long
    else permitted p.interval
