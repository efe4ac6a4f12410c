-- ===== src/Config.antt =====
-- sconfig.go, cconfig.go and defaults.go: the configurations, and the checks that the client makes of its
-- own before a test. Fields that no modelled operation reads are left out.
use irtt.Prelude.{ℕ, ◌*◌, Bool, List}
use irtt.Prelude.Int.{ℤ, pos}
use irtt.Params.{Params}

-- Durations in nanoseconds.
abbrev pub second : ℕ
second = 1_000_000_000

-- `ProtocolVersion` of version.go, `maxIntervalTimeoutFactor`, `minRestrictedInterval`, `timeoutGrace`,
-- `maxDurationGrace` and `checkExpiredCount` of defaults.go
abbrev pub protocol_version : ℤ
protocol_version = pos 1

abbrev pub max_interval_timeout_factor : ℕ
max_interval_timeout_factor = 4

abbrev pub min_restricted_interval : ℤ
min_restricted_interval = pos second

abbrev pub timeout_grace : ℤ
timeout_grace = pos (5 * second)

abbrev pub max_duration_grace : ℤ
max_duration_grace = pos (2 * second)

abbrev pub check_expired_count : ℕ
check_expired_count = 5

-- `ServerConfig`; `default_filler` is the text of `DefaultServerFiller`.
pub record ServerConfig : Type 0 where
  pub hmac_key : List ℕ
  pub max_duration : ℤ
  pub min_interval : ℤ
  pub max_length : ℤ
  pub timeout : ℤ
  pub packet_burst : ℕ
  pub allow_fills : List (List ℕ)
  pub allow_stamp : ℕ
  pub allow_dscp : Bool
  pub set_src_ip : Bool
  pub default_filler : List ℕ

-- `ClientConfig`
pub record ClientConfig : Type 0 where
  pub params : Params
  pub stream : Bool
  pub stream_buf_len : ℕ
  pub loose : Bool
  pub no_test : Bool
