-- ===== src/Negotiate/Tests.antt =====
-- The theorems on the parameters' negotiation at concrete settings.
use irtt.Prelude.{ℕ, ◌≡◌, refl, inr, true, false, [], ◌∷◌, some, arith}
use irtt.Prelude.Int.{pos}
use irtt.Prelude.Word.{quot}
use irtt.Time.{restrict}
use irtt.Net.{bytes_equal}
use irtt.Params.{Params}
use irtt.Config.{ServerConfig}
use irtt.Negotiate.{
  accepted, cap_at, restrict_interval, restrict_fill, restrict_params, check_others,
  check_parameters,
}
use irtt.Negotiate.Limits.{IsWithin, restrict_params-IsWithin}
use irtt.Negotiate.Accord.{
  IsAccepted, IsUnchanged, check_parameters-restrict_params, check_parameters-strict,
}

-- A minute at most, with ten seconds of timeout, single timestamps and no fills.
abbrev cfg : ServerConfig
cfg = record {
  hmac_key = [];
  max_duration = pos 60_000_000_000;
  min_interval = pos 10_000_000;
  max_length = pos 0;
  timeout = pos 10_000_000_000;
  packet_burst = 5;
  allow_fills = [];
  allow_stamp = 1;
  allow_dscp = false;
  set_src_ip = false;
  default_filler = 114 ∷ [];
}

abbrev asked : Params
asked = record {
  protocol_version = pos 1;
  duration = pos 3_600_000_000_000;
  interval = pos 1_000_000;
  len = pos 100;
  received_stats = 3;
  stamp_at = 3;
  clock = 3;
  dscp = pos 46;
  server_fill = [];
}

abbrev given : Params
given = record asked {
  duration = pos 60_000_000_000;
  interval = pos 10_000_000;
  stamp_at = 4;
  dscp = pos 0;
}

asked-given : restrict_params cfg false asked ≡ some given
unfolding restrict_params restrict restrict_interval cap_at restrict_fill quot
asked-given = refl

restrict_params-IsWithin_example : IsWithin cfg asked given
restrict_params-IsWithin_example = restrict_params-IsWithin cfg false asked given asked-given

check_parameters-restrict_params_example : IsAccepted (check_parameters true asked given)
check_parameters-restrict_params_example =
    check_parameters-restrict_params cfg false asked given (inr (omega arith)) asked-given

taken : check_parameters false given given ≡ accepted 0
unfolding check_parameters check_others bytes_equal
taken = refl

check_parameters-strict_example : (◌≡◌ {A = ℕ} 0 0) × IsUnchanged given given
check_parameters-strict_example = check_parameters-strict given given 0 taken
