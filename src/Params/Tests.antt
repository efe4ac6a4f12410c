-- ===== src/Params/Tests.antt =====
-- The theorems on the parameters at concrete parameters.
use irtt.Prelude.{◌<◌, ◌≡◌, ◌≢◌, inl, [], ◌∷◌, ◌++◌, none, some, arith, length}
use irtt.Prelude.Int.{pos, negsuc}
use irtt.Params.{Params, params_max_len, bytes, parse_params}
use irtt.Params.Varint.{uvarint, put_uvarint, value}
use irtt.Params.Varint.{uvarint-put_uvarint}
use irtt.Params.Size.{length-bytes}
use irtt.Params.Total.{parse_params-ne-none, IsChecked, parse_params-IsChecked}
use irtt.Params.RoundTrip.{IsSendable, parse_params-bytes}

-- An hour, a packet each second, all timestamps, and the fill "ab".
abbrev hour : Params
hour = record {
  protocol_version = pos 1;
  duration = pos 3_600_000_000_000;
  interval = pos 1_000_000_000;
  len = negsuc 2;
  received_stats = 3;
  stamp_at = 3;
  clock = 3;
  dscp = pos 46;
  server_fill = 97 ∷ 98 ∷ [];
}

hour-IsSendable : IsSendable hour
hour-IsSendable = record {
  protocol_version = (omega arith, omega arith);
  duration = (omega arith, omega arith);
  duration_sign = omega arith;
  interval = (omega arith, omega arith);
  interval_sign = omega arith;
  len = (omega arith, omega arith);
  received_stats = omega arith;
  stamp_at = omega arith;
  clock = omega arith;
  dscp = (omega arith, omega arith);
  server_fill = omega arith;
}

parse_params-bytes_example : parse_params (bytes hour) ≡ some (inl hour)
parse_params-bytes_example = parse_params-bytes hour hour-IsSendable

parse_params-ne-none_example : parse_params (1 ∷ 2 ∷ 200 ∷ []) ≢ none
parse_params-ne-none_example = parse_params-ne-none (1 ∷ 2 ∷ 200 ∷ [])

parse_params-IsChecked_example : IsChecked hour
parse_params-IsChecked_example =
    parse_params-IsChecked (bytes hour) hour (parse_params-bytes hour hour-IsSendable)

length-bytes_example : length (bytes hour) < params_max_len
length-bytes_example = length-bytes hour

uvarint-put_uvarint_example :
    uvarint (put_uvarint 300 ++ (7 ∷ [])) ≡ value 300 (length (put_uvarint 300))
uvarint-put_uvarint_example = uvarint-put_uvarint 300 (7 ∷ []) (omega arith)
