-- ===== src/Params.antt =====
-- params.go: the test parameters, as they are sent to the server and back. A parameter is a type and a
-- value, both variable-length integers of Go's encoding/binary; a Go string is its list of bytes.
pub mod Varint
pub mod Total
pub mod Size
pub mod RoundTrip
mod Tests
use irtt.Prelude.{
  ℕ, zero, suc, ◌+◌, ◌-◌, ◌*◌, ◌/◌, ◌%◌, ◌^◌, ◌≤◌, ◌<◌, ◌≡◌, ◌⊎◌, inl, inr, Bool, true, false, ◌&&◌,
  List, [], ◌∷◌, ◌++◌, Option, none, some, ◌==◌, ltb, leb, if◌then◌else◌, length, take, drop,
}
use irtt.Prelude.Int.{ℤ, pos, negsuc, eqb_ℤ, ltb_ℤ}
use irtt.Code.{
  Code, short_param_buffer, param_overflow, invalid_param_value, invalid_received_stats_int,
}
use irtt.Time.{in_range, stamp_at_from_int, clock_from_int}
use irtt.Params.Varint.{
  Uvarint, value, too_short, too_long, put_uvarint, uvarint, put_varint, from_zigzag,
}

-- `Params`. The integers of Go's `int` and `time.Duration` are signed.
pub record Params : Type 0 where
  pub protocol_version : ℤ
  pub duration : ℤ
  pub interval : ℤ
  pub len : ℤ
  pub received_stats : ℕ
  pub stamp_at : ℕ
  pub clock : ℕ
  pub dscp : ℤ
  pub server_fill : List ℕ

-- `&Params{}`
abbrev pub no_params : Params
no_params = record {
  protocol_version = pos 0;
  duration = pos 0;
  interval = pos 0;
  len = pos 0;
  received_stats = 0;
  stamp_at = 0;
  clock = 0;
  dscp = pos 0;
  server_fill = [];
}

-- `maxServerFillLen` and `paramsMaxLen`
abbrev pub max_server_fill_len : ℕ
max_server_fill_len = 32

abbrev pub params_max_len : ℕ
params_max_len = 128

-- The types, `pProtocolVersion` and so on.
abbrev pub p_protocol_version : ℕ
p_protocol_version = 1

abbrev pub p_duration : ℕ
p_duration = 2

abbrev pub p_interval : ℕ
p_interval = 3

abbrev pub p_length : ℕ
p_length = 4

abbrev pub p_received_stats : ℕ
p_received_stats = 5

abbrev pub p_stamp_at : ℕ
p_stamp_at = 6

abbrev pub p_clock : ℕ
p_clock = 7

abbrev pub p_dscp : ℕ
p_dscp = 8

abbrev pub p_server_fill : ℕ
p_server_fill = 9

-- One parameter of `bytes`; a zero is not sent.
unfoldable pub put_param : ℕ → ℤ → List ℕ
put_param t v = if eqb_ℤ v (pos 0) then [] else put_uvarint t ++ put_varint v

-- `putString`
unfoldable pub put_string : List ℕ → ℕ → List ℕ
put_string s max_len =
    let l = if ltb max_len (length s) then max_len else length s in put_uvarint l ++ take l s

unfoldable pub put_server_fill : List ℕ → List ℕ
put_server_fill [] = []
put_server_fill (c ∷ s) = put_uvarint p_server_fill ++ put_string (c ∷ s) max_server_fill_len

-- `bytes`. The code writes into a buffer of `params_max_len` bytes.
unfoldable pub bytes : Params → List ℕ
bytes p =
    put_param p_protocol_version p.protocol_version
    ++ (put_param p_duration p.duration
        ++ (put_param p_interval p.interval
            ++ (put_param p_length p.len
                ++ (put_param p_received_stats (pos p.received_stats)
                    ++ (put_param p_stamp_at (pos p.stamp_at)
                        ++ (put_param p_clock (pos p.clock)
                            ++ (put_param p_dscp p.dscp ++ put_server_fill p.server_fill)))))))

-- `readUvarint` and `readVarint`: the value and the number of bytes read.
unfoldable pub read_uvarint : List ℕ → (ℕ × ℕ) ⊎ Code
read_uvarint b = elim (uvarint b) [
  | value v n ↦ inl (v, n)
  | too_short ↦ inr short_param_buffer
  | too_long ↦ inr param_overflow
]

unfoldable pub read_varint : List ℕ → (ℤ × ℕ) ⊎ Code
read_varint b = elim (read_uvarint b) [ inl (v, n) ↦ inl (from_zigzag v, n) | inr e ↦ inr e ]

-- `readString`, once the length is read
unfoldable pub read_string : List ℕ → ℕ → (List ℕ × ℕ) ⊎ Code
read_string b max_len = elim (read_uvarint b) [
  | inl (l, n) ↦
      if ltb max_len l
      then inr param_overflow
      else if ltb (length (drop n b)) l
      then inr short_param_buffer
      else inl (take l (drop n b), n + l)
  | inr e ↦ inr e
]

-- `ReceivedStatsFromInt` of rstats.go
unfoldable pub received_stats_from_int : ℤ → ℕ ⊎ Code
received_stats_from_int = in_range 0 3 invalid_received_stats_int

-- The switch of `readParam`. A parameter of another type is passed over.
unfoldable pub assign : ℕ → ℤ → Params → Params ⊎ Code
assign t v p =
    if t == p_protocol_version
    then inl (record p { protocol_version = v })
    else if t == p_duration
    then (if ltb_ℤ (pos 0) v then inl (record p { duration = v }) else inr invalid_param_value)
    else if t == p_interval
    then (if ltb_ℤ (pos 0) v then inl (record p { interval = v }) else inr invalid_param_value)
    else if t == p_length
    then inl (record p { len = v })
    else if t == p_received_stats
    then elim (received_stats_from_int v) [
      | inl r ↦ inl (record p { received_stats = r })
      | inr e ↦ inr e
    ]
    else if t == p_stamp_at
    then elim (stamp_at_from_int v) [ inl r ↦ inl (record p { stamp_at = r }) | inr e ↦ inr e ]
    else if t == p_clock
    then elim (clock_from_int v) [ inl r ↦ inl (record p { clock = r }) | inr e ↦ inr e ]
    else if t == p_dscp
    then inl (record p { dscp = v })
    else inl p

-- `readParam`: the parameters with the one at the front of `b` set, and how many bytes it takes.
unfoldable pub read_param : Params → List ℕ → (Params × ℕ) ⊎ Code
read_param p b = elim (read_uvarint b) [
  | inl (t, n) ↦
      if t == p_server_fill
      then elim (read_string (drop n b) max_server_fill_len) [
        | inl (s, k) ↦ inl (record p { server_fill = s }, n + k)
        | inr e ↦ inr e
      ]
      else elim (read_varint (drop n b)) [
        | inl (v, k) ↦ elim (assign t v p) [ inl p' ↦ inl (p', n + k) | inr e ↦ inr e ]
        | inr e ↦ inr e
      ]
  | inr e ↦ inr e
]

-- The loop of `parseParams` over `b[pos:]`; `none` means that the fuel ran out.
unfoldable pub parse_loop : ℕ → List ℕ → Params → Option (Params ⊎ Code)
parse_loop fuel [] p = some (inl p)
parse_loop zero (c ∷ b) p = none
parse_loop (suc fuel) (c ∷ b) p = elim (read_param p (c ∷ b)) [
  | inl (p', n) ↦ parse_loop fuel (drop n (c ∷ b)) p'
  | inr e ↦ some (inr e)
]

-- `parseParams`. Each round takes a byte at least (`Params.Total`), so the length is fuel enough.
unfoldable pub parse_params : List ℕ → Option (Params ⊎ Code)
parse_params b = parse_loop (length b) b no_params
