-- ===== src/Params/Size.antt =====
-- The size of what `Params.bytes` of params.go writes.
use irtt.Prelude.{
  ℕ, ◌≤◌, ◌<◌, List, [], ◌∷◌, ◌++◌, length, length-append, length-take, take, arith, if◌then◌else◌,
  ltb,
}
use irtt.Prelude.Int.{ℤ, pos}
use irtt.Params.Varint.{
  put_uvarint, put_varint, length-put_uvarint, length-put_uvarint_small, zigzag,
}
use irtt.Params.{Params, params_max_len, put_param, put_string, put_server_fill, bytes}

length-put_param : (t : ℕ) (v : ℤ) → t < 128 → length (put_param t v) ≤ 11
unfolding put_param put_varint
length-put_param t v h = ground (
  arith,
  length-append (put_uvarint t) (put_uvarint (zigzag v)),
  length-put_uvarint (zigzag v),
  length-put_uvarint_small t,
)

length-put_server_fill : (s : List ℕ) → length (put_server_fill s) ≤ 34
unfolding put_server_fill put_string
length-put_server_fill [] = omega arith
length-put_server_fill (c ∷ s) =
    let l = if ltb 32 (length (c ∷ s)) then 32 else length (c ∷ s) in
    let hl : l ≤ 32 = ground arith in
    omega (
      arith,
      length-append (put_uvarint 9) (put_uvarint l ++ take l (c ∷ s)),
      length-append (put_uvarint l) (take l (c ∷ s)),
      length-put_uvarint_small 9,
      length-put_uvarint_small l,
      length-take l (c ∷ s),
    )

-- Whatever the parameters are, `bytes` writes fewer than the 128 bytes that it makes room for.
pub length-bytes : (p : Params) → length (bytes p) < params_max_len
unfolding bytes
length-bytes p = omega (
  arith,
  length-append {0},
  length-put_param 1 p.protocol_version,
  length-put_param 2 p.duration,
  length-put_param 3 p.interval,
  length-put_param 4 p.len,
  length-put_param 5 (pos p.received_stats),
  length-put_param 6 (pos p.stamp_at),
  length-put_param 7 (pos p.clock),
  length-put_param 8 p.dscp,
  length-put_server_fill p.server_fill,
)
