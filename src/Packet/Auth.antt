-- ===== src/Packet/Auth.antt =====
-- packet.go: which packets are accepted, and how they are authenticated.
use irtt.Prelude.{
  ℕ, Bool, false, not, ◌&&◌, ◌||◌, List, [], ◌∷◌, Option, none, some, ◌==◌, ltb, leb, if◌then◌else◌,
  ◌>>=◌, ◌>>◌, guard, take,
}
use irtt.Prelude.Int.{pos}
use irtt.Code.{
  Code, bad_magic, invalid_flag_bits_set, nonexclusive_midpoint_t_stamp, inconsistent_clocks,
  no_hmac, bad_hmac, unexpected_hmac,
}
use irtt.Net.{bytes_equal}
use irtt.Time.{has, clock_from_bools}
use irtt.Fbuf
use irtt.Fbuf.{Fbuf}
use irtt.Packet.{
  Mac, Packet, on_fbuf, flags, set_flag_bits, clear_flag_bits, fl_all, fl_hmac, f_magic, f_hmac,
  f_rwall, f_rmono, f_mwall, f_mmono, f_swall, f_smono, finit, finit_hmac, magic, add_fields,
}

abbrev pub isset : ℕ → Packet → Option Bool
isset f p = Fbuf.isset f p.fbuf

-- `p.isset(f) || p.isset(g)`
abbrev pub either : ℕ → ℕ → Packet → Option Bool
either f g p = do a ← isset f p; b ← isset g p; some (a || b)

abbrev pub has_receive_stamp : Packet → Option Bool
has_receive_stamp = either f_rwall f_rmono

abbrev pub has_midpoint_stamp : Packet → Option Bool
has_midpoint_stamp = either f_mwall f_mmono

abbrev pub has_send_stamp : Packet → Option Bool
has_send_stamp = either f_swall f_smono

-- The comparison of the clocks in `validate`: their error, if any.
unfoldable pub check_clocks : Packet → Option (Option Code)
check_clocks p = do
  rw ← isset f_rwall p
  rm ← isset f_rmono p
  sw ← isset f_swall p
  sm ← isset f_smono p
  rclock ← clock_from_bools rw rm
  sclock ← clock_from_bools sw sm
  some (if sclock == rclock then none else some inconsistent_clocks)

-- The tests on the timestamps in `validate`
unfoldable pub check_stamps : Packet → Option (Option Code)
check_stamps p = do
  mid ← has_midpoint_stamp p
  receive ← has_receive_stamp p
  send ← has_send_stamp p
  if mid && (receive || send)
      then some (some nonexclusive_midpoint_t_stamp)
      else if receive && send
      then check_clocks p
      else some none

module _ (h : Mac) where
  -- The test on the HMAC in `validate`, for a keyed packet: the field is added and zeroed, and what it
  -- held is compared with the code of the packet with the zeroes in it.
  unfoldable pub check_hmac : List ℕ → Packet → Option (Packet × Option Code)
  check_hmac key p = do
    fs ← flags p
    if not (has fs fl_hmac) then some (p, some no_hmac) else (do
      let p' = (add_fields (f_hmac ∷ []) false p).0
      y ← Fbuf.get f_hmac p'.fbuf
      p'' ← on_fbuf (Fbuf.zero_field f_hmac) p'
      let x = h.sum key (Fbuf.bytes p''.fbuf)
      some (p'', if bytes_equal (take 16 y) x then none else some bad_hmac))

  -- and for one without a key
  unfoldable pub check_no_hmac : Packet → Option (Packet × Option Code)
  check_no_hmac p = do fs ← flags p; some (p, if has fs fl_hmac then some unexpected_hmac else none)

  unfoldable pub check_key : Packet → Option (Packet × Option Code)
  check_key p = elim p.key [ none ↦ check_no_hmac p | some key ↦ check_hmac key p ]

  -- `packet.validate`
  unfoldable pub validate : Packet → Option (Packet × Option Code)
  validate p = do
    m ← Fbuf.get f_magic p.fbuf
    if not (bytes_equal m magic) then some (p, some bad_magic) else (do
      fs ← flags p
      if ltb fl_all fs then some (p, some invalid_flag_bits_set) else (do
        stamps ← check_stamps p
        elim stamps [ some e ↦ some (p, some e) | none ↦ check_key p ]))

  -- `readReset`, for a packet of `n` bytes that was read into the buffer
  unfoldable pub read_reset : ℕ → Packet → Option (Packet × Option Code)
  read_reset n p = do
    let first : List ℕ = elim p.key [ none ↦ finit | some k ↦ finit_hmac ]
    let fb = (Fbuf.set_fields first false p.fbuf).0
    guard (leb n (Fbuf.capacity fb))
    let p' = record p { fbuf = record fb { blen = n; tlen = pos n } }
    elim (Fbuf.validate p'.fbuf) [ some e ↦ some (p', some e) | none ↦ validate p' ]

  -- `updateHMAC`
  unfoldable pub update_hmac : Packet → Option Packet
  update_hmac p = elim p.key [
    | some key ↦ do
      p1 ← set_flag_bits fl_hmac p
      p2 ← on_fbuf (Fbuf.zero_field f_hmac) p1
      on_fbuf (Fbuf.set f_hmac (h.sum key (Fbuf.bytes p2.fbuf))) p2
    | none ↦ do
      there ← isset f_hmac p
      if there then (do p1 ← clear_flag_bits fl_hmac p; on_fbuf (Fbuf.remove f_hmac) p1) else some p
  ]
