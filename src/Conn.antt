-- ===== src/Conn.antt =====
-- conn.go: sending and receiving a packet on the server's socket (`lconn`) and the client's (`cconn`). What
-- the operating system does is an argument; `none` is a panic.
pub mod Opening
pub mod Listen
pub mod Distinct
pub mod Unclosed
mod Tests
use irtt.Prelude.{
  ℕ, ◌==◌, Bool, true, false, not, List, Option, none, some, ltb, if◌then◌else◌, ◌>>=◌, length, min,
  take,
}
use irtt.Prelude.Int.{ℤ, pos, eqb_ℤ}
use irtt.Prelude.Slice.{overwrite}
use irtt.Code.{Code, short_write, unexpected_reply_flag, expected_reply_flag, server_closed}
use irtt.Net.{UdpAddr}
use irtt.Time.{Time, no_time, has}
use irtt.Fbuf
use irtt.Fbuf.{Fbuf}
use irtt.Packet.{
  Mac, Packet, new_packet, read_to, flags, fl_close, set_flag_bits, set_conn_token, fclose_request,
  max_header_len, reply,
}
use irtt.Packet.Auth.{read_reset, update_hmac}

-- An error: one of this package, or one of the operating system.
pub data Failure : Type 0 where
  coded : Code → Failure
  system : Failure

-- The fields of `nconn` and `lconn` that change or that sending and receiving depend on.
pub record Nconn : Type 0 where
  pub dscp : ℤ
  pub dscp_support : Bool
  pub set_src_ip : Bool

-- What the operating system does at a send: whether it refuses to set the DSCP value, how many bytes it
-- writes, or that it fails, and the time after.
pub record Network : Type 0 where
  pub dscp_refused : Bool
  pub written : Option ℕ
  pub sent_at : Time

-- `setDSCP`: the connection after, and whether it failed.
unfoldable pub set_dscp : Network → ℤ → Nconn → Nconn × Bool
set_dscp net dscp c =
    if eqb_ℤ c.dscp dscp
    then (c, false)
    else if net.dscp_refused
    then (c, true)
    else (record c { dscp = dscp }, false)

-- After a send: the packet, the connection, the bytes handed to the socket and their source address, if it
-- came to that, and the error.
pub record Sent : Type 0 where
  pub packet : Packet
  pub conn : Nconn
  pub datagram : Option (List ℕ)
  pub failure : Option Failure

-- `cconn.send`
unfoldable pub send : Network → Nconn → Packet → Sent
send net c p =
    let (c', refused) = set_dscp net p.dscp c in
    let p' = record p { tsent = net.sent_at; trcvd = no_time } in
    if refused
    then record { packet = p; conn = c'; datagram = none; failure = some system }
    else record {
      packet = p';
      conn = c';
      datagram = some (Fbuf.bytes p.fbuf);
      failure = elim (net.written) [
        | none ↦ some system
        | some n ↦ if ltb n p.fbuf.blen then some (coded short_write) else none
      ];
    }

-- What a read gives: the bytes, unless it fails, the addresses and the time.
pub record Arrival : Type 0 where
  pub datagram : Option (List ℕ)
  pub raddr : Option UdpAddr
  pub dst_ip : Option (List ℕ)
  pub received_at : Time

-- The bytes read into the buffer of the packet, no more than it holds, and their number.
unfoldable pub read_into : List ℕ → Packet → Packet × ℕ
read_into b p =
    let n = min (length b) (Fbuf.capacity p.fbuf) in
    (record p { fbuf = record p.fbuf { store = overwrite 0 (take n b) p.fbuf.store } }, n)

-- The address fields that a read on an `lconn` sets
unfoldable pub set_addrs : Nconn → Arrival → Packet → Packet
set_addrs c a p = record p {
  raddr = if c.set_src_ip then elim (a.raddr) [ none ↦ p.raddr | some r ↦ some r ] else a.raddr;
  dst_ip = if c.set_src_ip then a.dst_ip else none;
  src_ip = none;
  dscp = pos 0;
  trcvd = a.received_at;
  tsent = no_time;
}

-- The same of a `cconn`
unfoldable pub set_times : Arrival → Packet → Packet
set_times a p = record p { trcvd = a.received_at; tsent = no_time; dscp = pos 0 }

-- An error of a packet's own tests
abbrev pub as_failure : Packet × Option Code → Packet × Option Failure
as_failure (p, none) = (p, none)
as_failure (p, some e) = (p, some (coded e))

module _ (h : Mac) where
  -- `lconn.send`
  unfoldable pub lsend : Network → Nconn → Packet → Option Sent
  lsend net c p = do p' ← update_hmac h p; some (send net c p')

  -- The tests on the flags at the end of the two `receive`
  unfoldable pub check_request : Packet → Option (Packet × Option Code)
  check_request p = do r ← reply p; some (p, if r then some unexpected_reply_flag else none)

  unfoldable pub check_reply : Packet → Option (Packet × Option Code)
  check_reply p = do
    r ← reply p
    fs ← flags p
    some (
      p,
      if not r
          then some expected_reply_flag
          else if has fs fl_close
          then some server_closed
          else none,
    )

  -- What follows a read of bytes: `readReset`, and then the test of the flags.
  unfoldable pub accept_bytes :
      (Packet → Option (Packet × Option Code)) → List ℕ → Packet → Option (Packet × Option Code)
  accept_bytes check b p = do
    let (p1, n) = read_into b p
    (p2, e) ← read_reset h n p1
    elim e [ some e' ↦ some (p2, some e') | none ↦ check p2 ]

  -- `lconn.receive`
  unfoldable pub lreceive : Nconn → Arrival → Packet → Option (Packet × Option Failure)
  lreceive c a p =
      let p1 = set_addrs c a (read_to p) in
      elim (a.datagram) [
        | none ↦ some (p1, some system)
        | some b ↦ (do r ← accept_bytes check_request b p1; some (as_failure r))
      ]

  -- `cconn.receive`. Where its error is that the server has closed the connection, it has also closed this
  -- side's: see `close_packet`.
  unfoldable pub creceive : Arrival → Packet → Option (Packet × Option Failure)
  creceive a p =
      let p1 = set_times a (read_to p) in
      elim (a.datagram) [
        | none ↦ some (p1, some system)
        | some b ↦ (do r ← accept_bytes check_reply b p1; some (as_failure r))
      ]

  -- The packet that `cconn.close` sends, if it has a connection token to send one for, or the error of its
  -- fields.
  unfoldable pub close_packet : List ℕ → Bool → ℤ → ℕ → Option (Option (Packet × Option Code))
  close_packet key dscp_support dscp token = if token == 0 then some none else (do
    p ← new_packet 0 max_header_len key
    let (fb, e) = Fbuf.set_fields fclose_request true p.fbuf
    let p1 = record p { fbuf = fb; dscp = if dscp_support then dscp else p.dscp }
    elim e [
      | some e' ↦ some (some (p1, some e'))
      | none ↦ (do
        p2 ← set_flag_bits fl_close p1
        p3 ← set_conn_token token p2
        p4 ← update_hmac h p3
        some (some (p4, none)))
    ])
