-- ===== src/Server/Echo.antt =====
-- sconn.go: how the server serves a packet of a connection (`serve`, `serveClose` and `serveEcho`). The
-- constants that would drop or repeat replies are 0, so those two steps do nothing.
use irtt.Prelude.{
  ℕ, ◌==◌, Bool, true, false, not, ◌&&◌, List, Option, none, some, if◌then◌else◌, ◌>>=◌,
}
use irtt.Prelude.Int.{ℤ, pos, ltb_ℤ}
use irtt.Prelude.Word.{add64}
use irtt.Prelude.Float.{Float64}
use irtt.Code.{address_mismatch, large_request, short_interval}
use irtt.Net.{udp_addrs_equal}
use irtt.Time.{Time, no_time, has, at_none, at_midpoint, at_receive, at_send, midpoint, keep_clocks}
use irtt.Fbuf
use irtt.Filler.{Filler}
use irtt.Filler.Payload.{read_payload}
use irtt.Packet.{
  Mac, Packet, flags, fl_close, set_flag_bits, set_reply, seqno, set_received_count,
  set_received_window, add_fields, fclose_request, fecho_request,
}
use irtt.Packet.Stamps.{stats_count, stats_window, set_timestamp, remove_timestamps}
use irtt.Config.{ServerConfig, max_duration_grace}
use irtt.Conn.{Failure, coded, Nconn, Network, lsend}
use irtt.Server.{Sconn, Conns, since, slide, sent_window, remove}

-- What the handling of one packet takes from outside: the time, and again
-- when the duration is tested, that of the time source by clock, the bytes
-- of math/rand, and the network.
pub record Moment : Type 0 where
  pub now : ℤ
  pub later : ℤ
  pub source : ℕ → Time
  pub random : List ℕ
  pub network : Network

-- The bits of the bucket after what the connection has earned since its last packet
unfoldable pub earn : Float64 → ServerConfig → ℤ → Sconn → ℕ
earn F cfg now sc = elim (sc.last_used) [
  | none ↦ sc.packet_bucket
  | some t ↦
      let burst = F.of_int (pos cfg.packet_burst) in
      let b =
        F.plus sc.packet_bucket (F.over (F.of_int (since now t)) (F.of_int cfg.min_interval)) in
      if F.lt burst b then burst else b
]

-- The step that enforces the minimum interval: whether the packet is dropped, and the connection after.
unfoldable pub enforce_interval : Float64 → ServerConfig → ℤ → Sconn → Bool × Sconn
enforce_interval F cfg now sc =
    let b = earn F cfg now sc in
    if not (ltb_ℤ (pos 0) cfg.min_interval)
    then (false, sc)
    else if F.lt b (F.of_int (pos 1))
    then (true, record sc { packet_bucket = b; last_used = some now })
    else (false, record sc { packet_bucket = F.minus b (F.of_int (pos 1)) })

-- The maximum duration is exceeded.
unfoldable pub exceeded : ServerConfig → ℤ → Sconn → Bool
exceeded cfg now sc = elim (sc.first_used) [
  | none ↦ false
  | some t ↦
      ltb_ℤ (pos 0) cfg.max_duration
      && ltb_ℤ (add64 cfg.max_duration max_duration_grace) (since now t)
]

-- The received statistics of the reply
unfoldable pub put_stats : Sconn → Packet → Option Packet
put_stats sc p = do
  p1 ←
      if has sc.params.received_stats stats_count
      then set_received_count sc.received_count p
      else some p
  if has sc.params.received_stats stats_window
      then set_received_window (sent_window sc) p1
      else some p1

-- Its timestamps
unfoldable pub put_stamps : (ℕ → Time) → Sconn → Packet → Option Packet
put_stamps source sc p =
    let at = sc.params.stamp_at in
    let cl = sc.params.clock in
    if at == at_none
    then remove_timestamps p
    else if at == at_midpoint
    then (do
      mt ← midpoint p.trcvd (source cl)
      set_timestamp at (record { receive = mt; send = mt }) p)
    else (do
      rt ← if has at at_receive then keep_clocks p.trcvd cl else some no_time
      set_timestamp at
          (record { receive = rt; send = if has at at_send then source cl else no_time }) p)

-- The payload of a reply, filled by the filler of the connection, if it has one.
unfoldable pub fill_payload : List ℕ → Option Filler → Sconn → Packet → Option (Packet × Sconn)
fill_payload random none sc p = some (p, sc)
fill_payload random (some f) sc p = do
  (p', f') ← read_payload random f p
  some (p', record sc { filler = some f' })

-- `setLen` of the packet
abbrev pub set_target_len : ℤ → Packet → Packet
set_target_len n p = record p { fbuf = (Fbuf.set_len n p.fbuf).0 }

-- The DSCP value and the source address of a reply
unfoldable pub address_reply : ServerConfig → Bool → ℤ → Packet → Packet
address_reply cfg dscp_support dscp p = record p {
  dscp = if cfg.allow_dscp && dscp_support then dscp else p.dscp;
  src_ip = if cfg.set_src_ip then p.dst_ip else p.src_ip;
}

-- The reply from the request, which has the reply flag by now: `closing` says that its close flag is to be set.
unfoldable pub make_reply :
    ServerConfig → Bool → Moment → Bool → Sconn → Packet → Option (Packet × Sconn)
make_reply cfg dscp_support mo closing sc p = do
  p1 ← if closing then set_flag_bits fl_close p else some p
  let p2 = set_target_len (pos 0) (address_reply cfg dscp_support sc.params.dscp p1)
  p3 ← put_stats sc p2
  p4 ← put_stamps mo.source sc p3
  fill_payload mo.random sc.filler sc (set_target_len sc.params.len p4)

-- What is left after a packet is served: the connection, the map, the socket and the packet; what was sent;
-- whether it closed the connection; and the error.
pub record Served : Type 0 where
  pub sc : Sconn
  pub conns : Conns
  pub conn : Nconn
  pub packet : Packet
  pub datagram : Option (List ℕ)
  pub closed : Bool
  pub failure : Option Failure

-- Nothing is sent.
abbrev pub unanswered : Sconn → Conns → Nconn → Packet → Bool → Option Failure → Served
unanswered sc m c p closed e = record {
  sc = sc;
  conns = m;
  conn = c;
  packet = p;
  datagram = none;
  closed = closed;
  failure = e;
}

-- `serveClose`. That the connection is not in the map is an event only.
unfoldable pub serve_close : Sconn → Conns → Nconn → Packet → Served
serve_close sc m c p =
    let (p1, e) = add_fields fclose_request false p in
    elim e [
      | some e' ↦ unanswered sc m c p1 true (some (coded e'))
      | none ↦ unanswered sc (remove sc.ctoken m).1 c p1 true none
    ]

-- `p.raddr` is nil only where a read has failed.
abbrev pub from_client : Sconn → Packet → Bool
from_client sc p = elim (p.raddr) [ none ↦ false | some r ↦ udp_addrs_equal r sc.raddr ]

module _ (F : Float64) (h : Mac) (cfg : ServerConfig) where
  -- `serveEcho` from the test of the duration on
  unfoldable pub answer : Moment → Sconn → Conns → Nconn → Packet → Option Served
  answer mo sc m c p = do
    let closing = exceeded cfg mo.later sc
    let m' = if closing then (remove sc.ctoken m).1 else m
    (p', sc') ← make_reply cfg c.dscp_support mo closing sc p
    s ← lsend h mo.network c p'
    some (record {
      sc = sc';
      conns = m';
      conn = s.conn;
      packet = s.packet;
      datagram = s.datagram;
      closed = closing;
      failure = s.failure;
    })

  -- `serveEcho` once the request is well formed
  unfoldable pub serve_request : Moment → Sconn → Conns → Nconn → Packet → Option Served
  serve_request mo sc m c p =
      let used : Option ℤ = elim (sc.first_used) [ none ↦ some mo.now | some t ↦ some t ] in
      let (dropped, sc1) = enforce_interval F cfg mo.now (record sc { first_used = used }) in
      if dropped then some (unanswered sc1 m c p false (some (coded short_interval))) else (do
        p1 ← set_reply true p
        sn ← seqno p1
        answer mo (slide sn (record sc1 { last_used = some mo.now })) m c p1)

  -- `serveEcho`
  unfoldable pub serve_echo : Moment → Sconn → Conns → Nconn → Packet → Option Served
  serve_echo mo sc m c p =
      let (p1, e) = add_fields fecho_request false p in
      elim e [
        | some e' ↦ some (unanswered sc m c p1 false (some (coded e')))
        | none ↦
            if ltb_ℤ (pos 0) cfg.max_length && ltb_ℤ cfg.max_length (pos p1.fbuf.blen)
            then some (unanswered sc m c p1 false (some (coded large_request)))
            else serve_request mo sc m c p1
      ]

  -- `serve`
  unfoldable pub serve : Moment → Sconn → Conns → Nconn → Packet → Option Served
  serve mo sc m c p =
      if not (from_client sc p)
      then some (unanswered sc m c p false (some (coded address_mismatch)))
      else (do
        fs ← flags p
        if has fs fl_close then some (serve_close sc m c p) else serve_echo mo sc m c p)
