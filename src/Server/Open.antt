-- ===== src/Server/Open.antt =====
-- sconn.go and server.go: how the server opens a connection (`accept`), and what it does with a packet that it
-- reads (`readOneAndReply`).
use irtt.Prelude.{
  ℕ, Bool, true, false, not, ◌&&◌, inl, inr, List, Option, none, some, ltb, if◌then◌else◌, ◌>>=◌,
  length,
}
use irtt.Prelude.Int.{pos, eqb_ℤ}
use irtt.Prelude.Dict.{lookup, insert}
use irtt.Prelude.Float.{Float64}
use irtt.Code.{invalid_conn_token}
use irtt.Net.{UdpAddr, bytes_equal}
use irtt.Time.{has}
use irtt.Fbuf
use irtt.Filler.{Filler, Made, no_filler, made, failed, undecoded, new_filler}
use irtt.Params
use irtt.Params.{Params, parse_params}
use irtt.Packet.{
  Mac, Packet, on_fbuf, flags, fl_open, fl_close, set_flag_bits, set_reply, ctoken, set_conn_token,
  add_fields, frequest,
}
use irtt.Config.{ServerConfig, protocol_version}
use irtt.Negotiate.{restrict_params}
use irtt.Conn.{Failure, coded, system, Nconn, Arrival, lsend, lreceive}
use irtt.Server.{Sconn, new_sconn, Conns, get, put}
use irtt.Server.Echo.{Moment, address_reply, serve}

-- A listener: the connections of its own manager, its socket, the packet that it reads into, and the filler of its
-- configuration, to which its connections have pointers. The configuration is the server's, so other
-- listeners have the same pointer: what they read from that filler meanwhile is not modelled.
pub record Listener : Type 0 where
  pub conns : Conns
  pub conn : Nconn
  pub packet : Packet
  pub filler : Option Filler

-- What the handling of an arrival takes from outside, beside the `Moment` of its reply: the order in which
-- the map is visited, the candidates for a token, and whether an error of the operating system is a `net.Error`
-- that is not temporary.
pub record Turn : Type 0 where
  pub moment : Moment
  pub order : List ℕ
  pub tokens : List ℕ
  pub lasting : Bool

-- After an arrival: the listener, the bytes sent, and the error, which is reported.
pub record Handled : Type 0 where
  pub listener : Listener
  pub datagram : Option (List ℕ)
  pub failure : Option Failure

abbrev pub unsent : Listener → Packet → Option Failure → Handled
unsent l p e = record { listener = record l { packet = p }; datagram = none; failure = e }

-- A connection is a pointer, which the map shares: what serving it changes is seen in the map, if the map
-- has it still.
unfoldable pub store : ℕ → Sconn → Conns → Conns
store ct sc m = elim (lookup ct m) [ none ↦ m | some old ↦ insert ct sc m ]

-- The filler of a new connection: the listener's, or its own.
pub data Choice : Type 0 where
  listeners : Choice
  own : Option Filler → Choice

-- What `accept` makes of the result of `NewFiller`: where that is an error, the filler is the listener's and the
-- parameters name the default.
unfoldable pub with_filler : ServerConfig → Params → Made → Choice × Params
with_filler cfg p no_filler = (own none, p)
with_filler cfg p (made f) = (own (some f), p)
with_filler cfg p (failed e) = (listeners, record p { server_fill = cfg.default_filler })
with_filler cfg p undecoded = (listeners, record p { server_fill = cfg.default_filler })

-- `sc.filler` is set.
unfoldable pub set_filler : Choice → Sconn → Sconn
set_filler listeners sc = sc
set_filler (own f) sc = record sc { filler = f; shares_filler = false }

-- A connection that shares the listener's filler, with `f` in its field
unfoldable pub load_filler : Option Filler → Sconn → Sconn
load_filler f sc = if sc.shares_filler then record sc { filler = f } else sc

-- The listener's filler after the connection was served
unfoldable pub keep_filler : Option Filler → Sconn → Option Filler
keep_filler f sc = if sc.shares_filler then sc.filler else f

-- `isFatalError`: no error of this package is a `net.Error`.
unfoldable pub is_fatal_error : Turn → Failure → Bool
is_fatal_error t (coded c) = false
is_fatal_error t system = t.lasting

module _ (F : Float64) (h : Mac) (decode : List ℕ → Option (List ℕ)) (cfg : ServerConfig) where
  -- The filler of a connection: the listener's, unless the parameters ask for another; and the parameters.
  unfoldable pub choose_filler : Params → Option (Choice × Params)
  choose_filler p =
      if ltb 0 (length p.server_fill) && not (bytes_equal p.server_fill cfg.default_filler)
      then (do m ← new_filler decode p.server_fill; some (with_filler cfg p m))
      else some (listeners, p)

  -- The state of the connection: the connection with its token, the map and the packet, which is told to
  -- close if the versions differ.
  unfoldable pub register : Turn → Sconn → Conns → Packet → Option (Sconn × Conns × Packet)
  register t sc m p =
      if not (eqb_ℤ sc.params.protocol_version protocol_version)
      then (do p' ← set_flag_bits fl_close p; some (sc, m, p'))
      else (do
        fs ← flags p
        if has fs fl_close
            then some (sc, m, p)
            else (do (sc', m') ← put cfg t.moment.now t.order t.tokens sc m; some (sc', m', p)))

  -- The reply to an open request, which is then sent.
  unfoldable pub open_reply : Bool → Sconn → Packet → Option Packet
  open_reply dscp_support sc p = do
    p1 ← set_conn_token sc.ctoken (address_reply cfg dscp_support sc.params.dscp p)
    p2 ← set_reply true p1
    on_fbuf (Fbuf.set_payload (Params.bytes sc.params)) p2

  unfoldable pub accept_params : Turn → UdpAddr → Params → Listener → Packet → Option Handled
  accept_params t raddr asked l p = do
    granted ← restrict_params cfg l.conn.dscp_support asked
    (f, params) ← choose_filler granted
    let burst = F.of_int (pos cfg.packet_burst)
    let fresh = set_filler f (new_sconn t.moment.now raddr burst params)
    (sc, m, p1) ← register t fresh l.conns p
    p2 ← open_reply l.conn.dscp_support sc p1
    s ← lsend h t.moment.network l.conn p2
    some (record {
      listener = record l { conns = m; conn = s.conn; packet = s.packet };
      datagram = s.datagram;
      failure = s.failure;
    })

  -- `accept`
  unfoldable pub accept : Turn → UdpAddr → Listener → Packet → Option Handled
  accept t raddr l p = do
    b ← Fbuf.payload p.fbuf
    r ← parse_params b
    elim r [
      | inr e ↦ some (unsent l p (some (coded e)))
      | inl asked ↦ accept_params t raddr asked l p
    ]

  -- A packet for the connection `sc`, under the token `ct`
  unfoldable pub serve_conn : Turn → ℕ → Sconn → Listener → Packet → Option Handled
  serve_conn t ct sc l p = do
    s ← serve F h cfg t.moment (load_filler l.filler sc) l.conns l.conn p
    some (record {
      listener = record l {
        conns = store ct (load_filler sc.filler s.sc) s.conns;
        conn = s.conn;
        packet = s.packet;
        filler = keep_filler l.filler s.sc;
      };
      datagram = s.datagram;
      failure = s.failure;
    })

  -- `readOneAndReply` for a packet of a connection
  unfoldable pub dispatch : Turn → Listener → Packet → Option Handled
  dispatch t l p =
      let (p1, e) = add_fields frequest false p in
      elim e [
        | some e' ↦ some (unsent l p1 (some (coded e')))
        | none ↦ (do
          ct ← ctoken p1
          let (found, m) = get cfg t.moment.now ct l.conns
          elim found [
            | none ↦ some (unsent (record l { conns = m }) p1 (some (coded invalid_conn_token)))
            | some sc ↦ serve_conn t ct sc (record l { conns = m }) p1
          ])
      ]

  -- A packet that was read without an error has an address.
  unfoldable pub accept_from : Turn → Option UdpAddr → Listener → Packet → Option Handled
  accept_from t none l p = none
  accept_from t (some raddr) l p = accept t raddr l p

  -- `readOneAndReply` of a packet that was read without an error
  unfoldable pub handle : Turn → Listener → Packet → Option Handled
  handle t l p = do
    fs ← flags p
    if has fs fl_open then accept_from t p.raddr l p else dispatch t l p

  -- `readOneAndReply`
  unfoldable pub read_one : Turn → Arrival → Listener → Option Handled
  read_one t a l = do
    (p, e) ← lreceive h l.conn a l.packet
    elim e [ some e' ↦ some (unsent l p (some e')) | none ↦ handle t l p ]
