-- ===== src/Server/Scenario.antt =====
-- The server at a client's exchange: it opens a connection and sends an echo request.
use irtt.Conn
use irtt.Fbuf
use irtt.Negotiate
use irtt.Net
use irtt.Packet
use irtt.Packet.Auth
use irtt.Packet.Stamps
use irtt.Params
use irtt.Params.Varint
use irtt.Prelude.Bits
use irtt.Prelude.Dict
use irtt.Prelude.Word
use irtt.Server
use irtt.Server.Echo
use irtt.Server.Open
use irtt.Time.{keep_clocks, stamp_at_from_int, clock_from_int, restrict}
use irtt.Prelude.{
  ℕ, ◌≡◌, refl, List, [], ◌∷◌, Option, none, some, false, true, replicate, Bool-cases, inl, inr,
  ◌==◌, ap, sym, ◌⊎◌,
}
use irtt.Prelude.Int.{pos}
use irtt.Prelude.Dict.{lookup, erase, insert}
use irtt.Prelude.Float.{Float64}
use irtt.Net.{UdpAddr}
use irtt.Params.{no_params}
use irtt.Time.{Time, no_time}
use irtt.Fbuf.{Field}
use mathlib.Core.List.{map}
use irtt.Packet.{Mac, Packet}
use irtt.Config.{ServerConfig}
use irtt.Conn.{Nconn, Network, Arrival, coded}
use irtt.Server.{Sconn, Conns}
use irtt.Server.Echo.{Moment, from_client}
use irtt.Server.Open.{Listener, Turn, Handled, unsent, dispatch}
use irtt.Server.Sound.{Requests, IsSound}
use irtt.Server.Runs.{run, IsAsked, run-IsSound}
use mathlib.Core.Option.{none-ne-some, some-injective}
use irtt.Code.{address_mismatch}
use irtt.Server.Strangers.{IsRefused, dispatch-IsRefused}

-- Stand-ins for the code, the arithmetic and the decoder from outside.
abbrev mac : Mac
mac = record { sum = λ key message. replicate 16 0; length-sum = λ key message. refl }

abbrev float : Float64
float = record {
  of_int = λ z. 1;
  plus = λ a b. a;
  minus = λ a b. a;
  times = λ a b. a;
  over = λ a b. a;
  lt = λ a b. false;
  le = λ a b. false;
  eq = λ a b. false;
  to_int = λ a. pos a;
}

abbrev decode : List ℕ → Option (List ℕ)
decode s = none

abbrev cfg : ServerConfig
cfg = record {
  hmac_key = [];
  max_duration = pos 0;
  min_interval = pos 0;
  max_length = pos 0;
  timeout = pos 10_000_000_000;
  packet_burst = 5;
  allow_fills = [];
  allow_stamp = 2;
  allow_dscp = false;
  set_src_ip = false;
  default_filler = [];
}

abbrev addr : UdpAddr
addr = record { ip = 127 ∷ 0 ∷ 0 ∷ 1 ∷ []; port = 2112; zone = [] }

-- The packet that a listener reads into, as `newPacket` makes it; here its buffer has no more than 100 bytes.
abbrev absent : ℕ → Field
absent c = record { pos = 4; len = 0; cap = c }

abbrev buffer : Packet
buffer = record {
  fbuf = record {
    store = 20 ∷ 167 ∷ 91 ∷ replicate 97 0;
    blen = 4;
    fields =
        record { pos = 0; len = 3; cap = 3 }
        ∷ record { pos = 3; len = 1; cap = 1 }
        ∷ absent 16
        ∷ absent 8
        ∷ absent 4
        ∷ absent 4
        ∷ map absent (replicate 7 8);
    tlen = pos 0;
  };
  key = none;
  raddr = none;
  tsent = no_time;
  trcvd = no_time;
  src_ip = none;
  dst_ip = none;
  dscp = pos 0;
}

abbrev idle : Listener
idle = record {
  conns = [];
  conn = record { dscp = pos 0; dscp_support = false; set_src_ip = false };
  packet = buffer;
  filler = none;
}

abbrev clock : ℕ → Time
clock c = record { wall = pos 50; mono = pos 60 }

abbrev turn : ℕ → Turn
turn token = record {
  moment = record {
    now = pos 1000;
    later = pos 1001;
    source = clock;
    random = [];
    network = record { dscp_refused = false; written = some 100; sent_at = clock 3 };
  };
  order = [];
  tokens = token ∷ [];
  lasting = false;
}

abbrev arrival : List ℕ → Arrival
arrival b = record {
  datagram = some b;
  raddr = some addr;
  dst_ip = none;
  received_at = record { wall = pos 40; mono = pos 45 };
}

-- An open request for both received statistics and both timestamps, of both clocks, in packets of 80 bytes.
abbrev open_request : List ℕ
open_request = 20 ∷ 167 ∷ 91 ∷ 1 ∷ 1 ∷ 2 ∷ 4 ∷ 160 ∷ 1 ∷ 5 ∷ 6 ∷ 6 ∷ 6 ∷ 7 ∷ 6 ∷ []

-- The echo request 0 of the connection 7.
abbrev echo_request : List ℕ
echo_request = 20 ∷ 167 ∷ 91 ∷ 0 ∷ 7 ∷ replicate 11 0

abbrev exchange : List (Turn × Arrival)
exchange = (turn 7, arrival open_request) ∷ (turn 9, arrival echo_request) ∷ []

opened : Option Listener
unfolding run
opened = run float mac decode cfg exchange idle

or_idle : Option Listener → Listener
or_idle none = idle
or_idle (some l) = l

served : Listener
unfolding opened or_idle
served = or_idle opened

abbrev client : Sconn
client = record {
  ctoken = 7;
  raddr = addr;
  params = record no_params {
    protocol_version = pos 1;
    len = pos 80;
    received_stats = 3;
    stamp_at = 3;
    clock = 3;
  };
  filler = none;
  shares_filler = true;
  created = pos 1000;
  first_used = some (pos 1000);
  last_used = some (pos 1000);
  packet_bucket = 1;
  last_seqno = 0;
  received_count = 1;
  received_window = 1;
  rwin_valid = true;
}

-- An echo request for the same connection, from another address.
abbrev stranger : Packet
stranger = record buffer {
  fbuf = record buffer.fbuf {
    store = 20 ∷ 167 ∷ 91 ∷ 0 ∷ 7 ∷ replicate 95 0;
    blen = 16;
    tlen = pos 16;
  };
  raddr = some (record addr { port = 2113 });
}

or_unsent : Option Handled → Handled
or_unsent none = unsent idle buffer none
or_unsent (some r) = r

turned_away : Handled
unfolding served opened or_idle or_unsent
turned_away = or_unsent (dispatch float mac decode cfg (turn 9) served stranger)

exchange-run :
    (run float mac decode cfg exchange idle ≡ some served)
    × (served.conns ≡ (7, client) ∷ [])
    × (dispatch float mac decode cfg (turn 9) served stranger ≡ some turned_away)
    × (turned_away.failure ≡ some (coded address_mismatch))
unfolding turned_away or_unsent served opened or_idle Conn.set_dscp Conn.send Conn.read_into
    Conn.set_addrs Conn.lsend Conn.check_request Conn.accept_bytes Conn.lreceive Fbuf.sum_lens
    Fbuf.sum_caps Fbuf.validate Fbuf.set_len Fbuf.set_loop Fbuf.add_loop Fbuf.finish_fields
    Fbuf.set_fields Fbuf.add_fields Fbuf.move_fields Fbuf.resize_field Fbuf.shift_bytes
    Fbuf.reset_to_target Fbuf.set_field_len Fbuf.set_to Fbuf.write_to Fbuf.setb Fbuf.set_payload
    Fbuf.get Fbuf.getb Fbuf.isset Fbuf.payload Negotiate.cap_at Negotiate.restrict_interval
    Negotiate.restrict_fill Negotiate.restrict_params Net.bytes_equal Net.ip_equal
    Net.udp_addrs_equal Packet.read_to Packet.le_bytes Packet.from_le Packet.get_uint
    Packet.set_uint Packet.flags Packet.set_flag_bits Packet.reply Packet.set_reply Packet.ctoken
    Packet.set_conn_token Packet.seqno Packet.set_received_count Packet.set_received_window
    Auth.check_stamps Auth.check_no_hmac Auth.check_key Auth.validate Auth.read_reset
    Auth.update_hmac Stamps.tset Stamps.set_timestamp Params.put_param Params.put_server_fill
    Params.bytes Params.read_uvarint Params.read_varint Params.received_stats_from_int Params.assign
    Params.read_param Params.parse_loop Params.parse_params Varint.uvarint_bytes Varint.put_uvarint
    Varint.uvarint_loop Varint.uvarint Varint.zigzag Varint.from_zigzag Varint.put_varint Bits.shift
    Bits.shl64 Dict.lookup Dict.erase Dict.insert Word.quot Server.new_sconn Server.expired
    Server.since_last Server.slide Server.get Server.remove_expired Server.remove_some_expired
    Server.new_ctoken Server.put Echo.enforce_interval Echo.exceeded Echo.put_stats Echo.put_stamps
    Echo.fill_payload Echo.address_reply Echo.make_reply Echo.answer Echo.serve_request
    Echo.serve_echo Echo.serve Open.store Open.set_filler Open.load_filler Open.keep_filler
    Open.is_fatal_error Open.choose_filler Open.register Open.open_reply Open.accept_params
    Open.accept Open.serve_conn Open.dispatch Open.accept_from Open.handle Open.read_one keep_clocks
    stamp_at_from_int clock_from_int restrict
exchange-run = (refl, refl, refl, refl)

-- Nothing was asked for before.
abbrev unasked : Requests
unasked raddr asked = ⊥

idle-IsSound : IsSound cfg unasked idle.conns
unfolding IsSound Dict.lookup
idle-IsSound t sc e = absurd (none-ne-some sc e)

run-IsSound_example :
    IsSound cfg
      (λ raddr asked. unasked raddr asked ⊎ IsAsked float mac decode cfg exchange idle raddr asked)
      served.conns
run-IsSound_example =
    run-IsSound float mac decode cfg exchange idle served unasked idle-IsSound exchange-run.0

stranger-unknown :
    (ct : ℕ) (sc : Sconn) → lookup ct served.conns ≡ some sc → from_client sc stranger ≡ false
unfolding Dict.lookup Net.bytes_equal Net.ip_equal Net.udp_addrs_equal
stranger-unknown ct sc e = elim (Bool-cases (7 == ct)) [
  | inl y ↦
      let q : client ≡ sc = some-injective client sc (rw (exchange-run.1, y) at e) in
      ap (λ c. from_client c stranger) (sym q)
  | inr y ↦ absurd (none-ne-some sc (rw (exchange-run.1, y) at e))
]

dispatch-IsRefused_example : IsRefused cfg (pos 1000) served turned_away
dispatch-IsRefused_example =
    dispatch-IsRefused float mac decode cfg (turn 9) served stranger turned_away stranger-unknown
      exchange-run.2
