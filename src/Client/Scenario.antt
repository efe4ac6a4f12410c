-- ===== src/Client/Scenario.antt =====
-- A short test of the client at concrete times: two packets in 150 nanoseconds, and a reply to the first.
mod Runs
use irtt.Client
use irtt.Client.Run
use irtt.Client.Send
use irtt.Conn
use irtt.Fbuf
use irtt.Net
use irtt.Packet
use irtt.Packet.Auth
use irtt.Packet.Stamps
use irtt.Negotiate
use irtt.Recorder
use irtt.Recorder.Receive
use irtt.Prelude.{
  ℕ, ◌≡◌, ◌≤◌, refl, ap, sym, ◌∙◌, length, [], ◌∷◌, Option, none, some, Bool, true, false,
  replicate, arith, ◌+◌, ◌>>=◌,
}
use irtt.Prelude.Int.{pos}
use irtt.Prelude.Word
use irtt.Params.{Params, no_params}
use irtt.Time.{Time, no_time, sub, add, before}
use irtt.Packet.{Mac, Packet}
use irtt.Net.{UdpAddr}
use irtt.Config.{ClientConfig}
use irtt.Conn.{Nconn, Arrival}
use irtt.Recorder.{new_recorder}
use irtt.Client.Send.{
  Plan, Sender, Sending, Phase, Turn, ready, sending, sleeping, new_conn_packet, prepare, send_all,
}
use irtt.Client.Pace
use irtt.Client.Pace.{IsOnTime, no_more, one_more}
use irtt.Client.Steps.{IsStopped, IsFailed}
use irtt.Client.Ends.{IsTimed, send_all-IsStopped}
use irtt.Client.Whole.{Trace, begun, before_send, sent, woken, read, start_run-IsWhole}
use mathlib.Core.Bool.{true≢false}
use irtt.Recorder.{pcount}
use irtt.Recorder.Counts.{replied}
use irtt.Client.Run.{
  Testing, Event, sends, reads, take_event, run_test, Options, dialed, started, start_run,
}

abbrev mac : Mac
mac = record { sum = λ key message. replicate 16 0; length-sum = λ key message. refl }

abbrev params : Params
params = record no_params {
  protocol_version = pos 1;
  duration = pos 150;
  interval = pos 100;
  len = pos 16;
}

abbrev conn : Nconn
conn = record { dscp = pos 0; dscp_support = true; set_src_ip = false }

abbrev server : UdpAddr
server = record { ip = 127 ∷ 0 ∷ 0 ∷ 1 ∷ []; port = 2112; zone = [] }

first_packet : Option Packet
first_packet = new_conn_packet 16 [] 7 server

first_sender : Option (Sender × ℕ)
unfolding first_packet
first_sender = do p ← first_packet; prepare mac params true p [] none conn

-- A time of the monotonic clock, and one of both
abbrev at : ℕ → Time
at m = record { wall = pos 0; mono = pos m }

abbrev both : ℕ → Time
both m = record { wall = pos (990 + m); mono = pos m }

-- A packet that is sent at `s + 1`, and the timer that returns at `back`.
abbrev turn : ℕ → ℕ → Turn
turn s back = record {
  before_send = both s;
  net = record { dscp_refused = false; written = some 16; sent_at = both (s + 1) };
  random = [];
  now = at (s + 2);
  asleep_at = at (s + 3);
  woken_at = at back;
  cancelled = false;
}

or_sender : Option (Sender × ℕ) → Packet → Sender
or_sender (some s) p = s.0
or_sender none p = record { packet = p; conn = conn; seqno = 0; filler = none }

abbrev buffer : Packet
buffer = record {
  fbuf = record { store = []; blen = 0; fields = []; tlen = pos 0 };
  key = none;
  raddr = none;
  tsent = no_time;
  trcvd = no_time;
  src_ip = none;
  dst_ip = none;
  dscp = pos 0;
}

sender : Sender
unfolding first_sender or_sender
sender = or_sender first_sender buffer

abbrev plan : Plan
plan = record { params = params; stream = false; fill_one = false; start = both 10; end = both 160 }

abbrev cfg : ClientConfig
cfg = record { params = params; stream = false; stream_buf_len = 0; loose = false; no_test = false }

abbrev options : Options
options = record { df_wanted = false; df_refused = false; ttl_wanted = false; ttl_refused = false }

abbrev at_start : Testing
at_start = record {
  sending = record { sender = sender; recorder = new_recorder 2; phase = ready; datagrams = [] };
  packet = sender.packet;
  receive_failure = none;
}

abbrev first : Turn
first = turn 14 112

abbrev second : Turn
second = turn 113 0

-- The reply to the first packet
abbrev first_reply : Arrival
first_reply = record {
  datagram = some (20 ∷ 167 ∷ 91 ∷ 2 ∷ 7 ∷ replicate 11 0);
  raddr = none;
  dst_ip = none;
  received_at = both 60;
}

or_start : Option Testing → Testing
unfolding sender
or_start none = at_start
or_start (some x) = x

begun_one : Testing
unfolding sender or_start
begun_one = or_start (take_event mac plan (sends first) at_start)

sent_one : Testing
unfolding begun_one or_start
sent_one = or_start (take_event mac plan (sends first) begun_one)

answered : Testing
unfolding sent_one or_start
answered = or_start (take_event mac plan (reads first_reply) sent_one)

awake : Testing
unfolding answered or_start
awake = or_start (take_event mac plan (sends first) answered)

begun_two : Testing
unfolding awake or_start
begun_two = or_start (take_event mac plan (sends second) awake)

or_unsent : Option Sending → Sending
unfolding sender
or_unsent none = at_start.sending
or_unsent (some x) = x

all_sent : Sending
unfolding sender or_unsent
all_sent = or_unsent (send_all mac plan (first ∷ second ∷ []) at_start.sending)
