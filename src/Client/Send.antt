-- ===== src/Client/Send.antt =====
-- client.go: how the client sends the packets of a test (`Client.send`). What the clocks and the network do,
-- and when the timer wakes it up, are arguments; `none` is a panic.
use irtt.Prelude.{
  ℕ, ◌+◌, ◌%◌, ◌^◌, Bool, true, false, not, List, [], ◌∷◌, ◌++◌, Option, none, some, if◌then◌else◌,
  ◌>>=◌,
}
use irtt.Prelude.Int.{ℤ, pos, ltb_ℤ}
use irtt.Prelude.Word.{sub64, mul64, quot}
use irtt.Time.{Time, no_time, is_zero, sub, add, before, invalid_duration}
use irtt.Params.{Params}
use irtt.Fbuf
use irtt.Packet.{Mac, Packet, new_packet, set_conn_token, set_seqno, add_fields, fecho_request}
use irtt.Packet.Auth.{update_hmac}
use irtt.Packet.Stamps.{zero_received_stats, stamp_zeroes}
use irtt.Net.{UdpAddr}
use irtt.Filler.{Filler}
use irtt.Filler.Payload.{read_payload}
use irtt.Conn.{Failure, system, Nconn, Network, send}
use irtt.Recorder.{
  Recorder, record_pre_send, remove_last_round_trip, record_post_send, record_timer_err, divide,
  remainder,
}

-- What does not change while the client sends: of its configuration, and the times of the test. The end is
-- `no_time` for a test without one.
pub record Plan : Type 0 where
  pub params : Params
  pub stream : Bool
  pub fill_one : Bool
  pub start : Time
  pub end : Time

-- The packet and what prepares it: the connection, its number, and the filler.
pub record Sender : Type 0 where
  pub packet : Packet
  pub conn : Nconn
  pub seqno : ℕ
  pub filler : Option Filler

-- Where the loop is: before a send, in one, asleep, after the last packet, or after an error.
pub data Phase : Type 0 where
  ready : Phase
  sending : Time → Phase
  sleeping : Time → ℤ → Phase
  finished : Phase
  failed : Failure → Phase

-- The state of the loop, with the bytes that were handed to the socket.
pub record Sending : Type 0 where
  pub sender : Sender
  pub recorder : Recorder
  pub phase : Phase
  pub datagrams : List (List ℕ)

-- What happens in one turn of the loop: the time before the send, the send, the bytes of a random filler, the
-- times after, and the time when the timer returns, by itself or because the test was cancelled.
pub record Turn : Type 0 where
  pub before_send : Time
  pub net : Network
  pub random : List ℕ
  pub now : Time
  pub asleep_at : Time
  pub woken_at : Time
  pub cancelled : Bool

-- `cconn.newPacket`
unfoldable pub new_conn_packet : ℕ → List ℕ → ℕ → UdpAddr → Option Packet
new_conn_packet cap key token raddr = do
  p ← new_packet 0 cap key
  p' ← set_conn_token token p
  some (record p' { raddr = some raddr })

-- The payload of a new packet: filled if there is a filler, else zero.
unfoldable pub first_payload : List ℕ → Option Filler → Packet → Option (Packet × Option Filler)
first_payload random none p = do fb ← Fbuf.zero_payload p.fbuf; some (record p { fbuf = fb }, none)
first_payload random (some f) p = do (p', f') ← read_payload random f p; some (p', some f')

-- The payload of the packets after it: it stays as it is, if only the first is filled.
unfoldable pub next_payload :
    Bool → List ℕ → Option Filler → Packet → Option (Packet × Option Filler)
next_payload fill_one random none p = some (p, none)
next_payload fill_one random (some f) p =
    if fill_one
    then some (p, some f)
    else (do (p', f') ← read_payload random f p; some (p', some f'))

-- The end of the test that starts at `start`
unfoldable pub test_end : ℤ → Time → Option Time
test_end duration start =
    if ltb_ℤ duration invalid_duration then add start duration else some no_time

-- The time of the next send: the first or the second multiple of the interval after `now`, according as the
-- last packet was sent in the first or the second half of its interval.
unfoldable pub next_send : ℤ → Time → Time → Time → Option Time
next_send interval start now tsent = do
  elapsed ← sub now start
  q ← divide elapsed interval
  base ← add start (mul64 interval q)
  since ← sub tsent start
  rest ← remainder since interval
  if ltb_ℤ rest (quot interval 2) then add base interval else add base (mul64 (pos 2) interval)

-- Whether the test ends before that.
unfoldable pub is_over : Time → Time → Option Bool
is_over end tnext = if is_zero end then some false else (do b ← before tnext end; some (not b))

-- A sleep until then, unless the test is over.
unfoldable pub plan_sleep : Plan → Turn → Time → Option Phase
plan_sleep plan t tsent = do
  tnext ← next_send plan.params.interval plan.start t.now tsent
  over ← is_over plan.end tnext
  if over
      then some finished
      else (do dsleep ← sub tnext t.asleep_at; some (sleeping t.asleep_at dsleep))

-- The round trip of a packet that was not sent is removed, unless the test is a stream.
unfoldable pub drop_unsent : Bool → Recorder → Option Recorder
drop_unsent stream r = if stream then some r else remove_last_round_trip r

-- The timer returns.
unfoldable pub wake : Turn → Time → ℤ → Recorder → Option (Recorder × Phase)
wake t tsleep dsleep r =
    if t.cancelled
    then some (r, failed system)
    else (do d ← sub t.woken_at tsleep; some (record_timer_err (sub64 d dsleep) r, ready))

module _ (h : Mac) where
  -- What `send` does before its loop: the packet with the number 0, and the length of the test's packets.
  unfoldable pub prepare :
      Params → Bool → Packet → List ℕ → Option Filler → Nconn → Option (Sender × ℕ)
  prepare params dscp_support p random filler conn = do
    let p1 = record p { dscp = if dscp_support then params.dscp else p.dscp }
    p2 ← zero_received_stats params.received_stats (add_fields fecho_request true p1).0
    p3 ← stamp_zeroes params.stamp_at params.clock p2
    p4 ← set_seqno 0 p3
    let (fb, l) = Fbuf.set_len params.len p4.fbuf
    (p5, filler') ← first_payload random filler (record p4 { fbuf = fb })
    p6 ← update_hmac h p5
    some (record { packet = p6; conn = conn; seqno = 0; filler = filler' }, l)

  -- The packet that is sent next.
  unfoldable pub next_packet : Bool → List ℕ → Sender → Option Sender
  next_packet fill_one random s = do
    let sn = (s.seqno + 1) % 2 ^ 32
    p1 ← set_seqno sn s.packet
    (p2, filler') ← next_payload fill_one random s.filler p1
    p3 ← update_hmac h p2
    some (record s { packet = p3; seqno = sn; filler = filler' })

  -- What follows a send that gave an error, or none: the sender, the recorder, and where the loop goes on.
  unfoldable pub after_send :
      Plan → Turn → Time → Option Failure → Sender → Recorder → Option (Sender × Recorder × Phase)
  after_send plan t tsend (some e) s r = do r' ← drop_unsent plan.stream r; some (s, r', failed e)
  after_send plan t tsend none s r = do
    r' ← record_post_send tsend s.packet.tsent s.packet.fbuf.blen r
    s' ← next_packet plan.fill_one t.random s
    phase ← plan_sleep plan t s.packet.tsent
    some (s', r', phase)

  -- The send, and what follows it
  unfoldable pub complete : Plan → Turn → Time → Sending → Option Sending
  complete plan t tsend x = do
    let sent = send t.net x.sender.conn x.sender.packet
    (s, r, phase) ←
        after_send plan t tsend sent.failure
          (record x.sender { packet = sent.packet; conn = sent.conn }) x.recorder
    some (record {
      sender = s;
      recorder = r;
      phase = phase;
      datagrams = elim (sent.datagram) [ none ↦ x.datagrams | some b ↦ x.datagrams ++ (b ∷ []) ];
    })

  -- The loop from one lock of the recorder to the next: each step changes the recorder once.
  unfoldable pub step_by : Plan → Turn → Phase → Sending → Option Sending
  step_by plan t ready x = do
    r ← record_pre_send x.sender.seqno t.before_send x.recorder
    some (record x { recorder = r; phase = sending t.before_send })
  step_by plan t (sending tsend) x = complete plan t tsend x
  step_by plan t (sleeping tsleep dsleep) x = do
    (r, phase) ← wake t tsleep dsleep x.recorder
    some (record x { recorder = r; phase = phase })
  step_by plan t finished x = some x
  step_by plan t (failed e) x = some x

  unfoldable pub step : Plan → Turn → Sending → Option Sending
  step plan t x = step_by plan t x.phase x

  -- One turn of the loop
  unfoldable pub send_one : Plan → Turn → Sending → Option Sending
  send_one plan t x = do x1 ← step plan t x; x2 ← step plan t x1; step plan t x2

  -- The loop, over turns
  unfoldable pub send_all : Plan → List Turn → Sending → Option Sending
  send_all plan [] x = some x
  send_all plan (t ∷ turns) x = do x' ← send_one plan t x; send_all plan turns x'
