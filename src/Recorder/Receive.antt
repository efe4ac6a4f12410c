-- ===== src/Recorder/Receive.antt =====
-- recorder.go: `recordReceive`, what the recorder makes of a reply.
use irtt.Prelude.{
  ℕ, ◌+◌, ◌%◌, ◌^◌, Bool, true, false, not, Option, some, ◌⊎◌, inl, inr, ltb, if◌then◌else◌, ◌>>=◌,
  get_elem?, set,
}
use irtt.Code.{Code, unexpected_sequence_number}
use irtt.Time.{Timestamp, is_zero, is_wall_zero, best_send, best_receive, Time}
use irtt.Packet.{Packet, seqno, received_count, received_window, f_rcount, f_rwindow}
use irtt.Packet.Auth.{isset}
use irtt.Recorder.{
  RoundTripData, Recorder, push, Slot, unexpected, aged_out, at_index, find_round_trip,
  reply_received,
}
use irtt.Recorder.Delays.{rtt, send_delay, receive_delay}

-- `hasReceivedCount` and `hasReceivedWindow` of packet.go, with the value where it is there.
unfoldable pub has_received_count : Packet → Option Bool
has_received_count = isset f_rcount

unfoldable pub has_received_window : Packet → Option Bool
has_received_window = isset f_rwindow

-- The round trip with the reply's times, and whether it is late.
unfoldable pub received : ℕ → ℕ → Time → Timestamp → RoundTripData → RoundTripData
received prior sn trcvd sts rtd = record {
  client = record rtd.client { receive = trcvd };
  server = sts;
  received_window = rtd.received_window;
  late = ltb sn prior;
}

-- The statistics of the delays after a reply.
unfoldable pub push_delays : RoundTripData → Recorder → Recorder
push_delays rtd r = record r {
  rtt_stats = push (rtt rtd) r.rtt_stats;
  send_delay_stats =
      if not (is_wall_zero (best_receive rtd.server))
      then push (send_delay rtd) r.send_delay_stats
      else r.send_delay_stats;
  receive_delay_stats =
      if not (is_wall_zero (best_send rtd.server))
      then push (receive_delay rtd) r.receive_delay_stats
      else r.receive_delay_stats;
}

-- The two received statistics of a reply, or the values before it.
unfoldable pub read_count : Packet → ℕ → Option ℕ
read_count p old = do has ← has_received_count p; if has then received_count p else some old

unfoldable pub read_window : Packet → ℕ → Option ℕ
read_window p old = do has ← has_received_window p; if has then received_window p else some old

-- The recorder after a first reply, with the statistics `count` and `window`, for the round trip `rtd` at
-- index `i`.
unfoldable pub with_reply : ℕ → RoundTripData → ℕ → Packet → Timestamp → ℕ → ℕ → Recorder → Recorder
with_reply i rtd sn p sts count window r =
    let rtd' = received r.prior_received sn p.trcvd sts rtd in
    record (push_delays rtd' r) {
      late_packets = if rtd'.late then (r.late_packets + 1) % 2 ^ 64 else r.late_packets;
      prior_received = sn;
      first_received = if is_zero r.first_received then p.trcvd else r.first_received;
      last_received = p.trcvd;
      server_packets_received = count;
      bytes_received = (r.bytes_received + p.fbuf.blen) % 2 ^ 64;
      round_trips = set r.round_trips i (record rtd' { received_window = window });
    }

unfoldable pub record_reply :
    ℕ → RoundTripData → ℕ → Packet → Timestamp → Recorder → Option Recorder
record_reply i rtd sn p sts r = do
  count ← read_count p r.server_packets_received
  window ← read_window p rtd.received_window
  some (with_reply i rtd sn p sts count window r)

-- The part of `recordReceive` after the round trip is found.
unfoldable pub receive_at :
    Slot → ℕ → Packet → Timestamp → Recorder → Option ((Bool ⊎ Code) × Recorder)
receive_at unexpected sn p sts r = some (inr unexpected_sequence_number, r)
receive_at aged_out sn p sts r = some (inl false, r)
receive_at (at_index i) sn p sts r = do
  rtd ← get_elem? r.round_trips i
  if reply_received rtd
      then some (inl true, record r { duplicates = (r.duplicates + 1) % 2 ^ 64 })
      else (do r' ← record_reply i rtd sn p sts r; some (inl true, r'))

-- `recordReceive`: whether the round trip was there, or an error, and the recorder after.
unfoldable pub record_receive : Packet → Timestamp → Recorder → Option ((Bool ⊎ Code) × Recorder)
record_receive p sts r = do sn ← seqno p; receive_at (find_round_trip sn r) sn p sts r
