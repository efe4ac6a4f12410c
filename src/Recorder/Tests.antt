-- ===== src/Recorder/Tests.antt =====
-- The theorems on the recorder at concrete runs.
use irtt.Prelude.Word.{add64, IsInt64, sub64, signed64, unsigned64}
use mathlib.Core.Option.{none-ne-some, some-injective}
use irtt.Fbuf.{Field, get, isset}
use irtt.Packet.{Packet, seqno, get_uint, from_le}
use irtt.Recorder.Spread.{pushes, IsSummary, pushes-IsSummary}
use irtt.Recorder.Receive.{
  record_receive, receive_at, record_reply, read_count, read_window, has_received_count,
  has_received_window, with_reply, received, push_delays,
}
use irtt.Recorder.Counts.{Reach, start, pre_send, receive, IsCounted, Reach-IsCounted}
use irtt.Prelude.{
  refl, false, zero, suc, sym, List, [], ◌∷◌, none, ℕ, ◌+◌, ◌≡◌, some, arith, get_elem?,
}
use irtt.Prelude.Int.{ℤ, pos, negsuc, ◌-ℤ◌, ◌+ℤ◌}
use irtt.Time.{Time, no_time, Timestamp}
use irtt.Recorder.Delays.{rtt, server_processing_time, send_mono_diff, receive_mono_diff, rtt_sum}
use irtt.Recorder.{
  RoundTripData, reply_received, Recorder, new_recorder, new_round_trip, find_round_trip, at_index,
  aged_out, push, record_pre_send, store_round_trip,
}
use irtt.Recorder.Ring.{sends, find_round_trip-sends, find_round_trip-aged}

-- A packet each millisecond.
abbrev each : ℕ → Time
each k = record { wall = pos (1000 + k); mono = pos (1 + k) }

-- Eight packets, with room for five.
find_round_trip-sends_example :
    (r : Recorder) × (sends 8 each (new_recorder 5) ≡ some r)
    × ((i : ℕ) × (find_round_trip 4 r ≡ at_index i)
        × (get_elem? r.round_trips i ≡ some (new_round_trip (each 4))))
find_round_trip-sends_example =
    find_round_trip-sends 7 each 5 4 (omega arith) (omega arith) (omega arith) (omega arith)

find_round_trip-aged_example :
    (r : Recorder) × (sends 8 each (new_recorder 5) ≡ some r) × (find_round_trip 1 r ≡ aged_out)
find_round_trip-aged_example =
    find_round_trip-aged 7 each 5 1 (omega arith) (omega arith) (omega arith)

-- Sent at 100 and back at 190, on a server whose clock stood at 5040 and 5060.
abbrev trip : RoundTripData
trip = record {
  client = record {
    receive = record { wall = pos 0; mono = pos 190 };
    send = record { wall = pos 0; mono = pos 100 };
  };
  server = record {
    receive = record { wall = pos 0; mono = pos 5040 };
    send = record { wall = pos 0; mono = pos 5060 };
  };
  received_window = 0;
  late = false;
}

rtt-trip : rtt trip ≡ pos 70
unfolding rtt reply_received server_processing_time sub64 signed64 unsigned64 ◌-ℤ◌
rtt-trip = refl

rtt_sum_example : rtt trip ≡ send_mono_diff trip +ℤ receive_mono_diff trip
rtt_sum_example =
    rtt_sum trip (omega arith, omega arith) (omega arith, omega arith) (omega arith, omega arith)
      (omega arith, omega arith)

-- Three durations.
abbrev durations : List ℤ
durations = pos 30 ∷ negsuc 4 ∷ pos 200 ∷ []

pushes-durations :
    pushes durations ≡ record { total = pos 225; n = 3; min = negsuc 4; max = pos 200 }
unfolding pushes push add64 signed64 unsigned64 ◌+ℤ◌
pushes-durations = refl

pushes-IsSummary_example : IsSummary durations (pushes durations)
pushes-IsSummary_example =
    pushes-IsSummary (pos 30) (negsuc 4 ∷ pos 200 ∷ []) (omega arith) durations-IsInt64
  where
    durations-IsInt64 : (i : ℕ) (x : ℤ) → get_elem? durations i ≡ some x → IsInt64 x
    durations-IsInt64 zero x e = rw (sym (some-injective _ x e)) (omega arith, omega arith)
    durations-IsInt64 (suc zero) x e = rw (sym (some-injective _ x e)) (omega arith, omega arith)
    durations-IsInt64 (suc (suc zero)) x e =
        rw (sym (some-injective _ x e)) (omega arith, omega arith)
    durations-IsInt64 (suc (suc (suc i))) x e = absurd (none-ne-some x e)

abbrev absent : Field
absent = record { pos = 16; len = 0; cap = 8 }

-- The reply to packet 0, received at 190.
abbrev echo : Packet
echo = record {
  fbuf = record {
    store = 0x14 ∷ 0xa7 ∷ 0x5b ∷ 2 ∷ 0 ∷ 0 ∷ 0 ∷ 0 ∷ 0 ∷ 0 ∷ 0 ∷ 0 ∷ 0 ∷ 0 ∷ 0 ∷ 0 ∷ [];
    blen = 16;
    fields =
        record { pos = 0; len = 3; cap = 3 }
        ∷ record { pos = 3; len = 1; cap = 1 }
        ∷ record { pos = 4; len = 0; cap = 16 }
        ∷ record { pos = 4; len = 8; cap = 8 }
        ∷ record { pos = 12; len = 4; cap = 4 }
        ∷ record { pos = 16; len = 0; cap = 4 }
        ∷ absent
        ∷ [];
    tlen = pos 0;
  };
  key = none;
  raddr = none;
  tsent = no_time;
  trcvd = record { wall = pos 0; mono = pos 190 };
  src_ip = none;
  dst_ip = none;
  dscp = pos 0;
}

abbrev unstamped : Timestamp
unstamped = record { receive = no_time; send = no_time }

-- One packet sent and its reply received twice.
abbrev sent_one : Recorder
sent_one = record (new_recorder 4) {
  first_send = each 5;
  round_trips = new_round_trip (each 5) ∷ [];
}

abbrev answered_one : Recorder
answered_one = with_reply 0 (new_round_trip (each 5)) 0 echo unstamped 0 0 sent_one

abbrev answered_twice : Recorder
answered_twice = record answered_one { duplicates = 1 }

sent_one-Reach : Reach 4 0 1 1 sent_one
unfolding record_pre_send store_round_trip new_recorder
sent_one-Reach = pre_send 0 (each 5) start refl

answered_one-Reach : Reach 4 0 1 2 answered_one
unfolding record_receive receive_at find_round_trip record_reply read_count read_window
    has_received_count has_received_window reply_received new_recorder new_round_trip seqno get_uint
    get from_le isset
answered_one-Reach = receive echo unstamped sent_one-Reach refl refl

answered_twice-Reach : Reach 4 0 1 3 answered_twice
unfolding record_receive receive_at find_round_trip with_reply received push_delays reply_received
    new_recorder seqno get_uint get from_le
answered_twice-Reach = receive echo unstamped answered_one-Reach refl refl

answered_twice-counts :
    (answered_twice.rtt_stats.n ≡ 1)
    × (answered_twice.duplicates ≡ 1)
    × (answered_twice.rtt_stats.max ≡ pos 184)
unfolding with_reply push_delays push received new_recorder new_round_trip rtt reply_received
    server_processing_time sub64 ◌-ℤ◌
answered_twice-counts = (refl, refl, refl)

Reach-IsCounted_example : IsCounted 4 0 1 3 answered_twice
Reach-IsCounted_example = Reach-IsCounted answered_twice-Reach (omega arith)
