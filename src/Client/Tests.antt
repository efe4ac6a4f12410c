-- ===== src/Client/Tests.antt =====
-- The theorems on the client at a concrete reply.
use irtt.Client
use irtt.Conn
use irtt.Fbuf
use irtt.Net
use irtt.Packet
use irtt.Packet.Auth
use irtt.Packet.Stamps
use irtt.Prelude.{ℕ, ◌≡◌, refl, List, [], ◌∷◌, Option, none, some, replicate}
use irtt.Prelude.Int.{pos}
use irtt.Recorder
use irtt.Recorder.Receive
use irtt.Params.{Params, no_params}
use irtt.Time.{no_time}
use irtt.Fbuf.{Field}
use irtt.Packet.{Mac, Packet}
use irtt.Conn.{Arrival, coded}
use irtt.Recorder.{Recorder, new_round_trip, new_recorder}
use irtt.Client.{Reading, receive_all}
use irtt.Client.Replies.{IsRecording, receive_all-IsRecording}

abbrev mac : Mac
mac = record { sum = λ key message. replicate 16 0; length-sum = λ key message. refl }

abbrev field : ℕ → ℕ → ℕ → Field
field p l c = record { pos = p; len = l; cap = c }

abbrev absent : ℕ → Field
absent c = field 4 0 c

abbrev buffer : Packet
buffer = record {
  fbuf = record {
    store = 20 ∷ 167 ∷ 91 ∷ replicate 97 0;
    blen = 4;
    fields =
        field 0 3 3
        ∷ field 3 1 1
        ∷ absent 16
        ∷ absent 8
        ∷ absent 4
        ∷ absent 4
        ∷ absent 8
        ∷ absent 8
        ∷ absent 8
        ∷ absent 8
        ∷ absent 8
        ∷ absent 8
        ∷ absent 8
        ∷ [];
    tlen = pos 0;
  };
  key = none;
  raddr = none;
  tsent = no_time;
  trcvd = no_time;
  src_ip = none;
  dst_ip = none;
  dscp = pos 0;
}

-- A test without timestamps and received statistics, in packets of 16 bytes.
abbrev params : Params
params = record no_params { len = pos 16 }

abbrev sent : Recorder
sent = record (new_recorder 4) {
  first_send = record { wall = pos 5; mono = pos 6 };
  round_trips = new_round_trip (record { wall = pos 5; mono = pos 6 }) ∷ [];
}

abbrev arrival : List ℕ → Arrival
arrival b = record {
  datagram = some b;
  raddr = none;
  dst_ip = none;
  received_at = record { wall = pos 40; mono = pos 45 };
}

-- The reply to packet 0, and one that is too short.
abbrev arrivals : List Arrival
arrivals =
    arrival (20 ∷ 167 ∷ 91 ∷ 2 ∷ 7 ∷ replicate 11 0)
    ∷ arrival (20 ∷ 167 ∷ 91 ∷ 2 ∷ 7 ∷ replicate 7 0)
    ∷ []

outcome : Option Reading
unfolding receive_all
outcome = receive_all mac params arrivals buffer sent

or_buffer : Option Reading → Reading
or_buffer none = record { packet = buffer; recorder = sent; failure = none }
or_buffer (some x) = x

reading : Reading
unfolding outcome or_buffer
reading = or_buffer outcome

reading_lem :
    (receive_all mac params arrivals buffer sent ≡ some reading)
    × (reading.recorder.rtt_stats.n ≡ 1)
unfolding reading outcome or_buffer Client.add_expected Client.compare_stamps Client.check_echo
    Client.record_echo Client.receive_one Client.receive_all Conn.set_dscp Conn.send Conn.read_into
    Conn.set_addrs Conn.set_times Conn.lsend Conn.check_request Conn.check_reply Conn.accept_bytes
    Conn.lreceive Conn.creceive Conn.close_packet Fbuf.sum_lens Fbuf.sum_caps Fbuf.new_fbuf
    Fbuf.validate Fbuf.set_len Fbuf.set_loop Fbuf.add_loop Fbuf.finish_fields Fbuf.set_fields
    Fbuf.add_fields Fbuf.move_fields Fbuf.resize_field Fbuf.shift_bytes Fbuf.reset_to_target
    Fbuf.set_field_len Fbuf.set_to Fbuf.write_to Fbuf.set Fbuf.setb Fbuf.zero_field Fbuf.set_payload
    Fbuf.get Fbuf.getb Fbuf.isset Fbuf.payload Fbuf.zero_payload Fbuf.remove Net.bytes_equal
    Net.ip_equal Net.udp_addrs_equal Packet.new_packet Packet.read_to Packet.le_bytes Packet.from_le
    Packet.get_uint Packet.set_uint Packet.flags Packet.set_flag_bits Packet.clear_flag_bits
    Packet.reply Packet.set_reply Packet.ctoken Packet.set_conn_token Packet.seqno Packet.set_seqno
    Packet.received_count Packet.set_received_count Packet.received_window
    Packet.set_received_window Auth.check_clocks Auth.check_stamps Auth.check_hmac
    Auth.check_no_hmac Auth.check_key Auth.validate Auth.read_reset Auth.update_hmac
    Stamps.zero_received_stats Stamps.add_received_stats_fields Stamps.tget Stamps.timestamp
    Stamps.tset Stamps.set_timestamp Stamps.clock Stamps.stamp_at Stamps.zero_stamps
    Stamps.stamp_zeroes Stamps.stamp_fields Stamps.add_timestamp_fields Stamps.remove_timestamps
    Recorder.new_round_trip Recorder.new_recorder Recorder.store_round_trip Recorder.record_pre_send
    Recorder.remove_last_round_trip Recorder.record_post_send Recorder.record_timer_err
    Recorder.find_round_trip Recorder.reply_received Recorder.push Recorder.abs_duration
    Recorder.divide Recorder.pcount Receive.has_received_count Receive.has_received_window
    Receive.received Receive.push_delays Receive.read_count Receive.read_window Receive.with_reply
    Receive.record_reply Receive.receive_at Receive.record_receive
reading_lem = (refl, refl)

receive_all-IsRecording_example : IsRecording mac params none arrivals buffer sent reading.recorder
receive_all-IsRecording_example =
    receive_all-IsRecording mac params arrivals buffer sent reading reading_lem.0
