-- ===== src/Client/Scenario/Runs.antt =====
-- The theorems on the client over the steps of the scenario.
use irtt.Client
use irtt.Client.Run
use irtt.Client.Send
use irtt.Conn
use irtt.Fbuf
use irtt.Net
use irtt.Packet
use irtt.Packet.Auth
use irtt.Packet.Stamps
use irtt.Negotiate
use irtt.Recorder
use irtt.Recorder.Receive
use irtt.Prelude.{
  ◌≡◌, ◌≤◌, refl, ap, sym, ◌∙◌, length, [], ◌∷◌, Option, none, some, Bool, true, false, arith,
}
use irtt.Prelude.Int.{pos}
use irtt.Prelude.Word
use irtt.Time.{sub, add, before}
use irtt.Packet.{Mac, Packet}
use irtt.Net.{UdpAddr}
use irtt.Conn.{Nconn, Arrival}
use irtt.Recorder.{new_recorder}
use irtt.Client.Send.{
  Plan, Sender, Sending, Phase, Turn, ready, sending, sleeping, new_conn_packet, prepare, send_all,
}
use irtt.Client.Pace
use irtt.Client.Pace.{IsOnTime, no_more, one_more}
use irtt.Client.Steps.{IsStopped, IsFailed}
use irtt.Client.Ends.{IsTimed, send_all-IsStopped}
use irtt.Client.Whole.{Trace, begun, before_send, sent, woken, read, start_run-IsWhole}
use mathlib.Core.Bool.{true≢false}
use irtt.Recorder.{pcount}
use irtt.Recorder.Counts.{replied}
use irtt.Client.Run.{
  Testing, Event, sends, reads, take_event, run_test, Options, dialed, started, start_run,
}
use irtt.Client.Scenario.{
  mac, params, first_packet, first_sender, at, both, or_sender, sender, plan, cfg, options,
  at_start, first, second, first_reply, or_start, begun_one, sent_one, answered, awake, begun_two,
  or_unsent, all_sent,
}

is_there {ℓ} : {A : Type ℓ} → Option A → Bool
is_there none = false
is_there (some a) = true

-- No step of the scenario panics.
steps-run :
    (is_there (take_event mac plan (sends first) at_start) ≡ true)
    × (is_there (take_event mac plan (sends first) begun_one) ≡ true)
    × (is_there (take_event mac plan (reads first_reply) sent_one) ≡ true)
    × (is_there (take_event mac plan (sends first) answered) ≡ true)
    × (is_there (take_event mac plan (sends second) awake) ≡ true)
    × (is_there (send_all mac plan (first ∷ second ∷ []) at_start.sending) ≡ true)
unfolding is_there begun_one sent_one answered awake begun_two all_sent or_start or_unsent sender
    or_sender first_sender first_packet Client.add_expected Client.compare_stamps Client.check_echo
    Client.record_echo Client.receive_one Client.receive_all Conn.set_dscp Conn.send Conn.read_into
    Conn.set_addrs Conn.set_times Conn.lsend Conn.check_request Conn.check_reply Conn.accept_bytes
    Conn.lreceive Conn.creceive Conn.close_packet Fbuf.sum_lens Fbuf.sum_caps Fbuf.new_fbuf
    Fbuf.validate Fbuf.set_len Fbuf.set_loop Fbuf.add_loop Fbuf.finish_fields Fbuf.set_fields
    Fbuf.add_fields Fbuf.move_fields Fbuf.resize_field Fbuf.shift_bytes Fbuf.reset_to_target
    Fbuf.set_field_len Fbuf.set_to Fbuf.write_to Fbuf.set Fbuf.setb Fbuf.zero_field Fbuf.set_payload
    Fbuf.get Fbuf.getb Fbuf.isset Fbuf.payload Fbuf.zero_payload Fbuf.remove Net.bytes_equal
    Net.ip_equal Net.udp_addrs_equal Packet.new_packet Packet.read_to Packet.le_bytes Packet.from_le
    Packet.get_uint Packet.set_uint Packet.flags Packet.set_flag_bits Packet.clear_flag_bits
    Packet.reply Packet.set_reply Packet.ctoken Packet.set_conn_token Packet.seqno Packet.set_seqno
    Packet.received_count Packet.set_received_count Packet.received_window
    Packet.set_received_window Auth.check_clocks Auth.check_stamps Auth.check_hmac
    Auth.check_no_hmac Auth.check_key Auth.validate Auth.read_reset Auth.update_hmac
    Stamps.zero_received_stats Stamps.add_received_stats_fields Stamps.tget Stamps.timestamp
    Stamps.tset Stamps.set_timestamp Stamps.clock Stamps.stamp_at Stamps.zero_stamps
    Stamps.stamp_zeroes Stamps.stamp_fields Stamps.add_timestamp_fields Stamps.remove_timestamps
    Recorder.new_round_trip Recorder.new_recorder Recorder.store_round_trip Recorder.record_pre_send
    Recorder.remove_last_round_trip Recorder.record_post_send Recorder.record_timer_err
    Recorder.find_round_trip Recorder.reply_received Recorder.push Recorder.abs_duration
    Recorder.divide Recorder.pcount Receive.has_received_count Receive.has_received_window
    Receive.received Receive.push_delays Receive.read_count Receive.read_window Receive.with_reply
    Receive.record_reply Receive.receive_at Receive.record_receive Send.new_conn_packet
    Send.first_payload Send.next_payload Send.test_end Send.next_send Send.is_over Send.plan_sleep
    Send.drop_unsent Send.wake Send.prepare Send.next_packet Send.after_send Send.complete
    Send.step_by Send.step Send.send_one Send.send_all Run.set_options Run.make_recorder Run.begin
    Run.start_run Run.wait Run.read_next Run.take_event Run.run_test Run.loop_error
    Recorder.remainder Negotiate.check_others Negotiate.check_parameters Negotiate.validate_config
    Word.quot Word.sub64 Word.add64 Word.mul64 sub add before
steps-run = (refl, refl, refl, refl, refl, refl)

start-run :
    start_run (λ i. none) cfg options (dialed params (some true))
    ≡ some (started params 2 (new_recorder 2))
unfolding Run.set_options Run.make_recorder Run.begin Run.start_run Recorder.pcount Recorder.divide
    Negotiate.check_others Negotiate.check_parameters Negotiate.validate_config Net.bytes_equal
start-run = refl

or_start-some : (o : Option Testing) → is_there o ≡ true → o ≡ some (or_start o)
unfolding is_there or_start
or_start-some none e = absurd (true≢false (sym e))
or_start-some (some x) e = refl

or_unsent-some : (o : Option Sending) → is_there o ≡ true → o ≡ some (or_unsent o)
unfolding is_there or_unsent
or_unsent-some none e = absurd (true≢false (sym e))
or_unsent-some (some x) e = refl

scenario_lem :
    (take_event mac plan (sends first) at_start ≡ some begun_one)
    × (take_event mac plan (sends first) begun_one ≡ some sent_one)
    × (take_event mac plan (reads first_reply) sent_one ≡ some answered)
    × (take_event mac plan (sends first) answered ≡ some awake)
    × (take_event mac plan (sends second) awake ≡ some begun_two)
    × (send_all mac plan (first ∷ second ∷ []) at_start.sending ≡ some all_sent)
unfolding begun_one sent_one answered awake begun_two all_sent
scenario_lem = (
  or_start-some (take_event mac plan (sends first) at_start) steps-run.0,
  or_start-some (take_event mac plan (sends first) begun_one) steps-run.1,
  or_start-some (take_event mac plan (reads first_reply) sent_one) steps-run.2,
  or_start-some (take_event mac plan (sends first) answered) steps-run.3,
  or_start-some (take_event mac plan (sends second) awake) steps-run.4,
  or_unsent-some (send_all mac plan (first ∷ second ∷ []) at_start.sending) steps-run.5,
)

phases :
    (begun_one.sending.phase ≡ sending (both 14))
    × (answered.sending.phase ≡ sleeping (at 17) (pos 93))
    × (awake.sending.phase ≡ ready)
    × (begun_two.sending.phase ≡ sending (both 113))
unfolding begun_one sent_one answered awake begun_two all_sent or_start or_unsent sender or_sender
    first_sender first_packet Client.add_expected Client.compare_stamps Client.check_echo
    Client.record_echo Client.receive_one Client.receive_all Conn.set_dscp Conn.send Conn.read_into
    Conn.set_addrs Conn.set_times Conn.lsend Conn.check_request Conn.check_reply Conn.accept_bytes
    Conn.lreceive Conn.creceive Conn.close_packet Fbuf.sum_lens Fbuf.sum_caps Fbuf.new_fbuf
    Fbuf.validate Fbuf.set_len Fbuf.set_loop Fbuf.add_loop Fbuf.finish_fields Fbuf.set_fields
    Fbuf.add_fields Fbuf.move_fields Fbuf.resize_field Fbuf.shift_bytes Fbuf.reset_to_target
    Fbuf.set_field_len Fbuf.set_to Fbuf.write_to Fbuf.set Fbuf.setb Fbuf.zero_field Fbuf.set_payload
    Fbuf.get Fbuf.getb Fbuf.isset Fbuf.payload Fbuf.zero_payload Fbuf.remove Net.bytes_equal
    Net.ip_equal Net.udp_addrs_equal Packet.new_packet Packet.read_to Packet.le_bytes Packet.from_le
    Packet.get_uint Packet.set_uint Packet.flags Packet.set_flag_bits Packet.clear_flag_bits
    Packet.reply Packet.set_reply Packet.ctoken Packet.set_conn_token Packet.seqno Packet.set_seqno
    Packet.received_count Packet.set_received_count Packet.received_window
    Packet.set_received_window Auth.check_clocks Auth.check_stamps Auth.check_hmac
    Auth.check_no_hmac Auth.check_key Auth.validate Auth.read_reset Auth.update_hmac
    Stamps.zero_received_stats Stamps.add_received_stats_fields Stamps.tget Stamps.timestamp
    Stamps.tset Stamps.set_timestamp Stamps.clock Stamps.stamp_at Stamps.zero_stamps
    Stamps.stamp_zeroes Stamps.stamp_fields Stamps.add_timestamp_fields Stamps.remove_timestamps
    Recorder.new_round_trip Recorder.new_recorder Recorder.store_round_trip Recorder.record_pre_send
    Recorder.remove_last_round_trip Recorder.record_post_send Recorder.record_timer_err
    Recorder.find_round_trip Recorder.reply_received Recorder.push Recorder.abs_duration
    Recorder.divide Recorder.pcount Receive.has_received_count Receive.has_received_window
    Receive.received Receive.push_delays Receive.read_count Receive.read_window Receive.with_reply
    Receive.record_reply Receive.receive_at Receive.record_receive Send.new_conn_packet
    Send.first_payload Send.next_payload Send.test_end Send.next_send Send.is_over Send.plan_sleep
    Send.drop_unsent Send.wake Send.prepare Send.next_packet Send.after_send Send.complete
    Send.step_by Send.step Send.send_one Send.send_all Run.set_options Run.make_recorder Run.begin
    Run.start_run Run.wait Run.read_next Run.take_event Run.run_test Run.loop_error
    Recorder.remainder Negotiate.check_others Negotiate.check_parameters Negotiate.validate_config
    Word.quot Word.sub64 Word.add64 Word.mul64 sub add before
phases = (refl, refl, refl, refl)

timed : IsTimed 100 150 1000 10 plan
unfolding Send.test_end add Word.add64
timed = record {
  interval = refl;
  duration = refl;
  start = refl;
  end = refl;
  positive = (omega arith, omega arith, omega arith);
  range = omega arith;
}

on_time : IsOnTime 100 1000 10 0 (first ∷ second ∷ [])
unfolding Pace.slot
on_time =
    one_more 5 6 refl refl (omega arith) (omega arith) (omega arith)
      (one_more 104 105 refl refl (omega arith) (omega arith) (omega arith) no_more)

pcount_run : pcount (pos 150) (pos 100) ≡ some 2
unfolding Recorder.divide Recorder.pcount
pcount_run = refl

send_all-IsStopped_example : IsStopped all_sent.phase
send_all-IsStopped_example =
    send_all-IsStopped 100 150 1000 10 plan timed mac (first ∷ second ∷ []) at_start.sending
      all_sent 2 on_time pcount_run (omega arith) refl scenario_lem.5

trace : Trace mac plan 100 1000 10 at_start 1 2 5 begun_two
unfolding Pace.slot
trace =
    before_send second
      (woken first (at 17) (pos 93)
        (read first_reply
          (sent first (both 14) 5 6 (before_send first begun refl scenario_lem.0) phases.0 refl refl
            (omega arith) (omega arith) (omega arith) scenario_lem.1)
          refl scenario_lem.2)
        phases.1 scenario_lem.3)
      phases.2 scenario_lem.4

going_on : ¬ IsFailed begun_two.sending.phase
unfolding IsFailed
going_on (f, e) = true≢false (ap is_sending (sym phases.3 ∙ e))
  where
    is_sending : Phase → Bool
    is_sending (sending t) = true
    is_sending y = false

start_run-IsWhole_example :
    (2 ≤ 2)
    × (length begun_two.sending.recorder.round_trips ≡ 2)
    × (replied begun_two.sending.recorder.round_trips ≡ begun_two.sending.recorder.rtt_stats.n)
start_run-IsWhole_example =
    start_run-IsWhole mac plan 100 150 1000 10 2 at_start timed (λ i. none) cfg options
      (dialed params (some true)) params (new_recorder 2) refl start-run refl refl refl refl trace
      (omega arith) going_on
