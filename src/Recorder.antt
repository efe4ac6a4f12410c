-- ===== src/Recorder.antt =====
-- recorder.go: the record of the round trips of a test, a buffer of `cap` of them that wraps around.
-- The handler that is told of each packet is not part of it. `none` is a panic.
mod Stats
pub mod Ring
pub mod Delays
pub mod Receive
mod Outcome
pub mod Counts
pub mod Spread
mod Tests
unfoldable pub use Stats.*
use irtt.Prelude.{
  ℕ, zero, suc, ◌+◌, ◌-◌, ◌≤◌, ◌<◌, ◌≡◌, Bool, true, false, not, List, [], ◌∷◌, ◌++◌, Option, none,
  some, ◌==◌, ltb, leb, if◌then◌else◌, ◌>>=◌, ◌>>◌, guard, length, set, get_elem?, take, ◌%◌, ◌^◌,
}
use irtt.Prelude.Int.{ℤ}
use irtt.Prelude.Word.{sub64}
use irtt.Time.{
  Time, sub, no_time, is_zero, is_mono_zero, is_wall_zero, Timestamp, invalid_duration, best_send,
  best_receive,
}

-- `RoundTripData`
pub record RoundTripData : Type 0 where
  pub client : Timestamp
  pub server : Timestamp
  pub received_window : ℕ
  pub late : Bool

no_timestamp : Timestamp
no_timestamp = record { receive = no_time; send = no_time }

-- A new `RoundTripData`, with its send time.
unfoldable pub new_round_trip : Time → RoundTripData
unfolding no_timestamp
new_round_trip t = record {
  client = record { receive = no_time; send = t };
  server = no_timestamp;
  received_window = 0;
  late = false;
}

-- `Recorder`, without its start time, its wait, its handler and its lock; `cap` is the capacity of the
-- slice.
pub record Recorder : Type 0 where
  pub first_send : Time
  pub last_sent : Time
  pub first_received : Time
  pub last_received : Time
  pub send_call_stats : DurationStats
  pub timer_error_stats : DurationStats
  pub rtt_stats : DurationStats
  pub send_delay_stats : DurationStats
  pub receive_delay_stats : DurationStats
  pub server_packets_received : ℕ
  pub bytes_sent : ℕ
  pub bytes_received : ℕ
  pub duplicates : ℕ
  pub late_packets : ℕ
  pub round_trips : List RoundTripData
  pub cap : ℕ
  pub sent_index : ℕ
  pub prior_sent : ℕ
  pub prior_received : ℕ

-- `newRecorder`
unfoldable pub new_recorder : ℕ → Recorder
new_recorder cap = record {
  first_send = no_time;
  last_sent = no_time;
  first_received = no_time;
  last_received = no_time;
  send_call_stats = no_stats;
  timer_error_stats = no_stats;
  rtt_stats = no_stats;
  send_delay_stats = no_stats;
  receive_delay_stats = no_stats;
  server_packets_received = 0;
  bytes_sent = 0;
  bytes_received = 0;
  duplicates = 0;
  late_packets = 0;
  round_trips = [];
  cap = cap;
  sent_index = 0;
  prior_sent = 0;
  prior_received = 0;
}

-- The slice and the index after the append or the write in `recordPreSend`; `i` is the updated index.
unfoldable pub store_round_trip :
    ℕ → ℕ → RoundTripData → List RoundTripData → Option (List RoundTripData × ℕ)
store_round_trip cap i rtd rts =
    if ltb (length rts) cap
    then some (rts ++ (rtd ∷ []), i)
    else (let j = if i == length rts then 0 else i in
        guard (ltb j (length rts)) >> some (set rts j rtd, j))

-- `recordPreSend`, at the time `now`, of the packet `seqno`, a uint32
unfoldable pub record_pre_send : ℕ → Time → Recorder → Option Recorder
record_pre_send seqno now r = do
  let i = if ltb 0 (length r.round_trips) then r.sent_index + 1 else r.sent_index
  stored ← store_round_trip r.cap i (new_round_trip now) r.round_trips
  some (record r {
    round_trips = stored.0;
    sent_index = stored.1;
    first_send = if is_zero r.first_send then now else r.first_send;
    prior_sent = seqno;
  })

-- `removeLastRoundTrip`: the index stays where it is. It panics on an empty slice.
unfoldable pub remove_last_round_trip : Recorder → Option Recorder
remove_last_round_trip r = do
  guard (ltb 0 (length r.round_trips))
  some (record r { round_trips = take (length r.round_trips - 1) r.round_trips })

-- `recordPostSend`. It panics where the two times have no clock in common.
unfoldable pub record_post_send : Time → Time → ℕ → Recorder → Option Recorder
record_post_send tsend tsent n r = do
  d ← sub tsent tsend
  some (record r {
    send_call_stats = push d r.send_call_stats;
    bytes_sent = (r.bytes_sent + n) % 2 ^ 64;
    last_sent = tsent;
  })

-- `recordTimerErr`
unfoldable pub record_timer_err : ℤ → Recorder → Recorder
record_timer_err terr r = record r {
  timer_error_stats = push (abs_duration terr) r.timer_error_stats;
}

-- Where `recordReceive` finds the round trip of a reply: it is an error, it has aged out, or it is there.
pub data Slot : Type 0 where
  unexpected : Slot
  aged_out : Slot
  at_index : ℕ → Slot

unfoldable pub find_round_trip : ℕ → Recorder → Slot
find_round_trip seqno r =
    let o = r.prior_sent - seqno in
    let i =
      if ltb r.sent_index o then r.sent_index + length r.round_trips - o else r.sent_index - o in
    if ltb r.prior_sent seqno
    then unexpected
    else if leb (length r.round_trips) o
    then aged_out
    else at_index i

-- `ReplyReceived`
unfoldable pub reply_received : RoundTripData → Bool
reply_received d = not (is_zero d.client.receive)
