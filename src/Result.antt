-- ===== src/Result.antt =====
-- result.go, and `Lost` of rstats.go: the round trips of a result, with their status and the variation of
-- their delays, and the counts that are derived from the recorder's. The medians, the percentages and the
-- rates are float64, and are left out.
pub mod Loss
mod Tests
use irtt.Prelude.{
  ℕ, zero, suc, ◌+◌, ◌-◌, ◌/◌, ◌%◌, ◌^◌, Bool, true, false, ◌&&◌, List, [], ◌∷◌, Option, none, some,
  ◌==◌, ltb, if◌then◌else◌, ◌>>=◌, bit_and,
}
use irtt.Prelude.Int.{ℤ, eqb_ℤ}
use irtt.Time.{invalid_duration, sub, has}
use irtt.Packet.Stamps.{stats_window}
use irtt.Recorder.{
  RoundTripData, Recorder, DurationStats, no_stats, push, abs_duration, pcount, reply_received,
}
use irtt.Recorder.Delays.{ipdv_since, send_ipdv_since, receive_ipdv_since, server_processing_time}

-- `Lost`
pub data Lost : Type 0 where
  lost_true lost_down lost_up lost_false : Lost

-- One step of the loop over the round trips before a reply: `rcvd` is the bit of its received window.
unfoldable pub mark : Bool → Lost → Lost
mark true lost_false = lost_false
mark true lost_true = lost_down
mark true lost_down = lost_down
mark true lost_up = lost_down
mark false lost_true = lost_up
mark false lost_up = lost_up
mark false lost_down = lost_down
mark false lost_false = lost_false

-- That loop: `n` round trips at most, the nearest first, and a bit of the window for each.
unfoldable pub mark_window : ℕ → ℕ → List Lost → List Lost
mark_window zero w ls = ls
mark_window (suc n) w [] = []
mark_window (suc n) w (l ∷ ls) = mark (w % 2 == 1) l ∷ mark_window n (w / 2) ls

-- The test that a reply's window is there and valid
abbrev pub has_window : ℕ → RoundTripData → Bool
has_window stats d = has stats stats_window && (d.received_window % 2 == 1)

-- The status of a round trip and of those before it, the nearest first, in one turn of the main loop of
-- `newResult`; `stats` is the `ReceivedStats` of the test.
unfoldable pub set_lost : ℕ → RoundTripData → List Lost → List Lost
set_lost stats d ls =
    if reply_received d
    then lost_false ∷ (if has_window stats d then mark_window 63 (d.received_window / 2) ls else ls)
    else lost_true ∷ ls

-- All turns of the loop: the round trips from some index on, after those that have the status `ls`.
unfoldable pub set_losses : ℕ → List RoundTripData → List Lost → List Lost
set_losses stats [] ls = ls
set_losses stats (d ∷ ds) ls = set_losses stats ds (set_lost stats d ls)

-- The three variations of a round trip, which stands behind `prior` in the list.
pub record Variation : Type 0 where
  pub ipdv : ℤ
  pub send_ipdv : ℤ
  pub receive_ipdv : ℤ

abbrev pub no_variation : Variation
no_variation = record {
  ipdv = invalid_duration;
  send_ipdv = invalid_duration;
  receive_ipdv = invalid_duration;
}

unfoldable pub variation : RoundTripData → RoundTripData → Variation
variation prior d =
    if reply_received d && reply_received prior
    then record {
      ipdv = ipdv_since d prior;
      send_ipdv = send_ipdv_since d prior;
      receive_ipdv = receive_ipdv_since d prior;
    }
    else no_variation

unfoldable pub variations_after : RoundTripData → List RoundTripData → List Variation
variations_after prior [] = []
variations_after prior (d ∷ ds) = variation prior d ∷ variations_after d ds

unfoldable pub variations : List RoundTripData → List Variation
variations [] = []
variations (d ∷ ds) = no_variation ∷ variations_after d ds

-- `visitStats` with a push, but for the median
unfoldable pub push_valid : List ℤ → DurationStats → DurationStats
push_valid [] s = s
push_valid (d ∷ ds) s = push_valid ds (if eqb_ℤ d invalid_duration then s else push d s)

-- The loop over the server's processing times
unfoldable pub push_processing : List RoundTripData → DurationStats → DurationStats
push_processing [] s = s
push_processing (d ∷ ds) s = push_processing ds (
    if eqb_ℤ (server_processing_time d) invalid_duration
    then s
    else push (server_processing_time d) s)

-- The counts of `Stats`
pub record Stats : Type 0 where
  pub packets_sent : ℕ
  pub packets_received : ℕ
  pub expected_packets_sent : ℕ
  pub timer_misses : ℕ

-- The counts that `newResult` sets, at the interval of the test. It panics where the times of the first
-- and the last send have no clock in common, or the interval is 0.
unfoldable pub count_packets : ℤ → Recorder → Option Stats
count_packets interval r = do
  d ← sub r.last_sent r.first_send
  expected ← pcount d interval
  let sent = r.send_call_stats.n
  some (record {
    packets_sent = sent;
    packets_received = (r.rtt_stats.n + r.duplicates) % 2 ^ 64;
    expected_packets_sent = if ltb expected sent then sent else expected;
    timer_misses = if ltb expected sent then 0 else expected - sent;
  })
