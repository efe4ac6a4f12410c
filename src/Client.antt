-- ===== src/Client.antt =====
-- client.go: how the client receives replies (`Client.receive`). `none` is a panic.
pub mod Replies
pub mod Send
pub mod Pace
pub mod Steps
pub mod Ends
pub mod Received
pub mod Run
pub mod Start
pub mod Orderly
pub mod Whole
mod Tests
mod Scenario
use irtt.Prelude.{
  ℕ, Bool, true, false, not, List, [], ◌∷◌, Option, none, some, ◌⊎◌, inl, inr, ◌==◌, if◌then◌else◌,
  ◌>>=◌,
}
use irtt.Prelude.Int.{pos, ltb_ℤ}
use irtt.Code.{Code, unexpected_open_flag, short_reply, stamp_at_mismatch, clock_mismatch}
use irtt.Time.{Timestamp, has, at_none}
use irtt.Params.{Params}
use irtt.Packet.{Mac, Packet, flags, fl_open, add_fields, fecho_reply}
use irtt.Packet.Stamps.{add_received_stats_fields, add_timestamp_fields, stamp_at, clock, timestamp}
use irtt.Conn.{Failure, coded, Arrival, creceive}
use irtt.Recorder.{Recorder}
use irtt.Recorder.Receive.{record_receive}

-- The packet with the fields that a reply is expected to have behind the first ones.
unfoldable pub add_expected : Params → Packet → Packet
add_expected params p =
    add_timestamp_fields params.stamp_at params.clock
      (add_received_stats_fields params.received_stats p)

-- The tests on the timestamps of a reply: the timestamps, or an error.
unfoldable pub compare_stamps : Params → Packet → Option (Timestamp ⊎ Code)
compare_stamps params p = do
  at ← stamp_at p
  if not (at == params.stamp_at) then some (inr stamp_at_mismatch) else (do
    cl ← if at == at_none then some params.clock else clock p
    if not (cl == params.clock)
        then some (inr clock_mismatch)
        else (do ts ← timestamp p; some (inl ts)))

-- The tests on a reply that was read.
unfoldable pub check_echo : Params → Packet → Option (Packet × (Timestamp ⊎ Code))
check_echo params p = do
  fs ← flags p
  let p1 = (add_fields fecho_reply false p).0
  let p2 = add_expected params p1
  if has fs fl_open
      then some (p, inr unexpected_open_flag)
      else if ltb_ℤ (pos p1.fbuf.blen) params.len
      then some (p1, inr short_reply)
      else (do x ← compare_stamps params p2; some (p2, x))

-- After a read: the packet, the recorder and the error, which ends the loop.
pub record Reading : Type 0 where
  pub packet : Packet
  pub recorder : Recorder
  pub failure : Option Failure

-- The error of `recordReceive`. That the round trip has aged out is only printed.
abbrev pub record_failure : Bool ⊎ Code → Option Failure
record_failure (inl ok) = none
record_failure (inr e) = some (coded e)

unfoldable pub record_echo : Recorder → Packet × (Timestamp ⊎ Code) → Option Reading
record_echo r (p, inr e) = some (record { packet = p; recorder = r; failure = some (coded e) })
record_echo r (p, inl sts) = do
  (x, r') ← record_receive p sts r
  some (record { packet = p; recorder = r'; failure = record_failure x })

module _ (h : Mac) (params : Params) where
  -- One turn of the loop in `receive`
  unfoldable pub receive_one : Arrival → Packet → Recorder → Option Reading
  receive_one a p r = do
    (p1, e) ← creceive h a p
    elim e [
      | some f ↦ some (record { packet = p1; recorder = r; failure = some f })
      | none ↦ (do x ← check_echo params p1; record_echo r x)
    ]

  -- `receive`, over the packets that arrive
  unfoldable pub receive_all : List Arrival → Packet → Recorder → Option Reading
  receive_all [] p r = some (record { packet = p; recorder = r; failure = none })
  receive_all (a ∷ arrivals) p r = do
    x ← receive_one a p r
    elim (x.failure) [ some f ↦ some x | none ↦ receive_all arrivals x.packet x.recorder ]
