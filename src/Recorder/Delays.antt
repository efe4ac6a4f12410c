-- ===== src/Recorder/Delays.antt =====
-- recorder.go: the times of one round trip, and their variation from one to the next.
use irtt.Prelude.{
  ◌≡◌, ◌^◌, arith, refl, ==-eq-false, Bool, true, false, not, ◌&&◌, ◌||◌, if◌then◌else◌,
}
use irtt.Prelude.Int.{ℤ, pos, eqb_ℤ, ◌≤ℤ◌, ◌-ℤ◌, ◌+ℤ◌, -ℤ_parts, +ℤ_parts, eq_of_parts}
use irtt.Prelude.Word.{sub64, sub64_exact}
use irtt.Time.{
  Time, is_zero, is_mono_zero, is_wall_zero, invalid_duration, is_both_mono, is_both_wall,
  best_send, best_receive,
}
use irtt.Recorder.{RoundTripData, reply_received}

-- `IsReceiveTimestamped` and so on
unfoldable pub is_receive_timestamped : RoundTripData → Bool
is_receive_timestamped d = not (is_zero d.server.receive)

unfoldable pub is_send_timestamped : RoundTripData → Bool
is_send_timestamped d = not (is_zero d.server.send)

unfoldable pub is_timestamped : RoundTripData → Bool
is_timestamped d = is_receive_timestamped d || is_send_timestamped d

unfoldable pub is_both_timestamped : RoundTripData → Bool
is_both_timestamped d = is_receive_timestamped d && is_send_timestamped d

unfoldable pub is_mono_timestamped : RoundTripData → Bool
is_mono_timestamped d = not (is_mono_zero d.server.receive) || not (is_mono_zero d.server.send)

unfoldable pub is_wall_timestamped : RoundTripData → Bool
is_wall_timestamped d = not (is_wall_zero d.server.receive) || not (is_wall_zero d.server.send)

unfoldable pub server_processing_time : RoundTripData → ℤ
server_processing_time d =
    if is_both_mono d.server
    then sub64 d.server.send.mono d.server.receive.mono
    else if is_both_wall d.server
    then sub64 d.server.send.wall d.server.receive.wall
    else invalid_duration

unfoldable pub rtt : RoundTripData → ℤ
rtt d =
    let trip = sub64 d.client.receive.mono d.client.send.mono in
    if not (reply_received d)
    then invalid_duration
    else if eqb_ℤ (server_processing_time d) invalid_duration
    then trip
    else sub64 trip (server_processing_time d)

unfoldable pub ipdv_since : RoundTripData → RoundTripData → ℤ
ipdv_since d prior =
    if not (reply_received d) || not (reply_received prior)
    then invalid_duration
    else sub64 (rtt d) (rtt prior)

unfoldable pub send_mono_diff : RoundTripData → ℤ
send_mono_diff d = sub64 (best_receive d.server).mono d.client.send.mono

unfoldable pub receive_mono_diff : RoundTripData → ℤ
receive_mono_diff d = sub64 d.client.receive.mono (best_send d.server).mono

unfoldable pub send_wall_diff : RoundTripData → ℤ
send_wall_diff d = sub64 (best_receive d.server).wall d.client.send.wall

unfoldable pub receive_wall_diff : RoundTripData → ℤ
receive_wall_diff d = sub64 d.client.receive.wall (best_send d.server).wall

-- `SendIPDVSince` and `ReceiveIPDVSince` are the same but for the two differences.
unfoldable pub diff_since :
    (RoundTripData → ℤ) → (RoundTripData → ℤ) → RoundTripData → RoundTripData → ℤ
diff_since mono_diff wall_diff d prior =
    if is_timestamped d && is_timestamped prior
    then (if is_mono_timestamped d && is_mono_timestamped prior
        then sub64 (mono_diff d) (mono_diff prior)
        else if is_wall_timestamped d && is_wall_timestamped prior
        then sub64 (wall_diff d) (wall_diff prior)
        else invalid_duration)
    else invalid_duration

unfoldable pub send_ipdv_since : RoundTripData → RoundTripData → ℤ
send_ipdv_since = diff_since send_mono_diff send_wall_diff

unfoldable pub receive_ipdv_since : RoundTripData → RoundTripData → ℤ
receive_ipdv_since = diff_since receive_mono_diff receive_wall_diff

unfoldable pub send_delay : RoundTripData → ℤ
send_delay d = if not (is_wall_timestamped d) then invalid_duration else send_wall_diff d

unfoldable pub receive_delay : RoundTripData → ℤ
receive_delay d = if not (is_wall_timestamped d) then invalid_duration else receive_wall_diff d

-- A reading of the monotonic clock, in the first 2 ^ 61 nanoseconds (73 years).
abbrev pub IsReading : ℤ → Type 0
IsReading t = (pos 1 ≤ℤ t) × (t ≤ℤ pos (2 ^ 61))

diff : (a b : ℤ) → IsReading a → IsReading b → sub64 a b ≡ a -ℤ b
diff a b h k = sub64_exact a b (omega (arith, -ℤ_parts a b), omega (arith, -ℤ_parts a b))

ring_of : (a b c e : ℤ) → (b -ℤ a) -ℤ (c -ℤ e) ≡ (e -ℤ a) +ℤ (b -ℤ c)
ring_of a b c e = eq_of_parts _ _ (
    omega (
      arith,
      -ℤ_parts (b -ℤ a) (c -ℤ e),
      -ℤ_parts b a,
      -ℤ_parts c e,
      +ℤ_parts (e -ℤ a) (b -ℤ c),
      -ℤ_parts e a,
      -ℤ_parts b c,
    ))

and_false : (b : Bool) → (b && false) ≡ false
and_false true = refl
and_false false = refl

small :
    (a b c e : ℤ)
    → IsReading a
    → IsReading b
    → IsReading c
    → IsReading e
    → sub64 (b -ℤ a) (c -ℤ e) ≡ (b -ℤ a) -ℤ (c -ℤ e)
small a b c e ha hb hc he = sub64_exact (b -ℤ a) (c -ℤ e) (
  omega (arith, -ℤ_parts (b -ℤ a) (c -ℤ e), -ℤ_parts b a, -ℤ_parts c e),
  omega (arith, -ℤ_parts (b -ℤ a) (c -ℤ e), -ℤ_parts b a, -ℤ_parts c e),
)

running : (a : ℤ) → IsReading a → eqb_ℤ a (pos 0) ≡ false
running a h = ==-eq-false _ _ (λ e. omega arith)

present : (t : Time) → IsReading t.mono → is_zero t ≡ false
present t h = rw (running t.mono h) (and_false (is_wall_zero t))

module _ (d : RoundTripData) (cs : IsReading d.client.send.mono)
    (cr : IsReading d.client.receive.mono) (ss : IsReading d.server.send.mono)
    (sr : IsReading d.server.receive.mono) where
  abbrev trip : ℤ
  trip = d.client.receive.mono -ℤ d.client.send.mono

  abbrev stay : ℤ
  stay = d.server.send.mono -ℤ d.server.receive.mono

  stay_lem : server_processing_time d ≡ stay
  unfolding server_processing_time
  stay_lem =
      rw (running d.server.receive.mono sr, running d.server.send.mono ss)
        (diff d.server.send.mono d.server.receive.mono ss sr)

  stay_known : eqb_ℤ stay invalid_duration ≡ false
  stay_known =
      ==-eq-false _ _ (λ e. omega (arith, -ℤ_parts d.server.send.mono d.server.receive.mono))

  rtt_lem : rtt d ≡ trip -ℤ stay
  unfolding rtt reply_received
  rtt_lem =
      rw
        (
          present d.client.receive cr,
          stay_lem,
          stay_known,
          diff d.client.receive.mono d.client.send.mono cr cs,
        )
        (small d.client.send.mono d.client.receive.mono d.server.send.mono d.server.receive.mono cs
          cr ss sr)

  send_lem : send_mono_diff d ≡ d.server.receive.mono -ℤ d.client.send.mono
  unfolding send_mono_diff
  send_lem = rw (present d.server.receive sr) (diff d.server.receive.mono d.client.send.mono sr cs)

  receive_lem : receive_mono_diff d ≡ d.client.receive.mono -ℤ d.server.send.mono
  unfolding receive_mono_diff
  receive_lem = rw (present d.server.send ss) (diff d.client.receive.mono d.server.send.mono cr ss)

  sums :
      trip -ℤ stay
      ≡ (d.server.receive.mono -ℤ d.client.send.mono)
        +ℤ (d.client.receive.mono -ℤ d.server.send.mono)
  sums = ring_of d.client.send.mono d.client.receive.mono d.server.send.mono d.server.receive.mono

-- The round-trip time of a reply that has both of the server's monotonic times is the sum of the
-- two one-way differences, in which the clocks' offset cancels, if all four readings are from 1 to 2 ^ 61. That
-- is so also where the server's processing time exceeds the time between the client's readings, and the sum
-- is negative.
pub rtt_sum :
    (d : RoundTripData)
    → IsReading d.client.send.mono
    → IsReading d.client.receive.mono
    → IsReading d.server.send.mono
    → IsReading d.server.receive.mono
    → rtt d ≡ send_mono_diff d +ℤ receive_mono_diff d
rtt_sum d cs cr ss sr =
    rw (rtt_lem d cs cr ss sr, send_lem d cs cr ss sr, receive_lem d cs cr ss sr)
      (sums d cs cr ss sr)
