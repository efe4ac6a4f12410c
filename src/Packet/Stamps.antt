-- ===== src/Packet/Stamps.antt =====
-- packet.go: timestamps and received statistics in a packet.
use irtt.Prelude.{
  ℕ, false, ◌||◌, ◌+◌, List, [], ◌∷◌, ◌++◌, Option, some, ◌==◌, ltb, length, if◌then◌else◌, ◌>>=◌,
  ◌>>◌, guard, take, leb,
}
use irtt.Prelude.Int.{ℤ, pos, eqb_ℤ}
use irtt.Prelude.Word.{signed64, unsigned64}
use irtt.Time.{Time, no_time, Timestamp, has, at_midpoint, at_receive, at_send, wall, monotonic}
use irtt.Fbuf
use irtt.Packet.{
  Packet, on_fbuf, add_fields, le_bytes, from_le, f_rcount, f_rwindow, f_rwall, f_rmono, f_mwall,
  f_mmono, f_swall, f_smono,
}
use irtt.Packet.Auth.{either, isset}

-- `p.zero` and `p.remove`
abbrev pub zero : ℕ → Packet → Option Packet
zero f = on_fbuf (Fbuf.zero_field f)

abbrev pub remove : ℕ → Packet → Option Packet
remove f = on_fbuf (Fbuf.remove f)

-- `ReceivedStatsCount` and `ReceivedStatsWindow` of rstats.go
abbrev pub stats_count : ℕ
stats_count = 1

abbrev pub stats_window : ℕ
stats_window = 2

unfoldable pub zero_received_stats : ℕ → Packet → Option Packet
zero_received_stats rs p = do
  p1 ← if has rs stats_count then zero f_rcount p else remove f_rcount p
  if has rs stats_window then zero f_rwindow p1 else remove f_rwindow p1

unfoldable pub add_received_stats_fields : ℕ → Packet → Packet
add_received_stats_fields rs p =
    let count = if has rs stats_count then f_rcount ∷ [] else [] in
    let window = if has rs stats_window then f_rwindow ∷ [] else [] in
    (add_fields (count ++ window) false p).0

-- One of the two values of `tget`, where its field is there
abbrev get_clock : ℕ → ℤ → Packet → Option ℤ
get_clock f old p = do
  b ← Fbuf.get f p.fbuf
  if ltb 0 (length b)
      then (guard (leb 8 (length b)) >> some (signed64 (from_le (take 8 b))))
      else some old

unfoldable pub tget : ℕ → ℕ → Time → Packet → Option Time
tget wf mf t p = do
  w ← get_clock wf t.wall p
  m ← get_clock mf t.mono p
  some (record { wall = w; mono = m })

unfoldable pub timestamp : Packet → Option Timestamp
timestamp p = do
  r ← tget f_rwall f_rmono no_time p
  r' ← tget f_mwall f_mmono r p
  s ← tget f_mwall f_mmono no_time p
  s' ← tget f_swall f_smono s p
  some (record { receive = r'; send = s' })

-- One of the two writes of `tset`
abbrev set_clock : ℕ → ℤ → Packet → Option Packet
set_clock f v p =
    if eqb_ℤ v (pos 0) then some p else on_fbuf (Fbuf.write_to f (le_bytes 8 (unsigned64 v))) p

unfoldable pub tset : Time → ℕ → ℕ → Packet → Option Packet
tset t wf mf p = do p1 ← set_clock wf t.wall p; set_clock mf t.mono p1

unfoldable pub set_timestamp : ℕ → Timestamp → Packet → Option Packet
set_timestamp at ts p = if at == at_midpoint then tset ts.receive f_mwall f_mmono p else (do
  p1 ← if has at at_receive then tset ts.receive f_rwall f_rmono p else some p
  if has at at_send then tset ts.send f_swall f_smono p1 else some p1)

-- `clock`, as the sum of the bits that it sets
unfoldable pub clock : Packet → Option ℕ
clock p = do
  rw ← either f_rwall f_swall p
  mw ← isset f_mwall p
  rm ← either f_rmono f_smono p
  mm ← isset f_mmono p
  some ((if rw || mw then wall else 0) + (if rm || mm then monotonic else 0))

unfoldable pub stamp_at : Packet → Option ℕ
stamp_at p = do
  mid ← either f_mwall f_mmono p
  receive ← either f_rwall f_rmono p
  send ← either f_swall f_smono p
  some (
      if mid
      then at_midpoint
      else (if receive then at_receive else 0) + (if send then at_send else 0))

-- The closure `zts` of `stampZeroes`
unfoldable pub zero_stamps : ℕ → ℕ → ℕ → ℕ → ℕ → Packet → Option Packet
zero_stamps at c a wf mf p =
    if has at a
    then (do
      p1 ← if has c wall then zero wf p else some p
      if has c monotonic then zero mf p1 else some p1)
    else (do p1 ← remove wf p; remove mf p1)

unfoldable pub stamp_zeroes : ℕ → ℕ → Packet → Option Packet
stamp_zeroes at c p = do
  p1 ← zero_stamps at c at_receive f_rwall f_rmono p
  p2 ← zero_stamps at c at_midpoint f_mwall f_mmono p1
  zero_stamps at c at_send f_swall f_smono p2

-- The closure `atf` of `addTimestampFields`
unfoldable pub stamp_fields : ℕ → ℕ → ℕ → ℕ → ℕ → List ℕ
stamp_fields at c a wf mf =
    if has at a
    then (if has c wall then wf ∷ [] else []) ++ (if has c monotonic then mf ∷ [] else [])
    else []

unfoldable pub add_timestamp_fields : ℕ → ℕ → Packet → Packet
add_timestamp_fields at c p =
    (add_fields
      (stamp_fields at c at_receive f_rwall f_rmono
        ++ (stamp_fields at c at_midpoint f_mwall f_mmono
            ++ stamp_fields at c at_send f_swall f_smono))
      false p).0

unfoldable pub remove_timestamps : Packet → Option Packet
remove_timestamps p = do
  p1 ← remove f_rwall p
  p2 ← remove f_rmono p1
  p3 ← remove f_mwall p2
  p4 ← remove f_mmono p3
  p5 ← remove f_swall p4
  remove f_smono p5
