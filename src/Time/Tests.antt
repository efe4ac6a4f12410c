-- ===== src/Time/Tests.antt =====
-- The theorems on times at concrete times.
use irtt.Prelude.Int.{pos}
use irtt.Time.{Time}

abbrev early : Time
early = record { wall = pos 0; mono = pos 100 }

abbrev later : Time
later = record { wall = pos 0; mono = pos 105 }
