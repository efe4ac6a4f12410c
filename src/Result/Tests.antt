-- ===== src/Result/Tests.antt =====
-- The theorems on the results at concrete round trips.
use irtt.Prelude.{ℕ, ◌≡◌, refl, false, List, [], ◌∷◌, some, get_elem?}
use irtt.Prelude.Bits.{bit}
use irtt.Prelude.Int.{pos}
use irtt.Time.{Time, no_time}
use irtt.Recorder.{RoundTripData, reply_received}
use irtt.Result.{lost_down, lost_up, lost_false, set_losses, set_lost, mark_window, mark}
use irtt.Result.Loss.{status, any_after, confirms, covers, set_losses-status}

abbrev at : ℕ → Time
at n = record { wall = pos 0; mono = pos n }

abbrev round_trip : ℕ → Time → RoundTripData
round_trip window back = record {
  client = record { receive = back; send = at 1 };
  server = record { receive = no_time; send = no_time };
  received_window = window;
  late = false;
}

abbrev no_reply : RoundTripData
no_reply = round_trip 0 no_time

-- The window 1011 of the last reply: of the three packets before it the server had not received the second.
abbrev last_reply : RoundTripData
last_reply = round_trip 11 (at 9)

abbrev trips : List RoundTripData
trips = no_reply ∷ no_reply ∷ no_reply ∷ no_reply ∷ last_reply ∷ []

set_losses-trips :
    set_losses 3 trips [] ≡ lost_false ∷ lost_down ∷ lost_up ∷ lost_down ∷ lost_up ∷ []
unfolding set_losses set_lost mark_window mark reply_received
set_losses-trips = refl

set_losses-status_example :
    get_elem? (set_losses 3 trips []) 2 ≡ some (status 3 no_reply (no_reply ∷ last_reply ∷ []))
set_losses-status_example =
    set_losses-status 3 (no_reply ∷ no_reply ∷ []) (no_reply ∷ last_reply ∷ []) no_reply

status-no_reply : status 3 no_reply (no_reply ∷ last_reply ∷ []) ≡ lost_up
unfolding status any_after confirms covers reply_received bit
status-no_reply = refl
