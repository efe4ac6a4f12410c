-- ===== src/Server/Tests.antt =====
-- The theorems on the server at concrete connections.
use irtt.Prelude.{
  ◌-◌, ◌≡◌, refl, true, false, ◌&&◌, [], ◌∷◌, ◌++◌, none, some, arith, leb, if◌then◌else◌,
}
use irtt.Prelude.Int.{ℤ, pos, ◌-ℤ◌}
use irtt.Prelude.Bits.{bit}
use irtt.Prelude.Dict.{lookup, erase, insert}
use irtt.Net.{UdpAddr}
use irtt.Params.{no_params}
use irtt.Config.{ServerConfig}
use irtt.Server.{
  Sconn, Conns, new_sconn, since, expired, slide, sent_window, get, put, new_ctoken,
  remove_some_expired, remove_expired, remove_if_expired,
}
use irtt.Prelude.Word.{add64}
use irtt.Server.Window.{slides, mem, first, next, slides-window, slide_late}
use irtt.Server.Expiry.{remove_some_expired_visits}
use irtt.Server.Manager.{IsPurged, IsStored, put-IsStored, put_ends, get_lem}

abbrev cfg : ServerConfig
cfg = record {
  hmac_key = [];
  max_duration = pos 0;
  min_interval = pos 0;
  max_length = pos 0;
  timeout = pos 10_000_000_000;
  packet_burst = 5;
  allow_fills = [];
  allow_stamp = 2;
  allow_dscp = false;
  set_src_ip = false;
  default_filler = [];
}

abbrev addr : UdpAddr
addr = record { ip = 127 ∷ 0 ∷ 0 ∷ 1 ∷ []; port = 2112; zone = [] }

abbrev fresh : Sconn
fresh = record {
  ctoken = 0;
  raddr = addr;
  params = no_params;
  filler = none;
  shares_filler = true;
  created = pos 1000;
  first_used = none;
  last_used = none;
  packet_bucket = 0;
  last_seqno = 4294967295;
  received_count = 0;
  received_window = 0;
  rwin_valid = false;
}

fresh-new_sconn : new_sconn (pos 1000) addr 0 no_params ≡ fresh
unfolding new_sconn
fresh-new_sconn = refl

-- Packets 0, 1 and 3.
slides-window_example :
    bit 2 (sent_window (slides (3 ∷ 1 ∷ 0 ∷ []) fresh)) ≡ (leb 2 3 && mem (3 - 2) (3 ∷ 1 ∷ 0 ∷ []))
slides-window_example =
    slides-window 3 (1 ∷ 0 ∷ []) fresh 2 refl refl
      (next 3 1 (0 ∷ []) (omega arith) (omega arith)
        (next 1 0 [] (omega arith) (omega arith) (first 0 (omega arith))))
      (omega arith)

-- Packet 4 after packet 5, with 2 and 3 in the window.
abbrev busy : Sconn
busy = record fresh {
  ctoken = 77;
  last_seqno = 5;
  received_window = 13;
  rwin_valid = true;
  last_used = some (pos 1000);
}

slide_late_example : sent_window (slide 4 busy) ≡ 1
slide_late_example = slide_late 4 busy (omega arith) (omega arith) (omega arith) (omega arith)

abbrev conns : Conns
conns = (77, busy) ∷ []

-- Long after that it has expired, and goes when another client comes.
abbrev much_later : ℤ
much_later = pos 100_000_000_000

abbrev second : Sconn
second = record fresh { ctoken = 88 }

put-second : put cfg much_later (77 ∷ []) (88 ∷ []) fresh conns ≡ some (second, ((88, second) ∷ []))
unfolding put new_ctoken remove_some_expired remove_expired remove_if_expired expired since lookup
    erase insert add64 ◌-ℤ◌
put-second = refl

put-IsStored_example : IsStored cfg much_later fresh second conns ((88, second) ∷ [])
put-IsStored_example =
    put-IsStored cfg much_later (77 ∷ []) (88 ∷ []) fresh second conns ((88, second) ∷ [])
      put-second

put_ends_example :
    (r : Sconn × Conns) × (put cfg much_later (77 ∷ []) ((77 ∷ []) ++ (88 ∷ [])) fresh conns
      ≡ some r)
unfolding lookup
put_ends_example = put_ends cfg much_later (77 ∷ []) (77 ∷ []) [] 88 fresh conns refl

get_lem_example :
    ((get cfg much_later 77 conns).0 ≡ some busy)
    × (lookup 77 (get cfg much_later 77 conns).1
        ≡ (if expired cfg much_later busy then none else some busy))
    × IsPurged cfg much_later conns (get cfg much_later 77 conns).1
unfolding lookup
get_lem_example = get_lem cfg much_later 77 busy conns refl

remove_some_expired_visits_example :
    lookup 77 (remove_some_expired cfg much_later ((1 ∷ 2 ∷ []) ++ (77 ∷ 3 ∷ [])) conns) ≡ none
unfolding lookup expired since add64 ◌-ℤ◌
remove_some_expired_visits_example =
    remove_some_expired_visits cfg much_later (1 ∷ 2 ∷ []) (3 ∷ []) 77 busy conns (omega arith) refl
      refl
