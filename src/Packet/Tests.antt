-- ===== src/Packet/Tests.antt =====
-- The theorems on packets at a concrete packet.
use irtt.Prelude.{ℕ, ◌≡◌, ◌≢◌, refl, inl, inr, List, [], ◌∷◌, none, some, arith}
use irtt.Prelude.Int.{pos}
use irtt.Time.{no_time}
use irtt.Fbuf.{Field, get, sum_lens, sum_caps}
use irtt.Fbuf.Layout.{IsValid}
use irtt.Fbuf.Write.{IsWritable}
use irtt.Packet.{Packet, set_uint, get_uint}
use irtt.Packet.Numbers.{get_uint-set_uint}

abbrev at : ℕ → ℕ → ℕ → Field
at p l c = record { pos = p; len = l; cap = c }

-- A magic number of three bytes, and a sequence number that is not there yet.
abbrev request : Packet
request = record {
  fbuf = record {
    store = 0x14 ∷ 0xa7 ∷ 0x5b ∷ 0 ∷ 0 ∷ 0 ∷ 0 ∷ 0 ∷ [];
    blen = 3;
    fields = at 0 3 3 ∷ at 3 0 4 ∷ [];
    tlen = pos 0;
  };
  key = none;
  raddr = none;
  tsent = no_time;
  trcvd = no_time;
  src_ip = none;
  dst_ip = none;
  dscp = pos 0;
}

request-IsValid : IsValid request.fbuf
unfolding sum_lens sum_caps
request-IsValid = record {
  laid = (refl, inr refl, (refl, inl refl, tt));
  fits = omega arith;
  shown = omega arith;
  room = omega arith;
}

seqno_room : IsWritable request.fbuf (at 3 0 4)
seqno_room = inr (record { for_field = omega arith; for_target = omega arith })

get_uint-set_uint_example :
    (p' : Packet) × (set_uint 4 1 70000 request ≡ some p')
    × (get_uint 4 1 p' ≡ some 70000)
    × ((m : ℕ) (x : List ℕ) → m ≢ 1 → get m request.fbuf ≡ some x → get m p'.fbuf ≡ some x)
get_uint-set_uint_example =
    get_uint-set_uint request 4 1 70000 request-IsValid refl seqno_room refl (omega arith)
