-- ===== src/Packet.antt =====
-- packet.go: the packet, its header fields and its authentication. A function that may panic returns an
-- `Option`; one that may fail returns the error code beside the packet, which it has changed by then.
-- HMAC-MD5 is a parameter (`Mac`).
mod Format
pub mod Auth
pub mod Stamps
pub mod Numbers
mod Tests
pub use Format.*
use irtt.Prelude.{
  ℕ, zero, suc, ◌+◌, ◌-◌, ◌*◌, ◌/◌, ◌%◌, ◌^◌, ◌≤◌, ◌<◌, ◌≡◌, Bool, true, false, not, ◌&&◌, ◌||◌,
  List, [], ◌∷◌, ◌++◌, Option, none, some, ◌==◌, ltb, leb, if◌then◌else◌, ◌>>=◌, ◌>>◌, guard,
  length, take,
}
use irtt.Prelude.Int.{ℤ, pos}
use irtt.Code.{
  Code, bad_magic, invalid_flag_bits_set, nonexclusive_midpoint_t_stamp, inconsistent_clocks,
  no_hmac, bad_hmac, unexpected_hmac,
}
use irtt.Net.{UdpAddr, bytes_equal}
use irtt.Time.{Time, no_time, has, clock_from_bools}
use irtt.Fbuf
use irtt.Fbuf.{Field, Fbuf}

-- What the code relies on of `hmac.New(md5.New, key)`: a code of 16 bytes for a key and a message.
pub record Mac : Type 0 where
  pub sum : List ℕ → List ℕ → List ℕ
  pub length-sum : (key message : List ℕ) → length (sum key message) ≡ 16

-- `packet`. `key` stands for `md5Hash` and `hmacKey`: both are set, or neither is.
pub record Packet : Type 0 where
  pub fbuf : Fbuf
  pub key : Option (List ℕ)
  pub raddr : Option UdpAddr
  pub tsent : Time
  pub trcvd : Time
  pub src_ip : Option (List ℕ)
  pub dst_ip : Option (List ℕ)
  pub dscp : ℤ

-- An operation of the buffer, on the packet.
abbrev pub on_fbuf : (Fbuf → Option Fbuf) → Packet → Option Packet
on_fbuf op p = do fb ← op p.fbuf; some (record p { fbuf = fb })

-- `p.addFields(…)` where the caller reads the error, and where it does not
abbrev pub add_fields : List ℕ → Bool → Packet → Packet × Option Code
add_fields xs resize p =
    let (fb, e) = Fbuf.add_fields xs resize p.fbuf in (record p { fbuf = fb }, e)

-- `newPacket`. The error of `setFields` is not read.
unfoldable pub new_packet : ℕ → ℕ → List ℕ → Option Packet
new_packet tlen cap hmac_key =
    let cap' = if ltb cap max_header_len then max_header_len else cap in
    let fb = Fbuf.new_fbuf new_fields tlen cap' in
    let keyed = ltb 0 (length hmac_key) in
    let fb' = (Fbuf.set_fields (if keyed then finit_hmac else finit) true fb).0 in
    on_fbuf (Fbuf.set f_magic magic) (record {
      fbuf = fb';
      key = if keyed then some hmac_key else none;
      raddr = none;
      tsent = no_time;
      trcvd = no_time;
      src_ip = none;
      dst_ip = none;
      dscp = pos 0;
    })

-- `readTo`: the whole capacity is shown.
unfoldable pub read_to : Packet → Packet
read_to p = record p { fbuf = record p.fbuf { blen = Fbuf.capacity p.fbuf } }

-- Little-endian integers of `n` bytes.
unfoldable pub le_bytes : ℕ → ℕ → List ℕ
le_bytes zero w = []
le_bytes (suc n) w = w % 256 ∷ le_bytes n (w / 256)

unfoldable pub from_le : List ℕ → ℕ
from_le [] = 0
from_le (b ∷ bs) = b + 256 * from_le bs

-- `endian.Uint32` and `endian.Uint64` panic on fewer bytes, and read no more.
unfoldable pub get_uint : ℕ → ℕ → Packet → Option ℕ
get_uint n f p = do b ← Fbuf.get f p.fbuf; guard (leb n (length b)); some (from_le (take n b))

unfoldable pub set_uint : ℕ → ℕ → ℕ → Packet → Option Packet
set_uint n f w = on_fbuf (Fbuf.write_to f (le_bytes n w))

-- `flags`, `setFlagBits` and `clearFlagBits`
unfoldable pub flags : Packet → Option ℕ
flags p = Fbuf.getb f_flags p.fbuf

unfoldable pub set_flag_bits : ℕ → Packet → Option Packet
set_flag_bits fl p = do fs ← flags p; on_fbuf (Fbuf.setb f_flags (set_bits fs fl)) p

unfoldable pub clear_flag_bits : ℕ → Packet → Option Packet
clear_flag_bits fl p = do fs ← flags p; on_fbuf (Fbuf.setb f_flags (clear_bits fs fl)) p

-- `p.flags()&fl != 0`
abbrev pub flagged : ℕ → Packet → Option Bool
flagged fl p = do fs ← flags p; some (has fs fl)

-- `reply` and `setReply`
unfoldable pub reply : Packet → Option Bool
reply p = flagged fl_reply p

unfoldable pub set_reply : Bool → Packet → Option Packet
set_reply r p = if r then set_flag_bits fl_reply p else clear_flag_bits fl_reply p

-- `ctoken`, `seqno`, `receivedCount`, `receivedWindow` and their setters
unfoldable pub ctoken : Packet → Option ℕ
ctoken p = get_uint 8 f_conn_token p

unfoldable pub set_conn_token : ℕ → Packet → Option Packet
set_conn_token t p = set_uint 8 f_conn_token t p

unfoldable pub seqno : Packet → Option ℕ
seqno p = get_uint 4 f_seqno p

unfoldable pub set_seqno : ℕ → Packet → Option Packet
set_seqno n p = set_uint 4 f_seqno n p

unfoldable pub received_count : Packet → Option ℕ
received_count p = get_uint 4 f_rcount p

unfoldable pub set_received_count : ℕ → Packet → Option Packet
set_received_count n p = set_uint 4 f_rcount n p

unfoldable pub received_window : Packet → Option ℕ
received_window p = get_uint 8 f_rwindow p

unfoldable pub set_received_window : ℕ → Packet → Option Packet
set_received_window w p = set_uint 8 f_rwindow w p
