-- ===== src/Conn/Tests.antt =====
-- The theorems on conn.go at concrete values: a reply with a token of 0, and two texts to listen on.
use irtt.Conn
use irtt.Conn.Opening
use irtt.Fbuf
use irtt.Net
use irtt.Packet
use irtt.Packet.Auth
use irtt.Prelude.{List, ◌⊎◌, inl, Bool, ℕ, ◌≡◌, refl, [], ◌∷◌, Option, none, some, false, replicate}
use irtt.Prelude.Int.{pos}
use irtt.Time.{no_time}
use irtt.Code.{conn_token_zero}
use irtt.Packet.{Mac, Packet, new_packet, max_header_len}
use irtt.Conn.{Arrival, coded}
use irtt.Conn.Opening.{is_server_closed, unopened, read_replies}
use irtt.Net.{UdpAddr}
use irtt.Conn.{Failure}
use irtt.Conn.Listen
use irtt.Conn.Listen.{resolve_listen_addrs}
use irtt.Conn.Distinct.{IsApart, IsUnmixed, resolve_listen_addrs-IsUnmixed}
use irtt.Conn.Unclosed.{read_replies-unclosed}

abbrev mac : Mac
mac = record { sum = λ key message. replicate 16 0; length-sum = λ key message. refl }

or_empty : Option Packet → Packet
or_empty (some p) = p
or_empty none = record {
  fbuf = record { store = []; blen = 0; fields = []; tlen = pos 0 };
  key = none;
  raddr = none;
  tsent = no_time;
  trcvd = no_time;
  src_ip = none;
  dst_ip = none;
  dscp = pos 0;
}

buffer : Packet
unfolding or_empty
buffer = or_empty (new_packet 0 max_header_len [])

-- A reply without the open flag, and one with it that has no token.
abbrev arrival : ℕ → Arrival
arrival fs = record {
  datagram = some (20 ∷ 167 ∷ 91 ∷ fs ∷ replicate 8 0);
  raddr = none;
  dst_ip = none;
  received_at = no_time;
}

tokenless :
    read_replies mac (arrival 2 ∷ arrival 3 ∷ []) buffer
    ≡ some (some (unopened (coded conn_token_zero)))
unfolding buffer or_empty Opening.is_server_closed Opening.read_error Opening.lacks_token
    Opening.read_opening Opening.open_reply_fields Opening.read_open_reply Opening.read_replies
    Conn.read_into Conn.set_times Conn.check_reply Conn.accept_bytes Conn.creceive Fbuf.sum_lens
    Fbuf.sum_caps Fbuf.new_fbuf Fbuf.validate Fbuf.set_len Fbuf.set_loop Fbuf.add_loop
    Fbuf.finish_fields Fbuf.set_fields Fbuf.add_fields Fbuf.move_fields Fbuf.resize_field
    Fbuf.shift_bytes Fbuf.reset_to_target Fbuf.set_field_len Fbuf.set_to Fbuf.write_to Fbuf.set
    Fbuf.get Fbuf.getb Fbuf.isset Net.bytes_equal Packet.new_packet Packet.read_to Packet.from_le
    Packet.get_uint Packet.flags Packet.reply Packet.ctoken Auth.check_stamps Auth.check_no_hmac
    Auth.check_key Auth.validate Auth.read_reset
tokenless = refl

read_replies-unclosed_example : is_server_closed (coded conn_token_zero) ≡ false
read_replies-unclosed_example =
    read_replies-unclosed mac (arrival 2 ∷ arrival 3 ∷ []) buffer (coded conn_token_zero) tokenless

abbrev address : ℕ → UdpAddr
address n = record { ip = 10 ∷ 0 ∷ 0 ∷ n ∷ []; port = 2112; zone = [] }

-- Each text is resolved to the address with its first byte, and one more.
abbrev by_host : List ℕ → List UdpAddr ⊎ Failure
by_host [] = inl []
by_host (n ∷ s) = inl (address n ∷ address 9 ∷ [])

-- An interface has one of them.
abbrev by_iface : List ℕ → List ℕ → List UdpAddr ⊎ Failure
by_iface iface service = inl (address 9 ∷ [])

-- The sorting leaves the order here.
abbrev sort : (UdpAddr → UdpAddr → Bool) → List UdpAddr → List UdpAddr
sort less l = l

resolved-run :
    resolve_listen_addrs by_host by_iface sort ((37 ∷ 97 ∷ []) ∷ (1 ∷ []) ∷ [])
    ≡ inl (address 9 ∷ address 1 ∷ address 9 ∷ [])
unfolding Listen.resolve_listen_addrs Listen.resolve_all Listen.resolve_one
    Listen.parse_iface_listen_addr Listen.iface_parts Listen.split_colons Listen.remove_duplicates
    Listen.drop_equal Listen.has_mixed Listen.port_bits Net.udp_addrs_equal Net.ip_equal
    Net.bytes_equal
resolved-run = refl

resolve_listen_addrs-IsUnmixed_example :
    IsApart (address 9 ∷ address 1 ∷ address 9 ∷ [])
    × IsUnmixed (address 9 ∷ address 1 ∷ address 9 ∷ [])
resolve_listen_addrs-IsUnmixed_example =
    resolve_listen_addrs-IsUnmixed by_host by_iface sort ((37 ∷ 97 ∷ []) ∷ (1 ∷ []) ∷ [])
      (address 9 ∷ address 1 ∷ address 9 ∷ []) resolved-run
