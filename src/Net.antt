-- ===== src/Net.antt =====
-- net.go: UDP addresses and their comparison. An IP address is its 4 or 16 bytes, as Go's net.IP.
pub mod Version
use irtt.Prelude.{
  ℕ, Bool, true, false, ◌&&◌, List, [], ◌∷◌, ◌++◌, ◌==◌, length, replicate, if◌then◌else◌,
}

pub record UdpAddr : Type 0 where
  pub ip : List ℕ
  pub port : ℕ
  pub zone : List ℕ

-- `bytesEqual` of bytes.go, for slices that are not nil
unfoldable pub bytes_equal : List ℕ → List ℕ → Bool
bytes_equal [] [] = true
bytes_equal [] (b ∷ bs) = false
bytes_equal (a ∷ as') [] = false
bytes_equal (a ∷ as') (b ∷ bs) = (a == b) && bytes_equal as' bs

-- `IP.Equal` of Go's net: an IPv4 address and the same in its IPv6 form are equal.
unfoldable pub ip_equal : List ℕ → List ℕ → Bool
ip_equal a b =
    if length a == length b
    then bytes_equal a b
    else if (length a == 4) && (length b == 16)
    then bytes_equal (replicate 10 0 ++ (255 ∷ 255 ∷ a)) b
    else if (length a == 16) && (length b == 4)
    then bytes_equal a (replicate 10 0 ++ (255 ∷ 255 ∷ b))
    else false

-- `udpAddrsEqual`
unfoldable pub udp_addrs_equal : UdpAddr → UdpAddr → Bool
udp_addrs_equal a b = ip_equal a.ip b.ip && (a.port == b.port) && bytes_equal a.zone b.zone
