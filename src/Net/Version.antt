-- ===== src/Net/Version.antt =====
-- net.go and df.go: versions of IP and the do-not-fragment bit, Go integers, and their names. A `none` is the
-- panic of an index out of range; a text with the number in it is `some none`.
use Prim.Native.String.{String}
use irtt.Prelude.{
  ℕ, ◌+◌, ◌-◌, Bool, true, false, List, [], ◌∷◌, ◌++◌, Option, none, some, ◌⊎◌, ◌==◌, ltb,
  if◌then◌else◌, ◌>>=◌, length, get_elem?, take, replicate,
}
use irtt.Prelude.Int.{ℤ, pos, negsuc, eqb_ℤ}
use irtt.Code.{Code, invalid_df_string}
use irtt.Net.{bytes_equal}
use irtt.Time.{parse_name}

-- `IPv4`, `IPv6` and `DualStack`
abbrev pub ipv4 : ℤ
ipv4 = pos 1

abbrev pub ipv6 : ℤ
ipv6 = pos 2

abbrev pub dual_stack : ℤ
dual_stack = pos 3

-- `IPVersionFromBooleans`
unfoldable pub version_from_booleans : Bool → Bool → ℤ → ℤ
version_from_booleans true true dfl = dual_stack
version_from_booleans true false dfl = ipv4
version_from_booleans false true dfl = ipv6
version_from_booleans false false dfl = dfl

-- Whether Go's `IP.To4` is not nil: an address of 4 bytes, or an IPv4 address in its form of 16.
abbrev is_to4 : List ℕ → Bool
is_to4 ip =
    if length ip == 4
    then true
    else if length ip == 16
    then bytes_equal (take 12 ip) (replicate 10 0 ++ (255 ∷ 255 ∷ []))
    else false

-- `IPVersionFromIP`
unfoldable pub version_from_ip : List ℕ → ℤ
version_from_ip ip = if is_to4 ip then ipv4 else ipv6

-- The names of a table, from the first value of a type on. The test lets the length through as an index.
unfoldable pub name_at : List String → ℤ → Option (Option String)
name_at names (negsuc n) = some none
name_at names (pos n) =
    if ltb (length names) n then some none else (do s ← get_elem? names n; some (some s))

abbrev pub before_first : ℤ → ℤ
before_first (pos n) = if n == 0 then negsuc 0 else pos (n - 1)
before_first (negsuc n) = negsuc (n + 1)

-- `udpNets`, `ipNets` and `ipvs`
abbrev pub udp_nets : List String
udp_nets = "udp4" ∷ "udp6" ∷ "udp" ∷ []

abbrev pub ip_nets : List String
ip_nets = "ip4" ∷ "ip6" ∷ "ip" ∷ []

abbrev pub version_names : List String
version_names = "IPv4" ∷ "IPv6" ∷ "IPv4+6" ∷ []

-- `udpNetwork`, `ipNetwork` and `String`
unfoldable pub udp_network : ℤ → Option (Option String)
udp_network v = name_at udp_nets (before_first v)

unfoldable pub ip_network : ℤ → Option (Option String)
ip_network v = name_at ip_nets (before_first v)

unfoldable pub version_name : ℤ → Option (Option String)
version_name v = name_at version_names (before_first v)

-- `minUDPHeaderSize`
unfoldable pub min_udp_header_size : ℤ → Option ℕ
min_udp_header_size v = elim (before_first v) [
  | negsuc n ↦ none
  | pos n ↦ get_elem? (28 ∷ 48 ∷ 28 ∷ []) n
]

-- `Separate`
unfoldable pub separate : ℤ → List ℤ
separate v =
    if eqb_ℤ v ipv4 then ipv4 ∷ [] else if eqb_ℤ v ipv6 then ipv6 ∷ [] else ipv4 ∷ ipv6 ∷ []

-- `ZeroIP`; net.IPv4zero is an IPv4 address in the form of 16 bytes.
unfoldable pub zero_ip : ℤ → List ℕ
zero_ip v = if eqb_ℤ v ipv4 then replicate 10 0 ++ (255 ∷ 255 ∷ replicate 4 0) else replicate 16 0

-- `DF`: its names, `String` and `ParseDF`
abbrev pub df_names : List String
df_names = "default" ∷ "false" ∷ "true" ∷ []

unfoldable pub df_name : ℤ → Option (Option String)
df_name d = name_at df_names d

unfoldable pub parse_df : String → ℕ ⊎ Code
parse_df = parse_name invalid_df_string 0 df_names
