-- ===== src/Conn/Listen.antt =====
-- conn.go: the addresses that a server listens on (`parseIfaceListenAddr` to `resolveListenAddrs`). What Go's net
-- says of names, interfaces and addresses is a parameter, and so is sort.Slice.
use irtt.Prelude.{
  ℕ, Bool, true, false, not, ◌&&◌, ◌||◌, List, [], ◌∷◌, ◌++◌, Option, none, some, ◌⊎◌, inl, inr,
  ◌==◌, ltb, if◌then◌else◌, length, replicate, bit_and, bit_or,
}
use irtt.Prelude.Int.{ℤ, pos_part}
use irtt.Code.{
  no_matching_interfaces, no_matching_interfaces_up, unspecified_with_specified_addresses,
}
use irtt.Net.{UdpAddr, ip_equal, udp_addrs_equal}
use irtt.Net.Version.{version_from_ip, zero_ip}
use irtt.Glob.{glob}
use irtt.Conn.{Failure, coded, system}

-- `strings.Split` at colons
unfoldable pub split_colons : List ℕ → List (List ℕ)
split_colons [] = [] ∷ []
split_colons (c ∷ s) =
    let rest = split_colons s in
    if c == 58
    then [] ∷ rest
    else elim rest [ [] ↦ (c ∷ []) ∷ [] | part ∷ parts ↦ (c ∷ part) ∷ parts ]

-- The interface and the service, if neither of the parts that are there is empty
unfoldable pub iface_parts : List (List ℕ) → Option (List ℕ × List ℕ)
iface_parts [] = none
iface_parts (iface ∷ []) = if length iface == 0 then none else some (iface, [])
iface_parts (iface ∷ service ∷ []) =
    if length service == 0 then none else if length iface == 0 then none else some (iface, service)
iface_parts (a ∷ b ∷ c ∷ parts) = none

-- `parseIfaceListenAddr`: a text that begins with "%"
unfoldable pub parse_iface_listen_addr : List ℕ → Option (List ℕ × List ℕ)
parse_iface_listen_addr [] = none
parse_iface_listen_addr (c ∷ s) = if c == 37 then iface_parts (split_colons s) else none

-- An interface of the system: its addresses with their zones, or an error; an address of another kind is `none`.
pub record Iface : Type 0 where
  pub name : List ℕ
  pub up : Bool
  pub addrs : Option (List (Option (List ℕ × List ℕ)))

-- `DefaultPortInt`
abbrev pub default_port : ℕ
default_port = 2112

-- What Go's net says of an address: whether it is one of a local link, a global one, or one of the machine
pub record IpKinds : Type 0 where
  pub is_link_local : List ℕ → Bool
  pub is_global : List ℕ → Bool
  pub is_loopback : List ℕ → Bool

module _ (kinds : IpKinds) (version : ℤ) (port : ℕ) where
  -- `isUsableIP`
  unfoldable pub is_usable_ip : List ℕ → Bool
  is_usable_ip ip =
      not (bit_and (pos_part (version_from_ip ip)) (pos_part version) == 0)
      && (kinds.is_link_local ip || (kinds.is_global ip || kinds.is_loopback ip))

  -- The usable addresses of an interface
  unfoldable pub iface_addrs : List ℕ → List (Option (List ℕ × List ℕ)) → List UdpAddr
  iface_addrs name [] = []
  iface_addrs name (none ∷ addrs) = iface_addrs name addrs
  iface_addrs name (some (ip, zone) ∷ addrs) =
      let rest = iface_addrs name addrs in
      let zone' = if kinds.is_link_local ip && (length zone == 0) then name else zone in
      if is_usable_ip ip then record { ip = ip; port = port; zone = zone' } ∷ rest else rest

  -- The loop over the interfaces: the addresses of those that match and are up, with whether one matched, and
  -- whether one was up
  unfoldable pub match_ifaces : List ℕ → List Iface → Option (List UdpAddr × Bool × Bool)
  match_ifaces pattern [] = some ([], false, false)
  match_ifaces pattern (i ∷ ifaces) =
      let rest = match_ifaces pattern ifaces in
      if not (glob pattern i.name)
      then rest
      else if not i.up
      then (elim rest [ none ↦ none | some (laddrs, found, up) ↦ some (laddrs, true, up) ])
      else elim (i.addrs) [
        | none ↦ none
        | some addrs ↦ elim rest [
          | none ↦ none
          | some (laddrs, found, up) ↦ some (iface_addrs i.name addrs ++ laddrs, true, true)
        ]
      ]

  -- `resolveIfaceListenAddr`, once the port is known
  unfoldable pub resolve_iface : List ℕ → List Iface → List UdpAddr ⊎ Failure
  resolve_iface pattern ifaces = elim (match_ifaces pattern ifaces) [
    | none ↦ inr system
    | some (laddrs, found, up) ↦
        if not found
        then inr (coded no_matching_interfaces)
        else if not up
        then inr (coded no_matching_interfaces_up)
        else inl laddrs
  ]

-- The addresses of an empty host in `resolveListenAddr`: the zero address of each version
unfoldable pub zero_addrs : ℕ → List ℤ → List UdpAddr
zero_addrs port [] = []
zero_addrs port (v ∷ versions) =
    record { ip = zero_ip v; port = port; zone = [] } ∷ zero_addrs port versions

-- The comparison that sorts the addresses; `bytes.Compare` of IP addresses is `less_bytes`.
unfoldable pub less_bytes : List ℕ → List ℕ → Bool
less_bytes a [] = false
less_bytes [] (b ∷ bs) = true
less_bytes (a ∷ as') (b ∷ bs) =
    let rest = less_bytes as' bs in if ltb a b then true else if ltb b a then false else rest

unfoldable pub less_addr : UdpAddr → UdpAddr → Bool
less_addr a b = less_bytes a.ip b.ip || (ltb a.port b.port || less_bytes a.zone b.zone)

-- The loop that removes an address equal to the one before it
unfoldable pub drop_equal : UdpAddr → List UdpAddr → List UdpAddr
drop_equal last [] = []
drop_equal last (a ∷ laddrs) =
    let same = drop_equal last laddrs in
    let other = drop_equal a laddrs in if udp_addrs_equal a last then same else a ∷ other

unfoldable pub remove_duplicates : List UdpAddr → List UdpAddr
remove_duplicates [] = []
remove_duplicates (a ∷ laddrs) = a ∷ drop_equal a laddrs

-- `IP.IsUnspecified` of Go's net: a zero address of either version
abbrev pub is_unspecified : List ℕ → Bool
is_unspecified ip = ip_equal ip (replicate 4 0) || ip_equal ip (replicate 16 0)

-- The entry of a port in the map: bit 1 for an unspecified address, bit 2 for another
unfoldable pub port_bits : ℕ → List UdpAddr → ℕ
port_bits port [] = 0
port_bits port (a ∷ laddrs) =
    let rest = port_bits port laddrs in
    if a.port == port then bit_or (if is_unspecified a.ip then 1 else 2) rest else rest

-- Whether a port of the addresses has both
unfoldable pub has_mixed : List UdpAddr → List UdpAddr → Bool
has_mixed laddrs [] = false
has_mixed laddrs (a ∷ rest) =
    let later = has_mixed laddrs rest in if ltb 2 (port_bits a.port laddrs) then true else later

module _ (by_host : List ℕ → List UdpAddr ⊎ Failure)
    (by_iface : List ℕ → List ℕ → List UdpAddr ⊎ Failure)
    (sort : (UdpAddr → UdpAddr → Bool) → List UdpAddr → List UdpAddr) where
  -- A text is resolved as that of an interface and a service, or as a host and a port.
  unfoldable pub resolve_one : List ℕ → List UdpAddr ⊎ Failure
  resolve_one addr = elim (parse_iface_listen_addr addr) [
    | some (iface, service) ↦ by_iface iface service
    | none ↦ by_host addr
  ]

  -- The loop of `resolveListenAddrs` over the texts
  unfoldable pub resolve_all : List (List ℕ) → List UdpAddr ⊎ Failure
  resolve_all [] = inl []
  resolve_all (addr ∷ addrs) = elim (resolve_one addr) [
    | inr f ↦ inr f
    | inl la ↦ elim (resolve_all addrs) [ inr f ↦ inr f | inl laddrs ↦ inl (la ++ laddrs) ]
  ]

  -- `resolveListenAddrs`
  unfoldable pub resolve_listen_addrs : List (List ℕ) → List UdpAddr ⊎ Failure
  resolve_listen_addrs addrs = elim (resolve_all addrs) [
    | inr f ↦ inr f
    | inl laddrs ↦
        let unique = remove_duplicates (sort less_addr laddrs) in
        if has_mixed unique unique
        then inr (coded unspecified_with_specified_addresses)
        else inl unique
  ]
