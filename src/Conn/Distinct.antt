-- ===== src/Conn/Distinct.antt =====
-- conn.go: the addresses that `resolveListenAddrs` returns.
use mathlib.Core.Bool.{true≢false}
use mathlib.Core.Option.{some-injective, none-ne-some}
use mathlib.Core.Path.{subst}
use irtt.Prelude.{
  ℕ, zero, suc, ◌≡◌, refl, ap, ◌∙◌, sym, ◌⊎◌, inl, inr, Bool, true, false, List, [], ◌∷◌, some,
  arith, ◌==◌, ==_iff, ltb, if◌then◌else◌, bit_or, Bool-cases, Sum-cases, get_elem?,
}
use irtt.Net.{UdpAddr, udp_addrs_equal}
use irtt.Conn.{Failure}
use irtt.Conn.Listen.{
  drop_equal, remove_duplicates, is_unspecified, port_bits, has_mixed, less_addr, resolve_all,
  resolve_listen_addrs,
}

-- No address is equal to the one before it.
unfoldable pub IsApart : List UdpAddr → Type 0
IsApart l =
    (i : ℕ) (a b : UdpAddr)
    → get_elem? l i ≡ some a
    → get_elem? l (suc i) ≡ some b
    → udp_addrs_equal b a ≡ false

-- Addresses with the same port are all unspecified, or none of them is.
unfoldable pub IsUnmixed : List UdpAddr → Type 0
IsUnmixed l =
    (i j : ℕ) (a b : UdpAddr)
    → get_elem? l i ≡ some a
    → get_elem? l j ≡ some b
    → a.port ≡ b.port
    → is_unspecified a.ip ≡ is_unspecified b.ip

drop_equal-IsApart : (last : UdpAddr) (l : List UdpAddr) → IsApart (last ∷ drop_equal last l)
unfolding IsApart drop_equal
drop_equal-IsApart last [] i a b e f = absurd (none-ne-some b f)
drop_equal-IsApart last (x ∷ l) i a b e f = elim (Bool-cases (udp_addrs_equal x last)) [
  | inl z ↦ drop_equal-IsApart last l i a b (rw (z, drop_equal) at e) (rw (z, drop_equal) at f)
  | inr z ↦ next i (drop_equal-IsApart x l) (rw (z, drop_equal) at e) (rw (z, drop_equal) at f) z
]
  where
    next :
        (i : ℕ)
        → ((i : ℕ) (a b : UdpAddr)
            → get_elem? (x ∷ drop_equal x l) i ≡ some a
            → get_elem? (x ∷ drop_equal x l) (suc i) ≡ some b
            → udp_addrs_equal b a ≡ false)
        → get_elem? (last ∷ x ∷ drop_equal x l) i ≡ some a
        → get_elem? (last ∷ x ∷ drop_equal x l) (suc i) ≡ some b
        → udp_addrs_equal x last ≡ false
        → udp_addrs_equal b a ≡ false
    next zero rest e f z = rw (sym (some-injective last a e), sym (some-injective x b f)) z
    next (suc i) rest e f z = rest i a b e f

remove_duplicates-IsApart : (l : List UdpAddr) → IsApart (remove_duplicates l)
unfolding IsApart remove_duplicates
remove_duplicates-IsApart [] i a b e f = absurd (none-ne-some a e)
remove_duplicates-IsApart (x ∷ l) i a b e f = drop_equal-IsApart x l i a b e f

-- The entry of a port, by whether it has seen an address of the kind `u`: bit 1 for `true`, bit 2 for `false`
Sees : Bool → ℕ → Type 0
Sees true n = (n ≡ 1) ⊎ (n ≡ 3)
Sees false n = (n ≡ 2) ⊎ (n ≡ 3)

IsEntry : ℕ → Type 0
IsEntry n = (n ≡ 0) ⊎ (Sees true n ⊎ (n ≡ 2))

or-IsEntry :
    (u : Bool) (n : ℕ)
    → IsEntry n
    → IsEntry (bit_or (if u then 1 else 2) n) × Sees u (bit_or (if u then 1 else 2) n)
unfolding IsEntry Sees
or-IsEntry true n (inl e) = rw e (inr (inl (inl refl)), inl refl)
or-IsEntry true n (inr (inl (inl e))) = rw e (inr (inl (inl refl)), inl refl)
or-IsEntry true n (inr (inl (inr e))) = rw e (inr (inl (inr refl)), inr refl)
or-IsEntry true n (inr (inr e)) = rw e (inr (inl (inr refl)), inr refl)
or-IsEntry false n (inl e) = rw e (inr (inr refl), inl refl)
or-IsEntry false n (inr (inl (inl e))) = rw e (inr (inl (inr refl)), inr refl)
or-IsEntry false n (inr (inl (inr e))) = rw e (inr (inl (inr refl)), inr refl)
or-IsEntry false n (inr (inr e)) = rw e (inr (inr refl), inl refl)

or-Sees : (u v : Bool) (n : ℕ) → IsEntry n → Sees v n → Sees v (bit_or (if u then 1 else 2) n)
unfolding IsEntry Sees
or-Sees true true n g (inl e) = rw e (inl refl)
or-Sees true true n g (inr e) = rw e (inr refl)
or-Sees true false n g (inl e) = rw e (inr refl)
or-Sees true false n g (inr e) = rw e (inr refl)
or-Sees false true n g (inl e) = rw e (inr refl)
or-Sees false true n g (inr e) = rw e (inr refl)
or-Sees false false n g (inl e) = rw e (inl refl)
or-Sees false false n g (inr e) = rw e (inr refl)

port_bits-IsEntry : (p : ℕ) (l : List UdpAddr) → IsEntry (port_bits p l)
unfolding IsEntry port_bits
port_bits-IsEntry p [] = inl refl
port_bits-IsEntry p (x ∷ l) = elim (Bool-cases (x.port == p)) [
  | inl z ↦ rw z (or-IsEntry (is_unspecified x.ip) (port_bits p l) (port_bits-IsEntry p l)).0
  | inr z ↦ rw z (port_bits-IsEntry p l)
]

port_bits-Sees :
    (p : ℕ) (l : List UdpAddr) (i : ℕ) (a : UdpAddr)
    → get_elem? l i ≡ some a
    → a.port ≡ p
    → Sees (is_unspecified a.ip) (port_bits p l)
unfolding port_bits
port_bits-Sees p [] i a e f = absurd (none-ne-some a e)
port_bits-Sees p (x ∷ l) zero a e f =
    let same : x ≡ a = some-injective x a e in
    rw ((==_iff x.port p).1 (ap (λ (q : UdpAddr). q.port) same ∙ f)) (
      subst
        (λ (q : UdpAddr).
          Sees (is_unspecified q.ip)
            (bit_or (if is_unspecified x.ip then 1 else 2) (port_bits p l)))
        same (or-IsEntry (is_unspecified x.ip) (port_bits p l) (port_bits-IsEntry p l)).1)
port_bits-Sees p (x ∷ l) (suc i) a e f = elim (Bool-cases (x.port == p)) [
  | inl z ↦ rw z (
      or-Sees (is_unspecified x.ip) (is_unspecified a.ip) (port_bits p l) (port_bits-IsEntry p l)
        (port_bits-Sees p l i a e f))
  | inr z ↦ rw z (port_bits-Sees p l i a e f)
]

one_kind : (u v : Bool) (n : ℕ) → ltb 2 n ≡ false → Sees u n → Sees v n → u ≡ v
unfolding Sees
one_kind true true n h p q = refl
one_kind false false n h p q = refl
one_kind true false n h p q = ground arith
one_kind false true n h p q = ground arith

has_mixed-inv :
    (whole l : List UdpAddr) (i : ℕ) (a : UdpAddr)
    → has_mixed whole l ≡ false
    → get_elem? l i ≡ some a
    → ltb 2 (port_bits a.port whole) ≡ false
unfolding has_mixed
has_mixed-inv whole [] i a h e = absurd (none-ne-some a e)
has_mixed-inv whole (x ∷ l) i a h e = elim (Bool-cases (ltb 2 (port_bits x.port whole))) [
  | inl z ↦ absurd (true≢false (rw (z, has_mixed) at h))
  | inr z ↦ at i e (rw (z, has_mixed) at h) z (λ i. has_mixed-inv whole l i a)
]
  where
    at :
        (i : ℕ)
        → get_elem? (x ∷ l) i ≡ some a
        → has_mixed whole l ≡ false
        → ltb 2 (port_bits x.port whole) ≡ false
        → ((i : ℕ)
            → has_mixed whole l ≡ false
            → get_elem? l i ≡ some a
            → ltb 2 (port_bits a.port whole) ≡ false)
        → ltb 2 (port_bits a.port whole) ≡ false
    at zero e h z rest =
        subst (λ (q : UdpAddr). ltb 2 (port_bits q.port whole) ≡ false) (some-injective x a e) z
    at (suc i) e h z rest = rest i h e

unmixed : (l : List UdpAddr) → has_mixed l l ≡ false → IsUnmixed l
unfolding IsUnmixed
unmixed l h i j a b e f q =
    one_kind (is_unspecified a.ip) (is_unspecified b.ip) (port_bits a.port l)
      (has_mixed-inv l l i a h e) (port_bits-Sees a.port l i a e refl)
      (port_bits-Sees a.port l j b f (sym q))

is_inl : List UdpAddr ⊎ Failure → Bool
is_inl (inl l) = true
is_inl (inr f) = false

unresolved : (r : List UdpAddr ⊎ Failure) (l : List UdpAddr) → r ≡ inl l → is_inl r ≡ false → ⊥
unfolding is_inl
unresolved r l e z = true≢false (sym (ap is_inl e) ∙ z)

resolved : (u v l : List UdpAddr) → ◌≡◌ {A = List UdpAddr ⊎ Failure} (inl u) (inl l) → u ≡ l
resolved u v l e = ap (λ (r : List UdpAddr ⊎ Failure). elim r [ inl x ↦ x | inr f ↦ v ]) e

-- However the texts are resolved and whatever sorts the addresses, where the resolving of the listen addresses
-- gives no error, no address is equal to the one before it, and on no port there are both specified and
-- unspecified addresses.
pub resolve_listen_addrs-IsUnmixed :
    (by_host : List ℕ → List UdpAddr ⊎ Failure)
    (by_iface : List ℕ → List ℕ → List UdpAddr ⊎ Failure)
    (sort : (UdpAddr → UdpAddr → Bool) → List UdpAddr → List UdpAddr) (addrs : List (List ℕ))
    (l : List UdpAddr)
    → resolve_listen_addrs by_host by_iface sort addrs ≡ inl l
    → IsApart l × IsUnmixed l
unfolding resolve_listen_addrs is_inl
resolve_listen_addrs-IsUnmixed by_host by_iface sort addrs l e =
    elim (Sum-cases (resolve_all by_host by_iface sort addrs)) [
      | inr (f, z) ↦ absurd (unresolved (inr f) l (rw (z, resolve_listen_addrs) at e) refl)
      | inl (laddrs, z) ↦
          let u = remove_duplicates (sort less_addr laddrs) in
          elim (Bool-cases (has_mixed u u)) [
            | inl y ↦ absurd (unresolved (inr _) l (rw (z, y, resolve_listen_addrs) at e) refl)
            | inr y ↦
                subst (λ v. IsApart v × IsUnmixed v)
                  (resolved u u l (rw (z, y, resolve_listen_addrs) at e))
                  (remove_duplicates-IsApart (sort less_addr laddrs), unmixed u y)
          ]
    ]
