-- ===== src/Server/Pool.antt =====
-- server.go: the pool of packets (`pktPool`), a stack. What makes a new packet is a parameter.
use irtt.Prelude.{
  ◌-◌, List, [], ◌∷◌, ◌++◌, Option, some, ◌==◌, if◌then◌else◌, ◌>>=◌, length, get_elem?, take,
}

-- `pktPool.get`: the last packet of the pool, or a new one
unfoldable pub get_packet {ℓ} : {A : Type ℓ} → A → List A → Option (A × List A)
get_packet new pool =
    if length pool == 0
    then some (new, pool)
    else (do p ← get_elem? pool (length pool - 1); some (p, take (length pool - 1) pool))

-- `pktPool.put`
unfoldable pub put_packet {ℓ} : {A : Type ℓ} → A → List A → List A
put_packet p pool = pool ++ (p ∷ [])
