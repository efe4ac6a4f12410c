-- ===== src/Filler/Payload.antt =====
-- packet.go: `readPayload`, which fills the payload of a packet by a filler. `none` is a panic.
use irtt.Prelude.{
  ℕ, ◌-◌, List, Option, some, ◌==◌, leb, if◌then◌else◌, ◌>>=◌, ◌>>◌, guard, length, take,
}
use irtt.Prelude.Slice.{overwrite}
use irtt.Fbuf
use irtt.Packet.{Packet}
use irtt.Filler.{Filler, rand_filler, pattern_filler, read}

-- The payload is filled to its length, and the filler has moved on.
unfoldable pub read_payload : List ℕ → Filler → Packet → Option (Packet × Filler)
read_payload random f p = do
  payload ← Fbuf.payload p.fbuf
  let n = length payload
  let at = p.fbuf.blen - n
  if n == 0 then some (p, f) else (elim f [
    | rand_filler ↦
        guard (leb n (length random))
        >> some (
          record p { fbuf = record p.fbuf { store = overwrite at (take n random) p.fbuf.store } },
          rand_filler,
        )
    | pattern_filler g ↦ (do
      (out, g') ← read n g
      some (
        record p { fbuf = record p.fbuf { store = overwrite at out p.fbuf.store } },
        pattern_filler g',
      ))
  ])
