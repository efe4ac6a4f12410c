-- ===== src/Packet/Numbers.antt =====
-- packet.go: the numbers in a packet's header, read back after they are set (`seqno`, `setSeqno`,
-- `ctoken`, `setConnToken`, `receivedCount`, `receivedWindow` and their setters).
use native.Mathlib.Nat.{
  pow-succ', mul_assoc, mod-add-div, mod-one, mod-eq_of_lt, div-div-eq-div-mul,
}
use irtt.Prelude.{
  ℕ, zero, suc, ◌+◌, ◌*◌, ◌/◌, ◌%◌, ◌^◌, ◌≤◌, ◌<◌, ◌≡◌, ◌≢◌, refl, ap, ◌∙◌, sym, List, some, arith,
  length, get_elem?, take, leb-eq-true,
}
use irtt.Prelude.Slice.{take_all}
use irtt.Fbuf.{Field, get}
use irtt.Fbuf.Layout.{IsValid}
use irtt.Fbuf.Write.{IsWritable, write_to-Wrote}
use irtt.Packet.{Packet, le_bytes, from_le, get_uint, set_uint}

pub length-le_bytes : (n w : ℕ) → length (le_bytes n w) ≡ n
unfolding le_bytes
length-le_bytes zero w = refl
length-le_bytes (suc n) w = ap suc (length-le_bytes n (w / 256))

low_digits : (w m : ℕ) → w % (256 * m) ≡ w % 256 + 256 * (w / 256 % m)
low_digits w m = omega (
  arith,
  mod-add-div w (256 * m),
  mod-add-div (w / 256) m,
  mul_assoc 256 m (w / 256 / m),
  ap (λ q. 256 * m * q) (div-div-eq-div-mul w 256 m),
)

pub from_le-le_bytes : (n w : ℕ) → from_le (le_bytes n w) ≡ w % 256 ^ n
unfolding le_bytes from_le
from_le-le_bytes zero w = sym (mod-one w)
from_le-le_bytes (suc n) w =
    ap (λ r. w % 256 + 256 * r) (from_le-le_bytes n (w / 256))
    ∙ (sym (low_digits w (256 ^ n)) ∙ ap (λ m. w % m) (sym (pow-succ' 256 n)))

-- A number of `n` bytes that is put into a field of that size, which is there or has room, is read back
-- as it was, if it is in range; and every other field that could be read reads as before.
pub get_uint-set_uint :
    (p : Packet) (n i w : ℕ) {fld : Field}
    → IsValid p.fbuf
    → get_elem? p.fbuf.fields i ≡ some fld
    → IsWritable p.fbuf fld
    → fld.cap ≡ n
    → w < 256 ^ n
    → (p' : Packet) × (set_uint n i w p ≡ some p')
      × (get_uint n i p' ≡ some w)
      × ((m : ℕ) (x : List ℕ) → m ≢ i → get m p.fbuf ≡ some x → get m p'.fbuf ≡ some x)
unfolding set_uint get_uint
get_uint-set_uint p n i w {fld} v k wr size lt =
    let (fb, e, o) =
      write_to-Wrote p.fbuf i (le_bytes n w) v k wr (length-le_bytes n w ∙ sym size) in
    (
      record p { fbuf = fb },
      rw e refl,
      rw (o.self, leb-eq-true n _ (read n w)) (ap some (whole n w lt)),
      o.others,
    )
  where
    read : (n w : ℕ) → n ≤ length (le_bytes n w)
    read n w = omega (arith, length-le_bytes n w)

    whole : (n w : ℕ) → w < 256 ^ n → from_le (take n (le_bytes n w)) ≡ w
    whole n w lt =
        ap from_le (take_all n (le_bytes n w) (omega (arith, length-le_bytes n w)))
        ∙ (from_le-le_bytes n w ∙ mod-eq_of_lt lt)
