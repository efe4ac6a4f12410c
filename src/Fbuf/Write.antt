-- ===== src/Fbuf/Write.antt =====
-- `set`, `setTo` and `zero` of fbuf.go, for a client that reads fields back by `get`.
use irtt.Prelude.{
  ℕ, ◌+◌, ◌<◌, ◌≡◌, ◌≢◌, refl, ◌∙◌, sym, ◌⊎◌, List, none, some, arith, length, get_elem?, replicate,
  ==-eq-true, ==-eq-false, length-replicate,
}
use irtt.Prelude.Slice.{length-overwrite, take_all}
use irtt.Fbuf.{
  Field, Fbuf, capacity, set_to, write_to, set, zero_field, get, set_field_len, shift_bytes,
}
use irtt.Fbuf.Layout.{IsValid}
use irtt.Fbuf.Resize.{IsUnset}
use irtt.Fbuf.Frame.{HasRoom, set_to-Opened, written, written-IsValid, get-written, get-written_ne}

-- A field can be written: it is there, or there is room for it.
abbrev pub IsWritable : Fbuf → Field → Type 0
IsWritable fb fld = (fld.len ≡ fld.cap) ⊎ HasRoom fb fld

-- What a write of `b` to field `i` gives.
pub record Wrote (fb : Fbuf) (i : ℕ) (b : List ℕ) (fb' : Fbuf) : Type 0 where
  pub valid : IsValid fb'
  pub size : capacity fb' ≡ capacity fb
  pub self : get i fb' ≡ some b
  pub others : (m : ℕ) (x : List ℕ) → m ≢ i → get m fb ≡ some x → get m fb' ≡ some x

module _ (fb : Fbuf) (i : ℕ) (b : List ℕ) {fld : Field} (v : IsValid fb)
    (k : get_elem? fb.fields i ≡ some fld) (w : IsWritable fb fld) (size : length b ≡ fld.cap) where
  pub write_to-Wrote : (fb' : Fbuf) × (write_to i b fb ≡ some fb') × Wrote fb i b fb'
  unfolding write_to
  write_to-Wrote =
      let (fb', e, o) = set_to-Opened fb i v k w in
      (
        written fb fb' i o b size,
        rw (e, take_all fld.cap b (omega (arith, size))) refl,
        record {
          valid = written-IsValid fb fb' i o b size;
          size = length-overwrite fld.pos b fb'.store ∙ o.size;
          self = get-written fb fb' i o b size;
          others = get-written_ne fb fb' i o b size;
        },
      )

  pub set-Wrote : (fb' : Fbuf) × (set i b fb ≡ some fb') × Wrote fb i b fb'
  unfolding set
  set-Wrote = let (fb', e, o) = write_to-Wrote in (fb', rw (k, ==-eq-true _ _ size) e, o)

-- `set` of a whole value to a field of a valid buffer that is there or has room does not panic; it leaves a
-- valid buffer of the same capacity, in which the field reads as that value.
pub get-set :
    (fb : Fbuf) (i : ℕ) (b : List ℕ) {fld : Field}
    → IsValid fb
    → get_elem? fb.fields i ≡ some fld
    → IsWritable fb fld
    → length b ≡ fld.cap
    → (fb' : Fbuf) × (set i b fb ≡ some fb')
      × IsValid fb'
      × (capacity fb' ≡ capacity fb)
      × (get i fb' ≡ some b)
get-set fb i b v k w size =
    let (fb', e, o) = set-Wrote fb i b v k w size in (fb', e, o.valid, o.size, o.self)

-- `set` of a whole value to a field of a valid buffer that is there or has room keeps every other field
-- that could be read: it reads as before, also where the bytes have moved to make room.
pub get-set_ne :
    (fb : Fbuf) (i m : ℕ) (b x : List ℕ) {fld : Field}
    → IsValid fb
    → get_elem? fb.fields i ≡ some fld
    → IsWritable fb fld
    → length b ≡ fld.cap
    → m ≢ i
    → get m fb ≡ some x
    → (fb' : Fbuf) × (set i b fb ≡ some fb') × (get m fb' ≡ some x)
get-set_ne fb i m b x v k w size ne h =
    let (fb', e, o) = set-Wrote fb i b v k w size in (fb', e, o.others m x ne h)

-- `zero` has the effect of `set` with zeroes.
pub zero_field-Wrote :
    (fb : Fbuf) (i : ℕ) {fld : Field}
    → IsValid fb
    → get_elem? fb.fields i ≡ some fld
    → IsWritable fb fld
    → (fb' : Fbuf) × (zero_field i fb ≡ some fb') × Wrote fb i (replicate fld.cap 0) fb'
unfolding zero_field
zero_field-Wrote fb i {fld} v k w =
    let (fb', e, o) =
      write_to-Wrote fb i (replicate fld.cap 0) v k w (length-replicate fld.cap 0) in
    (fb', rw k e, o)

shift_bytes_no_room :
    (p c : ℕ) (fb : Fbuf) → capacity fb < fb.blen + c → shift_bytes p 0 c fb ≡ none
unfolding shift_bytes
shift_bytes_no_room p c fb h = ground arith

-- A field that is not there panics when it is written, if the buffer with the field added would pass
-- the capacity, whatever the target length is: the buffer is cut to its target only afterwards.
pub write_to_panics :
    (fb : Fbuf) (i : ℕ) (b : List ℕ) {fld : Field}
    → IsUnset fb.fields i fld
    → fld.cap ≢ 0
    → capacity fb < fb.blen + fld.cap
    → write_to i b fb ≡ none
unfolding write_to set_to set_field_len
write_to_panics fb i b {fld} u nz h =
    rw
      (
        u.0,
        u.1,
        ==-eq-false 0 fld.cap (λ e. nz (sym e)),
        ==-eq-false fld.cap 0 nz,
        shift_bytes_no_room fld.pos fld.cap fb h,
      )
      refl
