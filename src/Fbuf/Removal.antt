-- ===== src/Fbuf/Removal.antt =====
-- `remove` of fbuf.go on a field that is there.
use irtt.Prelude.{
  ℕ, ◌+◌, ◌-◌, ◌≤◌, ◌<◌, ◌≡◌, refl, ◌∙◌, none, some, arith, length, get_elem?, ◌>>=◌, lt→ltb,
  ==-eq-false,
}
use irtt.Prelude.Slice.{slice, overwrite, slice-overwrite_inside, slice-slice, length-slice}
use irtt.Fbuf.{
  Field, Fbuf, capacity, remove, set_field_len, shift_bytes, reset_to_target, resize_field,
}
use irtt.Fbuf.Layout.{IsValid}

-- A field that is there.
abbrev pub IsPresent : Fbuf → ℕ → Field → Type 0
IsPresent fb i fld = (get_elem? fb.fields i ≡ some fld) × (0 < fld.len)

-- Past its tests `remove` is `setFieldLen` with the length 0.
remove_lem :
    (fb : Fbuf) (i : ℕ) {fld : Field}
    → IsPresent fb i fld
    → remove i fb ≡ (
        shift_bytes fld.pos fld.len 0 fb >>= λ fb'.
        reset_to_target (record fb' { fields = resize_field i 0 fb'.fields }))
unfolding remove set_field_len
remove_lem fb i {fld} (k, s) = rw (k, lt→ltb 0 fld.len s, ==-eq-false 0 fld.len (omega arith)) refl

shift_bytes_before_start : (p l : ℕ) (fb : Fbuf) → p < l → shift_bytes p l 0 fb ≡ none
unfolding shift_bytes
shift_bytes_before_start p l fb h = ground arith

-- `remove` panics on a field that is there and stands nearer to the start of the buffer than it is long.
pub remove_panics :
    (fb : Fbuf) (i : ℕ) {fld : Field} → IsPresent fb i fld → fld.pos < fld.len → remove i fb ≡ none
remove_panics fb i {fld} h l =
    rw (remove_lem fb i h, shift_bytes_before_start fld.pos fld.len fb l) refl

-- The bytes of a buffer that shrinks at `p` by `l`, as the code moves them: towards the start, to
-- before `p`.
shift_bytes_shrink :
    (p l : ℕ) (fb : Fbuf)
    → l ≤ p
    → p + l ≤ fb.blen
    → fb.blen ≤ capacity fb
    → shift_bytes p l 0 fb
      ≡ some (record fb {
        store = overwrite (p - l) (slice p (fb.blen - l - p) fb.store) fb.store;
        blen = fb.blen - l;
      })
unfolding shift_bytes
shift_bytes_shrink p l fb h k c = ground arith

store-reset_to_target :
    (fb : Fbuf) {fb' : Fbuf} → reset_to_target fb ≡ some fb' → fb'.store ≡ fb.store
unfolding reset_to_target
store-reset_to_target fb h = ground arith

-- `remove` of a field that is there, with as many bytes before it, and as many behind it, as it is long:
-- if it does not panic, the removed value has replaced the bytes before the field, which belong to
-- the fields in front of it.
pub remove-clobbers :
    (fb fb' : Fbuf) (i : ℕ) {fld : Field}
    → IsValid fb
    → IsPresent fb i fld
    → fld.len ≤ fld.pos
    → fld.pos + fld.len + fld.len ≤ fb.blen
    → remove i fb ≡ some fb'
    → slice (fld.pos - fld.len) fld.len fb'.store ≡ slice fld.pos fld.len fb.store
remove-clobbers fb fb' i {fld} v h l t e =
    let n = fb.blen - fld.len - fld.pos in
    let src = slice fld.pos n fb.store in
    let size : length src ≡ n = length-slice fld.pos n fb.store (omega (arith, v.shown)) in
    let e' =
      rw (remove_lem fb i h, shift_bytes_shrink fld.pos fld.len fb l (omega arith) v.shown) at e in
    rw (store-reset_to_target _ e') (
      slice-overwrite_inside (fld.pos - fld.len) 0 fld.len (fld.pos - fld.len) src fb.store
        (omega arith) (omega arith) (omega (arith, v.shown))
      ∙ slice-slice 0 fld.len fld.pos n fld.pos fb.store (omega arith) (omega arith))
