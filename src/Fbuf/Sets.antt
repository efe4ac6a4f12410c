-- ===== src/Fbuf/Sets.antt =====
-- `setFields` and `addFields` of fbuf.go.
use irtt.Prelude.{
  ℕ, ◌≤◌, ◌<◌, ◌≡◌, refl, Bool, true, false, List, none, some, arith, ltb, if◌then◌else◌, get_elem?,
}
use irtt.Prelude.Int.{ℤ, pos}
use irtt.Code.{fields_length_too_large}
use irtt.Fbuf.{
  Field, Fbuf, bytes, sum_lens, sum_caps, capacity, validate, set_len, set_loop, add_loop,
  finish_fields, set_fields, add_fields,
}
use irtt.Fbuf.Layout.{
  IsLaid, IsValid, IsIncreasing, contains, HasLen, set_loop-IsLaid, add_loop-IsLaid, set_loop_end,
  sum_caps-set_loop, sum_caps-add_loop, set_loop-get_elem?, add_loop-get_elem?,
  sum_lens-le-sum_caps,
}

fields-finish_fields :
    (r : Bool) (end : ℕ) (fb : Fbuf) → (finish_fields r end fb).0.fields ≡ fb.fields
unfolding finish_fields set_len
fields-finish_fields true end fb = refl
fields-finish_fields false end fb = refl

-- After `setFields` a field has its capacity for its length if an index of the list names it, and
-- the length 0 if none does; its capacity stays. The list of indices grows.
pub set_fields_lem :
    (xs : List ℕ) (r : Bool) (fb : Fbuf) (i : ℕ) {fld : Field}
    → IsIncreasing 0 xs
    → get_elem? fb.fields i ≡ some fld
    → HasLen fld (get_elem? (set_fields xs r fb).0.fields i) (if contains xs i then fld.cap else 0)
unfolding set_fields
set_fields_lem xs r fb i inc e =
    rw (fields-finish_fields r) (set_loop-get_elem? xs 0 0 i i fb.fields inc (omega arith) e)

-- After `addFields` a field has its capacity for its length if an index of the list names it, and
-- the length that it had if none does; its capacity stays. The list of indices grows.
pub add_fields_lem :
    (xs : List ℕ) (r : Bool) (fb : Fbuf) (i : ℕ) {fld : Field}
    → IsIncreasing 0 xs
    → get_elem? fb.fields i ≡ some fld
    → HasLen fld
        (get_elem? (add_fields xs r fb).0.fields i)
        (if contains xs i then fld.cap else fld.len)
unfolding add_fields
add_fields_lem xs r fb i inc e =
    rw (fields-finish_fields r) (add_loop-get_elem? xs 0 0 i i fb.fields inc (omega arith) e)

-- The length that `setLen` gives lies between the fields' bytes and the capacity,
pub set_len_bounds :
    (t : ℤ) (fb : Fbuf)
    → sum_lens fb.fields ≤ capacity fb
    → (sum_lens fb.fields ≤ (set_len t fb).0.blen) × ((set_len t fb).0.blen ≤ capacity fb)
unfolding set_len
set_len_bounds t fb h = ground arith

-- and is the target wherever that lies there too.
pub set_len_target :
    (n : ℕ) (fb : Fbuf) → sum_lens fb.fields ≤ n → n ≤ capacity fb → (set_len (pos n) fb).0.blen ≡ n
unfolding set_len
set_len_target n fb h k = ground arith

validate_ok :
    (fb : Fbuf)
    → sum_lens fb.fields ≤ fb.blen
    → sum_caps fb.fields ≤ capacity fb
    → validate fb ≡ none
unfolding validate
validate_ok fb h k = ground arith

validate-none : (fb : Fbuf) → validate fb ≡ none → sum_lens fb.fields ≤ fb.blen
unfolding validate
validate-none fb h = ground arith

validate_short :
    (fb : Fbuf) → fb.blen < sum_lens fb.fields → validate fb ≡ some fields_length_too_large
unfolding validate
validate_short fb h = ground arith

-- The end of both functions, where the length is set: the fields fill the buffer just to its end.
finish_fields_resized :
    (end : ℕ) (fb : Fbuf)
    → IsLaid 0 fb.fields
    → end ≡ sum_lens fb.fields
    → sum_caps fb.fields ≤ capacity fb
    → ((finish_fields true end fb).1 ≡ none)
      × IsValid (finish_fields true end fb).0
      × ((finish_fields true end fb).0.blen ≡ end)
unfolding finish_fields set_len
finish_fields_resized end fb laid e room =
    let within = sum_lens-le-sum_caps 0 fb.fields laid in
    let (lo, hi) = set_len_bounds (pos end) fb (omega arith) in
    (
      validate_ok _ lo room,
      record { laid = laid; fits = lo; shown = hi; room = room },
      set_len_target end fb (omega arith) (omega arith),
    )

finish_fields_kept :
    (end : ℕ) (fb : Fbuf)
    → sum_caps fb.fields ≤ capacity fb
    → finish_fields false end fb
      ≡ (fb, if ltb fb.blen (sum_lens fb.fields) then some fields_length_too_large else none)
unfolding finish_fields validate
finish_fields_kept end fb room = ground arith

finish_fields-IsValid :
    (end : ℕ) (fb : Fbuf)
    → IsLaid 0 fb.fields
    → sum_caps fb.fields ≤ capacity fb
    → fb.blen ≤ capacity fb
    → (finish_fields false end fb).1 ≡ none
    → IsValid (finish_fields false end fb).0
unfolding finish_fields
finish_fields-IsValid end fb laid room shown h = record {
  laid = laid;
  fits = validate-none fb h;
  shown = shown;
  room = room;
}

-- In a buffer whose capacity holds all fields at once, `setFields` with a resize reports no error and
-- leaves a valid buffer, which ends where the last field ends.
pub set_fields_resized :
    (xs : List ℕ) (fb : Fbuf)
    → sum_caps fb.fields ≤ capacity fb
    → let (fb', e) = set_fields xs true fb in
      (e ≡ none) × IsValid fb' × (fb'.blen ≡ sum_lens fb'.fields)
unfolding set_fields
set_fields_resized xs fb room =
    let at_end = set_loop_end xs 0 0 fb.fields in
    let fs = (set_loop xs 0 0 fb.fields).0 in
    let r =
      finish_fields_resized _ (record fb { fields = fs }) (set_loop-IsLaid xs 0 0 fb.fields)
        (omega arith) (rw sum_caps-set_loop room) in
    rw (fields-finish_fields true) (r.0, r.1, omega (arith, r.2))

-- Without a resize `addFields` leaves the bytes of a valid buffer alone. It reports
-- `FieldsLengthTooLarge` if the fields, old and new, do not fit in those bytes, and no error if they do.
pub add_fields_fits :
    (xs : List ℕ) (fb : Fbuf)
    → IsValid fb
    → let (fb', e) = add_fields xs false fb in
      (bytes fb' ≡ bytes fb)
      × (e ≡ (if ltb fb.blen (sum_lens fb'.fields) then some fields_length_too_large else none))
unfolding add_fields
add_fields_fits xs fb v =
    rw
      (finish_fields_kept _ (record fb { fields = (add_loop xs 0 0 fb.fields).0 })
        (rw sum_caps-add_loop v.room))
      (refl, refl)

-- Where `addFields` without a resize reports no error, the buffer is valid after it.
pub add_fields-IsValid :
    (xs : List ℕ) (fb : Fbuf)
    → IsValid fb
    → (add_fields xs false fb).1 ≡ none
    → IsValid (add_fields xs false fb).0
unfolding add_fields
add_fields-IsValid xs fb v h =
    finish_fields-IsValid _ (record fb { fields = (add_loop xs 0 0 fb.fields).0 })
      (add_loop-IsLaid xs 0 0 0 fb.fields v.laid) (rw sum_caps-add_loop v.room) v.shown h
