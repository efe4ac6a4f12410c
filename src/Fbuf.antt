-- ===== src/Fbuf.antt =====
-- fbuf.go: a byte buffer with fields, each of which is absent or has its full capacity.
-- A Go slice is its backing array with the visible length; reslicing within the capacity shows the
-- bytes that stand there. `none` is a run-time panic (an index or a slice bound out of range).
pub mod Layout
pub mod Sets
pub mod Resize
pub mod Frame
pub mod Write
pub mod Removal
mod Tests
use irtt.Prelude.{
  ℕ, zero, suc, ◌+◌, ◌-◌, ◌*◌, ◌≤◌, ◌<◌, ◌≡◌, Bool, true, false, ◌||◌, List, [], ◌∷◌, Option, none,
  some, min, ltb, leb, ◌==◌, if◌then◌else◌, length, get_elem?, take, drop, replicate, ◌>>=◌, ◌>>◌,
  guard,
}
use irtt.Prelude.Int.{ℤ, pos, pos_part, ltb_ℤ}
use irtt.Prelude.Slice.{slice, overwrite}
use irtt.Code.{Code, fields_length_too_large, fields_capacity_too_large}

-- `field`: the byte position, the length and the capacity.
pub record Field : Type 0 where
  pub pos : ℕ
  pub len : ℕ
  pub cap : ℕ

-- `fbuf`: `store` is the backing array of `buf`, whose length is `cap(buf)`; `blen` is `len(buf)`.
pub record Fbuf : Type 0 where
  pub store : List ℕ
  pub blen : ℕ
  pub fields : List Field
  pub tlen : ℤ

-- `sumLens`
unfoldable pub sum_lens : List Field → ℕ
sum_lens [] = 0
sum_lens (f ∷ fs) = f.len + sum_lens fs

-- `sumFields` returns this sum beside `sum_lens`.
unfoldable pub sum_caps : List Field → ℕ
sum_caps [] = 0
sum_caps (f ∷ fs) = f.cap + sum_caps fs

-- `cap(fb.buf)`
abbrev pub capacity : Fbuf → ℕ
capacity fb = length fb.store

-- the bytes that `buf` shows
abbrev pub bytes : Fbuf → List ℕ
bytes fb = take fb.blen fb.store

-- `newFbuf`; `make` zeroes the array. Its lengths are not negative.
unfoldable pub new_fbuf : List Field → ℕ → ℕ → Fbuf
new_fbuf fields tlen cap =
    let flen = sum_lens fields in
    let blen = if ltb flen tlen then tlen else flen in
    let cap' = if ltb cap (sum_caps fields) then sum_caps fields else cap in
    record { store = replicate cap' 0; blen = blen; fields = fields; tlen = pos tlen }

-- `validate`: `none` is success here, as a nil error is.
unfoldable pub validate : Fbuf → Option Code
validate fb =
    if ltb fb.blen (sum_lens fb.fields)
    then some fields_length_too_large
    else if ltb (capacity fb) (sum_caps fb.fields)
    then some fields_capacity_too_large
    else none

-- `setLen`: the target length may be negative; `buf` shows it, but at least the fields and at most
-- the capacity. Returns the length beside the buffer.
unfoldable pub set_len : ℤ → Fbuf → Fbuf × ℕ
set_len tlen fb =
    let flen = sum_lens fb.fields in
    let want : ℤ = if ltb_ℤ tlen (pos flen) then pos flen else tlen in
    let l = if ltb (capacity fb) (pos_part want) then capacity fb else pos_part want in
    (record fb { blen = l; tlen = tlen }, l)

-- `j == int(fidxs[i])`, with `fidxs[i:]` left to place,
abbrev pub named : List ℕ → ℕ → Bool
named [] j = false
named (x ∷ xs) j = j == x

-- and what is left after field `j`.
abbrev pub advance : List ℕ → ℕ → List ℕ
advance [] j = []
advance (x ∷ xs) j = if j == x then xs else x ∷ xs

-- The two nested loops of `setFields` from field `j` on: a field that the next index names gets its
-- capacity for its length, every other the length 0. Returns the fields and the last `pos`.
unfoldable pub set_loop : List ℕ → ℕ → ℕ → List Field → List Field × ℕ
set_loop fidxs j p [] = ([], p)
set_loop fidxs j p (f ∷ fs) =
    let len = if named fidxs j then f.cap else 0 in
    let (rest, end) = set_loop (advance fidxs j) (j + 1) (p + len) fs in
    (record f { pos = p; len = len } ∷ rest, end)

-- The loops of `addFields`: a field that no index names keeps its length.
unfoldable pub add_loop : List ℕ → ℕ → ℕ → List Field → List Field × ℕ
add_loop fidxs j p [] = ([], p)
add_loop fidxs j p (f ∷ fs) =
    let len = if named fidxs j then f.cap else f.len in
    let (rest, end) = add_loop (advance fidxs j) (j + 1) (p + len) fs in
    (record f { pos = p; len = len } ∷ rest, end)

-- The end of both functions: `if setLen { fb.setLen(pos) }; return fb.validate()`.
unfoldable pub finish_fields : Bool → ℕ → Fbuf → Fbuf × Option Code
finish_fields resize end fb =
    let fb' = if resize then (set_len (pos end) fb).0 else fb in (fb', validate fb')

-- `setFields` and `addFields`
unfoldable pub set_fields : List ℕ → Bool → Fbuf → Fbuf × Option Code
set_fields fidxs resize fb =
    let (fs, end) = set_loop fidxs 0 0 fb.fields in
    finish_fields resize end (record fb { fields = fs })

unfoldable pub add_fields : List ℕ → Bool → Fbuf → Fbuf × Option Code
add_fields fidxs resize fb =
    let (fs, end) = add_loop fidxs 0 0 fb.fields in
    finish_fields resize end (record fb { fields = fs })

-- The loop of `setFieldLen` that moves the positions, from field `i` on; `started` is `i >= f`.
unfoldable pub move_fields : ℕ → ℕ → List Field → List Field
move_fields zero p [] = []
move_fields zero p (f ∷ fs) = record f { pos = p } ∷ move_fields zero (p + f.len) fs
move_fields (suc i) p [] = []
move_fields (suc i) p (f ∷ fs) = f ∷ move_fields i p fs

-- `fb.fields[f].len = n` with the positions after it brought up to date
unfoldable pub resize_field : ℕ → ℕ → List Field → List Field
resize_field i n [] = []
resize_field zero n (f ∷ fs) = move_fields zero f.pos (record f { len = n } ∷ fs)
resize_field (suc i) n (f ∷ fs) = f ∷ resize_field i n fs

-- `setFieldLen`, for `newlen != l`: `buf` grows or shrinks, and `copy(buf[p+grow:], buf[p:])` moves
-- bytes inside it, `grow` being `newlen - l`. Its guards are Go's bounds of the three slices.
unfoldable pub shift_bytes : ℕ → ℕ → ℕ → Fbuf → Option Fbuf
shift_bytes p l newlen fb = do
  guard (leb l (fb.blen + newlen))
  let blen' = fb.blen + newlen - l
  guard (leb blen' (capacity fb))
  guard (leb l (p + newlen))
  guard (leb (p + newlen - l) blen')
  guard (leb p blen')
  let to = p + newlen - l
  let n = min (blen' - to) (blen' - p)
  some (record fb { store = overwrite to (slice p n fb.store) fb.store; blen = blen' })

-- The end of `setFieldLen`: back to the target length, where the fields fit in it.
unfoldable pub reset_to_target : Fbuf → Option Fbuf
reset_to_target fb =
    if ltb_ℤ fb.tlen (pos (sum_lens fb.fields))
    then some fb
    else (guard (leb (pos_part fb.tlen) (capacity fb))
        >> some (record fb { blen = pos_part fb.tlen }))

unfoldable pub set_field_len : ℕ → ℕ → Fbuf → Option Fbuf
set_field_len f newlen fb = do
  fld ← get_elem? fb.fields f
  if newlen == fld.len then some fb else (do
    fb' ← shift_bytes fld.pos fld.len newlen fb
    reset_to_target (record fb' { fields = resize_field f newlen fb'.fields }))

-- `setTo`: the field is grown to its capacity. The slice that it returns is given by the position
-- and the length in the array, since its callers write through it.
unfoldable pub set_to : ℕ → Fbuf → Option (Fbuf × ℕ × ℕ)
set_to f fb = do
  fld ← get_elem? fb.fields f
  fb' ← if fld.len == fld.cap then some fb else set_field_len f fld.cap fb
  guard (leb (fld.pos + fld.cap) (capacity fb'))
  some (fb', fld.pos, fld.cap)

-- A write of the bytes `b` through the slice of `setTo`, no further than the slice goes.
unfoldable pub write_to : ℕ → List ℕ → Fbuf → Option Fbuf
write_to f b fb = do
  (fb', p, c) ← set_to f fb
  some (record fb' { store = overwrite p (take c b) fb'.store })

-- `set` panics for a value of another size.
unfoldable pub set : ℕ → List ℕ → Fbuf → Option Fbuf
set f b fb = do fld ← get_elem? fb.fields f; guard (length b == fld.cap); write_to f b fb

-- `setb`, for fields of one byte
unfoldable pub setb : ℕ → ℕ → Fbuf → Option Fbuf
setb f b fb = do
  fld ← get_elem? fb.fields f
  guard (fld.cap == 1)
  fb' ← if fld.len == 1 then some fb else set_field_len f 1 fb
  guard (ltb fld.pos fb'.blen)
  some (record fb' { store = overwrite fld.pos (b ∷ []) fb'.store })

-- `zero`
unfoldable pub zero_field : ℕ → Fbuf → Option Fbuf
zero_field f fb = do fld ← get_elem? fb.fields f; write_to f (replicate fld.cap 0) fb

-- `setPayload`
unfoldable pub set_payload : List ℕ → Fbuf → Option Fbuf
set_payload b fb = do
  let flen = sum_lens fb.fields
  guard (leb (flen + length b) (capacity fb))
  some (record fb { store = overwrite flen b fb.store; blen = flen + length b })

-- `get`: up to the capacity, as `buf[p : p+l]` is.
unfoldable pub get : ℕ → Fbuf → Option (List ℕ)
get f fb = do
  fld ← get_elem? fb.fields f
  guard (leb (fld.pos + fld.len) (capacity fb))
  some (slice fld.pos fld.len fb.store)

-- `getb` is an index into `buf`, bounded by its length.
unfoldable pub getb : ℕ → Fbuf → Option ℕ
getb f fb = do
  fld ← get_elem? fb.fields f
  guard (fld.len == 1)
  guard (ltb fld.pos fb.blen)
  get_elem? fb.store fld.pos

unfoldable pub isset : ℕ → Fbuf → Option Bool
isset f fb = do fld ← get_elem? fb.fields f; some (ltb 0 fld.len)

unfoldable pub payload : Fbuf → Option (List ℕ)
payload fb = do
  let flen = sum_lens fb.fields
  guard (leb flen fb.blen)
  some (slice flen (fb.blen - flen) fb.store)

-- `zeroPayload`
unfoldable pub zero_payload : Fbuf → Option Fbuf
zero_payload fb = do
  let flen = sum_lens fb.fields
  guard (leb flen fb.blen)
  some (record fb { store = overwrite flen (replicate (fb.blen - flen) 0) fb.store })

-- `remove`
unfoldable pub remove : ℕ → Fbuf → Option Fbuf
remove f fb = do
  fld ← get_elem? fb.fields f
  if ltb 0 fld.len then set_field_len f 0 fb else some fb
