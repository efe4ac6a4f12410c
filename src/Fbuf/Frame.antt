-- ===== src/Fbuf/Frame.antt =====
-- Setting a field of fbuf.go: the value is read back, and every other field keeps its bytes, although
-- its place may change.
use native.Mathlib.Decide.{dec_lt, ℕ_discrete}
use irtt.Prelude.{
  ℕ, ◌+◌, ◌-◌, ◌≤◌, ◌<◌, ◌≡◌, ◌≢◌, refl, ap, ◌∙◌, sym, ◌⊎◌, inl, inr, true, List, Option, none,
  some, arith, leb, length, get_elem?, Bool-cases, Option-cases, lt→ltb, ltb-eq-false, ==-eq-false,
  ==-eq-true, leb-eq-true,
}
use irtt.Prelude.Int.{pos, pos_part, ltb_ℤ}
use irtt.Prelude.Slice.{
  slice, overwrite, length-overwrite, slice-overwrite_before, slice-overwrite_after,
  slice-overwrite_inside, slice-overwrite_self, slice-slice, length-slice,
}
use irtt.Fbuf.{
  Field, Fbuf, sum_lens, capacity, resize_field, reset_to_target, set_field_len, set_to, get,
}
use irtt.Fbuf.Layout.{IsValid, IsLaid-get_elem?, IsLaid-disjoint}
use irtt.Fbuf.Resize.{IsUnset, resize_field-Grown, resize_field-get_elem?, shift_bytes_grow}

-- What holds of another field `g`, which has become `o`: its length and its bytes are the same, and it
-- shares no byte with `fld` at its full size.
abbrev pub Kept : Fbuf → Fbuf → Field → Field → Option Field → Type 0
Kept fb fb' fld g none = ⊥
Kept fb fb' fld g (some o) =
    (o.len ≡ g.len)
    × (slice o.pos g.len fb'.store ≡ slice g.pos g.len fb.store)
    × ((o.pos + g.len ≤ fld.pos) ⊎ (fld.pos + fld.cap ≤ o.pos))

-- What making field `i` whole does to the buffer.
pub record Opened (fb fb' : Fbuf) (i : ℕ) (fld : Field) : Type 0 where
  pub valid : IsValid fb'
  pub self : get_elem? fb'.fields i ≡ some (record fld { len = fld.cap })
  pub size : capacity fb' ≡ capacity fb
  pub others :
      (m : ℕ) (g : Field)
      → get_elem? fb.fields m ≡ some g
      → m ≢ i
      → Kept fb fb' fld g (get_elem? fb'.fields m)

-- The buffer after field `i` has appeared, before the target length is restored.
abbrev grown : Fbuf → ℕ → Field → Fbuf
grown fb i fld = record fb {
  store = overwrite (fld.pos + fld.cap) (slice fld.pos (fb.blen - fld.pos) fb.store) fb.store;
  blen = fb.blen + fld.cap;
  fields = resize_field i fld.cap fb.fields;
}

-- The room that `setFieldLen` takes for granted: the capacity holds the buffer with the field added,
-- and the target length.
pub record HasRoom (fb : Fbuf) (fld : Field) : Type 0 where
  pub for_field : fb.blen + fld.cap ≤ capacity fb
  pub for_target : pos_part fb.tlen ≤ capacity fb

module _ (fb : Fbuf) (i : ℕ) {fld : Field} (v : IsValid fb) (u : IsUnset fb.fields i fld)
    (room : HasRoom fb fld) where
  within : (fld.pos ≤ fb.blen) × (fld.len ≡ 0)
  within = let r = IsLaid-get_elem? 0 i fb.fields v.laid u.0 in (omega (arith, r.1, v.fits), u.1)

  slice-grown_before :
      (g : Field)
      → g.pos + g.len ≤ fld.pos
      → slice g.pos g.len (grown fb i fld).store ≡ slice g.pos g.len fb.store
  slice-grown_before g h =
      slice-overwrite_before g.pos g.len (fld.pos + fld.cap) _ fb.store (omega arith)

  slice-grown_behind :
      (g : Field)
      → fld.pos ≤ g.pos
      → g.pos + g.len ≤ fb.blen
      → slice (g.pos + fld.cap) g.len (grown fb i fld).store ≡ slice g.pos g.len fb.store
  slice-grown_behind g h k =
      let src = slice fld.pos (fb.blen - fld.pos) fb.store in
      let size : length src ≡ fb.blen - fld.pos =
        length-slice fld.pos (fb.blen - fld.pos) fb.store (omega (arith, v.shown, within)) in
      slice-overwrite_inside (fld.pos + fld.cap) (g.pos - fld.pos) g.len (g.pos + fld.cap) src
        fb.store (omega arith) (omega arith) (omega (arith, room.for_field, within))
      ∙ slice-slice (g.pos - fld.pos) g.len fld.pos (fb.blen - fld.pos) g.pos fb.store (omega arith)
          (omega arith)

  length-grown : capacity (grown fb i fld) ≡ capacity fb
  length-grown = length-overwrite (fld.pos + fld.cap) _ fb.store

  others-grown :
      (m : ℕ) (g : Field)
      → get_elem? fb.fields m ≡ some g
      → m ≢ i
      → Kept fb (grown fb i fld) fld g (get_elem? (resize_field i fld.cap fb.fields) m)
  others-grown m g k ne =
      let r = resize_field-get_elem? 0 i m fb.fields v.laid u k ne in
      let inside = IsLaid-get_elem? 0 m fb.fields v.laid k in
      elim (dec_lt m i) [
        | yes l ↦ rw (r.0, lt→ltb m i l) (refl, slice-grown_before g (r.1 l), inl (r.1 l))
        | no l ↦
            let l' : i < m = omega arith in
            rw (r.0, ltb-eq-false m i l)
              (
                refl,
                slice-grown_behind g (r.2 l') (omega (arith, inside.1, v.fits)),
                inr (omega (arith, r.2 l')),
              )
      ]

  -- The buffer with the target length restored.
  grown-Opened :
      (n : ℕ)
      → sum_lens (grown fb i fld).fields ≤ n
      → n ≤ capacity fb
      → Opened fb (record (grown fb i fld) { blen = n }) i fld
  grown-Opened n lo hi =
      let g = resize_field-Grown 0 i fb.fields v.laid u in
      record {
        valid = record {
          laid = g.laid;
          fits = lo;
          shown = omega (arith, length-grown);
          room = omega (arith, length-grown, g.caps, v.room);
        };
        self = g.self;
        size = length-grown;
        others = others-grown;
      }

  reset-Opened : (fb' : Fbuf) × (reset_to_target (grown fb i fld) ≡ some fb') × Opened fb fb' i fld
  unfolding reset_to_target
  reset-Opened =
      let g = resize_field-Grown 0 i fb.fields v.laid u in
      elim (Bool-cases (ltb_ℤ fb.tlen (pos (sum_lens (resize_field i fld.cap fb.fields))))) [
        | inl e ↦ (
          grown fb i fld,
          rw e refl,
          grown-Opened (fb.blen + fld.cap) (omega (arith, g.lens, v.fits)) room.for_field,
        )
        | inr e ↦ (
          record (grown fb i fld) { blen = pos_part fb.tlen },
          rw e (ground (arith, length-grown, room.for_target)),
          grown-Opened (pos_part fb.tlen) (ground arith) room.for_target,
        )
      ]

  set_field_len-Opened :
      fld.cap ≢ 0 → (fb' : Fbuf) × (set_field_len i fld.cap fb ≡ some fb') × Opened fb fb' i fld
  unfolding set_field_len
  set_field_len-Opened nz =
      let (fb', e, o) = reset-Opened in
      let steps : set_field_len i fld.cap fb ≡ reset_to_target (grown fb i fld) =
        rw
          (
            u.0,
            u.1,
            ==-eq-false fld.cap 0 nz,
            shift_bytes_grow fld.pos fld.cap fb within.0 room.for_field,
          )
          refl in
      (fb', steps ∙ e, o)

module _ (fb : Fbuf) (i : ℕ) {fld : Field} (v : IsValid fb)
    (k : get_elem? fb.fields i ≡ some fld) where
  -- A field that is there already.
  whole-Opened : fld.len ≡ fld.cap → Opened fb fb i fld
  whole-Opened e = record {
    valid = v;
    self = rw (k, ← e) refl;
    size = refl;
    others = λ m g km ne. rw km (
      refl,
      refl,
      elim (dec_lt m i) [
        | yes l ↦ inl (IsLaid-disjoint 0 m i fb.fields v.laid km k l)
        | no l ↦ inr (omega (arith, IsLaid-disjoint 0 i m fb.fields v.laid k km (omega arith)))
      ],
    );
  }

  -- An opened field ends within the capacity.
  Opened-within : {fb' : Fbuf} → Opened fb fb' i fld → leb (fld.pos + fld.cap) (capacity fb') ≡ true
  Opened-within {fb'} o =
      let r = IsLaid-get_elem? 0 i fb'.fields o.valid.laid o.self in
      leb-eq-true _ _ (omega (arith, r.1, o.valid.fits, o.valid.shown))

  set_to_whole : fld.len ≡ fld.cap → set_to i fb ≡ some (fb, fld.pos, fld.cap)
  unfolding set_to
  set_to_whole e = rw (k, ==-eq-true fld.len fld.cap e, Opened-within (whole-Opened e)) refl

  set_to_grown :
      fld.len ≢ fld.cap
      → HasRoom fb fld
      → (fb' : Fbuf) × (set_to i fb ≡ some (fb', fld.pos, fld.cap)) × Opened fb fb' i fld
  unfolding set_to
  set_to_grown ne room =
      let r = IsLaid-get_elem? 0 i fb.fields v.laid k in
      let unset : fld.len ≡ 0 = ground (arith, r.2) in
      let (fb', e, o) = set_field_len-Opened fb i v (k, unset) room (ground arith) in
      (fb', rw (k, ==-eq-false fld.len fld.cap ne, e, Opened-within o) refl, o)

  -- `setTo` succeeds on a field that is there or has room, and opens it.
  pub set_to-Opened :
      (fld.len ≡ fld.cap) ⊎ HasRoom fb fld
      → (fb' : Fbuf) × (set_to i fb ≡ some (fb', fld.pos, fld.cap)) × Opened fb fb' i fld
  set_to-Opened (inl e) = (fb, set_to_whole e, whole-Opened e)
  set_to-Opened (inr room) = elim (ℕ_discrete fld.len fld.cap) [
    | yes e ↦ (fb, set_to_whole e, whole-Opened e)
    | no ne ↦ set_to_grown ne room
  ]

-- Reading a field, forwards and backwards.
pub get_valid :
    (m : ℕ) (fb : Fbuf) {g : Field}
    → IsValid fb
    → get_elem? fb.fields m ≡ some g
    → get m fb ≡ some (slice g.pos g.len fb.store)
unfolding get
get_valid m fb {g} v k =
    let r = IsLaid-get_elem? 0 m fb.fields v.laid k in
    rw (k, leb-eq-true (g.pos + g.len) (capacity fb) (omega (arith, r.1, v.fits, v.shown))) refl

pub get_inv :
    (m : ℕ) (fb : Fbuf) (x : List ℕ)
    → get m fb ≡ some x
    → (g : Field) × (get_elem? fb.fields m ≡ some g) × (slice g.pos g.len fb.store ≡ x)
unfolding get
get_inv m fb x h = elim (Option-cases (get_elem? fb.fields m)) [
  | inl e ↦ cc
  | inr (g, e) ↦ (g, e, ground arith)
]

-- Writing a whole value into an opened field.
module _ (fb fb' : Fbuf) (i : ℕ) {fld : Field} (o : Opened fb fb' i fld) (b : List ℕ)
    (size : length b ≡ fld.cap) where
  abbrev pub written : Fbuf
  written = record fb' { store = overwrite fld.pos b fb'.store }

  pub written-IsValid : IsValid written
  written-IsValid = record {
    laid = o.valid.laid;
    fits = o.valid.fits;
    shown = omega (arith, o.valid.shown, length-overwrite fld.pos b fb'.store);
    room = omega (arith, o.valid.room, length-overwrite fld.pos b fb'.store);
  }

  within_store : fld.pos + fld.cap ≤ capacity fb'
  within_store =
      let r = IsLaid-get_elem? 0 i fb'.fields o.valid.laid o.self in
      omega (arith, r.1, o.valid.fits, o.valid.shown)

  pub get-written : get i written ≡ some b
  unfolding get
  get-written =
      rw
        (
          o.self,
          leb-eq-true (fld.pos + fld.cap) (capacity written)
              (omega (arith, within_store, length-overwrite fld.pos b fb'.store)),
        )
        (ap some (slice-overwrite_self fld.pos fld.cap b fb'.store (sym size) within_store))

  written-Kept :
      (g : Field) (q : Option Field)
      → Kept fb fb' fld g q
      → (h : Field) × (q ≡ some h)
        × (h.len ≡ g.len)
        × (slice h.pos h.len written.store ≡ slice g.pos g.len fb.store)
  written-Kept g none k = elim k [ ]
  written-Kept g (some h) (el, es, apart) = (h, refl, el, rw el (same apart ∙ es))
    where
      same :
          (h.pos + g.len ≤ fld.pos) ⊎ (fld.pos + fld.cap ≤ h.pos)
          → slice h.pos g.len written.store ≡ slice h.pos g.len fb'.store
      same (inl l) = slice-overwrite_before h.pos g.len fld.pos b fb'.store l
      same (inr l) = slice-overwrite_after h.pos g.len fld.pos b fb'.store (omega arith)

  pub get-written_ne : (m : ℕ) (x : List ℕ) → m ≢ i → get m fb ≡ some x → get m written ≡ some x
  get-written_ne m x ne h =
      let (g, k, e) = get_inv m fb x h in
      let (g', k', el, es) = written-Kept g (get_elem? fb'.fields m) (o.others m g k ne) in
      get_valid m written written-IsValid k' ∙ ap some (es ∙ e)
