-- ===== src/Fbuf/Resize.antt =====
-- `setFieldLen` of fbuf.go where it makes a field appear: the bytes behind it move up.
use irtt.Prelude.{
  ℕ, zero, suc, ◌+◌, ◌-◌, ◌≤◌, ◌<◌, ◌≡◌, ◌≢◌, refl, ap, ◌∙◌, inr, List, [], ◌∷◌, some, arith, ltb,
  if◌then◌else◌, get_elem?,
}
use mathlib.Core.Path.{subst}
use mathlib.Core.Option.{some-injective}
use irtt.Prelude.Slice.{slice, overwrite}
use irtt.Fbuf.{Field, Fbuf, sum_lens, sum_caps, capacity, move_fields, resize_field, shift_bytes}
use irtt.Fbuf.Layout.{IsLaid, IsLaid-get_elem?}

-- A field that is to appear at index `i`.
abbrev pub IsUnset : List Field → ℕ → Field → Type 0
IsUnset fs i fld = (get_elem? fs i ≡ some fld) × (fld.len ≡ 0)

move_fields-IsLaid : (p q : ℕ) (fs : List Field) → IsLaid q fs → IsLaid p (move_fields zero p fs)
unfolding move_fields
move_fields-IsLaid p q [] h = tt
move_fields-IsLaid p q (f ∷ fs) (e, w, h) = (refl, w, move_fields-IsLaid (p + f.len) _ fs h)

sum_lens-move_fields : (p : ℕ) (fs : List Field) → sum_lens (move_fields zero p fs) ≡ sum_lens fs
unfolding move_fields sum_lens
sum_lens-move_fields p [] = refl
sum_lens-move_fields p (f ∷ fs) = ap (λ n. f.len + n) (sum_lens-move_fields (p + f.len) fs)

sum_caps-move_fields : (p : ℕ) (fs : List Field) → sum_caps (move_fields zero p fs) ≡ sum_caps fs
unfolding move_fields sum_caps
sum_caps-move_fields p [] = refl
sum_caps-move_fields p (f ∷ fs) = ap (λ n. f.cap + n) (sum_caps-move_fields (p + f.len) fs)

-- Fields that stood at `q` stand at `q + (p - q)` after the move.
move_fields-get_elem? :
    (p q c i : ℕ) (fs : List Field) {g : Field}
    → IsLaid q fs
    → p ≡ q + c
    → get_elem? fs i ≡ some g
    → get_elem? (move_fields zero p fs) i ≡ some (record g { pos = g.pos + c })
unfolding move_fields
move_fields-get_elem? p q c i [] h e k = cc
move_fields-get_elem? p q c zero (f ∷ fs) (ef, w, h) e k = ground arith
move_fields-get_elem? p q c (suc i) (f ∷ fs) (ef, w, h) e k =
    move_fields-get_elem? (p + f.len) (q + f.len) c i fs h (omega arith) k

-- What making field `i` whole does to the list of fields.
pub record Grown (p i : ℕ) (fs : List Field) (fld : Field) : Type 0 where
  pub laid : IsLaid p (resize_field i fld.cap fs)
  pub lens : sum_lens (resize_field i fld.cap fs) ≡ sum_lens fs + fld.cap
  pub caps : sum_caps (resize_field i fld.cap fs) ≡ sum_caps fs
  pub self : get_elem? (resize_field i fld.cap fs) i ≡ some (record fld { len = fld.cap })

Grown-first :
    (p : ℕ) (f : Field) (fs : List Field)
    → f.pos ≡ p
    → f.len ≡ 0
    → IsLaid (p + f.len) fs
    → Grown p 0 (f ∷ fs) f
unfolding resize_field move_fields sum_lens sum_caps
Grown-first p f fs e z h = record {
  laid = (
    e,
    inr refl,
    subst (λ t. IsLaid (t + f.cap) (move_fields zero (f.pos + f.cap) fs)) e
        (move_fields-IsLaid (f.pos + f.cap) _ fs h),
  );
  lens = omega (arith, sum_lens-move_fields (f.pos + f.cap) fs);
  caps = omega (arith, sum_caps-move_fields (f.pos + f.cap) fs);
  self = refl;
}

pub resize_field-Grown :
    (p i : ℕ) (fs : List Field) {fld : Field} → IsLaid p fs → IsUnset fs i fld → Grown p i fs fld
unfolding resize_field move_fields sum_lens sum_caps
resize_field-Grown p i [] h u = cc
resize_field-Grown p zero (f ∷ fs) {fld} (ef, w, h) (k, z) =
    let e = some-injective f fld k in
    subst (λ t. Grown p 0 (f ∷ fs) t) e (Grown-first p f fs ef (ap (λ (t : Field). t.len) e ∙ z) h)
resize_field-Grown p (suc i) (f ∷ fs) (ef, w, h) (k, z) =
    let g = resize_field-Grown (p + f.len) i fs h (k, z) in
    record {
      laid = (ef, w, g.laid);
      lens = omega (arith, g.lens);
      caps = omega (arith, g.caps);
      self = g.self;
    }

-- The other fields: those before it stay, those behind it move up by its capacity.
pub resize_field-get_elem? :
    (p i m : ℕ) (fs : List Field) {fld g : Field}
    → IsLaid p fs
    → IsUnset fs i fld
    → get_elem? fs m ≡ some g
    → m ≢ i
    → let at = if ltb m i then g.pos else g.pos + fld.cap in
      (get_elem? (resize_field i fld.cap fs) m ≡ some (record g { pos = at }))
      × (m < i → g.pos + g.len ≤ fld.pos)
      × (i < m → fld.pos ≤ g.pos)
unfolding resize_field move_fields
resize_field-get_elem? p i m [] h u k ne = cc
resize_field-get_elem? p zero zero (f ∷ fs) h u k ne = absurd (ne refl)
resize_field-get_elem? p zero (suc m) (f ∷ fs) {fld} {g} (ef, w, h) u k ne =
    let e = some-injective f fld u.0 in
    let at : f.pos ≡ fld.pos = ap (λ (t : Field). t.pos) e in
    let unset : f.len ≡ 0 = ap (λ (t : Field). t.len) e ∙ u.1 in
    let moved =
      move_fields-get_elem? (f.pos + fld.cap) (p + f.len) fld.cap m fs h (omega arith) k in
    let r = IsLaid-get_elem? (p + f.len) m fs h k in
    (ground (arith, moved), λ l. absurd (omega arith), λ l. omega (arith, r.0))
resize_field-get_elem? p (suc i) zero (f ∷ fs) (ef, w, h) u k ne =
    let r = IsLaid-get_elem? (p + f.len) i fs h u.0 in
    (ground arith, ground (arith, r), ground arith)
resize_field-get_elem? p (suc i) (suc m) (f ∷ fs) (ef, w, h) u k ne =
    let r = resize_field-get_elem? (p + f.len) i m fs h u k (λ e. ne (ap suc e)) in
    (ground (arith, r), λ l. r.1 (omega arith), λ l. r.2 (omega arith))

-- The bytes of a buffer that grows by `c` at `p`.
pub shift_bytes_grow :
    (p c : ℕ) (fb : Fbuf)
    → p ≤ fb.blen
    → fb.blen + c ≤ capacity fb
    → shift_bytes p 0 c fb
      ≡ some (record fb {
        store = overwrite (p + c) (slice p (fb.blen - p) fb.store) fb.store;
        blen = fb.blen + c;
      })
unfolding shift_bytes
shift_bytes_grow p c fb h k = ground arith
