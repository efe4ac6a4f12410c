-- ===== src/Filler/Pattern.antt =====
-- filler.go: what a `PatternFiller` writes, over any sequence of reads.
use native.Mathlib.Nat.{
  mod-add-mod, mod-eq_of_lt, mod_self, mod-lt, mod-mod, mod-add-div, mul-zero, suc-mul,
}
use mathlib.Core.List.{append-nil}
use irtt.Prelude.{
  ℕ, zero, suc, ◌+◌, ◌-◌, ◌*◌, ◌/◌, ◌%◌, ◌<◌, ◌≤◌, ◌≡◌, refl, ap, ◌∙◌, sym, false, List, [], ◌∷◌,
  ◌++◌, Option, some, arith, ltb, min, ◌>>=◌, length, take, drop, replicate, length-replicate,
  leb-eq-true, lt→ltb, Bool-cases, inl, inr, ltb→lt, length-drop,
}
use irtt.Prelude.Slice.{write_front}
use irtt.Filler.Repeat.{
  repeated, length-repeated, repeated-add, drop-repeated, take-repeated, repeated-start,
  repeated_within, take-write_front_all, drop-write_front_all, take_min,
}
use irtt.Filler.{
  PatternFiller, fill_loop, buf_len, new_pattern_filler, read_loop, read, pattern_max_init_len,
}

at_most : (n l : ℕ) → ltb l n ≡ false → n ≤ l
at_most n l e = ground arith

module _ (bytes : List ℕ) (pattern : 0 < length bytes) where
  take-repeated_start : (n : ℕ) → take n bytes ≡ repeated bytes 0 (min n (length bytes))
  take-repeated_start n =
      take_min n bytes ∙ sym (repeated_within bytes 0 (min n (length bytes)) (omega arith))

  -- One turn of the loop, and the rest of it.
  pieces : (n : ℕ) → take n bytes ++ repeated bytes 0 (n - length bytes) ≡ repeated bytes 0 n
  unfolding repeated
  pieces n = ap (λ r. r ++ repeated bytes 0 (n - length bytes)) (take-repeated_start n) ∙ joined n
    where
      joined :
          (n : ℕ)
          → repeated bytes 0 (min n (length bytes)) ++ repeated bytes 0 (n - length bytes)
            ≡ repeated bytes 0 n
      joined n = elim (Bool-cases (ltb (length bytes) n)) [
        | inl l ↦
            let l' : length bytes < n = ltb→lt _ _ l in
            let q : min n (length bytes) ≡ length bytes = omega arith in
            let whole : n ≡ length bytes + (n - length bytes) = omega arith in
            let z : 0 + length bytes ≡ length bytes = omega arith in
            rw q (
              ap (λ r. repeated bytes 0 (length bytes) ++ r)
                (repeated-start bytes 0 (0 + length bytes) (n - length bytes) (
                  mod-eq_of_lt pattern
                  ∙ (sym (mod_self (length bytes)) ∙ ap (λ m. m % length bytes) (sym z))))
              ∙ (sym (repeated-add bytes 0 (length bytes) (n - length bytes))
                  ∙ ap (repeated bytes 0) (sym whole)))
        | inr l ↦
            let le : n ≤ length bytes = at_most n (length bytes) l in
            let q : min n (length bytes) ≡ n = omega arith in
            let z : n - length bytes ≡ 0 = omega arith in
            rw (q, z) (append-nil (repeated bytes 0 n))
      ]

  fill_loop-repeated :
      (fuel : ℕ) (xs : List ℕ)
      → length xs ≤ fuel
      → fill_loop fuel bytes xs ≡ some (repeated bytes 0 (length xs))
  unfolding fill_loop repeated
  fill_loop-repeated zero [] h = refl
  fill_loop-repeated (suc fuel) [] h = refl
  fill_loop-repeated zero (x ∷ xs) h = absurd (omega arith)
  fill_loop-repeated (suc fuel) (x ∷ xs) h =
      let left = drop (length bytes) (write_front bytes (x ∷ xs)) in
      let size : length left ≡ suc (length xs) - length bytes =
        ap length (drop-write_front_all bytes (x ∷ xs)) ∙ length-drop (length bytes) (x ∷ xs) in
      rw
        (
          fill_loop-repeated fuel left (omega (arith, size)),
          size,
          take-write_front_all bytes (x ∷ xs),
        )
        (ap some (pieces (suc (length xs))))

-- A filler whose buffer holds its pattern, repeated, and whose position is in the first of them.
record IsFilling (f : PatternFiller) : Type 0 where
  size : length f.bytes ≤ length f.buf
  full : f.buf ≡ repeated f.bytes 0 (length f.buf)
  within : f.pos < length f.bytes

module _ (f : PatternFiller) (g : IsFilling f) (n : ℕ) where
  abbrev copied : List ℕ
  copied = take (suc n) (drop f.pos f.buf)

  abbrev count : ℕ
  count = min (suc n) (length f.buf - f.pos)

  copied_lem : copied ≡ repeated f.bytes f.pos count
  copied_lem =
      ap (λ b. take (suc n) (drop f.pos b)) g.full
      ∙ (ap (take (suc n)) (drop-repeated f.bytes f.pos 0 (length f.buf))
          ∙ (take-repeated f.bytes (suc n) (0 + f.pos) (length f.buf - f.pos)
              ∙ ap (λ t. repeated f.bytes t count) start))
    where
      start : 0 + f.pos ≡ f.pos
      start = omega arith

  length-copied : length copied ≡ count
  length-copied = ap length copied_lem ∙ length-repeated f.bytes f.pos count

  abbrev advanced : PatternFiller
  advanced = record f { pos = (f.pos + count) % length f.bytes }

  advanced-IsFilling : IsFilling advanced
  advanced-IsFilling = record {
    size = g.size;
    full = g.full;
    within = mod-lt (f.pos + count) (omega (arith, g.within));
  }

  rest_lem :
      repeated f.bytes f.pos count ++ repeated f.bytes advanced.pos (suc n - count)
      ≡ repeated f.bytes f.pos (suc n)
  rest_lem =
      ap (λ r. repeated f.bytes f.pos count ++ r)
        (repeated-start f.bytes advanced.pos (f.pos + count) (suc n - count)
          (mod-mod (f.pos + count) (length f.bytes)))
      ∙ (sym (repeated-add f.bytes f.pos count (suc n - count)) ∙ ap (repeated f.bytes f.pos) whole)
    where
      whole : count + (suc n - count) ≡ suc n
      whole = omega arith

  pos_lem : (advanced.pos + (suc n - count)) % length f.bytes ≡ (f.pos + suc n) % length f.bytes
  pos_lem =
      mod-add-mod (f.pos + count) (length f.bytes) (suc n - count)
      ∙ ap (λ t. t % length f.bytes) whole
    where
      whole : f.pos + count + (suc n - count) ≡ f.pos + suc n
      whole = omega arith

abbrev after : ℕ → PatternFiller → PatternFiller
after n f = record f { pos = (f.pos + n) % length f.bytes }

none_read : (f : PatternFiller) → IsFilling f → (f.pos + 0) % length f.bytes ≡ f.pos
none_read f g = let z : f.pos + 0 ≡ f.pos = omega arith in rw z (mod-eq_of_lt g.within)

read_loop_lem :
    (fuel n : ℕ) (f : PatternFiller)
    → IsFilling f
    → n ≤ fuel
    → read_loop fuel n f ≡ some (repeated f.bytes f.pos n, after n f)
unfolding read_loop repeated
read_loop_lem fuel zero f g h =
    let q : (f.pos + 0) % length f.bytes ≡ f.pos = none_read f g in rw q refl
read_loop_lem zero (suc n) f g h = absurd (omega arith)
read_loop_lem (suc fuel) (suc n) f g h =
    rw
      (
        leb-eq-true f.pos (length f.buf) (omega (arith, g.within, g.size)),
        lt→ltb 0 (length f.bytes) (omega (arith, g.within)),
        length-copied f g n,
        copied_lem f g n,
        read_loop_lem fuel (suc n - count f g n) (advanced f g n) (advanced-IsFilling f g n)
            (omega (arith, g.within, g.size)),
      )
      (rw (rest_lem f g n, pos_lem f g n) refl)

-- Reads of several lengths, one after the other: all that they write.
unfoldable pub reads : List ℕ → PatternFiller → Option (List ℕ)
reads [] f = some []
reads (n ∷ ns) f = do (out, f') ← read n f; rest ← reads ns f'; some (out ++ rest)

unfoldable pub total : List ℕ → ℕ
total [] = 0
total (n ∷ ns) = n + total ns

after-IsFilling : (n : ℕ) (f : PatternFiller) → IsFilling f → IsFilling (after n f)
after-IsFilling n f g = record {
  size = g.size;
  full = g.full;
  within = mod-lt (f.pos + n) (omega (arith, g.within));
}

reads_lem :
    (ns : List ℕ) (f : PatternFiller)
    → IsFilling f
    → reads ns f ≡ some (repeated f.bytes f.pos (total ns))
unfolding reads read total repeated
reads_lem [] f g = refl
reads_lem (n ∷ ns) f g =
    rw (read_loop_lem n n f g (omega arith), reads_lem ns (after n f) (after-IsFilling n f g))
      (ap some (
        ap (λ r. repeated f.bytes f.pos n ++ r)
          (repeated-start f.bytes (after n f).pos (f.pos + n) (total ns)
            (mod-mod (f.pos + n) (length f.bytes)))
        ∙ sym (repeated-add f.bytes f.pos n (total ns))))

-- The buffer is no shorter than the pattern.
long_enough : (l : ℕ) → 0 < l → l ≤ 4096 → l ≤ 4096 / l * (l + 1)
long_enough l h k = go (4096 / l) refl
  where
    go : (q : ℕ) → 4096 / l ≡ q → l ≤ q * (l + 1)
    go zero e =
        absurd (omega (arith, mod-add-div 4096 l, ap (λ t. l * t) e, mul-zero l, mod-lt 4096 h))
    go (suc q) e = omega (arith, suc-mul q (l + 1))

buf_len_lem :
    (bytes : List ℕ)
    → 0 < length bytes
    → (blen : ℕ) × (buf_len bytes ≡ some blen) × (length bytes ≤ blen)
unfolding buf_len
buf_len_lem bytes h = elim (Bool-cases (ltb pattern_max_init_len (length bytes))) [
  | inl e ↦ (length bytes, rw e refl, omega arith)
  | inr e ↦ (
    _,
    rw (e, lt→ltb 0 (length bytes) h) refl,
    long_enough (length bytes) h (at_most (length bytes) 4096 e),
  )
]

-- A filler made for a pattern of at least one byte writes, over any reads of any lengths, the pattern again and
-- again: what the reads write, one after the other, is the repeated pattern from its start. None of them
-- panics or runs on.
pub reads-repeated :
    (bytes ns : List ℕ)
    → 0 < length bytes
    → (f : PatternFiller) × (new_pattern_filler bytes ≡ some f)
      × (reads ns f ≡ some (repeated bytes 0 (total ns)))
unfolding new_pattern_filler
reads-repeated bytes ns h =
    let (blen, e, le) = buf_len_lem bytes h in
    let f : PatternFiller = record { bytes = bytes; buf = repeated bytes 0 blen; pos = 0 } in
    let size : length {A = ℕ} (replicate blen 0) ≡ blen = length-replicate blen 0 in
    let size' : length f.buf ≡ blen = length-repeated bytes 0 blen in
    (
      f,
      rw (e, fill_loop-repeated bytes h blen (replicate blen 0) (omega (arith, size)), size) refl,
      reads_lem ns f (record {
        size = omega (arith, size');
        full = ap (repeated bytes 0) (sym size');
        within = h;
      }),
    )
