-- ===== src/Filler.antt =====
-- filler.go: what fills the payload of a packet. Texts are lists of bytes. The decoder of encoding/hex is a
-- parameter, and so are the bytes of math/rand. `none` is a panic; the fuel of the loops is enough.
pub mod Repeat
pub mod Pattern
pub mod Payload
mod Tests
use irtt.Prelude.{
  ℕ, zero, suc, ◌+◌, ◌-◌, ◌*◌, ◌/◌, ◌%◌, Bool, true, false, List, [], ◌∷◌, ◌++◌, Option, none, some,
  ◌==◌, ltb, leb, if◌then◌else◌, ◌>>=◌, ◌>>◌, guard, length, take, drop, replicate,
}
use irtt.Prelude.Slice.{write_front}
use irtt.Code.{Code, no_such_filler}
use irtt.Net.{bytes_equal}

-- `DefaultFillPattern` and `patternMaxInitLen` of defaults.go
abbrev pub default_fill_pattern : List ℕ
default_fill_pattern = 105 ∷ 114 ∷ 116 ∷ 116 ∷ []

abbrev pub pattern_max_init_len : ℕ
pattern_max_init_len = 4096

-- `PatternFiller`
pub record PatternFiller : Type 0 where
  pub bytes : List ℕ
  pub buf : List ℕ
  pub pos : ℕ

-- The loop of `NewPatternFiller` on what is left of the buffer, `buf[i:]`.
unfoldable pub fill_loop : ℕ → List ℕ → List ℕ → Option (List ℕ)
fill_loop fuel bytes [] = some []
fill_loop zero bytes (x ∷ buf) = none
fill_loop (suc fuel) bytes (x ∷ buf) = do
  let copied = write_front bytes (x ∷ buf)
  rest ← fill_loop fuel bytes (drop (length bytes) copied)
  some (take (length bytes) copied ++ rest)

-- Its length: it divides by the pattern's, unless that is large.
unfoldable pub buf_len : List ℕ → Option ℕ
buf_len bytes =
    if ltb pattern_max_init_len (length bytes)
    then some (length bytes)
    else (guard (ltb 0 (length bytes))
        >> some (pattern_max_init_len / length bytes * (length bytes + 1)))

-- `NewPatternFiller`
unfoldable pub new_pattern_filler : List ℕ → Option PatternFiller
new_pattern_filler bytes = do
  blen ← buf_len bytes
  buf ← fill_loop blen bytes (replicate blen 0)
  some (record { bytes = bytes; buf = buf; pos = 0 })

-- The loop of `PatternFiller.Read`, for the `n` bytes that are left: what it writes to them, and the filler.
unfoldable pub read_loop : ℕ → ℕ → PatternFiller → Option (List ℕ × PatternFiller)
read_loop fuel zero f = some ([], f)
read_loop zero (suc n) f = none
read_loop (suc fuel) (suc n) f = do
  guard (leb f.pos (length f.buf))
  guard (ltb 0 (length f.bytes))
  let copied = take (suc n) (drop f.pos f.buf)
  let c = length copied
  (rest, f') ← read_loop fuel (suc n - c) (record f { pos = (f.pos + c) % length f.bytes })
  some (copied ++ rest, f')

-- `PatternFiller.Read` of `n` bytes
unfoldable pub read : ℕ → PatternFiller → Option (List ℕ × PatternFiller)
read n f = read_loop n n f

-- A `Filler`. A `RandFiller` has no state of this code's own.
pub data Filler : Type 0 where
  rand_filler : Filler
  pattern_filler : PatternFiller → Filler

-- What `NewFiller` returns: a filler or nil, an error of its own, or one of the decoder.
pub data Made : Type 0 where
  no_filler : Made
  made : Filler → Made
  failed : Code → Made
  undecoded : Made

-- The first two parts of `strings.Split(s, ":")`, if there are two.
unfoldable pub until_colon : List ℕ → List ℕ
until_colon [] = []
until_colon (c ∷ s) = let rest = until_colon s in if c == 58 then [] else (c ∷ rest)

unfoldable pub after_colon : List ℕ → Option (List ℕ)
after_colon [] = none
after_colon (c ∷ s) = let rest = after_colon s in if c == 58 then some s else rest

-- "none", "rand" and "pattern"
abbrev none_text : List ℕ
none_text = 110 ∷ 111 ∷ 110 ∷ 101 ∷ []

abbrev rand_text : List ℕ
rand_text = 114 ∷ 97 ∷ 110 ∷ 100 ∷ []

abbrev pattern_text : List ℕ
pattern_text = 112 ∷ 97 ∷ 116 ∷ 116 ∷ 101 ∷ 114 ∷ 110 ∷ []

module _ (decode : List ℕ → Option (List ℕ)) where
  -- The second registered factory
  unfoldable pub make_pattern : List ℕ → Option Made
  make_pattern s = elim (after_colon s) [
    | none ↦ (do f ← new_pattern_filler default_fill_pattern; some (made (pattern_filler f)))
    | some rest ↦ elim (decode (until_colon rest)) [
      | none ↦ some undecoded
      | some b ↦ (do f ← new_pattern_filler b; some (made (pattern_filler f)))
    ]
  ]

  -- `NewFiller` with the two factories that `init` registers
  unfoldable pub new_filler : List ℕ → Option Made
  new_filler s =
      if bytes_equal s none_text
      then some no_filler
      else if bytes_equal s rand_text
      then some (made rand_filler)
      else if bytes_equal (until_colon s) pattern_text
      then make_pattern s
      else some (failed no_such_filler)
