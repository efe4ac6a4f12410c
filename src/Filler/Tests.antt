-- ===== src/Filler/Tests.antt =====
-- The theorems on the fillers at concrete patterns.
use irtt.Prelude.{ℕ, ◌≡◌, refl, arith, List, [], ◌∷◌, none, some}
use irtt.Filler.{
  PatternFiller, new_pattern_filler, buf_len, new_filler, make_pattern, until_colon, after_colon,
}
use irtt.Net.{bytes_equal}
use irtt.Filler.Repeat.{repeated}
use irtt.Filler.Pattern.{reads, total, reads-repeated}

abbrev abc : List ℕ
abc = 97 ∷ 98 ∷ 99 ∷ []

repeated-abc : repeated abc 0 7 ≡ 97 ∷ 98 ∷ 99 ∷ 97 ∷ 98 ∷ 99 ∷ 97 ∷ []
unfolding repeated
repeated-abc = refl

-- Reads of four and of three bytes.
reads-repeated_example :
    (f : PatternFiller) × (new_pattern_filler abc ≡ some f)
    × (reads (4 ∷ 3 ∷ []) f ≡ some (repeated abc 0 (total (4 ∷ 3 ∷ []))))
reads-repeated_example = reads-repeated abc (4 ∷ 3 ∷ []) (omega arith)

-- An empty pattern divides by zero, and "pattern:" asks for one.
new_pattern_filler_panics : new_pattern_filler [] ≡ none
unfolding new_pattern_filler buf_len
new_pattern_filler_panics = refl

new_filler_panics :
    new_filler (λ s. some []) (112 ∷ 97 ∷ 116 ∷ 116 ∷ 101 ∷ 114 ∷ 110 ∷ 58 ∷ []) ≡ none
unfolding new_filler make_pattern until_colon after_colon new_pattern_filler buf_len bytes_equal
new_filler_panics = refl
