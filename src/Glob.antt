-- ===== src/Glob.antt =====
-- glob.go: patterns in which `*` stands for any text. A Go string is its list of bytes.
use irtt.Prelude.{
  ℕ, suc, Bool, true, false, not, ◌&&◌, ◌||◌, List, [], ◌∷◌, Option, none, some, ◌==◌,
  if◌then◌else◌, length, drop,
}
use irtt.Net.{bytes_equal}

abbrev pub star : ℕ
star = b'*'

-- `strings.Split(pattern, "*")`: the parts between the stars, one at least.
unfoldable pub split : List ℕ → List ℕ × List (List ℕ)
split [] = ([], [])
split (c ∷ cs) =
    let (part, parts) = split cs in if c == star then ([], part ∷ parts) else (c ∷ part, parts)

-- `strings.HasPrefix` and `strings.HasSuffix`
unfoldable pub has_prefix : List ℕ → List ℕ → Bool
has_prefix s [] = true
has_prefix [] (p ∷ ps) = false
has_prefix (c ∷ s) (p ∷ ps) = (c == p) && has_prefix s ps

unfoldable pub has_suffix : List ℕ → List ℕ → Bool
has_suffix [] p = bytes_equal [] p
has_suffix (c ∷ s) p = bytes_equal (c ∷ s) p || has_suffix s p

-- `subj[idx+len(part):]` for the first place `idx` of `part` in `subj`, with that place; `none` is the -1
-- of `strings.Index`.
unfoldable pub find_part : List ℕ → List ℕ → Option (ℕ × List ℕ)
find_part part [] = if bytes_equal part [] then some (0, []) else none
find_part part (c ∷ s) =
    let later : Option (ℕ × List ℕ) = elim (find_part part s) [
      | none ↦ none
      | some (i, rest) ↦ some (suc i, rest)
    ] in
    if has_prefix (c ∷ s) part then some (0, drop (length part) (c ∷ s)) else later

-- The loop from its second round on: every part but the last is found, one behind the other. The last
-- part ends the text, unless the pattern ends with a star.
unfoldable pub match_rest : Bool → List (List ℕ) → List ℕ → Bool
match_rest trailing [] subj = trailing || has_suffix subj []
match_rest trailing (part ∷ []) subj = trailing || has_suffix subj part
match_rest trailing (part ∷ next ∷ parts) subj = elim (find_part part subj) [
  | none ↦ false
  | some (i, rest) ↦ match_rest trailing (next ∷ parts) rest
]

-- The first round: without a leading star the text begins with the first part. With one that part is
-- empty, so it is found at 0.
unfoldable pub match_first : Bool → Bool → List ℕ → List (List ℕ) → List ℕ → Bool
match_first leading trailing part parts subj = elim (find_part part subj) [
  | none ↦ false
  | some (i, rest) ↦ if not leading && not (i == 0) then false else match_rest trailing parts rest
]

unfoldable pub glob : List ℕ → List ℕ → Bool
glob pattern subj =
    let (part, parts) = split pattern in
    if bytes_equal pattern []
    then bytes_equal subj pattern
    else if bytes_equal pattern (star ∷ [])
    then true
    else if length parts == 0
    then bytes_equal subj pattern
    else match_first (has_prefix pattern (star ∷ [])) (has_suffix pattern (star ∷ [])) part parts
        subj

-- `globAny`
unfoldable pub glob_any : List (List ℕ) → List ℕ → Bool
glob_any [] subj = false
glob_any (p ∷ ps) subj = glob p subj || glob_any ps subj
