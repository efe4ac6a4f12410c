-- ===== src/Fbuf/Tests.antt =====
-- Runs of the buffer, and the theorems at concrete buffers.
use irtt.Prelude.{
  ℕ, ◌-◌, ◌≡◌, refl, inl, inr, true, false, List, [], ◌∷◌, none, some, arith, get_elem?,
  if◌then◌else◌,
}
use irtt.Prelude.Int.{pos}
use irtt.Prelude.Slice.{slice}
use irtt.Fbuf.{
  Field, Fbuf, capacity, get, set, set_fields, add_fields, write_to, remove, sum_lens, sum_caps,
  add_loop, finish_fields, validate, set_field_len, resize_field, move_fields, shift_bytes,
  reset_to_target, isset, set_len,
}
use irtt.Fbuf.Layout.{IsValid, contains, HasLen}
use irtt.Fbuf.Sets.{set_fields_lem, add_fields_lem, add_fields-IsValid}
use irtt.Fbuf.Write.{IsWritable, get-set, get-set_ne, write_to_panics}
use irtt.Fbuf.Removal.{remove_panics, remove-clobbers}

abbrev at : ℕ → ℕ → ℕ → Field
at p l c = record { pos = p; len = l; cap = c }

-- Fields of 2, 3 and 1 bytes, of which the second is not there, and room for seven more bytes.
abbrev three : Fbuf
three = record {
  store = 1 ∷ 2 ∷ 7 ∷ 0 ∷ 0 ∷ 0 ∷ 0 ∷ 0 ∷ 0 ∷ 0 ∷ [];
  blen = 3;
  fields = at 0 2 2 ∷ at 2 0 3 ∷ at 2 1 1 ∷ [];
  tlen = pos 0;
}

three-IsValid : IsValid three
unfolding sum_lens sum_caps
three-IsValid = record {
  laid = (refl, inr refl, (refl, inl refl, (refl, inr refl, tt)));
  fits = omega arith;
  shown = omega arith;
  room = omega arith;
}

one_room : IsWritable three (at 2 0 3)
one_room = inr (record { for_field = omega arith; for_target = omega arith })

abbrev value : List ℕ
value = 4 ∷ 5 ∷ 6 ∷ []

get-set_example :
    (fb' : Fbuf) × (set 1 value three ≡ some fb')
    × IsValid fb'
    × (capacity fb' ≡ capacity three)
    × (get 1 fb' ≡ some value)
get-set_example = get-set three 1 value three-IsValid refl one_room refl

get-set_ne_example : (fb' : Fbuf) × (set 1 value three ≡ some fb') × (get 2 fb' ≡ some (7 ∷ []))
unfolding get
get-set_ne_example =
    get-set_ne three 1 2 value (7 ∷ []) three-IsValid refl one_room refl (λ e. omega arith) refl

set_fields_lem_example :
    HasLen
      (at 2 1 1)
      (get_elem? (set_fields (0 ∷ 2 ∷ []) true three).0.fields 2)
      (if contains (0 ∷ 2 ∷ []) 2 then 1 else 0)
set_fields_lem_example =
    set_fields_lem (0 ∷ 2 ∷ []) true three 2 (omega arith, (omega arith, tt)) refl

add_fields_lem_example :
    HasLen
      (at 2 0 3)
      (get_elem? (add_fields (1 ∷ []) true three).0.fields 1)
      (if contains (1 ∷ []) 1 then 3 else 0)
add_fields_lem_example = add_fields_lem (1 ∷ []) true three 1 (omega arith, tt) refl

add_fields-IsValid_example : IsValid (add_fields (2 ∷ []) false three).0
unfolding add_fields add_loop finish_fields validate sum_lens sum_caps
add_fields-IsValid_example = add_fields-IsValid (2 ∷ []) three three-IsValid refl

-- The same with no more than the three bytes.
abbrev tight : Fbuf
tight = record three { store = 1 ∷ 2 ∷ 7 ∷ [] }

write_to_panics_example : write_to 1 value tight ≡ none
write_to_panics_example =
    write_to_panics tight 1 value (refl, refl) (λ e. omega arith) (omega arith)

remove_panics_example : remove 0 three ≡ none
remove_panics_example = remove_panics three 0 (refl, omega arith) (omega arith)

-- Two fields of two bytes, and two bytes behind them; and what `remove` makes of it.
abbrev pair : Fbuf
pair = record {
  store = 1 ∷ 2 ∷ 3 ∷ 4 ∷ 5 ∷ 6 ∷ [];
  blen = 6;
  fields = at 0 2 2 ∷ at 2 2 2 ∷ [];
  tlen = pos 0;
}

abbrev clobbered : Fbuf
clobbered = record {
  store = 3 ∷ 4 ∷ 3 ∷ 4 ∷ 5 ∷ 6 ∷ [];
  blen = 4;
  fields = at 0 2 2 ∷ at 2 0 2 ∷ [];
  tlen = pos 0;
}

pair-IsValid : IsValid pair
unfolding sum_lens sum_caps
pair-IsValid = record {
  laid = (refl, inr refl, (refl, inr refl, tt));
  fits = omega arith;
  shown = omega arith;
  room = omega arith;
}

remove-pair : remove 1 pair ≡ some clobbered
unfolding remove set_field_len resize_field move_fields shift_bytes reset_to_target isset set_len
    sum_lens
remove-pair = refl

remove-clobbers_example : slice (2 - 2) 2 clobbered.store ≡ slice 2 2 pair.store
remove-clobbers_example =
    remove-clobbers pair clobbered 1 pair-IsValid (refl, omega arith) (omega arith) (omega arith)
      remove-pair
