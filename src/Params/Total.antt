-- ===== src/Params/Total.antt =====
-- `parseParams` of params.go ends on every input, and what it accepts is in range.
use irtt.Prelude.{
  ℕ, zero, suc, ◌≤◌, ◌<◌, ◌≡◌, ◌≢◌, inl, inr, List, [], ◌∷◌, none, some, arith, ◌==◌, length, drop,
  length-drop, length-take, Bool-cases, Sum-cases,
}
use mathlib.Core.Path.{subst}
use irtt.Prelude.Int.{ℤ, pos, negsuc, ◌≤ℤ◌}
use irtt.Time.{stamp_at_from_int, clock_from_int}
use irtt.Params.Varint.{uvarint_count}
use irtt.Params.{
  Params, no_params, assign, received_stats_from_int, read_uvarint, read_varint, read_string,
  read_param, parse_loop, parse_params,
}

read_uvarint_count : (b : List ℕ) (v n : ℕ) → read_uvarint b ≡ inl (v, n) → (0 < n) × (n ≤ length b)
unfolding read_uvarint
read_uvarint_count b v n e = ground (arith, uvarint_count b v n)

-- A successful `readParam` takes a byte at least.
read_param_count : (p p' : Params) (b : List ℕ) (n : ℕ) → read_param p b ≡ inl (p', n) → 0 < n
unfolding read_param
read_param_count p p' b n e = elim (Sum-cases (read_uvarint b)) [
  | inl ((t, k), q) ↦
      let first = read_uvarint_count b t k q in let e' = rw (q, read_param) at e in ground arith
  | inr (c, q) ↦ let e' = rw (q, read_param) at e in cc
]

parse_loop-ne-none :
    (fuel : ℕ) (b : List ℕ) (p : Params) → length b ≤ fuel → parse_loop fuel b p ≢ none
unfolding parse_loop
parse_loop-ne-none fuel [] p h = λ e. cc
parse_loop-ne-none zero (c ∷ b) p h = absurd (omega arith)
parse_loop-ne-none (suc fuel) (c ∷ b) p h = elim (Sum-cases (read_param p (c ∷ b))) [
  | inl ((p', n), q) ↦
      let shorter = read_param_count p p' (c ∷ b) n q in
      rw (q, parse_loop)
        (parse_loop-ne-none fuel (drop n (c ∷ b)) p' (omega (arith, length-drop n (c ∷ b))))
  | inr (x, q) ↦ rw (q, parse_loop) (λ e. cc)
]

-- `parseParams` ends on every input: its loop never runs out of fuel.
pub parse_params-ne-none : (b : List ℕ) → parse_params b ≢ none
unfolding parse_params
parse_params-ne-none b = parse_loop-ne-none (length b) b no_params (omega arith)

-- What the checks of `readParam` leave: no negative duration or interval, and enumerations in range.
pub record IsChecked (p : Params) : Type 0 where
  pub duration : pos 0 ≤ℤ p.duration
  pub interval : pos 0 ≤ℤ p.interval
  pub received_stats : p.received_stats ≤ 3
  pub stamp_at : p.stamp_at ≤ 4
  pub clock : p.clock ≤ 3
  pub server_fill : length p.server_fill ≤ 32

assign-IsChecked :
    (t : ℕ) (v : ℤ) (p p' : Params) → IsChecked p → assign t v p ≡ inl p' → IsChecked p'
unfolding assign received_stats_from_int stamp_at_from_int clock_from_int
assign-IsChecked t (pos n) p p' h e = ground arith
assign-IsChecked t (negsuc n) p p' h e = ground arith

read_string_size : (b s : List ℕ) (m n : ℕ) → read_string b m ≡ inl (s, n) → length s ≤ m
unfolding read_string
read_string_size b s m n e = elim (Sum-cases (read_uvarint b)) [
  | inl ((l, k), q) ↦ let e' = rw (q, read_string) at e in ground (arith, length-take l (drop k b))
  | inr (c, q) ↦ let e' = rw (q, read_string) at e in cc
]

read_param-IsChecked :
    (p p' : Params) (b : List ℕ) (n : ℕ) → IsChecked p → read_param p b ≡ inl (p', n) → IsChecked p'
unfolding read_param
read_param-IsChecked p p' b n h e = elim (Sum-cases (read_uvarint b)) [
  | inl ((t, k), q) ↦ elim (Bool-cases (t == 9)) [
    | inl fill ↦ elim (Sum-cases (read_string (drop k b) 32)) [
      | inl ((s, j), r) ↦
          let e' = rw (q, fill, r, read_param) at e in
          ground (arith, read_string_size (drop k b) s 32 j r)
      | inr (c, r) ↦ let e' = rw (q, fill, r, read_param) at e in cc
    ]
    | inr other ↦ elim (Sum-cases (read_varint (drop k b))) [
      | inl ((v, j), r) ↦ elim (Sum-cases (assign t v p)) [
        | inl (p'', a) ↦
            let e' = rw (q, other, r, a, read_param) at e in
            let same : p'' ≡ p' = cc in subst IsChecked same (assign-IsChecked t v p p'' h a)
        | inr (c, a) ↦ let e' = rw (q, other, r, a, read_param) at e in cc
      ]
      | inr (c, r) ↦ let e' = rw (q, other, r, read_param) at e in cc
    ]
  ]
  | inr (c, q) ↦ let e' = rw (q, read_param) at e in cc
]

parse_loop-IsChecked :
    (fuel : ℕ) (b : List ℕ) (p p' : Params)
    → IsChecked p
    → parse_loop fuel b p ≡ some (inl p')
    → IsChecked p'
unfolding parse_loop
parse_loop-IsChecked fuel [] p p' h e = subst IsChecked (cc) h
parse_loop-IsChecked zero (c ∷ b) p p' h e = cc
parse_loop-IsChecked (suc fuel) (c ∷ b) p p' h e = elim (Sum-cases (read_param p (c ∷ b))) [
  | inl ((p'', n), q) ↦
      parse_loop-IsChecked fuel (drop n (c ∷ b)) p'' p' (read_param-IsChecked p p'' (c ∷ b) n h q)
        (rw (q, parse_loop) at e)
  | inr (x, q) ↦ let e' = rw (q, parse_loop) at e in cc
]

-- Parameters that `parseParams` accepts, from whatever bytes, have no negative duration or interval, their
-- enumerations in range, and a server fill of at most 32 bytes.
pub parse_params-IsChecked : (b : List ℕ) (p : Params) → parse_params b ≡ some (inl p) → IsChecked p
unfolding parse_params
parse_params-IsChecked b p e = parse_loop-IsChecked (length b) b no_params p (omega arith) e
