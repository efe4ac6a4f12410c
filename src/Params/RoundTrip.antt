-- ===== src/Params/RoundTrip.antt =====
-- params.go: parameters that were sent are read back.
use mathlib.Core.Path.{subst}
use mathlib.Core.List.{append_assoc, append-nil}
use irtt.Prelude.{
  ℕ, zero, suc, ◌+◌, ◌≤◌, ◌<◌, ◌≡◌, refl, ap, ◌∙◌, sym, inl, inr, true, List, [], ◌∷◌, ◌++◌, some,
  arith, length, length-append, drop, take, Bool-cases, ==-eq-false, ltb-eq-false, ◌≢◌,
}
use irtt.Prelude.Int.{ℤ, pos, negsuc, pos_part, ◌≤ℤ◌, ltb_ℤ, eqb_ℤ}
use irtt.Prelude.Word.{IsInt64, IsUint64}
use irtt.Prelude.Slice.{take_all}
use irtt.Time.{stamp_at_from_int, clock_from_int}
use irtt.Params.Varint.{
  put_uvarint, put_varint, zigzag, uvarint-put_uvarint, length-put_uvarint, from_zigzag-zigzag,
  zigzag-IsUint64,
}
use irtt.Params.{
  Params, no_params, assign, received_stats_from_int, read_uvarint, read_varint, read_string,
  read_param, parse_loop, parse_params, put_param, put_string, put_server_fill, bytes,
}

drop-length {ℓ} : {A : Type ℓ} (xs ys : List A) → drop (length xs) (xs ++ ys) ≡ ys
drop-length [] ys = refl
drop-length (x ∷ xs) ys = drop-length xs ys

take-length {ℓ} : {A : Type ℓ} (xs ys : List A) → take (length xs) (xs ++ ys) ≡ xs
take-length [] ys = refl
take-length (x ∷ xs) ys = ap (λ t. x ∷ t) (take-length xs ys)

read_uvarint-put_uvarint :
    (w : ℕ) (rest : List ℕ)
    → IsUint64 w
    → read_uvarint (put_uvarint w ++ rest) ≡ inl (w, length (put_uvarint w))
unfolding read_uvarint
read_uvarint-put_uvarint w rest h = rw (uvarint-put_uvarint w rest h, read_uvarint) refl

read_varint-put_varint :
    (v : ℤ) (rest : List ℕ)
    → IsInt64 v
    → read_varint (put_varint v ++ rest) ≡ inl (v, length (put_varint v))
unfolding read_varint put_varint
read_varint-put_varint v rest h =
    rw
      (
        read_uvarint-put_uvarint (zigzag v) rest (zigzag-IsUint64 v),
        from_zigzag-zigzag v h,
        read_varint,
      )
      refl

-- `readParam` and `readString` put together from what they read.
read_param_number :
    (p p' : Params) (b : List ℕ) (t n k : ℕ) (v : ℤ)
    → read_uvarint b ≡ inl (t, n)
    → t < 9
    → read_varint (drop n b) ≡ inl (v, k)
    → assign t v p ≡ inl p'
    → read_param p b ≡ inl (p', n + k)
unfolding read_param
read_param_number p p' b t n k v e ht ev ea =
    rw (e, ==-eq-false t 9 (omega arith), ev, ea, read_param) refl

read_param_fill :
    (p : Params) (b s : List ℕ) (n k : ℕ)
    → read_uvarint b ≡ inl (9, n)
    → read_string (drop n b) 32 ≡ inl (s, k)
    → read_param p b ≡ inl (record p { server_fill = s }, n + k)
unfolding read_param
read_param_fill p b s n k e es = rw (e, es, read_param) refl

read_string_lem :
    (b : List ℕ) (l n : ℕ)
    → read_uvarint b ≡ inl (l, n)
    → l ≤ 32
    → l ≤ length (drop n b)
    → read_string b 32 ≡ inl (take l (drop n b), n + l)
unfolding read_string
read_string_lem b l n e h k =
    rw
      (
        e,
        ltb-eq-false 32 l (omega arith),
        ltb-eq-false (length (drop n b)) l (omega arith),
        read_string,
      )
      refl

-- The bytes of one parameter are read as that parameter.
read_param-put :
    (t : ℕ) (v : ℤ) (p p' : Params) (rest : List ℕ)
    → t < 9
    → IsInt64 v
    → assign t v p ≡ inl p'
    → read_param p ((put_uvarint t ++ put_varint v) ++ rest)
      ≡ inl (p', length (put_uvarint t ++ put_varint v))
read_param-put t v p p' rest ht hv e =
    rw
      (
        append_assoc (put_uvarint t) (put_varint v) rest,
        length-append (put_uvarint t) (put_varint v),
      )
      (read_param_number p p' _ t _ _ v
        (read_uvarint-put_uvarint t (put_varint v ++ rest) (omega arith)) ht
        (ap read_varint (drop-length (put_uvarint t) (put_varint v ++ rest))
          ∙ read_varint-put_varint v rest hv)
        e)

-- `b` parses to `q`, with any fuel that covers it, where `p` has been read so far.
Parses : Params → List ℕ → Params → Type 0
Parses p b q = (fuel : ℕ) → length b ≤ fuel → parse_loop fuel b p ≡ some (inl q)

Parses-step :
    (p p' q : Params) (piece rest : List ℕ)
    → 0 < length piece
    → read_param p (piece ++ rest) ≡ inl (p', length piece)
    → Parses p' rest q
    → Parses p (piece ++ rest) q
unfolding Parses parse_loop
Parses-step p p' q [] rest h e k fuel l = absurd (omega arith)
Parses-step p p' q (c ∷ piece) rest h e k zero l = absurd (omega arith)
Parses-step p p' q (c ∷ piece) rest h e k (suc fuel) l =
    rw (e, drop-length (c ∷ piece) rest, parse_loop)
      (k fuel (omega (arith, length-append piece rest)))

put_pos : (t : ℕ) (v : ℤ) → 0 < length (put_uvarint t ++ put_varint v)
put_pos t v = omega (arith, length-append (put_uvarint t) (put_varint v), length-put_uvarint t)

-- One of the parameters of `bytes`: a zero is not sent, and need not be.
Parses-put_param :
    (t : ℕ) (v : ℤ) (p p' q : Params) (rest : List ℕ)
    → t < 9
    → IsInt64 v
    → (v ≡ pos 0 → p ≡ p')
    → (v ≢ pos 0 → assign t v p ≡ inl p')
    → Parses p' rest q
    → Parses p (put_param t v ++ rest) q
unfolding put_param
Parses-put_param t v p p' q rest ht hv same read k = elim (Bool-cases (eqb_ℤ v (pos 0))) [
  | inl z ↦ rw z (subst (λ r. Parses r rest q) (sym (same (ground arith))) k)
  | inr nz ↦ rw nz (
      Parses-step p p' q (put_uvarint t ++ put_varint v) rest (put_pos t v)
        (read_param-put t v p p' rest ht hv (read (λ e. let n = rw e at nz in cc))) k)
]

read_string-put_string :
    (s : List ℕ)
    → length s ≤ 32
    → read_string (put_string s 32) 32 ≡ inl (s, length (put_string s 32))
unfolding put_string
read_string-put_string s h =
    let size = put_uvarint (length s) in
    let behind = drop-length size s in
    rw
      (
        ltb-eq-false 32 (length s) (omega arith),
        take_all (length s) s (omega arith),
        length-append size s,
      )
      (read_string_lem (size ++ s) (length s) (length size)
          (read_uvarint-put_uvarint (length s) s (omega arith)) h
          (omega (arith, ap (λ (t : List ℕ). length t) behind))
        ∙ ap (λ t. inl (t, length size + length s))
            (ap (take (length s)) behind ∙ take_all (length s) s (omega arith)))

-- The server fill, which is last.
Parses-put_server_fill :
    (s : List ℕ) (p : Params)
    → p.server_fill ≡ []
    → length s ≤ 32
    → Parses p (put_server_fill s) (record p { server_fill = s })
unfolding put_server_fill Parses parse_loop
Parses-put_server_fill [] p e h =
    λ fuel l. ap (λ t. some (inl t)) (λ i. record p { server_fill = e i })
Parses-put_server_fill (c ∷ s) p e h =
    let piece = put_uvarint 9 ++ put_string (c ∷ s) 32 in
    let q = record p { server_fill = c ∷ s } in
    let read : read_param p piece ≡ inl (q, length piece) =
      rw (length-append (put_uvarint 9) (put_string (c ∷ s) 32)) (
        read_param_fill p _ (c ∷ s) _ _ (read_uvarint-put_uvarint 9 _ (omega arith)) (
          ap (λ b. read_string b 32) (drop-length (put_uvarint 9) (put_string (c ∷ s) 32))
          ∙ read_string-put_string (c ∷ s) h)) in
    let some_byte : 0 < length piece =
      omega (arith, length-append (put_uvarint 9) (put_string (c ∷ s) 32), length-put_uvarint 9) in
    rw (append-nil piece) at
      (Parses-step p q q piece [] some_byte (rw (append-nil piece) read) (λ fuel l. refl))

-- What `bytes` can carry: `int64` values, no negative duration or interval, enumerations in range (0
-- where a clock is not asked for), and a server fill of 32 bytes at most, as `ClientConfig.validate`
-- demands.
pub record IsSendable (p : Params) : Type 0 where
  pub protocol_version : IsInt64 p.protocol_version
  pub duration : IsInt64 p.duration
  pub duration_sign : pos 0 ≤ℤ p.duration
  pub interval : IsInt64 p.interval
  pub interval_sign : pos 0 ≤ℤ p.interval
  pub len : IsInt64 p.len
  pub received_stats : p.received_stats ≤ 3
  pub stamp_at : p.stamp_at ≤ 4
  pub clock : p.clock ≤ 3
  pub dscp : IsInt64 p.dscp
  pub server_fill : length p.server_fill ≤ 32

positive : (v : ℤ) → pos 0 ≤ℤ v → v ≢ pos 0 → ltb_ℤ (pos 0) v ≡ true
positive (pos n) h ne = ltb_of n (λ e. ne (ap pos e))
  where
    ltb_of : (n : ℕ) → n ≢ 0 → ltb_ℤ (pos 0) (pos n) ≡ true
    ltb_of n k = ground arith
positive (negsuc n) h ne = absurd (omega arith)

-- What `parseParams` has read when the first parameters are through.
module _ (p : Params) (h : IsSendable p) where
  abbrev q1 : Params
  q1 = record no_params { protocol_version = p.protocol_version }

  abbrev q2 : Params
  q2 = record q1 { duration = p.duration }

  abbrev q3 : Params
  q3 = record q2 { interval = p.interval }

  abbrev q4 : Params
  q4 = record q3 { len = p.len }

  abbrev q5 : Params
  q5 = record q4 { received_stats = p.received_stats }

  abbrev q6 : Params
  q6 = record q5 { stamp_at = p.stamp_at }

  abbrev q7 : Params
  q7 = record q6 { clock = p.clock }

  abbrev q8 : Params
  q8 = record q7 { dscp = p.dscp }

  from_stats :
      Parses q4
        (put_param 5 (pos p.received_stats)
          ++ (put_param 6 (pos p.stamp_at)
              ++ (put_param 7 (pos p.clock)
                  ++ (put_param 8 p.dscp ++ put_server_fill p.server_fill))))
        p
  unfolding assign received_stats_from_int stamp_at_from_int clock_from_int
  from_stats =
      Parses-put_param 5 _ q4 q5 p _ (omega arith) (omega (arith, h.received_stats))
        (λ e i. record q4 { received_stats = sym (ap pos_part e) i })
        (λ ne. ground (arith, h.received_stats))
        (Parses-put_param 6 _ q5 q6 p _ (omega arith) (omega (arith, h.stamp_at))
          (λ e i. record q5 { stamp_at = sym (ap pos_part e) i }) (λ ne. ground (arith, h.stamp_at))
          (Parses-put_param 7 _ q6 q7 p _ (omega arith) (omega (arith, h.clock))
            (λ e i. record q6 { clock = sym (ap pos_part e) i }) (λ ne. ground (arith, h.clock))
            (Parses-put_param 8 _ q7 q8 p _ (omega arith) h.dscp
              (λ e i. record q7 { dscp = sym e i }) (λ ne. refl)
              (Parses-put_server_fill p.server_fill q8 refl h.server_fill))))

  from_start : Parses no_params (bytes p) p
  unfolding bytes assign
  from_start =
      Parses-put_param 1 _ no_params q1 p _ (omega arith) h.protocol_version
        (λ e i. record no_params { protocol_version = sym e i }) (λ ne. refl)
        (Parses-put_param 2 _ q1 q2 p _ (omega arith) h.duration
          (λ e i. record q1 { duration = sym e i })
          (λ ne. rw (positive p.duration h.duration_sign ne) refl)
          (Parses-put_param 3 _ q2 q3 p _ (omega arith) h.interval
            (λ e i. record q2 { interval = sym e i })
            (λ ne. rw (positive p.interval h.interval_sign ne) refl)
            (Parses-put_param 4 _ q3 q4 p _ (omega arith) h.len (λ e i. record q3 { len = sym e i })
              (λ ne. refl) from_stats)))

-- `parseParams` gives back the parameters whose `bytes` it is given, if `bytes` can carry them.
pub parse_params-bytes : (p : Params) → IsSendable p → parse_params (bytes p) ≡ some (inl p)
unfolding parse_params Parses
parse_params-bytes p h = from_start p h (length (bytes p)) (omega arith)
