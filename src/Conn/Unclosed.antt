-- ===== src/Conn/Unclosed.antt =====
-- conn.go: `cconn.open` does not say that the server has closed the connection.
use mathlib.Core.Option.{some-injective, none-ne-some}
use mathlib.Core.Path.{subst}
use irtt.Prelude.{
  ℕ, zero, suc, ◌≡◌, refl, ap, ◌∙◌, sym, Bool, true, false, not, List, [], ◌∷◌, Option, none, some,
  ◌⊎◌, inl, inr, ◌==◌, ltb, ◌||◌, drop, length, if◌then◌else◌, bind-inv, Bool-cases, Option-cases,
  Sum-cases,
}
use irtt.Prelude.Int.{ℤ, pos, negsuc, ltb_ℤ}
use irtt.Code.{Code, short_param_buffer, param_overflow}
use irtt.Time.{has, in_range, stamp_at_from_int, clock_from_int}
use irtt.Params.{
  Params, read_uvarint, read_varint, read_string, received_stats_from_int, assign, read_param,
  parse_loop, parse_params, no_params,
}
use irtt.Params.Varint.{Uvarint, value, too_short, too_long, uvarint}
use irtt.Fbuf
use irtt.Fbuf.{Fbuf, capacity, sum_lens, sum_caps}
use irtt.Packet.{Mac, Packet, flags, fl_open, ctoken, add_fields, fopen_reply}
use irtt.Conn.{Failure, coded, Arrival, creceive}
use irtt.Conn.Opening.{
  is_server_closed, Opening, unopened, opened, read_error, lacks_token, take_params, read_opening,
  open_reply_fields, read_open_reply, read_replies,
}

-- A result that is not the error for a closed connection
Kept : {A : Type 0} → A ⊎ Code → Type 0
Kept (inl a) = true ≡ true
Kept (inr e) = is_server_closed (coded e) ≡ false

Kept-if : {A : Type 0} (b : Bool) (r s : A ⊎ Code) → Kept r → Kept s → Kept (if b then r else s)
Kept-if true r s h k = h
Kept-if false r s h k = k

Kept-then :
    {A B : Type 0} (r : A ⊎ Code) (g : A → B ⊎ Code)
    → Kept r
    → ((a : A) → Kept (g a))
    → Kept (elim r [ inl a ↦ g a | inr e ↦ inr e ])
unfolding Kept
Kept-then (inl a) g h k = k a
Kept-then (inr e) g h k = h

read_uvarint-Kept : (b : List ℕ) → Kept (read_uvarint b)
unfolding Kept read_uvarint is_server_closed
read_uvarint-Kept b = read (uvarint b)
  where
    read :
        (u : Uvarint)
        → Kept {A = ℕ × ℕ} (elim u [
          | value v n ↦ inl (v, n)
          | too_short ↦ inr short_param_buffer
          | too_long ↦ inr param_overflow
        ])
    read (value v n) = refl
    read too_short = refl
    read too_long = refl

read_varint-Kept : (b : List ℕ) → Kept (read_varint b)
unfolding Kept read_varint
read_varint-Kept b = Kept-then (read_uvarint b) _ (read_uvarint-Kept b) (λ _. refl)

read_string-Kept : (b : List ℕ) (m : ℕ) → Kept (read_string b m)
unfolding Kept read_string is_server_closed
read_string-Kept b m =
    Kept-then (read_uvarint b) _ (read_uvarint-Kept b)
      (λ (l, n). Kept-if (ltb m l) _ _ refl (Kept-if (ltb (length (drop n b)) l) _ _ refl refl))

in_range-Kept :
    (lo hi : ℕ) (e : Code) (v : ℤ) → is_server_closed (coded e) ≡ false → Kept (in_range lo hi e v)
unfolding Kept
in_range-Kept lo hi e (pos n) k = Kept-if (ltb n lo || ltb hi n) _ _ k refl
in_range-Kept lo hi e (negsuc n) k = k

assign-Kept : (t : ℕ) (v : ℤ) (p : Params) → Kept (assign t v p)
unfolding Kept assign received_stats_from_int stamp_at_from_int clock_from_int is_server_closed
assign-Kept t v p = Kept-if (t == 1) _ _ refl (
    Kept-if (t == 2) _ _ (Kept-if (ltb_ℤ (pos 0) v) _ _ refl refl) (
      Kept-if (t == 3) _ _ (Kept-if (ltb_ℤ (pos 0) v) _ _ refl refl) (
        Kept-if (t == 4) _ _ refl (
          Kept-if (t == 5) _ _
            (Kept-then (received_stats_from_int v) _ (in_range-Kept _ _ _ v refl) (λ _. refl))
            (Kept-if (t == 6) _ _
              (Kept-then (stamp_at_from_int v) _ (in_range-Kept _ _ _ v refl) (λ _. refl))
              (Kept-if (t == 7) _ _
                (Kept-then (clock_from_int v) _ (in_range-Kept _ _ _ v refl) (λ _. refl))
                (Kept-if (t == 8) _ _ refl refl)))))))

read_param-Kept : (p : Params) (b : List ℕ) → Kept (read_param p b)
unfolding Kept read_param
read_param-Kept p b = Kept-then (read_uvarint b) _ (read_uvarint-Kept b) (λ (t, n).
    Kept-if (t == 9) _ _
      (Kept-then (read_string (drop n b) 32) _ (read_string-Kept (drop n b) 32) (λ _. refl))
      (Kept-then (read_varint (drop n b)) _ (read_varint-Kept (drop n b))
        (λ (v, k). Kept-then (assign t v p) _ (assign-Kept t v p) (λ _. refl))))

parse_loop-Kept :
    (fuel : ℕ) (b : List ℕ) (p : Params) (r : Params ⊎ Code) → parse_loop fuel b p ≡ some r → Kept r
unfolding Kept parse_loop
parse_loop-Kept fuel [] p r e = subst Kept (some-injective _ r e) refl
parse_loop-Kept zero (c ∷ b) p r e = absurd (none-ne-some r e)
parse_loop-Kept (suc fuel) (c ∷ b) p r e = elim (Sum-cases (read_param p (c ∷ b))) [
  | inl ((p', n), q) ↦ parse_loop-Kept fuel (drop n (c ∷ b)) p' r (rw (q, parse_loop) at e)
  | inr (x, q) ↦
      subst Kept (some-injective _ r (rw (q, parse_loop) at e))
        (subst Kept q (read_param-Kept p (c ∷ b)))
]

-- The same of an opening and of what a turn of the reading loop gives
IsKept : Opening → Type 0
IsKept (unopened f) = is_server_closed f ≡ false
IsKept (opened p ct closed) = true ≡ true

take_params-IsKept :
    (fs : ℕ) (p : Packet) (r : Params ⊎ Code) (o : Opening)
    → Kept r
    → take_params fs p r ≡ some o
    → IsKept o
unfolding Kept IsKept take_params
take_params-IsKept fs p (inr c) o k e = subst IsKept (some-injective _ o e) k
take_params-IsKept fs p (inl sp) o k e =
    let (ct, _, e1) = bind-inv (ctoken p) _ e in subst IsKept (some-injective _ o e1) refl

read_opening-IsKept : (p : Packet) (o : Opening) → read_opening p ≡ some o → IsKept o
unfolding IsKept is_server_closed read_opening parse_params
read_opening-IsKept p o e =
    let (fs, _, e1) = bind-inv (flags p) _ e in
    let (lacks, _, e2) = bind-inv (lacks_token fs p) _ e1 in
    elim (Bool-cases lacks) [
      | inl z ↦ subst IsKept (some-injective _ o (rw z at e2)) refl
      | inr z ↦
          let (b, _, e3) = bind-inv (Fbuf.payload p.fbuf) _ (rw z at e2) in
          let (r, y, e4) = bind-inv (parse_params b) _ e3 in
          take_params-IsKept fs p r o (parse_loop-Kept (length b) b no_params r y) e4
    ]

validate-unclosed :
    (fb : Fbuf) (c : Code) → Fbuf.validate fb ≡ some c → is_server_closed (coded c) ≡ false
unfolding Fbuf.validate is_server_closed
validate-unclosed fb c e = elim (Bool-cases (ltb fb.blen (sum_lens fb.fields))) [
  | inl z ↦ ap (λ x. is_server_closed (coded x)) (sym (some-injective _ c (rw z at e)))
  | inr z ↦ elim (Bool-cases (ltb (capacity fb) (sum_caps fb.fields))) [
    | inl y ↦ ap (λ x. is_server_closed (coded x)) (sym (some-injective _ c (rw (z, y) at e)))
    | inr y ↦ absurd (none-ne-some c (rw (z, y) at e))
  ]
]

read_error-unclosed :
    (e : Option Failure) (f : Failure) → read_error e ≡ some f → is_server_closed f ≡ false
unfolding read_error
read_error-unclosed none f e = absurd (none-ne-some f e)
read_error-unclosed (some g) f e = elim (Bool-cases (is_server_closed g)) [
  | inl z ↦ absurd (none-ne-some f (rw z at e))
  | inr z ↦ ap is_server_closed (sym (some-injective g f (rw z at e))) ∙ z
]

fields-IsKept :
    (p : Packet) (x : Option Code) (y : Packet × Option Opening) (o : Opening)
    → ((c : Code) → x ≡ some c → is_server_closed (coded c) ≡ false)
    → open_reply_fields (p, x) ≡ some y
    → y.1 ≡ some o
    → IsKept o
unfolding IsKept open_reply_fields
fields-IsKept p (some c) y o k e f =
    subst IsKept (some-injective _ o (ap (λ q. q.1) (some-injective _ y e) ∙ f)) (k c refl)
fields-IsKept p none y o k e f =
    let (r, z, e1) = bind-inv (read_opening p) _ e in
    subst IsKept (some-injective r o (ap (λ q. q.1) (some-injective (p, some r) y e1) ∙ f))
      (read_opening-IsKept p r z)

module _ (h : Mac) where
  read_open_reply-IsKept :
      (a : Arrival) (p : Packet) (y : Packet × Option Opening) (o : Opening)
      → read_open_reply h a p ≡ some y
      → y.1 ≡ some o
      → IsKept o
  unfolding IsKept read_open_reply Fbuf.add_fields Fbuf.finish_fields
  read_open_reply-IsKept a p y o e f =
      let ((p1, x), _, e1) = bind-inv (creceive h a p) _ e in
      elim (Option-cases (read_error x)) [
        | inr (g, z) ↦
            subst IsKept (some-injective _ o (ap (λ q. q.1) (some-injective _ y (rw z at e1)) ∙ f))
              (read_error-unclosed x g z)
        | inl z ↦
            let (fs, _, e2) = bind-inv (flags p1) _ (rw z at e1) in
            elim (Bool-cases (not (has fs fl_open))) [
              | inl b ↦
                  absurd
                    (none-ne-some o (ap (λ q. q.1) (some-injective (p1, none) y (rw b at e2)) ∙ f))
              | inr b ↦
                  let (p2, c) = add_fields fopen_reply false p1 in
                  fields-IsKept p2 c y o (λ w k. validate-unclosed p2.fbuf w k) (rw b at e2) f
            ]
      ]

  -- Whatever packets the client reads after its request to open a connection, an error that comes of them is never
  -- the one for a connection that the server has closed, which `dial` tests for.
  pub read_replies-unclosed :
      (arrivals : List Arrival) (p : Packet) (f : Failure)
      → read_replies h arrivals p ≡ some (some (unopened f))
      → is_server_closed f ≡ false
  unfolding IsKept read_replies
  read_replies-unclosed [] p f e = absurd (none-ne-some (unopened f) (some-injective _ _ e))
  read_replies-unclosed (a ∷ arrivals) p f e =
      let ((p1, r), z, e1) = bind-inv (read_open_reply h a p) _ e in
      elim (Option-cases r) [
        | inl y ↦ read_replies-unclosed arrivals p1 f (rw y at e1)
        | inr (o, y) ↦
            subst IsKept (some-injective _ _ (some-injective _ _ (rw y at e1)))
              (read_open_reply-IsKept a p (p1, r) o z y)
      ]
