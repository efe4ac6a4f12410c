-- ===== src/Server/Kept.antt =====
-- sconn.go: what serving a packet keeps of a connection.
use irtt.Prelude.{
  ℕ, not, ◌&&◌, ◌^◌, ◌<◌, ◌≡◌, refl, ap, ◌∙◌, sym, ◌⊎◌, inl, inr, Bool, true, false, List, Option,
  none, some, arith, ltb, if◌then◌else◌, bind-inv, Bool-cases, Option-cases, bit_or,
}
use mathlib.Core.Option.{some-injective}
use mathlib.Core.Path.{subst}
use irtt.Prelude.Int.{ℤ, pos, ltb_ℤ}
use irtt.Prelude.Bits.{shl64, shl64-lt, bit_or-one}
use irtt.Prelude.Float.{Float64}
use irtt.Time.{has}
use irtt.Fbuf
use irtt.Filler.{Filler}
use irtt.Filler.Payload.{read_payload}
use irtt.Packet.{
  Mac, Packet, flags, fl_close, set_flag_bits, seqno, set_reply, add_fields, fclose_request,
  fecho_request,
}
use irtt.Config.{ServerConfig}
use irtt.Conn.{Failure, Nconn, lsend}
use irtt.Server.{Sconn, Conns, slide, since_last, remove}
use irtt.Server.Window.{after, slide-received_window}
use irtt.Server.Echo.{
  Moment, put_stats, put_stamps, set_target_len, address_reply, enforce_interval, earn, exceeded,
  fill_payload, make_reply, Served, unanswered, answer, serve_request, serve_echo, serve_close,
  from_client, serve,
}

-- The same connection, with the counters in their range if they were.
pub record IsKept (a b : Sconn) : Type 0 where
  pub ctoken : b.ctoken ≡ a.ctoken
  pub raddr : b.raddr ≡ a.raddr
  pub params : b.params ≡ a.params
  pub created : b.created ≡ a.created
  pub window : a.received_window < 2 ^ 64 → b.received_window < 2 ^ 64
  pub count : a.received_count < 2 ^ 32 → b.received_count < 2 ^ 32

IsKept-refl : (a : Sconn) → IsKept a a
IsKept-refl a = record {
  ctoken = refl;
  raddr = refl;
  params = refl;
  created = refl;
  window = λ h. h;
  count = λ h. h;
}

IsKept-trans : {a b c : Sconn} → IsKept a b → IsKept b c → IsKept a c
IsKept-trans k l = record {
  ctoken = l.ctoken ∙ k.ctoken;
  raddr = l.raddr ∙ k.raddr;
  params = l.params ∙ k.params;
  created = l.created ∙ k.created;
  window = λ h. l.window (k.window h);
  count = λ h. l.count (k.count h);
}

or_one_lt : (w : ℕ) → w < 2 ^ 64 → bit_or w 1 < 2 ^ 64
or_one_lt w h = omega (arith, bit_or-one w)

after_lt : (sn : ℕ) (sc : Sconn) → sc.received_window < 2 ^ 64 → after sn sc < 2 ^ 64
unfolding after
after_lt sn sc h = or_one_lt _ (shifted (ltb 0 (since_last sn sc.last_seqno)))
  where
    shifted :
        (b : Bool)
        → (if b then shl64 sc.received_window (since_last sn sc.last_seqno) else sc.received_window)
          < 2 ^ 64
    shifted true = shl64-lt sc.received_window (since_last sn sc.last_seqno) h
    shifted false = h

slide-IsKept : (sn : ℕ) (sc : Sconn) → IsKept sc (slide sn sc)
unfolding slide
slide-IsKept sn sc = record {
  ctoken = refl;
  raddr = refl;
  params = refl;
  created = refl;
  window = λ h. subst (λ w. w < 2 ^ 64) (sym (slide-received_window sn sc)) (after_lt sn sc h);
  count = λ h. omega arith;
}

-- A change of the other fields.
unchanged :
    (sc : Sconn) (f : Option Filler) (bucket : ℕ) (first_used last_used : Option ℤ)
    → IsKept sc (record sc {
      filler = f;
      packet_bucket = bucket;
      first_used = first_used;
      last_used = last_used;
    })
unchanged sc f bucket first_used last_used = record {
  ctoken = refl;
  raddr = refl;
  params = refl;
  created = refl;
  window = λ h. h;
  count = λ h. h;
}

-- What is left of a connection and of the map.
pub record IsServed (sc : Sconn) (m : Conns) (s : Served) : Type 0 where
  pub kept : IsKept sc s.sc
  pub conns : (s.conns ≡ m) ⊎ (s.conns ≡ (remove sc.ctoken m).1)

module _ (F : Float64) (h : Mac) (cfg : ServerConfig) where
  enforce_interval-IsKept : (now : ℤ) (sc : Sconn) → IsKept sc (enforce_interval F cfg now sc).1
  unfolding enforce_interval
  enforce_interval-IsKept now sc = elim (Bool-cases (not (ltb_ℤ (pos 0) cfg.min_interval))) [
    | inl e ↦ rw e (IsKept-refl sc)
    | inr e ↦ elim (Bool-cases (F.lt (earn F cfg now sc) (F.of_int (pos 1)))) [
      | inl y ↦ rw (e, y) (unchanged sc _ _ _ _)
      | inr y ↦ rw (e, y) (unchanged sc _ _ _ _)
    ]
  ]

  fill_payload-IsKept :
      (random : List ℕ) (f : Option Filler) (sc sc' : Sconn) (p p' : Packet)
      → fill_payload random f sc p ≡ some (p', sc')
      → IsKept sc sc'
  unfolding fill_payload
  fill_payload-IsKept random none sc sc' p p' e =
      subst (IsKept sc) (ap (λ q. q.1) (some-injective (p, sc) (p', sc') e)) (IsKept-refl sc)
  fill_payload-IsKept random (some f) sc sc' p p' e =
      let (r, _, e1) = bind-inv (read_payload random f p) _ e in
      subst (IsKept sc) (ap (λ q. q.1) (some-injective _ (p', sc') e1)) (unchanged sc _ _ _ _)

  make_reply-IsKept :
      (support closing : Bool) (mo : Moment) (sc sc' : Sconn) (p p' : Packet)
      → make_reply cfg support mo closing sc p ≡ some (p', sc')
      → IsKept sc sc'
  unfolding make_reply
  make_reply-IsKept support closing mo sc sc' p p' e =
      let (p1, _, e1) = bind-inv (if closing then set_flag_bits fl_close p else some p) _ e in
      let p2 = set_target_len (pos 0) (address_reply cfg support sc.params.dscp p1) in
      let (p3, _, e2) = bind-inv (put_stats sc p2) _ e1 in
      let (p4, _, e3) = bind-inv (put_stamps mo.source sc p3) _ e2 in
      fill_payload-IsKept mo.random sc.filler sc sc' _ p' e3

  answer-IsServed :
      (mo : Moment) (sc0 sc : Sconn) (m : Conns) (c : Nconn) (p : Packet) (s : Served)
      → IsKept sc0 sc
      → answer F h cfg mo sc m c p ≡ some s
      → IsServed sc0 m s
  unfolding answer
  answer-IsServed mo sc0 sc m c p s k e =
      let closing = exceeded cfg mo.later sc in
      let ((p', sc'), z, e1) = bind-inv (make_reply cfg c.dscp_support mo closing sc p) _ e in
      let (t, _, e2) = bind-inv (lsend h mo.network c p') _ e1 in
      subst (IsServed sc0 m) (some-injective _ s e2) (record {
        kept = IsKept-trans k (make_reply-IsKept c.dscp_support closing mo sc sc' p p' z);
        conns = elim (Bool-cases closing) [
          | inl y ↦ inr (rw y (ap (λ ct. (remove ct m).1) k.ctoken))
          | inr y ↦ inl (rw y refl)
        ];
      })

  unanswered-IsServed :
      (sc0 sc : Sconn) (m : Conns) (c : Nconn) (p : Packet) (closed : Bool) (e : Option Failure)
      (s : Served)
      → IsKept sc0 sc
      → some (unanswered sc m c p closed e) ≡ some s
      → IsServed sc0 m s
  unanswered-IsServed sc0 sc m c p closed f s k e =
      subst (IsServed sc0 m) (some-injective _ s e) (record { kept = k; conns = inl refl })

  serve_request-IsServed :
      (mo : Moment) (sc : Sconn) (m : Conns) (c : Nconn) (p : Packet) (s : Served)
      → serve_request F h cfg mo sc m c p ≡ some s
      → IsServed sc m s
  unfolding serve_request
  serve_request-IsServed mo sc m c p s e =
      let used : Option ℤ = elim (sc.first_used) [ none ↦ some mo.now | some t ↦ some t ] in
      let sc' = record sc { first_used = used } in
      let sc1 = (enforce_interval F cfg mo.now sc').1 in
      let k : IsKept sc sc1 =
        IsKept-trans (unchanged sc _ _ used _) (enforce_interval-IsKept mo.now sc') in
      elim (Bool-cases (enforce_interval F cfg mo.now sc').0) [
        | inl y ↦ unanswered-IsServed sc sc1 m c p false _ s k (rw y at e)
        | inr y ↦
            let (p1, _, e1) = bind-inv (set_reply true p) _ (rw y at e) in
            let (sn, _, e2) = bind-inv (seqno p1) _ e1 in
            answer-IsServed mo sc _ m c p1 s
              (IsKept-trans k
                (IsKept-trans (unchanged sc1 _ _ _ (some mo.now)) (slide-IsKept sn _)))
              e2
      ]

  serve_echo-IsServed :
      (mo : Moment) (sc : Sconn) (m : Conns) (c : Nconn) (p : Packet) (s : Served)
      → serve_echo F h cfg mo sc m c p ≡ some s
      → IsServed sc m s
  unfolding serve_echo
  serve_echo-IsServed mo sc m c p s e =
      let p1 = (add_fields fecho_request false p).0 in
      elim (Option-cases (Fbuf.add_fields fecho_request false p.fbuf).1) [
        | inr (f, y) ↦
            unanswered-IsServed sc sc m c p1 false _ s (IsKept-refl sc) (rw (y, serve_echo) at e)
        | inl y ↦
            elim (Bool-cases
              (ltb_ℤ (pos 0) cfg.max_length && ltb_ℤ cfg.max_length (pos p1.fbuf.blen))) [
                | inl z ↦
                    unanswered-IsServed sc sc m c p1 false _ s (IsKept-refl sc)
                      (rw (y, serve_echo, z) at e)
                | inr z ↦ serve_request-IsServed mo sc m c p1 s (rw (y, serve_echo, z) at e)
              ]
      ]

  serve_close-IsServed :
      (sc : Sconn) (m : Conns) (c : Nconn) (p : Packet) → IsServed sc m (serve_close sc m c p)
  unfolding serve_close
  serve_close-IsServed sc m c p =
      elim (Option-cases (Fbuf.add_fields fclose_request false p.fbuf).1) [
        | inr (f, y) ↦ rw (y, serve_close) (record { kept = IsKept-refl sc; conns = inl refl })
        | inl y ↦ rw (y, serve_close) (record { kept = IsKept-refl sc; conns = inr refl })
      ]

  -- `serve` keeps the connection, and takes no other from the map.
  pub serve-IsServed :
      (mo : Moment) (sc : Sconn) (m : Conns) (c : Nconn) (p : Packet) (s : Served)
      → serve F h cfg mo sc m c p ≡ some s
      → IsServed sc m s
  unfolding serve
  serve-IsServed mo sc m c p s e = elim (Bool-cases (not (from_client sc p))) [
    | inl y ↦ unanswered-IsServed sc sc m c p false _ s (IsKept-refl sc) (rw y at e)
    | inr y ↦
        let (fs, _, e1) = bind-inv (flags p) _ (rw y at e) in
        elim (Bool-cases (has fs fl_close)) [
          | inl z ↦
              subst (IsServed sc m) (some-injective _ s (rw z at e1))
                (serve_close-IsServed sc m c p)
          | inr z ↦ serve_echo-IsServed mo sc m c p s (rw z at e1)
        ]
  ]
