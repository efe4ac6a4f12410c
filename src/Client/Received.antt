-- ===== src/Client/Received.antt =====
-- packet.go, conn.go: a packet that was read keeps the time of its receipt through all of its tests.
use mathlib.Core.Option.{some-injective}
use irtt.Prelude.{
  ℕ, [], ◌∷◌, ◌≡◌, ap, ◌∙◌, sym, inl, inr, false, List, Option, none, some, guard, leb, ltb,
  bind-inv, Bool-cases, Option-cases,
}
use irtt.Prelude.Int.{pos}
use irtt.Code.{Code}
use irtt.Time.{has}
use irtt.Net.{bytes_equal}
use irtt.Fbuf
use irtt.Fbuf.{Fbuf}
use irtt.Params.{Params}
use irtt.Packet.{
  Mac, Packet, on_fbuf, add_fields, flags, fl_all, fl_hmac, f_magic, f_hmac, magic, fecho_reply,
  reply, finit, finit_hmac, read_to,
}
use irtt.Packet.Auth.{check_stamps, check_hmac, check_no_hmac, check_key, validate, read_reset}
use irtt.Packet.Stamps.{add_received_stats_fields, add_timestamp_fields}
use irtt.Conn.{
  Failure, Arrival, check_reply, accept_bytes, creceive, as_failure, read_into, set_times,
}
use irtt.Client.{add_expected}

on_fbuf-trcvd :
    (op : Fbuf → Option Fbuf) (p p' : Packet) → on_fbuf op p ≡ some p' → p'.trcvd ≡ p.trcvd
on_fbuf-trcvd op p p' e =
    let (fb, _, e1) = bind-inv (op p.fbuf) _ e in
    sym (ap (λ (q : Packet). q.trcvd) (some-injective _ p' e1))

-- From the equation of a pair to the time of its packet
same :
    {A : Type 0} (p : Packet) (x : A) (y : Packet × A) → some (p, x) ≡ some y → y.0.trcvd ≡ p.trcvd
same p x y e = sym (ap (λ q. q.0.trcvd) (some-injective (p, x) y e))

module _ (h : Mac) where
  check_hmac-trcvd :
      (key : List ℕ) (p : Packet) (y : Packet × Option Code)
      → check_hmac h key p ≡ some y
      → y.0.trcvd ≡ p.trcvd
  unfolding check_hmac
  check_hmac-trcvd key p y e =
      let (fs, _, e1) = bind-inv (flags p) _ e in
      elim (Bool-cases (has fs fl_hmac)) [
        | inr z ↦ same p _ y (rw z at e1)
        | inl z ↦
            let p' = (add_fields (f_hmac ∷ []) false p).0 in
            let (b, _, e2) = bind-inv (Fbuf.get f_hmac p'.fbuf) _ (rw z at e1) in
            let (q, k, e3) = bind-inv (on_fbuf (Fbuf.zero_field f_hmac) p') _ e2 in
            same q _ y e3 ∙ on_fbuf-trcvd (Fbuf.zero_field f_hmac) p' q k
      ]

  keyed-trcvd :
      (key : Option (List ℕ)) (p : Packet) (y : Packet × Option Code)
      → elim key [ none ↦ check_no_hmac h p | some k ↦ check_hmac h k p ] ≡ some y
      → y.0.trcvd ≡ p.trcvd
  unfolding check_no_hmac
  keyed-trcvd none p y e = let (fs, _, e1) = bind-inv (flags p) _ e in same p _ y e1
  keyed-trcvd (some key) p y e = check_hmac-trcvd key p y e

  check_key-trcvd :
      (p : Packet) (y : Packet × Option Code) → check_key h p ≡ some y → y.0.trcvd ≡ p.trcvd
  unfolding check_key
  check_key-trcvd p y e = keyed-trcvd p.key p y e

  validate-trcvd :
      (p : Packet) (y : Packet × Option Code) → validate h p ≡ some y → y.0.trcvd ≡ p.trcvd
  unfolding validate
  validate-trcvd p y e =
      let (b, _, e1) = bind-inv (Fbuf.get f_magic p.fbuf) _ e in
      elim (Bool-cases (bytes_equal b magic)) [
        | inr z ↦ same p _ y (rw z at e1)
        | inl z ↦
            let (fs, _, e2) = bind-inv (flags p) _ (rw z at e1) in
            elim (Bool-cases (ltb fl_all fs)) [
              | inl k ↦ same p _ y (rw k at e2)
              | inr k ↦
                  let (st, _, e3) = bind-inv (check_stamps p) _ (rw k at e2) in
                  elim (Option-cases st) [
                    | inl l ↦ check_key-trcvd p y (rw l at e3)
                    | inr (c, l) ↦ same p _ y (rw l at e3)
                  ]
            ]
      ]

  read_reset-trcvd :
      (n : ℕ) (p : Packet) (y : Packet × Option Code)
      → read_reset h n p ≡ some y
      → y.0.trcvd ≡ p.trcvd
  unfolding read_reset
  read_reset-trcvd n p y e =
      let first : List ℕ = elim p.key [ none ↦ finit | some k ↦ finit_hmac ] in
      let fb = (Fbuf.set_fields first false p.fbuf).0 in
      let p' : Packet = record p { fbuf = record fb { blen = n; tlen = pos n } } in
      let (_, _, e1) = bind-inv (guard (leb n (Fbuf.capacity fb))) _ e in
      elim (Option-cases (Fbuf.validate p'.fbuf)) [
        | inl z ↦ validate-trcvd p' y (rw z at e1)
        | inr (c, z) ↦ same p' _ y (rw z at e1)
      ]

  accept_bytes-trcvd :
      (b : List ℕ) (p : Packet) (y : Packet × Option Code)
      → accept_bytes h (check_reply h) b p ≡ some y
      → y.0.trcvd ≡ p.trcvd
  unfolding accept_bytes check_reply read_into
  accept_bytes-trcvd b p y e =
      let (p1, n) = read_into b p in
      let ((p2, f), z, e1) = bind-inv (read_reset h n p1) _ e in
      let kept : p2.trcvd ≡ p.trcvd = read_reset-trcvd n p1 (p2, f) z in
      elim (Option-cases f) [
        | inr (c, k) ↦ same p2 _ y (rw k at e1) ∙ kept
        | inl k ↦
            let (r, _, e2) = bind-inv (reply p2) _ (rw k at e1) in
            let (fs, _, e3) = bind-inv (flags p2) _ e2 in same p2 _ y e3 ∙ kept
      ]

  creceive-trcvd :
      (a : Arrival) (p : Packet) (y : Packet × Option Failure)
      → creceive h a p ≡ some y
      → y.0.trcvd ≡ a.received_at
  unfolding creceive set_times read_to
  creceive-trcvd a p y e = elim (Option-cases (a.datagram)) [
    | inl z ↦ same (set_times a (read_to p)) _ y (rw z at e)
    | inr (b, z) ↦
        let (x, k, e1) =
          bind-inv (accept_bytes h (check_reply h) b (set_times a (read_to p))) _ (rw z at e) in
        failure-trcvd x y e1 ∙ accept_bytes-trcvd b (set_times a (read_to p)) x k
  ]
    where
      failure-trcvd :
          (x : Packet × Option Code) (y : Packet × Option Failure)
          → some (as_failure x) ≡ some y
          → y.0.trcvd ≡ x.0.trcvd
      failure-trcvd (q, none) y e = same q _ y e
      failure-trcvd (q, some c) y e = same q _ y e

  -- What the tests of the client return is that packet with more fields.
  pub expected-trcvd :
      (params : Params) (a : Arrival) (p p1 p2 : Packet)
      → creceive h a p ≡ some (p1, none)
      → p2 ≡ add_expected params (add_fields fecho_reply false p1).0
      → p2.trcvd ≡ a.received_at
  unfolding add_expected add_received_stats_fields add_timestamp_fields
  expected-trcvd params a p p1 p2 e f =
      ap (λ (q : Packet). q.trcvd) f ∙ creceive-trcvd a p (p1, none) e
