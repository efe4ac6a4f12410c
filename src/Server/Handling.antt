-- ===== src/Server/Handling.antt =====
-- server.go and sconn.go: what holds of the connections of a server after it has handled what it read.
use mathlib.Core.Option.{none-ne-some, some-injective}
use mathlib.Core.Path.{subst}
use irtt.Prelude.{
  ℕ, ◌≡◌, refl, ap, ◌∙◌, true, inl, inr, false, not, ◌&&◌, List, Option, none, some, ltb, bind-inv,
  Bool-cases, Option-cases, Sum-cases, length,
}
use irtt.Prelude.Int.{pos, eqb_ℤ}
use irtt.Prelude.Float.{Float64}
use irtt.Net.{UdpAddr, bytes_equal}
use irtt.Time.{has}
use irtt.Fbuf
use irtt.Filler.{new_filler}
use irtt.Params.{Params, parse_params}
use irtt.Packet.{Mac, Packet, flags, fl_open, fl_close, set_flag_bits, ctoken, add_fields, frequest}
use irtt.Config.{ServerConfig, protocol_version}
use irtt.Negotiate.{restrict_params}
use irtt.Negotiate.Limits.{IsWithin, restrict_params-IsWithin}
use irtt.Conn.{Arrival, lsend, lreceive}
use irtt.Server.{Sconn, new_sconn, Conns, get, put}
use irtt.Server.Echo.{serve}
use irtt.Server.Open.{
  Listener, Turn, Handled, Choice, listeners, set_filler, load_filler, with_filler, choose_filler,
  register, open_reply, accept_params, accept, serve_conn, accept_from, dispatch, handle, read_one,
}
use irtt.Server.Sound.{
  Requests, load_filler-IsConn, IsConn, IsSound, part-IsSound, get-IsPart, get_found,
  served-IsSound, new-IsConn, put-IsSound, with_filler-IsWithin, found-IsConn,
}
use irtt.Server.Kept.{serve-IsServed}

-- What a listener reads is an open request, which comes from `raddr` and asks for the parameters `asked`.
pub record IsRequest (h : Mac) (l : Listener) (a : Arrival) (raddr : UdpAddr) (asked : Params)
    : Type 0 where
  packet : Packet
  read : lreceive h l.conn a l.packet ≡ some (packet, none)
  fs : ℕ
  marked : flags packet ≡ some fs
  opens : has fs fl_open ≡ true
  sender : packet.raddr ≡ some raddr
  bytes : List ℕ
  carried : Fbuf.payload packet.fbuf ≡ some bytes
  parsed : parse_params bytes ≡ some (inl asked)

module _ (F : Float64) (h : Mac) (decode : List ℕ → Option (List ℕ)) (cfg : ServerConfig) where
  choose_filler-IsWithin :
      (asked p : Params) (r : Choice × Params)
      → IsWithin cfg asked p
      → choose_filler F h decode cfg p ≡ some r
      → IsWithin cfg asked r.1
  unfolding choose_filler
  choose_filler-IsWithin asked p r w e =
      elim (Bool-cases
        (ltb 0 (length p.server_fill) && not (bytes_equal p.server_fill cfg.default_filler))) [
          | inr y ↦
              subst (λ q. IsWithin cfg asked q.1) (some-injective (listeners, p) r (rw y at e)) w
          | inl y ↦
              let (m, z, e1) = bind-inv (new_filler decode p.server_fill) _ (rw y at e) in
              subst (λ q. IsWithin cfg asked q.1) (some-injective (with_filler cfg p m) r e1)
                (with_filler-IsWithin cfg asked p m w)
        ]

  module _ (A : Requests) where
    -- The packet asks for nothing but what `A` has.
    abbrev Requested : UdpAddr → Packet → Type 0
    Requested raddr p =
        (b : List ℕ) (asked : Params)
        → Fbuf.payload p.fbuf ≡ some b
        → parse_params b ≡ some (inl asked)
        → A raddr asked

    register-IsSound :
        (t : Turn) (new : Sconn) (m : Conns) (p : Packet) (r : Sconn × Conns × Packet)
        → ((ct : ℕ) → IsConn cfg A ct (record new { ctoken = ct }))
        → IsSound cfg A m
        → register F h decode cfg t new m p ≡ some r
        → IsSound cfg A r.1
    unfolding register
    register-IsSound t new m p r c s e =
        elim (Bool-cases (not (eqb_ℤ new.params.protocol_version protocol_version))) [
          | inl y ↦
              let (p1, _, e1) = bind-inv (set_flag_bits fl_close p) _ (rw y at e) in
              subst (λ q. IsSound cfg A q.1) (some-injective _ r e1) s
          | inr y ↦
              let (fs, _, e1) = bind-inv (flags p) _ (rw y at e) in
              elim (Bool-cases (has fs fl_close)) [
                | inl z ↦ subst (λ q. IsSound cfg A q.1) (some-injective _ r (rw z at e1)) s
                | inr z ↦
                    let ((sc, m1), g, e2) =
                      bind-inv (put cfg t.moment.now t.order t.tokens new m) _ (rw z at e1) in
                    subst (λ q. IsSound cfg A q.1) (some-injective _ r e2)
                      (put-IsSound cfg A t.moment.now t.order t.tokens new sc m m1 (c sc.ctoken) s
                        g)
              ]
        ]

    accept_params-IsSound :
        (t : Turn) (raddr : UdpAddr) (asked : Params) (l : Listener) (p : Packet) (r : Handled)
        → A raddr asked
        → IsSound cfg A l.conns
        → accept_params F h decode cfg t raddr asked l p ≡ some r
        → IsSound cfg A r.listener.conns
    unfolding accept_params
    accept_params-IsSound t raddr asked l p r came s e =
        let (granted, z, e1) = bind-inv (restrict_params cfg l.conn.dscp_support asked) _ e in
        let (f, y, e2) = bind-inv (choose_filler F h decode cfg granted) _ e1 in
        let burst = F.of_int (pos cfg.packet_burst) in
        let w =
          choose_filler-IsWithin asked granted f
            (restrict_params-IsWithin cfg l.conn.dscp_support asked granted z) y in
        let new = set_filler f.0 (new_sconn t.moment.now raddr burst f.1) in
        let (g, x, e3) = bind-inv (register F h decode cfg t new l.conns p) _ e2 in
        let (p2, _, e4) = bind-inv (open_reply F h decode cfg l.conn.dscp_support g.0 g.2) _ e3 in
        let (q, _, e5) = bind-inv (lsend h t.moment.network l.conn p2) _ e4 in
        subst (λ (v : Handled). IsSound cfg A v.listener.conns) (some-injective _ r e5)
          (register-IsSound t new l.conns p g
            (λ ct. new-IsConn cfg A t.moment.now raddr f.0 burst ct asked f.1 came w) s x)

    accept-IsSound :
        (t : Turn) (raddr : UdpAddr) (l : Listener) (p : Packet) (r : Handled)
        → Requested raddr p
        → IsSound cfg A l.conns
        → accept F h decode cfg t raddr l p ≡ some r
        → IsSound cfg A r.listener.conns
    unfolding accept
    accept-IsSound t raddr l p r came s e =
        let (b, x, e1) = bind-inv (Fbuf.payload p.fbuf) _ e in
        let (q, z, e2) = bind-inv (parse_params b) _ e1 in
        elim (Sum-cases q) [
          | inl (asked, y) ↦
              accept_params-IsSound t raddr asked l p r (came b asked x (z ∙ ap some y)) s
                (rw y at e2)
          | inr (c, y) ↦
              subst (λ (v : Handled). IsSound cfg A v.listener.conns)
                (some-injective _ r (rw y at e2)) s
        ]

    serve_conn-IsSound :
        (t : Turn) (ct : ℕ) (sc : Sconn) (l : Listener) (p : Packet) (r : Handled)
        → IsConn cfg A ct sc
        → IsSound cfg A l.conns
        → serve_conn F h decode cfg t ct sc l p ≡ some r
        → IsSound cfg A r.listener.conns
    unfolding serve_conn
    serve_conn-IsSound t ct sc l p r c s e =
        let now = load_filler l.filler sc in
        let (v, g, e1) = bind-inv (serve F h cfg t.moment now l.conns l.conn p) _ e in
        subst (λ (v : Handled). IsSound cfg A v.listener.conns) (some-injective _ r e1)
          (served-IsSound cfg A ct sc.filler now l.conns v
            (load_filler-IsConn cfg A ct l.filler sc c) s
            (serve-IsServed F h cfg t.moment now l.conns l.conn p v g))

    dispatch-IsSound :
        (t : Turn) (l : Listener) (p : Packet) (r : Handled)
        → IsSound cfg A l.conns
        → dispatch F h decode cfg t l p ≡ some r
        → IsSound cfg A r.listener.conns
    unfolding dispatch
    dispatch-IsSound t l p r s e =
        let p1 = (add_fields frequest false p).0 in
        elim (Option-cases (Fbuf.add_fields frequest false p.fbuf).1) [
          | inr (c, y) ↦
              subst (λ (v : Handled). IsSound cfg A v.listener.conns)
                (some-injective _ r (rw (y, dispatch) at e)) s
          | inl y ↦
              let (ct, _, e1) = bind-inv (ctoken p1) _ (rw (y, dispatch) at e) in
              let m = (get cfg t.moment.now ct l.conns).1 in
              let sm : IsSound cfg A m =
                part-IsSound cfg A l.conns m (get-IsPart cfg t.moment.now ct l.conns) s in
              elim (Option-cases (get cfg t.moment.now ct l.conns).0) [
                | inl z ↦
                    subst (λ (v : Handled). IsSound cfg A v.listener.conns)
                      (some-injective _ r (rw z at e1)) sm
                | inr (sc, z) ↦
                    serve_conn-IsSound t ct sc (record l { conns = m }) p1 r
                      (found-IsConn ct sc l.conns (get_found cfg t.moment.now ct l.conns sc z) s) sm
                      (rw z at e1)
              ]
        ]

    accept_from-IsSound :
        (t : Turn) (raddr : Option UdpAddr) (l : Listener) (p : Packet) (r : Handled)
        → ((from : UdpAddr) → raddr ≡ some from → Requested from p)
        → IsSound cfg A l.conns
        → accept_from F h decode cfg t raddr l p ≡ some r
        → IsSound cfg A r.listener.conns
    unfolding accept_from
    accept_from-IsSound t none l p r came s e = absurd (none-ne-some r e)
    accept_from-IsSound t (some raddr) l p r came s e =
        accept-IsSound t raddr l p r (came raddr refl) s e

    handle-IsSound :
        (t : Turn) (l : Listener) (p : Packet) (r : Handled)
        → ((fs : ℕ)
            → flags p ≡ some fs
            → has fs fl_open ≡ true
            → (from : UdpAddr) → p.raddr ≡ some from
            → Requested from p)
        → IsSound cfg A l.conns
        → handle F h decode cfg t l p ≡ some r
        → IsSound cfg A r.listener.conns
    unfolding handle
    handle-IsSound t l p r came s e =
        let (fs, x, e1) = bind-inv (flags p) _ e in
        elim (Bool-cases (has fs fl_open)) [
          | inr y ↦ dispatch-IsSound t l p r s (rw y at e1)
          | inl y ↦ accept_from-IsSound t p.raddr l p r (came fs x y) s (rw y at e1)
        ]

    pub read_one-IsSound :
        (t : Turn) (a : Arrival) (l : Listener) (r : Handled)
        → ((raddr : UdpAddr) (asked : Params) → IsRequest h l a raddr asked → A raddr asked)
        → IsSound cfg A l.conns
        → read_one F h decode cfg t a l ≡ some r
        → IsSound cfg A r.listener.conns
    unfolding read_one
    read_one-IsSound t a l r came s e =
        let ((p, f), z, e1) = bind-inv (lreceive h l.conn a l.packet) _ e in
        elim (Option-cases f) [
          | inl y ↦
              handle-IsSound t l p r
                (λ fs x opens from sender bytes asked payload parsed. came from asked (record {
                  packet = p;
                  read = z ∙ ap (λ q. some (p, q)) y;
                  fs = fs;
                  marked = x;
                  opens = opens;
                  sender = sender;
                  bytes = bytes;
                  carried = payload;
                  parsed = parsed;
                }))
                s (rw y at e1)
          | inr (x, y) ↦
              subst (λ (v : Handled). IsSound cfg A v.listener.conns)
                (some-injective _ r (rw y at e1)) s
        ]
