-- ===== src/Server/Strangers.antt =====
-- sconn.go and server.go: packets from addresses that no connection has.
use mathlib.Core.Option.{some-injective}
use mathlib.Core.Path.{subst}
use irtt.Prelude.{
  ℕ, ◌≡◌, refl, ap, ◌∙◌, sym, inl, inr, false, List, Option, none, some, arith, ◌==◌, ==_iff,
  Option-cases, Bool-cases, bind-inv,
}
use irtt.Prelude.Int.{ℤ}
use irtt.Prelude.Dict.{lookup, lookup-insert, lookup-insert_ne}
use irtt.Prelude.Float.{Float64}
use irtt.Fbuf
use irtt.Filler.{Filler}
use irtt.Packet.{Mac, Packet, ctoken, add_fields, frequest}
use irtt.Config.{ServerConfig}
use irtt.Conn.{Failure}
use irtt.Server.{Sconn, Conns, expired, get}
use irtt.Server.Manager.{IsPurged, IsPurged-refl, IsPurged-trans, erase-IsPurged}
use irtt.Server.Echo.{from_client, serve}
use irtt.Server.Open.{Listener, Turn, Handled, store, load_filler, serve_conn, dispatch}
use irtt.Server.Sound.{IsPart, get-IsPart, get_found}

-- Nothing is sent, an error is reported, and only connections that had expired are gone.
pub record IsRefused (cfg : ServerConfig) (now : ℤ) (l : Listener) (r : Handled) : Type 0 where
  pub silent : r.datagram ≡ none
  pub reported : (f : Failure) × (r.failure ≡ some f)
  pub conns : IsPurged cfg now l.conns r.listener.conns

get-IsPurged :
    (cfg : ServerConfig) (now : ℤ) (ct : ℕ) (m : Conns) → IsPurged cfg now m (get cfg now ct m).1
unfolding get
get-IsPurged cfg now ct m = elim (Option-cases (lookup ct m)) [
  | inl e ↦ rw (e, get) (IsPurged-refl cfg now m)
  | inr (sc, e) ↦ elim (Bool-cases (expired cfg now sc)) [
    | inl x ↦ rw (e, get) (rw x (erase-IsPurged cfg now ct sc m e x))
    | inr x ↦ rw (e, get) (rw x (IsPurged-refl cfg now m))
  ]
]

-- To store again what is there changes nothing.
store-IsPurged :
    (cfg : ServerConfig) (now : ℤ) (ct : ℕ) (sc : Sconn) (m : Conns)
    → ((old : Sconn) → lookup ct m ≡ some old → old ≡ sc)
    → IsPurged cfg now m (store ct sc m)
unfolding store IsPurged
store-IsPurged cfg now ct sc m h t = elim (Option-cases (lookup ct m)) [
  | inl e ↦ rw (e, store) (inl refl)
  | inr (old, e) ↦
      rw (e, store)
        (inl (elim (Bool-cases (t == ct)) [
          | inl q ↦
              let q' : t ≡ ct = (==_iff t ct).0 q in
              rw q' (lookup-insert ct sc m ∙ (ap some (sym (h old e)) ∙ sym e))
          | inr q ↦ lookup-insert_ne ct t sc m (ground arith)
        ]))
]

still_there :
    (cfg : ServerConfig) (now : ℤ) (ct : ℕ) (m : Conns) (sc old : Sconn)
    → lookup ct m ≡ some sc
    → lookup ct (get cfg now ct m).1 ≡ some old
    → old ≡ sc
unfolding IsPart
still_there cfg now ct m sc old e f =
    some-injective old sc (sym (get-IsPart cfg now ct m ct old f) ∙ e)

module _ (F : Float64) (h : Mac) (decode : List ℕ → Option (List ℕ)) (cfg : ServerConfig) where
  load_filler-back :
      (f : Option Filler) (sc : Sconn) → load_filler sc.filler (load_filler f sc) ≡ sc
  unfolding load_filler
  load_filler-back f sc = elim (Bool-cases (sc.shares_filler)) [
    | inl e ↦ simp e (ap (λ b. record sc { shares_filler = b }) (sym e))
    | inr e ↦ simp e
  ]

  from_client-load_filler :
      (f : Option Filler) (sc : Sconn) (p : Packet)
      → from_client (load_filler f sc) p ≡ from_client sc p
  unfolding load_filler
  from_client-load_filler f sc p = elim (Bool-cases (sc.shares_filler)) [
    | inl e ↦ simp e
    | inr e ↦ simp e
  ]

  serve_conn-IsRefused :
      (t : Turn) (ct : ℕ) (sc : Sconn) (l : Listener) (p : Packet) (r : Handled)
      → ((old : Sconn) → lookup ct l.conns ≡ some old → old ≡ sc)
      → from_client sc p ≡ false
      → serve_conn F h decode cfg t ct sc l p ≡ some r
      → IsRefused cfg t.moment.now l r
  unfolding serve_conn serve
  serve_conn-IsRefused t ct sc l p r k f e =
      subst (IsRefused cfg t.moment.now l)
        (some-injective _ r (rw (from_client-load_filler l.filler sc p, f) at e))
        (record {
          silent = refl;
          reported = (_, refl);
          conns =
              rw (load_filler-back l.filler sc) (store-IsPurged cfg t.moment.now ct sc l.conns k);
        })

  -- A packet that is not an open request, from an address that is not that of any connection, is not answered,
  -- whatever its token is: an error is reported, and every connection is as it was or gone, if it had expired.
  pub dispatch-IsRefused :
      (t : Turn) (l : Listener) (p : Packet) (r : Handled)
      → ((ct : ℕ) (sc : Sconn) → lookup ct l.conns ≡ some sc → from_client sc p ≡ false)
      → dispatch F h decode cfg t l p ≡ some r
      → IsRefused cfg t.moment.now l r
  unfolding dispatch
  dispatch-IsRefused t l p r k e =
      let p1 = (add_fields frequest false p).0 in
      let now = t.moment.now in
      elim (Option-cases (Fbuf.add_fields frequest false p.fbuf).1) [
        | inr (c, y) ↦
            subst (IsRefused cfg now l) (some-injective _ r (rw (y, dispatch) at e)) (record {
              silent = refl;
              reported = (_, refl);
              conns = IsPurged-refl cfg now l.conns;
            })
        | inl y ↦
            let (ct, _, e1) = bind-inv (ctoken p1) _ (rw (y, dispatch) at e) in
            let m = (get cfg now ct l.conns).1 in
            elim (Option-cases (get cfg now ct l.conns).0) [
              | inl z ↦ subst (IsRefused cfg now l) (some-injective _ r (rw z at e1)) (record {
                silent = refl;
                reported = (_, refl);
                conns = get-IsPurged cfg now ct l.conns;
              })
              | inr (sc, z) ↦
                  let found = get_found cfg now ct l.conns sc z in
                  through l r ct m (get-IsPurged cfg now ct l.conns) (
                    serve_conn-IsRefused t ct sc (record l { conns = m }) p1 r
                      (λ old. still_there cfg now ct l.conns sc old found) (k ct sc found)
                      (rw z at e1))
            ]
      ]
    where
      through :
          (l : Listener) (r : Handled) (ct : ℕ) (m : Conns)
          → IsPurged cfg t.moment.now l.conns m
          → IsRefused cfg t.moment.now (record l { conns = m }) r
          → IsRefused cfg t.moment.now l r
      through l r ct m a b = record {
        silent = b.silent;
        reported = b.reported;
        conns = IsPurged-trans cfg t.moment.now l.conns m r.listener.conns a b.conns;
      }
