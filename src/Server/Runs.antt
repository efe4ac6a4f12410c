-- ===== src/Server/Runs.antt =====
-- server.go and sconn.go: what holds of the connections of a server after any packets that arrive.
use mathlib.Core.Option.{some-injective}
use mathlib.Core.Path.{subst}
use irtt.Prelude.{
  ℕ, ◌≡◌, ◌⊎◌, true, inl, inr, false, List, [], ◌∷◌, Option, none, some, ◌>>=◌, bind-inv,
  Bool-cases, Option-cases,
}
use irtt.Prelude.Float.{Float64}
use irtt.Net.{UdpAddr}
use irtt.Params.{Params}
use irtt.Packet.{Mac}
use irtt.Config.{ServerConfig}
use irtt.Conn.{Arrival}
use irtt.Server.Open.{Listener, Turn, Handled, is_fatal_error, read_one}
use irtt.Server.Sound.{Requests, IsSound-more, IsSound}
use irtt.Server.Handling.{IsRequest, read_one-IsSound}

module _ (F : Float64) (h : Mac) (decode : List ℕ → Option (List ℕ)) (cfg : ServerConfig) where
  -- The loop `readAndReply` over the arrivals, with what each takes from outside. It returns at a fatal error.
  unfoldable pub run : List (Turn × Arrival) → Listener → Option Listener
  run [] l = some l
  run ((t, a) ∷ rest) l = do
    r ← read_one F h decode cfg t a l
    elim (r.failure) [
      | none ↦ run rest r.listener
      | some e ↦ elim (is_fatal_error t e) [ true ↦ some r.listener | false ↦ run rest r.listener ]
    ]

  -- The loop comes to read an open request from `raddr` for the parameters `asked`.
  pub data IsAsked : List (Turn × Arrival) → Listener → UdpAddr → Params → Type 0 where
    at_once :
        {rest : List (Turn × Arrival)} {l : Listener} {raddr : UdpAddr} {asked : Params} (t : Turn)
        (a : Arrival)
        → IsRequest h l a raddr asked
        → IsAsked ((t, a) ∷ rest) l raddr asked
    later :
        {rest : List (Turn × Arrival)} {l : Listener} {raddr : UdpAddr} {asked : Params} (t : Turn)
        (a : Arrival) (r : Handled)
        → read_one F h decode cfg t a l ≡ some r
        → IsAsked rest r.listener raddr asked
        → IsAsked ((t, a) ∷ rest) l raddr asked

  run_in :
      (A : Requests) (arrivals : List (Turn × Arrival)) (l l' : Listener)
      → ((raddr : UdpAddr) (asked : Params) → IsAsked arrivals l raddr asked → A raddr asked)
      → IsSound cfg A l.conns
      → run arrivals l ≡ some l'
      → IsSound cfg A l'.conns
  unfolding run
  run_in A [] l l' came s e =
      subst (λ (v : Listener). IsSound cfg A v.conns) (some-injective l l' e) s
  run_in A ((t, a) ∷ rest) l l' came s e =
      let (r, z, e1) = bind-inv (read_one F h decode cfg t a l) _ e in
      let s' =
        read_one-IsSound F h decode cfg A t a l r
          (λ raddr asked q. came raddr asked (at_once t a q)) s z in
      let on =
        run_in A rest r.listener l' (λ raddr asked q. came raddr asked (later t a r z q)) s' in
      elim (Option-cases (r.failure)) [
        | inl y ↦ on (rw y at e1)
        | inr (f, y) ↦ elim (Bool-cases (is_fatal_error t f)) [
          | inr x ↦ on (rw (y, x) at e1)
          | inl x ↦
              subst (λ (v : Listener). IsSound cfg A v.conns)
                (some-injective r.listener l' (rw (y, x) at e1)) s'
        ]
      ]

  -- After any packets that arrive at a listener, as many as its loop reads before a fatal error, if it has not
  -- panicked: each connection is stored under its own token, its window and its count of packets are in the
  -- range of their types, and its parameters are within the server's limits and what was asked for in an open
  -- request from the connection's address, which the loop has read, if so it was before, of requests known
  -- before.
  pub run-IsSound :
      (arrivals : List (Turn × Arrival)) (l l' : Listener) (before : Requests)
      → IsSound cfg before l.conns
      → run arrivals l ≡ some l'
      → IsSound cfg (λ raddr asked. before raddr asked ⊎ IsAsked arrivals l raddr asked) l'.conns
  run-IsSound arrivals l l' before s e =
      run_in (λ raddr asked. before raddr asked ⊎ IsAsked arrivals l raddr asked) arrivals l l'
        (λ raddr asked q. inr q) (IsSound-more cfg before _ l.conns (λ raddr asked q. inl q) s) e
