-- ===== src/Conn/Opening.antt =====
-- conn.go: how the client opens its connection (`cconn.open`, and what `dial` makes of it). The requests that it
-- sends and the replies that it reads are two lists; `none` is a panic.
use irtt.Prelude.{
  ℕ, Bool, true, false, not, List, [], ◌∷◌, Option, none, some, ◌⊎◌, inl, inr, ◌==◌, if◌then◌else◌,
  ◌>>=◌,
}
use irtt.Prelude.Int.{ℤ, pos, ltb_ℤ}
use irtt.Code.{Code, server_closed, conn_token_zero, open_timeout, open_timeout_too_short}
use irtt.Time.{has}
use irtt.Params.{Params, bytes, parse_params}
use irtt.Fbuf
use irtt.Packet.{
  Mac, Packet, new_packet, max_header_len, flags, fl_open, fl_close, set_flag_bits, ctoken,
  add_fields, fopen_reply,
}
use irtt.Packet.Auth.{update_hmac}
use irtt.Conn.{Failure, coded, system, Nconn, Network, send, Arrival, creceive}

-- `minOpenTimeout` of defaults.go, in nanoseconds
abbrev pub min_open_timeout : ℤ
min_open_timeout = pos 200_000_000

-- `isErrorCode(ServerClosed, err)`
unfoldable pub is_server_closed : Failure → Bool
is_server_closed (coded server_closed) = true
is_server_closed f = false

-- What `open` comes to: an error, or the parameters and the token of the server, and whether it has closed the
-- connection.
pub data Opening : Type 0 where
  unopened : Failure → Opening
  opened : Params → ℕ → Bool → Opening

-- The error of a read, but for the one that the loop goes on after
unfoldable pub read_error : Option Failure → Option Failure
read_error none = none
read_error (some f) = if is_server_closed f then none else some f

-- What happens after a request: its timeout, the end of the reading loop, or the end of the context.
pub data Waited : Type 0 where
  timed_out : Waited
  answered : Opening → Waited
  cancelled : Waited

-- A request: how long it waits for a reply, its send, and what happens after it.
pub record Request : Type 0 where
  pub timeout : ℤ
  pub net : Network
  pub waited : Waited

-- The sending of the requests, one for each timeout
unfoldable pub send_requests : Nconn → Packet → List Request → Opening
send_requests c p [] = unopened (coded open_timeout)
send_requests c p (q ∷ rest) =
    let sent = send q.net c p in
    let later = send_requests sent.conn sent.packet rest in
    elim (sent.failure) [
      | some f ↦ unopened f
      | none ↦ elim (q.waited) [ timed_out ↦ later | answered r ↦ r | cancelled ↦ unopened system ]
    ]

-- The test of the timeouts
unfoldable pub check_timeouts : List Request → Option Code
check_timeouts [] = none
check_timeouts (q ∷ requests) =
    let rest = check_timeouts requests in
    if ltb_ℤ q.timeout min_open_timeout then some open_timeout_too_short else rest

-- The first token test: a reply that does not close the connection has one.
unfoldable pub lacks_token : ℕ → Packet → Option Bool
lacks_token fs p = if has fs fl_close then some false else (do ct ← ctoken p; some (ct == 0))

-- A reply with its parameters
unfoldable pub take_params : ℕ → Packet → Params ⊎ Code → Option Opening
take_params fs p (inr e) = some (unopened (coded e))
take_params fs p (inl sp) = do ct ← ctoken p; some (opened sp ct (has fs fl_close))

-- A reply with the open flag, whose fields were added
unfoldable pub read_opening : Packet → Option Opening
read_opening p = do
  fs ← flags p
  lacks ← lacks_token fs p
  if lacks
      then some (unopened (coded conn_token_zero))
      else (do payload ← Fbuf.payload p.fbuf; r ← parse_params payload; take_params fs p r)

unfoldable pub open_reply_fields : Packet × Option Code → Option (Packet × Option Opening)
open_reply_fields (p, some e) = some (p, some (unopened (coded e)))
open_reply_fields (p, none) = do r ← read_opening p; some (p, some r)

module _ (h : Mac) where
  -- `packet` of an open request
  unfoldable pub request_packet : List ℕ → Bool → ℤ → Bool → Params → Option Packet
  request_packet key dscp_support dscp no_test params = do
    p ← new_packet 0 max_header_len key
    let p1 = record p { dscp = if dscp_support then dscp else p.dscp }
    p2 ← set_flag_bits fl_open p1
    p3 ← if no_test then set_flag_bits fl_close p2 else some p2
    fb ← Fbuf.set_payload (bytes params) p3.fbuf
    update_hmac h (record p3 { fbuf = fb })

  -- One turn of the reading loop: a packet that is no reply to an open request is passed over.
  unfoldable pub read_open_reply : Arrival → Packet → Option (Packet × Option Opening)
  read_open_reply a p = do
    (p1, e) ← creceive h a p
    elim (read_error e) [
      | some f ↦ some (p1, some (unopened f))
      | none ↦ (do
        fs ← flags p1
        if not (has fs fl_open)
            then some (p1, none)
            else open_reply_fields (add_fields fopen_reply false p1))
    ]

  -- The reading loop, over the packets that arrive
  unfoldable pub read_replies : List Arrival → Packet → Option (Option Opening)
  read_replies [] p = some none
  read_replies (a ∷ arrivals) p = do
    (p', r) ← read_open_reply a p
    elim r [ some o ↦ some (some o) | none ↦ read_replies arrivals p' ]

-- `open`
unfoldable pub open_conn : Nconn → Packet → List Request → Opening
open_conn c p requests = elim (check_timeouts requests) [
  | some e ↦ unopened (coded e)
  | none ↦ send_requests c p requests
]
