-- ===== src/Client/Run.antt =====
-- client.go: the client's run (`Client.Run`, `wait` and `close`), from the first_reply of the server on: what is
-- tested before it starts, and how the two loops, one that sends and one that receives, share the recorder.
-- What `dial` and the operating system return are arguments; `none` is a panic.
use irtt.Prelude.{ℕ, Bool, not, ◌&&◌, List, [], ◌∷◌, Option, none, some, leb, if◌then◌else◌, ◌>>=◌}
use irtt.Prelude.Int.{ℤ, pos, eqb_ℤ, ltb_ℤ}
use irtt.Code.{Code, no_dscp_support, df_error, ttl_error}
use irtt.Params.{Params}
use irtt.Packet.{Mac, Packet}
use irtt.Config.{ClientConfig}
use irtt.Negotiate.{accepted, rejected, check_parameters, validate_config}
use irtt.Conn.{Failure, coded, Arrival}
use irtt.Conn.Opening.{Opening, unopened, opened, is_server_closed}
use irtt.Recorder.{Recorder, new_recorder, pcount}
use irtt.Client.{receive_one}
use irtt.Client.Send.{Plan, Sending, Turn, step}

-- What `dial` returns: an error, or the parameters that the server granted, and the connection, unless the
-- server has closed it: whether its DSCP value can be set.
pub data Dialed : Type 0 where
  undialed : Failure → Dialed
  dialed : Params → Option Bool → Dialed

-- The end of `dial`: there is no connection, and no error, where `open` says that the server has closed it. The
-- parameters are those that were supplied, if `open` did not come to set them.
unfoldable pub dial_result : Params → Bool → Opening → Dialed
dial_result supplied dscp_support (unopened f) =
    if is_server_closed f then dialed supplied none else undialed f
dial_result supplied dscp_support (opened p token closed) = dialed p (some dscp_support)

-- The socket options that the test asks for: whether there is one, and whether the system refuses it.
pub record Options : Type 0 where
  pub df_wanted : Bool
  pub df_refused : Bool
  pub ttl_wanted : Bool
  pub ttl_refused : Bool

-- What comes of the first part of `Run`: an error, no test, or one with these parameters, the most round trips
-- that it can have, and its recorder.
pub data Start : Type 0 where
  unstarted : Failure → Start
  no_test : Start
  started : Params → ℕ → Recorder → Start

-- The socket options: the DSCP value, the do-not-fragment bit and the TTL
unfoldable pub set_options : Params → Bool → Options → Option Code
set_options p dscp_support o =
    if not (eqb_ℤ p.dscp (pos 0)) && not dscp_support
    then some no_dscp_support
    else if o.df_wanted && o.df_refused
    then some df_error
    else if o.ttl_wanted && o.ttl_refused
    then some ttl_error
    else none

-- The recorder, with room for `StreamBufLen` round trips, or for all of them.
unfoldable pub make_recorder : ClientConfig → Params → Option Start
make_recorder cfg p = do
  n ← pcount p.duration p.interval
  some (started p n (new_recorder (if cfg.stream then cfg.stream_buf_len else n)))

-- After `checkParameters`
unfoldable pub begin : ClientConfig → Options → Params → Option Bool → Option Start
begin cfg o p none = some no_test
begin cfg o p (some dscp_support) =
    if cfg.no_test then some no_test else elim (set_options p dscp_support o) [
      | some e ↦ some (unstarted (coded e))
      | none ↦ make_recorder cfg p
    ]

-- `Run` until the loops start: `cfg` is what was supplied. A client goes on after the events of
-- `checkParameters`, and not after its error.
unfoldable pub start_run : (ℤ → Option Code) → ClientConfig → Options → Dialed → Option Start
start_run permitted cfg o d = elim (validate_config permitted cfg.params) [
  | some e ↦ some (unstarted (coded e))
  | none ↦ elim d [
    | undialed f ↦ some (unstarted f)
    | dialed p conn ↦ elim (check_parameters cfg.loose cfg.params p) [
      | rejected e ↦ some (unstarted (coded e))
      | accepted n ↦ begin cfg o p conn
    ]
  ]
]

-- `wait`: for how long, if at all, where `d` is what the waiter says.
unfoldable pub wait : ℤ → Recorder → Option ℤ
wait d r =
    if leb r.send_call_stats.n r.rtt_stats.n then none else if ltb_ℤ (pos 0) d then some d else none

-- The two loops: the receiving one has its own packet, and ends with an error.
pub record Testing : Type 0 where
  pub sending : Sending
  pub packet : Packet
  pub receive_failure : Option Failure

-- What happens next: the sending loop goes on to its next lock of the recorder, or something is read.
pub data Event : Type 0 where
  sends : Turn → Event
  reads : Arrival → Event

module _ (h : Mac) (plan : Plan) where
  -- One turn of the receiving loop, unless it has ended.
  unfoldable pub read_next : Option Failure → Arrival → Testing → Option Testing
  read_next (some f) a x = some x
  read_next none a x = do
    v ← receive_one h plan.params a x.packet x.sending.recorder
    some (record {
      sending = record x.sending { recorder = v.recorder };
      packet = v.packet;
      receive_failure = v.failure;
    })

  unfoldable pub take_event : Event → Testing → Option Testing
  take_event (sends t) x = do s ← step h plan t x.sending; some (record x { sending = s })
  take_event (reads a) x = read_next x.receive_failure a x

  -- The loops, over any order of their events
  unfoldable pub run_test : List Event → Testing → Option Testing
  run_test [] x = some x
  run_test (e ∷ events) x = do x' ← take_event e x; run_test events x'

-- The errors of the loops in the result: none of them counts once the client has closed its connection.
unfoldable pub loop_error : Bool → Option Failure → Option Failure
loop_error closed e = if closed then none else e
