-- ===== src/Server.antt =====
-- The server: sconn.go, the state of a client's connection, and the connection manager of server.go. A
-- `time.Time` is its nanoseconds, or `none` for the zero time. The run's random numbers, and the order in
-- which a map is visited, are arguments.
pub mod Pool
pub mod Window
pub mod Manager
pub mod Expiry
pub mod Echo
pub mod Open
mod Kept
pub mod Sound
mod Handling
pub mod Runs
pub mod Strangers
mod Tests
mod Scenario
use irtt.Prelude.{
  ℕ, zero, suc, ◌+◌, ◌-◌, ◌%◌, ◌^◌, ◌≤◌, ◌<◌, ◌≡◌, Bool, true, false, not, ◌&&◌, List, [], ◌∷◌,
  Option, none, some, ◌==◌, ltb, leb, if◌then◌else◌, ◌>>=◌, bit_or, take,
}
use irtt.Prelude.Int.{ℤ, pos, negsuc, ltb_ℤ, eqb_ℤ, ◌-ℤ◌}
use irtt.Prelude.Word.{add64}
use irtt.Prelude.Bits.{shl64}
use irtt.Prelude.Dict.{Dict, lookup, erase, insert}
use irtt.Net.{UdpAddr}
use irtt.Filler.{Filler}
use irtt.Params.{Params}
use irtt.Config.{ServerConfig, timeout_grace, check_expired_count}

-- `InvalidSeqno` of seqno.go
abbrev pub invalid_seqno : ℕ
invalid_seqno = 4294967295

-- The fields of `sconn` that are this connection's own; `packet_bucket` is the bits of a float64. Nothing
-- reads or sets its field `bytes`. Where `shares_filler` is true, its pointer `filler` is the listener's, and
-- the field here stands for nothing: a packet is served with the filler that the listener has then, and what
-- is read from it is seen by all that share it.
pub record Sconn : Type 0 where
  pub ctoken : ℕ
  pub raddr : UdpAddr
  pub params : Params
  pub filler : Option Filler
  pub shares_filler : Bool
  pub created : ℤ
  pub first_used : Option ℤ
  pub last_used : Option ℤ
  pub packet_bucket : ℕ
  pub last_seqno : ℕ
  pub received_count : ℕ
  pub received_window : ℕ
  pub rwin_valid : Bool

-- `newSconn`, which shares the listener's filler, with the bits of the listener's packet burst and the
-- parameters that `accept` then sets
unfoldable pub new_sconn : ℤ → UdpAddr → ℕ → Params → Sconn
new_sconn now raddr burst params = record {
  ctoken = 0;
  raddr = raddr;
  params = params;
  filler = none;
  shares_filler = true;
  created = now;
  first_used = none;
  last_used = none;
  packet_bucket = burst;
  last_seqno = invalid_seqno;
  received_count = 0;
  received_window = 0;
  rwin_valid = false;
}

-- `time.Since`, which saturates.
unfoldable pub since : ℤ → ℤ → ℤ
since now t =
    let d = now -ℤ t in
    if ltb_ℤ (pos (2 ^ 63 - 1)) d
    then pos (2 ^ 63 - 1)
    else if ltb_ℤ d (negsuc (2 ^ 63 - 1))
    then negsuc (2 ^ 63 - 1)
    else d

-- `sconn.expired`
unfoldable pub expired : ServerConfig → ℤ → Sconn → Bool
expired cfg now sc = if eqb_ℤ cfg.timeout (pos 0) then false else elim (sc.last_used) [
  | none ↦ false
  | some t ↦ ltb_ℤ (add64 cfg.timeout timeout_grace) (since now t)
]

-- `seqno - sc.lastSeqno`, on uint32
unfoldable pub since_last : ℕ → ℕ → ℕ
since_last seqno last = (seqno + 2 ^ 32 - last) % 2 ^ 32

-- The part of `serveEcho` that slides the window, counts the packet and keeps its number. Both tests on
-- the difference are those of the code; so is the shift by its negation, on uint32.
unfoldable pub slide : ℕ → Sconn → Sconn
slide seqno sc =
    let s = since_last seqno sc.last_seqno in
    let w = if ltb 0 s then shl64 sc.received_window s else sc.received_window in
    let new = leb 0 s in
    record sc {
      received_window = if new then bit_or w 1 else bit_or w (shl64 1 (since_last 0 s));
      rwin_valid = new;
      received_count = (sc.received_count + 1) % 2 ^ 32;
      last_seqno = seqno;
    }

-- The window that `serveEcho` puts in its reply.
unfoldable pub sent_window : Sconn → ℕ
sent_window sc = if sc.rwin_valid then sc.received_window else 0

-- `connmgr.sconns`
abbrev pub Conns : Type 0
Conns = Dict Sconn

-- `connmgr.get`: the connection, and the map after.
unfoldable pub get : ServerConfig → ℤ → ℕ → Conns → Option Sconn × Conns
get cfg now ct m = elim (lookup ct m) [
  | none ↦ (none, m)
  | some sc ↦ (some sc, if expired cfg now sc then erase ct m else m)
]

-- `connmgr.remove`
unfoldable pub remove : ℕ → Conns → Option Sconn × Conns
remove ct m = elim (lookup ct m) [ none ↦ (none, m) | some sc ↦ (some sc, erase ct m) ]

-- One step of the loop in `removeSomeExpired`.
unfoldable pub remove_if_expired : ServerConfig → ℤ → ℕ → Conns → Conns
remove_if_expired cfg now ct m = elim (lookup ct m) [
  | none ↦ m
  | some sc ↦ if expired cfg now sc then erase ct m else m
]

unfoldable pub remove_expired : ServerConfig → ℤ → List ℕ → Conns → Conns
remove_expired cfg now [] m = m
remove_expired cfg now (ct ∷ cts) m = remove_expired cfg now cts (remove_if_expired cfg now ct m)

-- `removeSomeExpired`: `order` is the order in which Go visits the map's keys.
unfoldable pub remove_some_expired : ServerConfig → ℤ → List ℕ → Conns → Conns
remove_some_expired cfg now order m = remove_expired cfg now (take check_expired_count order) m

-- `newCtoken`: the candidates are what `rand.Read` gives, and `none` that it would need more of them.
unfoldable pub new_ctoken : List ℕ → Conns → Option ℕ
new_ctoken [] m = none
new_ctoken (ct ∷ cts) m =
    let rest = new_ctoken cts m in elim (lookup ct m) [ none ↦ some ct | some sc ↦ rest ]

-- `connmgr.put`: the connection with its token, and the map after.
unfoldable pub put : ServerConfig → ℤ → List ℕ → List ℕ → Sconn → Conns → Option (Sconn × Conns)
put cfg now order random sc m = do
  let m1 = remove_some_expired cfg now order m
  ct ← new_ctoken random m1
  let sc' = record sc { ctoken = ct }
  some (sc', insert ct sc' m1)
