-- ===== src/Client/Whole.antt =====
-- client.go: the two loops of a test that is not streamed share a recorder that has room for all of its packets.
use mathlib.Core.Option.{some-injective}
use mathlib.Core.Path.{subst}
use irtt.Prelude.{
  ℕ, suc, ◌+◌, ◌*◌, ◌/◌, ◌^◌, ◌≤◌, ◌<◌, ◌≡◌, refl, ap, ◌∙◌, sym, inl, inr, false, Option, some,
  arith, bind-inv, length,
}
use irtt.Prelude.Int.{ℤ, pos}
use irtt.Code.{Code}
use irtt.Time.{Time, is_zero}
use irtt.Packet.{Mac}
use irtt.Conn.{Arrival}
use irtt.Recorder.{Recorder, new_recorder, pcount}
use irtt.Recorder.Counts.{Reach, start, Reach-IsCounted, replied}
use irtt.Client.Send.{Plan, Sending, ready, sending, sleeping, Turn, step}
use irtt.Client.Pace.{slot}
use irtt.Client.Steps.{IsFailed}
use irtt.Client.Ends.{IsTimed, pcount_lem}
use irtt.Client.Orderly.{
  IsPaced, IsPaced-bound, IsOrderly, reads-IsOrderly, ready-IsOrderly, sleeping-IsOrderly,
  sending-IsOrderly,
}
use irtt.Params.{Params}
use irtt.Config.{ClientConfig}
use irtt.Code.{Code}
use irtt.Client.Start.{start_run-inv}
use irtt.Client.Run.{Dialed, Options, started, start_run}
use irtt.Client.Run.{Testing, sends, reads, take_event}

-- What the client's two loops can come to from `x0`, after `k` events, with `n` packets begun; the next one is
-- planned for interval `c`. No packet is sent more than half an interval early, the clock does not go back from a
-- send to what follows it, or overflow, and a packet comes with a time of receipt.
pub data Trace (h : Mac) (plan : Plan) (i w m : ℕ) (x0 : Testing)
    : ℕ → ℕ → ℕ → Testing → Type 0 where
  begun : Trace h plan i w m x0 0 0 0 x0
  before_send :
      {c n k : ℕ} {x x' : Testing} (t : Turn)
      → Trace h plan i w m x0 c n k x
      → x.sending.phase ≡ ready
      → take_event h plan (sends t) x ≡ some x'
      → Trace h plan i w m x0 c (suc n) (suc k) x'
  sent :
      {c n k : ℕ} {x x' : Testing} (t : Turn) (tsend : Time) (s b : ℕ)
      → Trace h plan i w m x0 c n k x
      → x.sending.phase ≡ sending tsend
      → t.net.sent_at.mono ≡ pos (m + s)
      → t.now.mono ≡ pos (m + b)
      → s ≤ b
      → i * c ≤ s + i / 2
      → w + m + b + 2 * i < 2 ^ 63
      → take_event h plan (sends t) x ≡ some x'
      → Trace h plan i w m x0 (slot i s b) n (suc k) x'
  woken :
      {c n k : ℕ} {x x' : Testing} (t : Turn) (ts : Time) (d : ℤ)
      → Trace h plan i w m x0 c n k x
      → x.sending.phase ≡ sleeping ts d
      → take_event h plan (sends t) x ≡ some x'
      → Trace h plan i w m x0 c n (suc k) x'
  read :
      {c n k : ℕ} {x x' : Testing} (a : Arrival)
      → Trace h plan i w m x0 c n k x
      → is_zero a.received_at ≡ false
      → take_event h plan (reads a) x ≡ some x'
      → Trace h plan i w m x0 c n (suc k) x'

module _ (h : Mac) (plan : Plan) (i d w m cap : ℕ) (x0 : Testing) (p : IsTimed i d w m plan)
    (fresh : x0.sending.recorder ≡ new_recorder cap) (at_start : x0.sending.phase ≡ ready) where
  sends-IsOrderly :
      (t : Turn) (x x' : Testing) (P : Sending → Type 0)
      → take_event h plan (sends t) x ≡ some x'
      → ((s : Sending) → step h plan t x.sending ≡ some s → P s)
      → P x'.sending
  unfolding take_event
  sends-IsOrderly t x x' P e f =
      let (s, z, e1) = bind-inv (step h plan t x.sending) _ e in
      subst P (ap (λ (v : Testing). v.sending) (some-injective _ x' e1)) (f s z)

  Trace-IsOrderly :
      {c n k : ℕ} {x : Testing}
      → Trace h plan i w m x0 c n k x
      → IsOrderly cap (d / i) c n k x.sending
  unfolding IsPaced take_event
  Trace-IsOrderly begun = record {
    reached = inr (0, omega arith, subst (Reach cap 0 0 0) (sym fresh) start);
    paced = subst (IsPaced (d / i) 0 0) (sym at_start) (omega arith, omega arith);
  }
  Trace-IsOrderly {c} {n = suc n} {k = suc k} (before_send {x = x} {x' = x'} t q y e) =
      sends-IsOrderly t x x' (IsOrderly cap (d / i) c (suc n) (suc k)) e
        (λ s z. ready-IsOrderly h plan cap (d / i) c n k t x.sending s (Trace-IsOrderly q) z y)
  Trace-IsOrderly {n} {k = suc k}
        (sent {c = c} {x = x} {x' = x'} t tsend s b q y es eb o early l e) =
      sends-IsOrderly t x x' (IsOrderly cap (d / i) (slot i s b) n (suc k)) e (λ v z.
        sending-IsOrderly h plan cap (d / i) c n k t x.sending v (Trace-IsOrderly q) z i d w m p
          refl tsend s b y es eb o early l)
  Trace-IsOrderly {c} {n} {k = suc k} (woken {x = x} {x' = x'} t ts ds q y e) =
      sends-IsOrderly t x x' (IsOrderly cap (d / i) c n (suc k)) e (λ v z.
        sleeping-IsOrderly h plan cap (d / i) c n k t x.sending v (Trace-IsOrderly q) z ts ds y)
  Trace-IsOrderly {c} {n} {k = suc k} (read {x = x} {x' = x'} a q z e) =
      reads-IsOrderly h plan cap (d / i) c n k x.receive_failure a x x' (Trace-IsOrderly q) z e

  Trace-IsWhole :
      {c n k : ℕ} {x : Testing}
      → Trace h plan i w m x0 c n k x
      → pcount plan.params.duration plan.params.interval ≡ some cap
      → k < 2 ^ 64
      → ¬ IsFailed x.sending.phase
      → (n ≤ cap)
        × (length x.sending.recorder.round_trips ≡ n)
        × (replied x.sending.recorder.round_trips ≡ x.sending.recorder.rtt_stats.n)
  Trace-IsWhole {c} {n} {k} {x} q room small no_failure =
      let g = Trace-IsOrderly q in
      let enough : n ≤ cap = omega (
        arith,
        IsPaced-bound (d / i) c n x.sending.phase g.paced,
        pcount_lem d i cap p.positive.0 (omega (arith, p.range))
            (rw (p.duration, p.interval) at room),
      ) in
      elim (g.reached) [
        | inl f ↦ absurd (no_failure f)
        | inr (j, l, r) ↦
            let counted = Reach-IsCounted r (omega arith) in
            (enough, counted.kept refl enough, counted.every refl enough)
      ]

module _ (h : Mac) (plan : Plan) (i d w m cap : ℕ) (x0 : Testing) (p : IsTimed i d w m plan) where
  -- In a test of finite duration that is not streamed, which a run has started, no round trip is overwritten, if
  -- no packet is sent more than half an interval before it is planned, the clock does not go back from a send to
  -- what follows it, no time overflows, every packet that is read comes with a time of receipt that is not zero,
  -- and there are fewer than 2 ^ 64 events. Then, however the steps of the two loops take turns, as long as the
  -- sending loop has not failed: no more packets were begun than the recorder has room for; it has a round trip
  -- for each of them, and as many with a reply as the replies that it has counted.
  pub start_run-IsWhole :
      {c n k : ℕ} {x : Testing} (permitted : ℤ → Option Code) (cfg : ClientConfig) (o : Options)
      (dl : Dialed) (granted : Params) (r : Recorder)
      → cfg.stream ≡ false
      → start_run permitted cfg o dl ≡ some (started granted cap r)
      → granted.duration ≡ plan.params.duration
      → granted.interval ≡ plan.params.interval
      → x0.sending.recorder ≡ r
      → x0.sending.phase ≡ ready
      → Trace h plan i w m x0 c n k x
      → k < 2 ^ 64
      → ¬ IsFailed x.sending.phase
      → (n ≤ cap)
        × (length x.sending.recorder.round_trips ≡ n)
        × (replied x.sending.recorder.round_trips ≡ x.sending.recorder.rtt_stats.n)
  start_run-IsWhole permitted cfg o dl granted r no_stream e same same' fresh at_start q small
        no_failure =
      let (room, made) = start_run-inv cfg o granted cap r permitted dl no_stream e in
      Trace-IsWhole h plan i d w m cap x0 p (fresh ∙ made) at_start q
        (rw (sym same, sym same') room) small no_failure
