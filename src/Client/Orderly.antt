-- ===== src/Client/Orderly.antt =====
-- client.go: what an event keeps of the two loops: how many packets were begun, and how the recorder was reached.
use native.Mathlib.Nat.{le-div_iff_mul-le, mul_comm}
use mathlib.Core.Bool.{true≢false}
use mathlib.Core.Option.{some-injective}
use mathlib.Core.Path.{subst}
use irtt.Prelude.{
  ℕ, suc, ◌+◌, ◌*◌, ◌/◌, ◌^◌, ◌≤◌, ◌<◌, ◌≡◌, refl, ap, ◌∙◌, sym, ◌⊎◌, inl, inr, Bool, true, false,
  Option, none, some, arith, bind-inv, Option-cases,
}
use irtt.Prelude.Int.{ℤ, pos}
use irtt.Code.{Code}
use irtt.Time.{Time, Timestamp, is_zero}
use irtt.Packet.{Mac, Packet}
use irtt.Conn.{Failure, Arrival, creceive}
use irtt.Recorder.{Recorder}
use irtt.Recorder.Receive.{record_receive}
use irtt.Recorder.Counts.{Reach, pre_send, post_send, timer_err, receive}
use irtt.Client.{check_echo, Reading, receive_one, record_echo}
use irtt.Client.Replies.{check_echo-IsExpected}
use irtt.Client.Received.{expected-trcvd}
use irtt.Client.Send.{Plan, Sending, Phase, ready, sending, sleeping, finished, failed, Turn, step}
use irtt.Client.Pace.{slot, slot_later}
use irtt.Client.Steps.{IsFailed, step_ready, step_sending, step_sleeping}
use irtt.Client.Ends.{IsTimed, plan_sleep-inv}
use irtt.Client.Run.{Testing, read_next}

-- How many packets the loop has begun, by where it is: `q` intervals end before the test does.
unfoldable pub IsPaced : ℕ → ℕ → ℕ → Phase → Type 0
IsPaced q c n ready = (n ≤ c) × (c ≤ q)
IsPaced q c n (sending t) = (n ≤ suc c) × (c ≤ q)
IsPaced q c n (sleeping t d) = (n ≤ c) × (c ≤ q)
IsPaced q c n finished = n ≤ suc q
IsPaced q c n (failed f) = n ≤ suc q

pub IsPaced-bound : (q c n : ℕ) (y : Phase) → IsPaced q c n y → n ≤ suc q
unfolding IsPaced
IsPaced-bound q c n ready g = omega (arith, g.0, g.1)
IsPaced-bound q c n (sending t) g = omega (arith, g.0, g.1)
IsPaced-bound q c n (sleeping t d) g = omega (arith, g.0, g.1)
IsPaced-bound q c n finished g = g
IsPaced-bound q c n (failed f) g = g

is_failed : Phase → Bool
is_failed (failed f) = true
is_failed y = false

alive : {y : Phase} (z : Phase) → y ≡ z → is_failed z ≡ false → ¬ IsFailed y
unfolding IsFailed is_failed
alive z e l (f, y) = true≢false (sym (ap is_failed y) ∙ (ap is_failed e ∙ l))

-- A recorder that was reached by no more than `k` operations, unless the sending loop has failed.
pub record IsOrderly (cap q c n k : ℕ) (x : Sending) : Type 0 where
  pub reached : IsFailed x.phase ⊎ ((j : ℕ) × (j ≤ k) × Reach cap 0 n j x.recorder)
  pub paced : IsPaced q c n x.phase

-- One read
module _ (h : Mac) (plan : Plan) (cap n j : ℕ) where
  echoed :
      (a : Arrival) (p p1 : Packet) (r : Recorder) (o : Packet × (Timestamp ⊎ Code)) (v : Reading)
      → is_zero a.received_at ≡ false
      → Reach cap 0 n j r
      → creceive h a p ≡ some (p1, none)
      → check_echo plan.params p1 ≡ some o
      → record_echo r o ≡ some v
      → (j' : ℕ) × (j' ≤ suc j) × Reach cap 0 n j' v.recorder
  unfolding record_echo
  echoed a p p1 r (p2, inr c) v z g k k2 e =
      (j, omega arith, subst (λ (v : Reading). Reach cap 0 n j v.recorder) (some-injective _ v e) g)
  echoed a p p1 r (p2, inl sts) v z g k k2 e =
      let ((x, r'), l, e1) = bind-inv (record_receive p2 sts r) _ e in
      let x' = check_echo-IsExpected plan.params p1 p2 sts k2 in
      let at = expected-trcvd h plan.params a p p1 p2 k x'.fields in
      (
        suc j,
        omega arith,
        subst (λ (v : Reading). Reach cap 0 n (suc j) v.recorder) (some-injective _ v e1)
            (receive p2 sts g (ap is_zero at ∙ z) l),
      )

  Reach-one :
      (a : Arrival) (p : Packet) (r : Recorder) (v : Reading)
      → is_zero a.received_at ≡ false
      → Reach cap 0 n j r
      → receive_one h plan.params a p r ≡ some v
      → (j' : ℕ) × (j' ≤ suc j) × Reach cap 0 n j' v.recorder
  unfolding receive_one
  Reach-one a p r v z g e =
      let ((p1, f), k, e1) = bind-inv (creceive h a p) _ e in
      elim (Option-cases f) [
        | inr (c, y) ↦ (
          j,
          omega arith,
          subst (λ (v : Reading). Reach cap 0 n j v.recorder) (some-injective _ v (rw y at e1)) g,
        )
        | inl y ↦
            let (o, k2, e2) = bind-inv (check_echo plan.params p1) _ (rw y at e1) in
            echoed a p p1 r o v z g (k ∙ ap (λ f. some (p1, f)) y) k2 e2
      ]

-- The events, one at a time
module _ (h : Mac) (plan : Plan) (cap q c n k : ℕ) where
  pub reads-IsOrderly :
      (f : Option Failure) (a : Arrival) (x x' : Testing)
      → IsOrderly cap q c n k x.sending
      → is_zero a.received_at ≡ false
      → read_next h plan f a x ≡ some x'
      → IsOrderly cap q c n (suc k) x'.sending
  unfolding read_next
  reads-IsOrderly (some f) a x x' g z e =
      subst (λ (v : Testing). IsOrderly cap q c n (suc k) v.sending) (some-injective x x' e)
        (record { reached = later g.reached; paced = g.paced })
    where
      later :
          IsFailed x.sending.phase ⊎ ((j : ℕ) × (j ≤ k) × Reach cap 0 n j x.sending.recorder)
          → IsFailed x.sending.phase ⊎ ((j : ℕ) × (j ≤ suc k) × Reach cap 0 n j x.sending.recorder)
      later (inl f) = inl f
      later (inr (j, l, r)) = inr (j, omega arith, r)
  reads-IsOrderly none a x x' g z e =
      let (v, z2, e1) = bind-inv (receive_one h plan.params a x.packet x.sending.recorder) _ e in
      subst (λ (v : Testing). IsOrderly cap q c n (suc k) v.sending) (some-injective _ x' e1)
        (record { reached = once v z2 g.reached; paced = g.paced })
    where
      once :
          (v : Reading)
          → receive_one h plan.params a x.packet x.sending.recorder ≡ some v
          → IsFailed x.sending.phase ⊎ ((j : ℕ) × (j ≤ k) × Reach cap 0 n j x.sending.recorder)
          → IsFailed x.sending.phase ⊎ ((j : ℕ) × (j ≤ suc k) × Reach cap 0 n j v.recorder)
      once v z2 (inl f) = inl f
      once v z2 (inr (j, l, r)) =
          let (j', l', r') = Reach-one h plan cap n j a x.packet x.sending.recorder v z r z2 in
          inr (j', omega arith, r')

  module _ (t : Turn) (x x' : Sending) (g : IsOrderly cap q c n k x)
      (e : step h plan t x ≡ some x') where
    pub ready-IsOrderly : x.phase ≡ ready → IsOrderly cap q c (suc n) (suc k) x'
    unfolding IsPaced is_failed
    ready-IsOrderly y =
        let (ph, pre) = step_ready h plan t x x' y e in
        let paced : IsPaced q c n ready = subst (IsPaced q c n) y g.paced in
        record {
          reached = elim (g.reached) [
            | inl no_more ↦ absurd (alive ready y refl no_more)
            | inr (j, l, r) ↦ inr (suc j, omega arith, pre_send x.sender.seqno t.before_send r pre)
          ];
          paced = subst (IsPaced q c (suc n)) (sym ph) (omega (arith, paced.0), paced.1);
        }

    pub sleeping-IsOrderly :
        (ts : Time) (d : ℤ) → x.phase ≡ sleeping ts d → IsOrderly cap q c n (suc k) x'
    unfolding IsPaced is_failed IsFailed
    sleeping-IsOrderly ts d y =
        let paced : IsPaced q c n (sleeping ts d) = subst (IsPaced q c n) y g.paced in
        elim (step_sleeping h plan t ts d x x' y e) [
          | inr (f, ph) ↦ record {
            reached = inl (f, ph);
            paced = subst (IsPaced q c n) (sym ph) (omega (arith, paced.0, paced.1));
          }
          | inl (ph, (terr, same)) ↦ record {
            reached = elim (g.reached) [
              | inl no_more ↦ absurd (alive (sleeping ts d) y refl no_more)
              | inr (j, l, r) ↦
                  inr (
                    suc j,
                    omega arith,
                    subst (Reach cap 0 n (suc j)) (sym same) (timer_err terr r),
                  )
            ];
            paced = subst (IsPaced q c n) (sym ph) paced;
          }
        ]

    module _ (i d w m : ℕ) (p : IsTimed i d w m plan) (lasts : q ≡ d / i) where
      pub sending-IsOrderly :
          (tsend : Time) (s b : ℕ)
          → x.phase ≡ sending tsend
          → t.net.sent_at.mono ≡ pos (m + s)
          → t.now.mono ≡ pos (m + b)
          → s ≤ b
          → i * c ≤ s + i / 2
          → w + m + b + 2 * i < 2 ^ 63
          → IsOrderly cap q (slot i s b) n (suc k) x'
      unfolding IsPaced is_failed IsFailed
      sending-IsOrderly tsend s b y es eb o early l =
          let paced : IsPaced q c n (sending tsend) = subst (IsPaced q c n) y g.paced in
          let later = slot_later i c s b p.positive.0 early o in
          elim (step_sending h plan t tsend x x' y e) [
            | inr (f, ph) ↦ record {
              reached = inl (f, ph);
              paced = subst (IsPaced q (slot i s b) n) (sym ph) (omega (arith, paced.0, paced.1));
            }
            | inl posted ↦ record {
              reached = elim (g.reached) [
                | inl no_more ↦ absurd (alive (sending tsend) y refl no_more)
                | inr (j, le, r) ↦
                    let (ts, len, e1) = posted.posted in
                    inr (suc j, omega arith, post_send tsend ts len r e1)
              ];
              paced = elim (plan_sleep-inv i d w m plan p t s b x'.phase es eb o l posted.planned) [
                | inl ph ↦
                    subst (IsPaced q (slot i s b) n) (sym ph) (omega (arith, paced.0, paced.1))
                | inr ((ds, ph), before_end) ↦ subst (IsPaced q (slot i s b) n) (sym ph) (
                  omega (arith, paced.0, later),
                  rw lasts (
                      (le-div_iff_mul-le p.positive.0).1
                        (omega (arith, mul_comm i (slot i s b), before_end))),
                )
              ];
            }
          ]
