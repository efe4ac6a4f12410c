-- ===== src/Client/Ends.antt =====
-- client.go: the sending loop comes to its end.
use native.Mathlib.Nat.{le-div_iff_mul-le, mul_comm, div-le_self, mod-eq_of_lt}
use mathlib.Core.Option.{some-injective}
use mathlib.Core.Path.{subst}
use irtt.Prelude.{
  ℕ, zero, suc, ◌+◌, ◌*◌, ◌/◌, ◌^◌, ◌≤◌, ◌<◌, ◌≡◌, refl, ◌∙◌, sym, ◌⊎◌, inl, inr, true, false, not,
  List, [], ◌∷◌, some, arith, ltb, bind-inv, Bool-cases, length,
}
use irtt.Prelude.Int.{ℤ, pos, ltb_ℤ}
use irtt.Time.{sub, is_zero, invalid_duration}
use irtt.Packet.{Mac}
use irtt.Recorder.{divide, pcount}
use irtt.Client.Send.{
  Plan, Sending, Phase, ready, sleeping, finished, Turn, is_over, test_end, step, plan_sleep,
  send_one, send_all,
}
use irtt.Client.Pace.{
  slot, slot_later, at_time, before_time, add_time, next_send_lem, IsOnTime, no_more, one_more,
}
use irtt.Client.Steps.{
  IsStopped, finished-IsStopped, IsFailed-IsStopped, step_ready, step_stopped, step_sending,
  step_sleeping,
}

-- A test of `d` nanoseconds that has a start, at the wall time `w` and `m` nanoseconds after the clock's zero.
pub record IsTimed (i d w m : ℕ) (plan : Plan) : Type 0 where
  pub interval : plan.params.interval ≡ pos i
  pub duration : plan.params.duration ≡ pos d
  pub start : plan.start ≡ record { wall = pos w; mono = pos m }
  pub end : test_end plan.params.duration plan.start ≡ some plan.end
  pub positive : (0 < i) × (0 < w) × (0 < m)
  pub range : w + m + d + 1 < 2 ^ 63

pub pcount_lem : (d i n : ℕ) → 0 < i → d < 2 ^ 63 → pcount (pos d) (pos i) ≡ some n → n ≡ 1 + d / i
unfolding pcount divide
pcount_lem d zero n h l e = absurd (omega arith)
pcount_lem d (suc j) n h l e = omega (
  arith,
  some-injective _ n e,
  div-le_self d (suc j),
  mod-eq_of_lt (small (d / suc j) (omega (arith, div-le_self d (suc j)))),
)
  where
    small : (q : ℕ) → q < 2 ^ 63 → q < 2 ^ 64
    small q l = omega arith

not_zero : (w m : ℕ) → 0 < w → is_zero (at_time w m) ≡ false
not_zero w m h = ground arith

module _ (i d w m : ℕ) (plan : Plan) (g : IsTimed i d w m plan) where
  end_lem : plan.end ≡ at_time (w + d) (m + d)
  unfolding test_end
  end_lem = some-injective _ _ (
      sym g.end
      ∙ rw (g.duration, g.start, short)
          (add_time w m d g.positive.1 g.positive.2 (omega (arith, g.range))
            (omega (arith, g.range))))
    where
      short : ltb_ℤ (pos d) invalid_duration ≡ true
      short = let r = g.range in ground arith

  ends : (k : ℕ) → is_over plan.end (at_time (w + k) (m + k)) ≡ some (not (ltb (m + k) (m + d)))
  unfolding is_over
  ends k =
      rw
        (
          end_lem,
          not_zero (w + d) (m + d) (omega (arith, g.positive.1)),
          before_time (w + k) (m + k) (w + d) (m + d) (omega (arith, g.positive.2))
              (omega (arith, g.positive.2)),
        )
        refl

  pub plan_sleep-inv :
      (t : Turn) (s n : ℕ) (y : Phase)
      → t.net.sent_at.mono ≡ pos (m + s)
      → t.now.mono ≡ pos (m + n)
      → s ≤ n
      → w + m + n + 2 * i < 2 ^ 63
      → plan_sleep plan t t.net.sent_at ≡ some y
      → (y ≡ finished) ⊎ (((k : ℤ) × (y ≡ sleeping t.asleep_at k)) × (i * slot i s n < d))
  unfolding plan_sleep
  plan_sleep-inv t s n y es en o l e =
      let k = i * slot i s n in
      let (hi, hw, hm) = g.positive in
      let (over, z, e1) = bind-inv (is_over plan.end (at_time (w + k) (m + k))) _ (
        rw (g.interval, g.start, next_send_lem w m i s n t.now t.net.sent_at hi hw hm en es o l) at
          e) in
      let b : not (ltb (m + k) (m + d)) ≡ over = some-injective _ _ (sym (ends k) ∙ z) in
      elim (Bool-cases over) [
        | inl q ↦ inl (sym (some-injective _ y (rw q at e1)))
        | inr q ↦
            let (ds, _, e2) = bind-inv (sub (at_time (w + k) (m + k)) t.asleep_at) _ (rw q at e1) in
            inr ((ds, sym (some-injective _ y e2)), sooner k (b ∙ q))
      ]
    where
      sooner : (k : ℕ) → not (ltb (m + k) (m + d)) ≡ false → k < d
      sooner k q = ground arith

  -- One turn of a loop that is on time
  send_one-inv :
      (h : Mac) (t : Turn) (s n : ℕ) (x x' : Sending)
      → x.phase ≡ ready
      → t.net.sent_at.mono ≡ pos (m + s)
      → t.now.mono ≡ pos (m + n)
      → s ≤ n
      → w + m + n + 2 * i < 2 ^ 63
      → send_one h plan t x ≡ some x'
      → IsStopped x'.phase ⊎ ((x'.phase ≡ ready) × (i * slot i s n < d))
  unfolding send_one
  send_one-inv h t s n x x' q es en o l e =
      let (x1, z1, e1) = bind-inv (step h plan t x) _ e in
      let (x2, z2, e2) = bind-inv (step h plan t x1) _ e1 in
      let stays : IsStopped x2.phase → IsStopped x'.phase =
        λ k. subst (λ (v : Sending). IsStopped v.phase) (step_stopped h plan t x2 x' k e2) k in
      elim (step_sending h plan t t.before_send x1 x2 (step_ready h plan t x x1 q z1).0 z2) [
        | inr k ↦ inl (stays (IsFailed-IsStopped _ k))
        | inl p ↦ elim (plan_sleep-inv t s n x2.phase es en o l p.planned) [
          | inl k ↦ inl (stays (finished-IsStopped k))
          | inr ((ds, k), b) ↦ elim (step_sleeping h plan t t.asleep_at ds x2 x' k e2) [
            | inl (r, _) ↦ inr (r, b)
            | inr r ↦ inl (IsFailed-IsStopped _ r)
          ]
        ]
      ]

  stopped_send_all :
      (h : Mac) (turns : List Turn) (x x' : Sending)
      → IsStopped x.phase
      → send_all h plan turns x ≡ some x'
      → x ≡ x'
  unfolding send_all send_one
  stopped_send_all h [] x x' k e = some-injective x x' e
  stopped_send_all h (t ∷ turns) x x' k e =
      let (y, z, e1) = bind-inv (send_one h plan t x) _ e in
      let (x1, z1, z2) = bind-inv (step h plan t x) _ z in
      let (x2, z3, z4) = bind-inv (step h plan t x1) _ z2 in
      let a : x ≡ x1 = step_stopped h plan t x x1 k z1 in
      let k1 = subst (λ (v : Sending). IsStopped v.phase) a k in
      let b : x1 ≡ x2 = step_stopped h plan t x1 x2 k1 z3 in
      let k2 = subst (λ (v : Sending). IsStopped v.phase) b k1 in
      let c : x2 ≡ y = step_stopped h plan t x2 y k2 z4 in
      a
      ∙ (b
          ∙ (c
              ∙ stopped_send_all h turns y x' (subst (λ (v : Sending). IsStopped v.phase) c k2) e1))

  ends_from :
      (h : Mac) (c : ℕ) (turns : List Turn) (x x' : Sending)
      → IsOnTime i w m c turns
      → d / i < c + length turns
      → c ≤ d / i
      → x.phase ≡ ready
      → send_all h plan turns x ≡ some x'
      → IsStopped x'.phase
  unfolding send_all
  ends_from h c [] x x' no_more b1 b2 q e = absurd (omega arith)
  ends_from h c (t ∷ turns) x x' (one_more s n es en o early l rest) b1 b2 q e =
      let (y, z, e1) = bind-inv (send_one h plan t x) _ e in
      elim (send_one-inv h t s n x y q es en o l z) [
        | inl k ↦ subst (λ (v : Sending). IsStopped v.phase) (stopped_send_all h turns y x' k e1) k
        | inr (r, b) ↦
            ends_from h (slot i s n) turns y x' rest
              (omega (arith, slot_later i c s n g.positive.0 early o))
              ((le-div_iff_mul-le g.positive.0).1 (omega (arith, mul_comm i (slot i s n)))) r e1
      ]

  -- A test of a given duration whose packets are sent no more than half an interval early ends: the loop has no
  -- more turns than the count of round trips that `pcount` gives, which is also the room of the recorder.
  pub send_all-IsStopped :
      (h : Mac) (turns : List Turn) (x x' : Sending) (n : ℕ)
      → IsOnTime i w m 0 turns
      → pcount plan.params.duration plan.params.interval ≡ some n
      → n ≤ length turns
      → x.phase ≡ ready
      → send_all h plan turns x ≡ some x'
      → IsStopped x'.phase
  send_all-IsStopped h turns x x' n o p b q e =
      ends_from h 0 turns x x' o
        (omega (
          arith,
          pcount_lem d i n g.positive.0 (omega (arith, g.range)) (rw (g.duration, g.interval) at p),
        ))
        (omega arith) q e
