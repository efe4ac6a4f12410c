-- ===== src/Client/Steps.antt =====
-- client.go: what a step of the sending loop does to its phase.
use mathlib.Core.Option.{some-injective, none-ne-some}
use mathlib.Core.Path.{subst}
use irtt.Prelude.{
  ℕ, ◌≡◌, refl, ap, ◌∙◌, sym, ◌⊎◌, inl, inr, Option, none, some, bind-inv, Bool-cases,
}
use irtt.Prelude.Int.{ℤ}
use irtt.Prelude.Word.{sub64}
use irtt.Time.{Time, sub}
use irtt.Packet.{Mac, Packet}
use irtt.Conn.{Failure, system, Nconn, Network, set_dscp, send}
use irtt.Recorder.{Recorder, record_pre_send, record_post_send, record_timer_err}
use irtt.Client.Send.{
  Plan, Sender, Sending, Phase, ready, sending, sleeping, finished, failed, Turn, step, step_by,
  complete, wake, after_send, plan_sleep, drop_unsent, next_packet,
}

-- The loop has ended, with an error or without.
unfoldable pub IsFailed : Phase → Type 0
IsFailed y = (f : Failure) × (y ≡ failed f)

unfoldable pub IsStopped : Phase → Type 0
IsStopped y = (y ≡ finished) ⊎ IsFailed y

pub finished-IsStopped : {y : Phase} → y ≡ finished → IsStopped y
unfolding IsStopped
finished-IsStopped k = inl k

pub IsFailed-IsStopped : (y : Phase) → IsFailed y → IsStopped y
unfolding IsStopped
IsFailed-IsStopped y k = inr k

-- What a send leaves that did not fail: the recorder has it, and the loop goes on as planned.
pub record IsSent (plan : Plan) (t : Turn) (tsend : Time) (r r' : Recorder) (y : Phase)
    : Type 0 where
  pub posted : (tsent : Time) × (len : ℕ) × (record_post_send tsend tsent len r ≡ some r')
  pub planned : plan_sleep plan t t.net.sent_at ≡ some y

sent_at :
    (net : Network) (c : Nconn) (p : Packet)
    → (send net c p).failure ≡ none
    → (send net c p).packet.tsent ≡ net.sent_at
unfolding send
sent_at net c p e = elim (Bool-cases (set_dscp net p.dscp c).1) [
  | inl z ↦ absurd (none-ne-some _ (sym (rw z at e)))
  | inr z ↦ rw z refl
]

module _ (h : Mac) (plan : Plan) (t : Turn) where
  pub step_ready :
      (x x' : Sending)
      → x.phase ≡ ready
      → step h plan t x ≡ some x'
      → (x'.phase ≡ sending t.before_send)
        × (record_pre_send x.sender.seqno t.before_send x.recorder ≡ some x'.recorder)
  unfolding step step_by
  step_ready x x' q e =
      let (r, z, e1) =
        bind-inv (record_pre_send x.sender.seqno t.before_send x.recorder) _ (rw q at e) in
      let same : record x { recorder = r; phase = sending t.before_send } ≡ x' =
        some-injective _ x' e1 in
      (sym (ap (λ (v : Sending). v.phase) same), z ∙ ap (λ (v : Sending). some v.recorder) same)

  pub step_stopped : (x x' : Sending) → IsStopped x.phase → step h plan t x ≡ some x' → x ≡ x'
  unfolding IsStopped IsFailed step step_by
  step_stopped x x' (inl q) e =
      some-injective x x' (subst (λ y. some x ≡ step_by h plan t y x) (sym q) refl ∙ e)
  step_stopped x x' (inr (f, q)) e =
      some-injective x x' (subst (λ y. some x ≡ step_by h plan t y x) (sym q) refl ∙ e)

  after_send-inv :
      (tsend : Time) (f : Option Failure) (s : Sender) (r : Recorder)
      (y : Sender × Recorder × Phase)
      → after_send h plan t tsend f s r ≡ some y
      → (f ≡ none → s.packet.tsent ≡ t.net.sent_at)
      → IsSent plan t tsend r y.1 y.2 ⊎ IsFailed y.2
  unfolding IsFailed after_send
  after_send-inv tsend (some g) s r y e at =
      let (r', z, e1) = bind-inv (drop_unsent plan.stream r) _ e in
      inr (g, sym (ap (λ v. v.2) (some-injective _ y e1)))
  after_send-inv tsend none s r y e at =
      let (r', z, e1) = bind-inv (record_post_send tsend s.packet.tsent s.packet.fbuf.blen r) _ e in
      let (s', z2, e2) = bind-inv (next_packet h plan.fill_one t.random s) _ e1 in
      let (q, z3, e3) = bind-inv (plan_sleep plan t s.packet.tsent) _ e2 in
      let same : (s', r', q) ≡ y = some-injective _ y e3 in
      inl (record {
        posted = (s.packet.tsent, s.packet.fbuf.blen, z ∙ ap (λ v. some (v.1)) same);
        planned = ap (plan_sleep plan t) (sym (at refl)) ∙ (z3 ∙ ap (λ v. some (v.2)) same);
      })

  pub step_sending :
      (tsend : Time) (x x' : Sending)
      → x.phase ≡ sending tsend
      → step h plan t x ≡ some x'
      → IsSent plan t tsend x.recorder x'.recorder x'.phase ⊎ IsFailed x'.phase
  unfolding step step_by complete
  step_sending tsend x x' q e =
      let sent = send t.net x.sender.conn x.sender.packet in
      let s = record x.sender { packet = sent.packet; conn = sent.conn } in
      let (y, z, e1) =
        bind-inv (after_send h plan t tsend sent.failure s x.recorder) _ (rw q at e) in
      subst (λ (v : Sending). IsSent plan t tsend x.recorder v.recorder v.phase ⊎ IsFailed v.phase)
        (some-injective _ x' e1)
        (after_send-inv tsend sent.failure s x.recorder y z
          (sent_at t.net x.sender.conn x.sender.packet))

  wake-inv :
      (ts : Time) (d : ℤ) (r : Recorder) (y : Recorder × Phase)
      → wake t ts d r ≡ some y
      → ((y.1 ≡ ready) × ((terr : ℤ) × (y.0 ≡ record_timer_err terr r))) ⊎ IsFailed y.1
  unfolding IsFailed wake
  wake-inv ts d r y e = elim (Bool-cases t.cancelled) [
    | inl z ↦ inr (system, sym (ap (λ v. v.1) (some-injective _ y (rw z at e))))
    | inr z ↦
        let (k, q, e1) = bind-inv (sub t.woken_at ts) _ (rw z at e) in
        let same : (record_timer_err (sub64 k d) r, ready) ≡ y = some-injective _ y e1 in
        inl (sym (ap (λ v. v.1) same), (sub64 k d, sym (ap (λ v. v.0) same)))
  ]

  pub step_sleeping :
      (ts : Time) (d : ℤ) (x x' : Sending)
      → x.phase ≡ sleeping ts d
      → step h plan t x ≡ some x'
      → ((x'.phase ≡ ready) × ((terr : ℤ) × (x'.recorder ≡ record_timer_err terr x.recorder)))
        ⊎ IsFailed x'.phase
  unfolding step step_by
  step_sleeping ts d x x' q e =
      let (y, z, e1) = bind-inv (wake t ts d x.recorder) _ (rw q at e) in
      subst
        (λ (v : Sending).
          ((v.phase ≡ ready) × ((terr : ℤ) × (v.recorder ≡ record_timer_err terr x.recorder)))
          ⊎ IsFailed v.phase)
        (some-injective _ x' e1) (wake-inv ts d x.recorder y z)
