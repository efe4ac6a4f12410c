-- ===== src/Recorder/Counts.antt =====
-- recorder.go: what the recorder counts, over any sequence of its operations.
use irtt.Prelude.{
  ℕ, zero, suc, ◌+◌, ◌^◌, ◌<◌, ◌≤◌, ◌≡◌, refl, ap, ◌∙◌, sym, List, [], ◌∷◌, ◌++◌, some, arith,
  length, set, get_elem?, ◌⊎◌, inl, inr, if◌then◌else◌, Bool, true, false, Bool-cases, Option-cases,
  ltb, ◌==◌, length-set, length-append, ◌-◌, take, length-take, guard, bind-inv,
}
use mathlib.Core.Option.{none-ne-some, some-injective}
use mathlib.Core.Path.{subst}
use irtt.Prelude.Int.{ℤ}
use irtt.Code.{Code}
use irtt.Time.{Time, sub, Timestamp, is_zero}
use irtt.Packet.{Packet}
use irtt.Recorder.{
  RoundTripData, new_round_trip, Recorder, new_recorder, store_round_trip, record_pre_send,
  record_post_send, record_timer_err, reply_received, remove_last_round_trip,
}
use irtt.Recorder.Outcome.{
  IsRecorded, Outcome, ignored, duplicate, recorded, record_receive-Outcome,
}
use irtt.Recorder.Receive.{record_receive}

-- The round trips that have a reply.
unfoldable pub replied : List RoundTripData → ℕ
replied [] = 0
replied (d ∷ ds) = if reply_received d then suc (replied ds) else replied ds

-- A recorder of capacity `c` after `k` operations, `n` of them `recordPreSend` and `m` of them
-- `removeLastRoundTrip`. A reply comes with the time of its receipt, which is not zero.
pub data Reach (c : ℕ) : ℕ → ℕ → ℕ → Recorder → Type 0 where
  start : Reach c 0 0 0 (new_recorder c)
  pre_send :
      {m n k : ℕ} {r r' : Recorder} (sn : ℕ) (now : Time)
      → Reach c m n k r
      → record_pre_send sn now r ≡ some r'
      → Reach c m (suc n) (suc k) r'
  remove :
      {m n k : ℕ} {r r' : Recorder}
      → Reach c m n k r
      → remove_last_round_trip r ≡ some r'
      → Reach c (suc m) n (suc k) r'
  post_send :
      {m n k : ℕ} {r r' : Recorder} (tsend tsent : Time) (len : ℕ)
      → Reach c m n k r
      → record_post_send tsend tsent len r ≡ some r'
      → Reach c m n (suc k) r'
  timer_err :
      {m n k : ℕ} {r : Recorder} (terr : ℤ)
      → Reach c m n k r
      → Reach c m n (suc k) (record_timer_err terr r)
  receive :
      {m n k : ℕ} {r r' : Recorder} {x : Bool ⊎ Code} (p : Packet) (sts : Timestamp)
      → Reach c m n k r
      → is_zero p.trcvd ≡ false
      → record_receive p sts r ≡ some (x, r')
      → Reach c m n (suc k) r'

-- The counts after `k` operations, `n` of them `recordPreSend` and `m` of them `removeLastRoundTrip`.
pub record IsCounted (c m n k : ℕ) (r : Recorder) : Type 0 where
  pub capacity : r.cap ≡ c
  pub room : length r.round_trips ≤ n
  pub total : r.rtt_stats.n + r.duplicates ≤ k
  pub late : r.late_packets ≤ r.rtt_stats.n
  pub delays : r.send_delay_stats.n ≤ r.rtt_stats.n
  pub replies : replied r.round_trips ≤ r.rtt_stats.n
  pub every : m ≡ 0 → n ≤ c → replied r.round_trips ≡ r.rtt_stats.n
  pub kept : m ≡ 0 → n ≤ c → length r.round_trips ≡ n

fresh : (t : Time) → reply_received (new_round_trip t) ≡ false
unfolding new_round_trip reply_received
fresh t = refl

replied-append :
    (ds : List RoundTripData) (t : Time) → replied (ds ++ (new_round_trip t ∷ [])) ≡ replied ds
unfolding replied
replied-append [] t = rw (fresh t) refl
replied-append (d ∷ ds) t = rw (replied-append ds t) refl

replied-set_new :
    (ds : List RoundTripData) (i : ℕ) (t : Time)
    → replied (set ds i (new_round_trip t)) ≤ replied ds
unfolding replied
replied-set_new [] i t = omega arith
replied-set_new (d ∷ ds) zero t = elim (Bool-cases (reply_received d)) [
  | inl e ↦ rw (e, fresh t) (omega arith)
  | inr e ↦ rw (e, fresh t) (omega arith)
]
replied-set_new (d ∷ ds) (suc i) t = elim (Bool-cases (reply_received d)) [
  | inl e ↦ rw e (omega (arith, replied-set_new ds i t))
  | inr e ↦ rw e (replied-set_new ds i t)
]

replied-set :
    (ds : List RoundTripData) (i : ℕ) {d : RoundTripData} (d' : RoundTripData)
    → get_elem? ds i ≡ some d
    → reply_received d ≡ false
    → reply_received d' ≡ true
    → replied (set ds i d') ≡ suc (replied ds)
unfolding replied
replied-set [] i {d} d' e n y = absurd (none-ne-some d e)
replied-set (b ∷ ds) zero {d} d' e n y =
    let e' : b ≡ d = some-injective b d e in rw (y, ap reply_received e' ∙ n) refl
replied-set (b ∷ ds) (suc i) d' e n y = elim (Bool-cases (reply_received b)) [
  | inl z ↦ rw z (ap suc (replied-set ds i d' e n y))
  | inr z ↦ rw z (replied-set ds i d' e n y)
]

-- `recordPreSend` on the fields that are counted.
record IsSent (now : Time) (r r' : Recorder) : Type 0 where
  stored :
      (r'.round_trips ≡ r.round_trips ++ (new_round_trip now ∷ []))
      ⊎ ((j : ℕ) × (r'.round_trips ≡ set r.round_trips j (new_round_trip now))
          × (r.cap ≤ length r.round_trips))
  stats :
      (r'.rtt_stats ≡ r.rtt_stats)
      × (r'.send_delay_stats ≡ r.send_delay_stats)
      × (r'.late_packets ≡ r.late_packets)
  kept : (r'.duplicates ≡ r.duplicates) × (r'.cap ≡ r.cap)

store_round_trip-inv :
    (c i : ℕ) (d : RoundTripData) (rts rts' : List RoundTripData) (i' : ℕ)
    → store_round_trip c i d rts ≡ some (rts', i')
    → (rts' ≡ rts ++ (d ∷ [])) ⊎ ((j : ℕ) × (rts' ≡ set rts j d) × (c ≤ length rts))
unfolding store_round_trip
store_round_trip-inv c i d rts rts' i' e = elim (Bool-cases (ltb (length rts) c)) [
  | inl z ↦ inl (sym (ap (λ q. q.0) (some-injective _ (rts', i') (rw z at e))))
  | inr z ↦ elim (Bool-cases (ltb (if i == length rts then 0 else i) (length rts))) [
    | inl y ↦ inr (
      if i == length rts then 0 else i,
      sym (ap (λ q. q.0) (some-injective _ (rts', i') (rw (z, y) at e))),
      full c (length rts) z,
    )
    | inr y ↦ absurd (none-ne-some (rts', i') (rw (z, y) at e))
  ]
]
  where
    full : (c l : ℕ) → ltb l c ≡ false → c ≤ l
    full c l z = ground arith

record_pre_send-IsSent :
    (sn : ℕ) (now : Time) (r r' : Recorder) → record_pre_send sn now r ≡ some r' → IsSent now r r'
unfolding record_pre_send
record_pre_send-IsSent sn now r r' e =
    let i = if ltb 0 (length r.round_trips) then r.sent_index + 1 else r.sent_index in
    elim (Option-cases (store_round_trip r.cap i (new_round_trip now) r.round_trips)) [
      | inl z ↦ absurd (none-ne-some r' (rw z at e))
      | inr (s, z) ↦
          subst (λ t. IsSent now r t) (some-injective _ r' (rw z at e))
            (record {
              stored = store_round_trip-inv r.cap i (new_round_trip now) r.round_trips s.0 s.1 z;
              stats = (refl, refl, refl);
              kept = (refl, refl);
            })
    ]

start-IsCounted : (c : ℕ) → IsCounted c 0 0 0 (new_recorder c)
unfolding new_recorder replied
start-IsCounted c = record {
  capacity = refl;
  room = omega arith;
  total = omega arith;
  late = omega arith;
  delays = omega arith;
  replies = omega arith;
  every = λ _ _. refl;
  kept = λ _ _. refl;
}

has_reply :
    (d : RoundTripData) (p : Packet)
    → d.client.receive ≡ p.trcvd
    → is_zero p.trcvd ≡ false
    → reply_received d ≡ true
unfolding reply_received
has_reply d p e z = rw (e, z) refl

module _ (c m n k : ℕ) (r : Recorder) (g : IsCounted c m n k r) where
  sent-IsCounted : (now : Time) (r' : Recorder) → IsSent now r r' → IsCounted c m (suc n) (suc k) r'
  sent-IsCounted now r' s = record {
    capacity = s.kept.1 ∙ g.capacity;
    room = elim (s.stored) [
      | inl e ↦ rw e (omega (arith, g.room, length-append r.round_trips (new_round_trip now ∷ [])))
      | inr (j, e, f) ↦
          rw e (omega (arith, g.room, length-set r.round_trips j (new_round_trip now)))
    ];
    total = rw (s.stats.0, s.kept.0) (omega (arith, g.total));
    late = rw (s.stats.0, s.stats.2) g.late;
    delays = rw (s.stats.0, s.stats.1) g.delays;
    replies = elim (s.stored) [
      | inl e ↦ rw (e, s.stats.0, replied-append r.round_trips now) g.replies
      | inr (j, e, f) ↦
          rw (e, s.stats.0) (omega (arith, g.replies, replied-set_new r.round_trips j now))
    ];
    every = λ z h. elim (s.stored) [
      | inl e ↦ rw (e, s.stats.0, replied-append r.round_trips now) (g.every z (omega arith))
      | inr (j, e, f) ↦ absurd (omega (arith, g.room, g.capacity))
    ];
    kept = λ z h. elim (s.stored) [
      | inl e ↦ rw e (
          omega
            (arith, g.kept z (omega arith), length-append r.round_trips (new_round_trip now ∷ [])))
      | inr (j, e, f) ↦ absurd (omega (arith, g.room, g.capacity))
    ];
  }

  -- The counted fields are the same.
  same_IsCounted :
      (r' : Recorder)
      → r'.rtt_stats.n ≡ r.rtt_stats.n
      → r'.send_delay_stats.n ≡ r.send_delay_stats.n
      → r'.late_packets ≡ r.late_packets
      → r'.round_trips ≡ r.round_trips
      → r'.cap ≡ r.cap
      → r'.duplicates ≤ suc r.duplicates
      → IsCounted c m n (suc k) r'
  same_IsCounted r' a b l t d m = record {
    capacity = d ∙ g.capacity;
    room = rw t g.room;
    total = omega (arith, g.total);
    late = rw (a, l) g.late;
    delays = rw (a, b) g.delays;
    replies = rw (a, t) g.replies;
    every = λ z h. ap replied t ∙ (g.every z h ∙ sym a);
    kept = λ z h. ap length t ∙ g.kept z h;
  }

  module _ (bound : suc k < 2 ^ 64) (p : Packet) (r' : Recorder)
      (timed : is_zero p.trcvd ≡ false) where
    recorded-IsCounted :
        (i sn : ℕ) (rtd : RoundTripData)
        → get_elem? r.round_trips i ≡ some rtd
        → reply_received rtd ≡ false
        → IsRecorded i sn rtd p r r'
        → IsCounted c m n (suc k) r'
    recorded-IsCounted i sn rtd at n0 w =
        let (d, e, t, _) = w.stored in
        let grown : replied r'.round_trips ≡ suc (replied r.round_trips) =
          ap replied e ∙ replied-set r.round_trips i d at n0 (has_reply d p t timed) in
        let one : r'.rtt_stats.n ≡ suc r.rtt_stats.n = omega (arith, w.answered, g.total) in
        record {
          capacity = w.same.1 ∙ g.capacity;
          room = rw e (omega (arith, g.room, length-set r.round_trips i d));
          total = rw (one, w.same.0) (omega (arith, g.total));
          late = elim (w.came_late) [
            | inl q ↦ omega (arith, one, g.late)
            | inr q ↦ omega (arith, one, g.late, g.total)
          ];
          delays = elim (w.delayed) [
            | inl q ↦ omega (arith, one, g.delays)
            | inr q ↦ omega (arith, one, g.delays, g.total)
          ];
          replies = omega (arith, one, grown, g.replies);
          every = λ z h. grown ∙ (ap suc (g.every z h) ∙ sym one);
          kept = λ z h. ap length e ∙ (length-set r.round_trips i d ∙ g.kept z h);
        }

    received-IsCounted : Outcome p r r' → IsCounted c m n (suc k) r'
    received-IsCounted (ignored e) =
        subst (λ t. IsCounted c m n (suc k) t) (sym e)
          (same_IsCounted r refl refl refl refl refl (omega arith))
    received-IsCounted (duplicate e) =
        subst (λ t. IsCounted c m n (suc k) t) (sym e)
          (same_IsCounted _ refl refl refl refl refl (omega arith))
    received-IsCounted (recorded i sn rtd at n0 w) = recorded-IsCounted i sn rtd at n0 w

replied-take : (n : ℕ) (ds : List RoundTripData) → replied (take n ds) ≤ replied ds
unfolding replied
replied-take zero ds = omega arith
replied-take (suc n) [] = omega arith
replied-take (suc n) (d ∷ ds) = elim (Bool-cases (reply_received d)) [
  | inl e ↦ rw e (omega (arith, replied-take n ds))
  | inr e ↦ rw e (replied-take n ds)
]

remove-IsCounted :
    (c m n k : ℕ) (r r' : Recorder)
    → IsCounted c m n k r
    → remove_last_round_trip r ≡ some r'
    → IsCounted c (suc m) n (suc k) r'
unfolding remove_last_round_trip
remove-IsCounted c m n k r r' g e =
    let l = length r.round_trips - 1 in
    let (_, _, e1) = bind-inv (guard (ltb 0 (length r.round_trips))) _ e in
    subst (λ t. IsCounted c (suc m) n (suc k) t) (some-injective _ r' e1)
      (record {
        capacity = g.capacity;
        room = omega (arith, g.room, length-take l r.round_trips);
        total = omega (arith, g.total);
        late = g.late;
        delays = g.delays;
        replies = omega (arith, g.replies, replied-take l r.round_trips);
        every = λ z _. absurd (omega arith);
        kept = λ z _. absurd (omega arith);
      })

post_send-IsCounted :
    (c m n k : ℕ) (tsend tsent : Time) (len : ℕ) (r r' : Recorder)
    → IsCounted c m n k r
    → record_post_send tsend tsent len r ≡ some r'
    → IsCounted c m n (suc k) r'
unfolding record_post_send
post_send-IsCounted c m n k tsend tsent len r r' g e = elim (Option-cases (sub tsent tsend)) [
  | inl z ↦ absurd (none-ne-some r' (rw z at e))
  | inr (d, z) ↦
      subst (λ t. IsCounted c m n (suc k) t) (some-injective _ r' (rw z at e))
        (same_IsCounted c m n k r g _ refl refl refl refl refl (omega arith))
]

-- Over any sequence of `recordPreSend`, `removeLastRoundTrip`, `recordPostSend`, `recordTimerErr` and
-- `recordReceive` without a panic, fewer than 2 ^ 64 of them, where each reply comes with a time of receipt that
-- is not zero: the replies counted and the duplicates are no more than the operations; the late packets and
-- the send delays are no more than the replies; so are the round trips with a reply that the buffer still has.
-- If no round trip was removed and no more packets were sent than the buffer has room for, these are as many as
-- the replies, and the round trips as many as the packets.
pub Reach-IsCounted :
    {c m n k : ℕ} {r : Recorder} → Reach c m n k r → k < 2 ^ 64 → IsCounted c m n k r
unfolding record_timer_err
Reach-IsCounted {c} start h = start-IsCounted c
Reach-IsCounted {c} {m} {n = suc n} {k = suc k} (pre_send {r = r} {r' = r'} sn now q e) h =
    sent-IsCounted c m n k r (Reach-IsCounted q (omega arith)) now r'
      (record_pre_send-IsSent sn now r r' e)
Reach-IsCounted {c} {m = suc m} {n} {k = suc k} (remove {r = r} {r' = r'} q e) h =
    remove-IsCounted c m n k r r' (Reach-IsCounted q (omega arith)) e
Reach-IsCounted {c} {m} {n} {k = suc k} (post_send {r = r} {r' = r'} tsend tsent len q e) h =
    post_send-IsCounted c m n k tsend tsent len r r' (Reach-IsCounted q (omega arith)) e
Reach-IsCounted {c} {m} {n} {k = suc k} (timer_err {r = r} terr q) h =
    same_IsCounted c m n k r (Reach-IsCounted q (omega arith)) (record_timer_err terr r) refl refl
      refl refl refl (omega arith)
Reach-IsCounted {c} {m} {n} {k = suc k} (receive {r = r} {r' = r'} {x = x} p sts q t e) h =
    received-IsCounted c m n k r (Reach-IsCounted q (omega arith)) h p r' t
      (record_receive-Outcome p sts r r' x e)
