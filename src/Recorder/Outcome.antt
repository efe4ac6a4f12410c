-- ===== src/Recorder/Outcome.antt =====
-- recorder.go: what `recordReceive` does, in each of its cases.
use irtt.Prelude.{
  ℕ, ◌+◌, ◌%◌, ◌^◌, ◌≡◌, refl, ap, sym, some, arith, set, get_elem?, ◌⊎◌, inl, inr, if◌then◌else◌,
  Bool, true, false, Bool-cases, Option-cases,
}
use mathlib.Core.Option.{none-ne-some, some-injective}
use mathlib.Core.Path.{subst}
use irtt.Prelude.Int.{ℤ}
use irtt.Code.{Code}
use irtt.Time.{Timestamp}
use irtt.Packet.{Packet, seqno}
use irtt.Recorder.{
  RoundTripData, Recorder, DurationStats, push, reply_received, Slot, unexpected, aged_out,
  at_index, find_round_trip,
}
use irtt.Recorder.Receive.{
  read_count, read_window, with_reply, received, push_delays, record_reply, receive_at,
  record_receive,
}

-- What a first reply changes: the round trip at the index, which now has a reply, and the counts.
pub record IsRecorded (i sn : ℕ) (rtd : RoundTripData) (p : Packet) (r r' : Recorder) : Type 0 where
  pub stored :
      (d : RoundTripData) × (r'.round_trips ≡ set r.round_trips i d)
      × (d.client.receive ≡ p.trcvd)
      × (d.client.send ≡ rtd.client.send)
  pub answered : r'.rtt_stats.n ≡ (r.rtt_stats.n + 1) % 2 ^ 64
  pub delayed :
      (r'.send_delay_stats.n ≡ r.send_delay_stats.n)
      ⊎ (r'.send_delay_stats.n ≡ (r.send_delay_stats.n + 1) % 2 ^ 64)
  pub came_late :
      (r'.late_packets ≡ r.late_packets) ⊎ (r'.late_packets ≡ (r.late_packets + 1) % 2 ^ 64)
  pub same :
      (r'.duplicates ≡ r.duplicates)
      × (r'.cap ≡ r.cap)
      × (r'.prior_sent ≡ r.prior_sent)
      × (r'.sent_index ≡ r.sent_index)

push_n : (d : ℤ) (s : DurationStats) → (push d s).n ≡ (s.n + 1) % 2 ^ 64
unfolding push
push_n d s = ground arith

if_n :
    (b : Bool) (d : ℤ) (s : DurationStats)
    → ((if b then push d s else s).n ≡ s.n) ⊎ ((if b then push d s else s).n ≡ (s.n + 1) % 2 ^ 64)
if_n true d s = inr (push_n d s)
if_n false d s = inl refl

if_ℕ : (b : Bool) (x y : ℕ) → ((if b then x else y) ≡ y) ⊎ ((if b then x else y) ≡ x)
if_ℕ true x y = inr refl
if_ℕ false x y = inl refl

module _ (i sn : ℕ) (rtd : RoundTripData) (p : Packet) (sts : Timestamp) (r : Recorder) where
  with_reply-IsRecorded :
      (count window : ℕ) → IsRecorded i sn rtd p r (with_reply i rtd sn p sts count window r)
  unfolding with_reply push_delays received
  with_reply-IsRecorded count window = record {
    stored = (_, refl, refl, refl);
    answered = push_n _ r.rtt_stats;
    delayed = if_n _ _ r.send_delay_stats;
    came_late = if_ℕ _ _ r.late_packets;
    same = (refl, refl, refl, refl);
  }

  record_reply-IsRecorded :
      (r' : Recorder) → record_reply i rtd sn p sts r ≡ some r' → IsRecorded i sn rtd p r r'
  unfolding record_reply
  record_reply-IsRecorded r' e = elim (Option-cases (read_count p r.server_packets_received)) [
    | inl z ↦ absurd (none-ne-some r' (rw z at e))
    | inr (c, z) ↦ elim (Option-cases (read_window p rtd.received_window)) [
      | inl y ↦ absurd (none-ne-some r' (rw (z, y) at e))
      | inr (w, y) ↦
          subst (λ r''. IsRecorded i sn rtd p r r'') (some-injective _ r' (rw (z, y) at e))
            (with_reply-IsRecorded c w)
    ]
  ]

-- What `recordReceive` does, in each case.
pub data Outcome (p : Packet) (r r' : Recorder) : Type 0 where
  ignored : r' ≡ r → Outcome p r r'
  duplicate : r' ≡ record r { duplicates = (r.duplicates + 1) % 2 ^ 64 } → Outcome p r r'
  recorded :
      (i sn : ℕ) (rtd : RoundTripData)
      → get_elem? r.round_trips i ≡ some rtd
      → reply_received rtd ≡ false
      → IsRecorded i sn rtd p r r'
      → Outcome p r r'

module _ (p : Packet) (sts : Timestamp) (r r' : Recorder) (x : Bool ⊎ Code) where
  receive_at-Outcome : (s : Slot) (sn : ℕ) → receive_at s sn p sts r ≡ some (x, r') → Outcome p r r'
  unfolding receive_at
  receive_at-Outcome unexpected sn e = ignored (sym (ap (λ q. q.1) (some-injective _ (x, r') e)))
  receive_at-Outcome aged_out sn e = ignored (sym (ap (λ q. q.1) (some-injective _ (x, r') e)))
  receive_at-Outcome (at_index i) sn e = elim (Option-cases (get_elem? r.round_trips i)) [
    | inl z ↦ absurd (none-ne-some (x, r') (rw z at e))
    | inr (rtd, z) ↦ elim (Bool-cases (reply_received rtd)) [
      | inl y ↦ duplicate (sym (ap (λ q. q.1) (some-injective _ (x, r') (rw (z, y) at e))))
      | inr y ↦ elim (Option-cases (record_reply i rtd sn p sts r)) [
        | inl w ↦ absurd (none-ne-some (x, r') (rw (z, y, w) at e))
        | inr (r'', w) ↦ recorded i sn rtd z y (
            subst (λ t. IsRecorded i sn rtd p r t)
              (ap (λ q. q.1) (some-injective _ (x, r') (rw (z, y, w) at e)))
              (record_reply-IsRecorded i sn rtd p sts r r'' w))
      ]
    ]
  ]

  pub record_receive-Outcome : record_receive p sts r ≡ some (x, r') → Outcome p r r'
  unfolding record_receive
  record_receive-Outcome e = elim (Option-cases (seqno p)) [
    | inl z ↦ absurd (none-ne-some (x, r') (rw z at e))
    | inr (sn, z) ↦ receive_at-Outcome (find_round_trip sn r) sn (rw z at e)
  ]
