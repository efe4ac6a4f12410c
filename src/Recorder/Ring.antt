-- ===== src/Recorder/Ring.antt =====
-- The buffer of recorder.go: which round trips `recordReceive` finds, after any number of sends.
use native.Mathlib.Nat.{sub-zero, suc-sub-suc, lt_irrefl}
use mathlib.Core.Path.{subst}
use mathlib.Core.Bool.{true≢false}
use irtt.Prelude.{
  ℕ, zero, suc, ◌+◌, ◌-◌, ◌%◌, ◌^◌, ◌≤◌, ◌<◌, ◌≡◌, refl, ap, ◌∙◌, sym, ◌⊎◌, inl, inr, false, List,
  [], ◌∷◌, ◌++◌, Option, some, arith, ◌==◌, ltb, leb, ltb-eq-false, lt→ltb, leb-eq-true,
  if◌then◌else◌, ◌>>=◌, length, set, get_elem?, length-append, length-set, get_elem?-set_self,
  get_elem?-set_ne, Bool-cases, ltb→lt,
}
use irtt.Time.{Time, is_zero}
use irtt.Recorder.{
  RoundTripData, new_round_trip, Recorder, new_recorder, store_round_trip, record_pre_send,
  aged_out, at_index, find_round_trip,
}

-- The recorder after `n` packets were sent, packet `k` at the time `f k`. Their sequence numbers count up
-- from 0 on uint32.
unfoldable pub sends : ℕ → (ℕ → Time) → Recorder → Option Recorder
sends zero f r = some r
sends (suc n) f r = do r' ← sends n f r; record_pre_send (n % 2 ^ 32) (f n) r'

-- The index of the round trip that was `o` packets before the last.
slot_index : ℕ → ℕ → ℕ → ℕ
slot_index sent len o = if ltb sent o then sent + len - o else sent - o

slot_index_start : (sent len o : ℕ) → o ≤ sent → slot_index sent len o ≡ sent - o
unfolding slot_index
slot_index_start sent len o h = rw (ltb-eq-false sent o (λ l. omega arith)) refl

slot_index_wrapped : (sent len o : ℕ) → sent < o → slot_index sent len o ≡ sent + len - o
unfolding slot_index
slot_index_wrapped sent len o h = rw (lt→ltb sent o h) refl

-- The buffer after packet `n`: it is still growing, or it is full; and it has the last packets.
record IsFilled (n : ℕ) (f : ℕ → Time) (cap : ℕ) (rts : List RoundTripData) (sent : ℕ)
    : Type 0 where
  size :
      ((length rts ≡ suc n) × (sent ≡ n) × (suc n ≤ cap))
      ⊎ ((length rts ≡ cap) × (cap ≤ suc n) × (sent < cap))
  entries :
      (o : ℕ)
      → o < length rts
      → get_elem? rts (slot_index sent (length rts) o) ≡ some (new_round_trip (f (n - o)))

get_elem?-last :
    (xs : List RoundTripData) (x : RoundTripData) → get_elem? (xs ++ (x ∷ [])) (length xs) ≡ some x
get_elem?-last [] x = refl
get_elem?-last (y ∷ ys) x = get_elem?-last ys x

get_elem?-front :
    (xs : List RoundTripData) (x : RoundTripData) (i : ℕ)
    → i < length xs
    → get_elem? (xs ++ (x ∷ [])) i ≡ get_elem? xs i
get_elem?-front [] x i h = absurd (omega arith)
get_elem?-front (y ∷ ys) x zero h = refl
get_elem?-front (y ∷ ys) x (suc i) h = get_elem?-front ys x i (omega arith)

module _ (n : ℕ) (f : ℕ → Time) (cap sent : ℕ) (rts : List RoundTripData)
    (g : IsFilled n f cap rts sent) where
  abbrev newest : RoundTripData
  newest = new_round_trip (f (suc n))

  longer : length (rts ++ (newest ∷ [])) ≡ suc (length rts)
  longer = length-append rts (newest ∷ []) ∙ omega arith

  -- There is room for one more.
  grown_entries :
      (o : ℕ)
      → length rts ≡ suc n
      → sent ≡ n
      → o < suc (suc n)
      → get_elem? (rts ++ (newest ∷ [])) (slot_index (suc n) (suc (suc n)) o)
        ≡ some (new_round_trip (f (suc n - o)))
  grown_entries zero len at h =
      rw (slot_index_start (suc n) (suc (suc n)) 0 (omega arith), sub-zero (suc n))
        (ap (get_elem? (rts ++ (newest ∷ []))) (sym len) ∙ get_elem?-last rts newest)
  grown_entries (suc o) len at h =
      rw (slot_index_start (suc n) (suc (suc n)) (suc o) (omega arith), suc-sub-suc n o)
        (get_elem?-front rts newest (n - o) (omega arith)
          ∙ (ap (get_elem? rts) (sym (slot_index_start n (suc n) o (omega arith)))
              ∙ subst
                  (λ s. get_elem? rts (slot_index s (suc n) o) ≡ some (new_round_trip (f (n - o))))
                  at
                  (subst
                    (λ l. get_elem? rts (slot_index sent l o) ≡ some (new_round_trip (f (n - o))))
                    len (g.entries o (omega arith)))))

  grown :
      length rts ≡ suc n
      → sent ≡ n
      → suc n < cap
      → IsFilled (suc n) f cap (rts ++ (newest ∷ [])) (suc n)
  grown len at lt = record {
    size = inl (longer ∙ ap suc len, refl, lt);
    entries = λ o h.
        subst
          (λ l.
            get_elem? (rts ++ (newest ∷ [])) (slot_index (suc n) l o)
            ≡ some (new_round_trip (f (suc n - o))))
          (sym (longer ∙ ap suc len)) (grown_entries o len at (omega (arith, longer)));
  }

  module _ (full : length rts ≡ cap) (old : cap ≤ suc n) (within : sent < cap) where
    next : ℕ
    next = if sent + 1 == length rts then 0 else sent + 1

    next_lt : next < length rts
    unfolding next
    next_lt = ground arith

    -- What was `o` before the last is one further from the new last.
    aged :
        (o : ℕ)
        → suc o < length rts
        → slot_index next (length rts) (suc o) ≡ slot_index sent (length rts) o
    unfolding next slot_index
    aged o h = ground arith

    apart :
        (o : ℕ)
        → o < length rts
        → (slot_index next (length rts) (suc o) ≡ next)
        → suc o ≡ length rts
    unfolding next slot_index
    apart o h e = ground arith

    wrapped_entries :
        (o : ℕ)
        → o < length rts
        → get_elem? (set rts next newest) (slot_index next (length rts) o)
          ≡ some (new_round_trip (f (suc n - o)))
    wrapped_entries zero h =
        rw (slot_index_start next (length rts) 0 (omega arith), sub-zero next, sub-zero (suc n))
          (get_elem?-set_self rts next newest next_lt)
    wrapped_entries (suc o) h =
        get_elem?-set_ne rts newest
          (λ e. lt_irrefl (suc o) (subst (λ l. suc o < l) (sym (apart o (omega arith) (sym e))) h))
        ∙ (ap (get_elem? rts) (aged o h)
            ∙ (g.entries o (omega arith)
                ∙ ap (λ i. some (new_round_trip (f i))) (sym (suc-sub-suc n o))))

    wrapped : IsFilled (suc n) f cap (set rts next newest) next
    wrapped = record {
      size = inr (length-set rts next newest ∙ full, omega arith, omega (arith, next_lt));
      entries = λ o h.
          subst
            (λ l.
              get_elem? (set rts next newest) (slot_index next l o)
              ≡ some (new_round_trip (f (suc n - o))))
            (sym (length-set rts next newest))
            (wrapped_entries o (omega (arith, length-set rts next newest)));
    }

-- The recorder after packet `n`.
record IsRing (n : ℕ) (f : ℕ → Time) (cap : ℕ) (r : Recorder) : Type 0 where
  prior : r.prior_sent ≡ n
  capacity : r.cap ≡ cap
  filled : IsFilled n f cap r.round_trips r.sent_index

-- One more packet: what is stored, in each case.
stored_grown :
    (n : ℕ) (f : ℕ → Time) (cap sent : ℕ) (rts : List RoundTripData)
    → IsFilled n f cap rts sent
    → length rts < cap
    → (length rts ≡ suc n) × (sent ≡ n)
stored_grown n f cap sent rts g l = elim (g.size) [
  | inl (len, at, _) ↦ (len, at)
  | inr (len, _, _) ↦ absurd (omega arith)
]

stored_wrapped :
    (n : ℕ) (f : ℕ → Time) (cap sent : ℕ) (rts : List RoundTripData)
    → IsFilled n f cap rts sent
    → ¬ (length rts < cap)
    → (length rts ≡ cap) × (cap ≤ suc n) × (sent < cap)
stored_wrapped n f cap sent rts g l = elim (g.size) [
  | inl (len, at, le) ↦ (omega arith, omega arith, omega arith)
  | inr z ↦ z
]

occupied :
    (n : ℕ) (f : ℕ → Time) (cap sent : ℕ) (rts : List RoundTripData)
    → IsFilled n f cap rts sent
    → 0 < length rts
occupied n f cap sent rts g = elim (g.size) [
  | inl (len, _, _) ↦ omega arith
  | inr (len, _, lt) ↦ omega arith
]

stored :
    (n : ℕ) (f : ℕ → Time) (cap sent : ℕ) (rts : List RoundTripData)
    → IsFilled n f cap rts sent
    → (rts' : List RoundTripData) × (sent' : ℕ) × (store_round_trip cap
          (sent + 1)
          (new_round_trip (f (suc n)))
          rts
        ≡ some (rts', sent'))
      × IsFilled (suc n) f cap rts' sent'
unfolding store_round_trip next
stored n f cap sent rts g = elim (Bool-cases (ltb (length rts) cap)) [
  | inl e ↦
      let lt = ltb→lt (length rts) cap e in
      let (len, at) = stored_grown n f cap sent rts g lt in
      (_, suc n, rw (e, at, add-one n) refl, grown n f cap sent rts g len at (omega arith))
  | inr e ↦
      let (full, old, within) =
        stored_wrapped n f cap sent rts g (λ l. true≢false (sym (lt→ltb (length rts) cap l) ∙ e)) in
      (
        _,
        _,
        rw (e, lt→ltb _ _ (next_lt n f cap sent rts g full old within)) refl,
        wrapped n f cap sent rts g full old within,
      )
]
  where
    add-one : (n : ℕ) → n + 1 ≡ suc n
    add-one n = omega arith

sent_after : Recorder → ℕ → Time → List RoundTripData → ℕ → Recorder
sent_after r seqno now rts sent = record r {
  round_trips = rts;
  sent_index = sent;
  first_send = if is_zero r.first_send then now else r.first_send;
  prior_sent = seqno;
}

step :
    (n : ℕ) (f : ℕ → Time) (c : ℕ) (r : Recorder)
    → IsRing n f c r
    → (r' : Recorder) × (record_pre_send (suc n) (f (suc n)) r ≡ some r') × IsRing (suc n) f c r'
unfolding record_pre_send sent_after
step n f c r g =
    let (rts, sent, e, h) = stored n f c r.sent_index r.round_trips g.filled in
    (
      sent_after r (suc n) (f (suc n)) rts sent,
      rw
          (
            g.capacity,
            lt→ltb 0 (length r.round_trips) (occupied n f c r.sent_index r.round_trips g.filled),
            e,
          )
          refl,
      record { prior = refl; capacity = g.capacity; filled = h },
    )

first :
    (f : ℕ → Time) (c : ℕ)
    → 0 < c
    → (r : Recorder) × (record_pre_send 0 (f 0) (new_recorder c) ≡ some r) × IsRing 0 f c r
unfolding record_pre_send new_recorder store_round_trip sent_after
first f c h = (
  sent_after (new_recorder c) 0 (f 0) (new_round_trip (f 0) ∷ []) 0,
  rw (lt→ltb 0 c h) refl,
  record {
    prior = refl;
    capacity = refl;
    filled = record { size = inl (refl, refl, h); entries = only f };
  },
)
  where
    only :
        (f : ℕ → Time) (o : ℕ)
        → o < 1
        → get_elem? (new_round_trip (f 0) ∷ []) (slot_index 0 1 o)
          ≡ some (new_round_trip (f (0 - o)))
    only f zero l = rw (slot_index_start 0 1 0 (omega arith)) refl
    only f (suc o) l = absurd (omega arith)

seqno_small : (n : ℕ) → n < 2 ^ 32 → n % 2 ^ 32 ≡ n
seqno_small n h = omega arith

sends-IsRing :
    (n : ℕ) (f : ℕ → Time) (c : ℕ)
    → n < 2 ^ 32
    → 0 < c
    → (r : Recorder) × (sends (suc n) f (new_recorder c) ≡ some r) × IsRing n f c r
unfolding sends
sends-IsRing zero f c u h = first f c h
sends-IsRing (suc n) f c u h =
    let (r, e, g) = sends-IsRing n f c (omega arith) h in
    let (r', e', g') = step n f c r g in (r', bind r r' e e', g')
  where
    bind :
        (r r' : Recorder)
        → sends (suc n) f (new_recorder c) ≡ some r
        → record_pre_send (suc n) (f (suc n)) r ≡ some r'
        → sends (suc (suc n)) f (new_recorder c) ≡ some r'
    bind r r' e e' =
        ap (λ o. o >>= record_pre_send (suc n % 2 ^ 32) (f (suc n))) e
        ∙ (ap (λ k. record_pre_send k (f (suc n)) r) (seqno_small (suc n) u) ∙ e')

leb-eq-false : (a b : ℕ) → b < a → leb a b ≡ false
leb-eq-false a b h = ground arith

span :
    (n : ℕ) (f : ℕ → Time) (c s : ℕ) (r : Recorder)
    → IsRing n f c r
    → s ≤ n
    → n - s < c
    → n - s < length r.round_trips
span n f c s r g le lt = elim (g.filled.size) [
  | inl (len, _, _) ↦ omega arith
  | inr (len, _, _) ↦ omega arith
]

found :
    (n : ℕ) (f : ℕ → Time) (c s : ℕ) (r : Recorder)
    → IsRing n f c r
    → s ≤ n
    → n - s < length r.round_trips
    → (i : ℕ) × (find_round_trip s r ≡ at_index i)
      × (get_elem? r.round_trips i ≡ some (new_round_trip (f s)))
unfolding find_round_trip slot_index
found n f c s r g le lt = (
  slot_index r.sent_index (length r.round_trips) (n - s),
  rw (g.prior, ltb-eq-false n s (λ l. omega arith), leb-eq-false (length r.round_trips) (n - s) lt)
      refl,
  g.filled.entries (n - s) lt ∙ ap (λ i. some (new_round_trip (f i))) (back n s le),
)
  where
    back : (n s : ℕ) → s ≤ n → n - (n - s) ≡ s
    back n s h = omega arith

-- After the packets 0 … n, where `n` is a uint32, so that their numbers have not wrapped, each sent at its own
-- time, to a recorder with room for `c` round trips, one at least: no send panicked, and for each of the last
-- `c` packets the reply finds the round trip that was recorded when that packet was sent.
pub find_round_trip-sends :
    (n : ℕ) (f : ℕ → Time) (c s : ℕ)
    → n < 2 ^ 32
    → 0 < c
    → s ≤ n
    → n - s < c
    → (r : Recorder) × (sends (suc n) f (new_recorder c) ≡ some r)
      × ((i : ℕ) × (find_round_trip s r ≡ at_index i)
          × (get_elem? r.round_trips i ≡ some (new_round_trip (f s))))
find_round_trip-sends n f c s u h le lt =
    let (r, e, g) = sends-IsRing n f c u h in (r, e, found n f c s r g le (span n f c s r g le lt))

-- After the packets 0 … n, where `n` is a uint32, and with room for `c` round trips, one at least: no send
-- panicked, and the reply to any packet before the last `c` has aged out.
pub find_round_trip-aged :
    (n : ℕ) (f : ℕ → Time) (c s : ℕ)
    → n < 2 ^ 32
    → 0 < c
    → s + c ≤ n
    → (r : Recorder) × (sends (suc n) f (new_recorder c) ≡ some r)
      × (find_round_trip s r ≡ aged_out)
unfolding find_round_trip
find_round_trip-aged n f c s u h le =
    let (r, e, g) = sends-IsRing n f c u h in
    (
      r,
      e,
      rw
          (
            g.prior,
            ltb-eq-false n s (λ l. omega arith),
            leb-eq-true (length r.round_trips) (n - s) (short r g),
          )
          refl,
    )
  where
    short : (r : Recorder) → IsRing n f c r → length r.round_trips ≤ n - s
    short r g = elim (g.filled.size) [
      | inl (len, _, z) ↦ omega arith
      | inr (len, _, _) ↦ omega arith
    ]
