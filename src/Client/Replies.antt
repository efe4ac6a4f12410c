-- ===== src/Client/Replies.antt =====
-- client.go: which packets the client records.
use mathlib.Core.Bool.{true≢false}
use mathlib.Core.Option.{some-injective}
use mathlib.Core.Path.{subst}
use irtt.Prelude.{
  ℕ, ◌≡◌, Option, ap, ◌∙◌, sym, ◌⊎◌, inl, inr, Bool, true, false, List, [], ◌∷◌, none, some, arith,
  ◌==◌, ==_iff, if◌then◌else◌, bind-inv, Bool-cases, Option-cases,
}
use irtt.Prelude.Int.{ℤ, pos, ltb_ℤ, ◌≤ℤ◌}
use irtt.Code.{Code}
use irtt.Time.{Timestamp, has, at_none}
use irtt.Params.{Params}
use irtt.Packet.{Mac, Packet, flags, fl_open, add_fields, fecho_reply}
use irtt.Packet.Stamps.{stamp_at, clock, timestamp}
use irtt.Conn.{Failure, Arrival, creceive}
use irtt.Recorder.{Recorder}
use irtt.Recorder.Receive.{record_receive}
use irtt.Client.{
  add_expected, compare_stamps, check_echo, Reading, record_echo, receive_one, receive_all,
}

-- A packet that was read and the one that is recorded, with its timestamps: it is no reply to an open request,
-- it has the length that was asked for, and the same timestamps of the same clocks.
pub record IsExpected (params : Params) (p p' : Packet) (sts : Timestamp) : Type 0 where
  pub not_open : (fs : ℕ) × (flags p ≡ some fs) × (has fs fl_open ≡ false)
  pub long : params.len ≤ℤ pos (add_fields fecho_reply false p).0.fbuf.blen
  pub fields : p' ≡ add_expected params (add_fields fecho_reply false p).0
  pub stamped : stamp_at p' ≡ some params.stamp_at
  pub clocks : (params.stamp_at ≡ at_none) ⊎ (clock p' ≡ some params.clock)
  pub times : timestamp p' ≡ some sts

-- What recording the replies among the arrivals makes of a recorder, from `r` on, where `p` is the packet that the
-- next arrival is read into: an arrival leaves the recorder as it is, or it was read without an error, what was
-- read is expected, and the recorder records it. The first index is the failure before; it ends the loop, and so does
-- the end of the list.
pub data IsRecording (h : Mac) (params : Params)
    : Option Failure → List Arrival → Packet → Recorder → Recorder → Type 0 where
  ended : {p : Packet} {r : Recorder} → IsRecording h params none [] p r r
  stopped :
      {arrivals : List Arrival} {p : Packet} {r : Recorder} (f : Failure)
      → IsRecording h params (some f) arrivals p r r
  passed :
      {arrivals : List Arrival} {p : Packet} {r r' : Recorder} (a : Arrival) (v : Reading)
      → receive_one h params a p r ≡ some v
      → v.recorder ≡ r
      → IsRecording h params v.failure arrivals v.packet v.recorder r'
      → IsRecording h params none (a ∷ arrivals) p r r'
  one_more :
      {arrivals : List Arrival} {p : Packet} {r r' : Recorder} {x : Bool ⊎ Code} (a : Arrival)
      (v : Reading) (p1 p2 : Packet) (sts : Timestamp)
      → receive_one h params a p r ≡ some v
      → creceive h a p ≡ some (p1, none)
      → IsExpected params p1 p2 sts
      → record_receive p2 sts r ≡ some (x, v.recorder)
      → IsRecording h params v.failure arrivals v.packet v.recorder r'
      → IsRecording h params none (a ∷ arrivals) p r r'

inl-ne-inr : {A B : Type 0} (a : A) (b : B) → ¬ (◌≡◌ {A = A ⊎ B} (inr b) (inl a))
inl-ne-inr a b e = true≢false (ap (λ s. elim s [ inl _ ↦ false | inr _ ↦ true ]) e)

module _ (params : Params) where
  compare_stamps-inv :
      (p : Packet) (sts : Timestamp)
      → compare_stamps params p ≡ some (inl sts)
      → (stamp_at p ≡ some params.stamp_at)
        × ((params.stamp_at ≡ at_none) ⊎ (clock p ≡ some params.clock))
        × (timestamp p ≡ some sts)
  unfolding compare_stamps
  compare_stamps-inv p sts e =
      let (at, a, e1) = bind-inv (stamp_at p) _ e in
      elim (Bool-cases (at == params.stamp_at)) [
        | inr y ↦ absurd (inl-ne-inr sts _ (some-injective _ _ (rw y at e1)))
        | inl y ↦
            let (cl, c, e2) =
              bind-inv (if at == at_none then some params.clock else clock p) _ (rw y at e1) in
            elim (Bool-cases (cl == params.clock)) [
              | inr z ↦ absurd (inl-ne-inr sts _ (some-injective _ _ (rw z at e2)))
              | inl z ↦
                  let (ts, t, e3) = bind-inv (timestamp p) _ (rw z at e2) in
                  (
                    a ∙ ap some ((==_iff at params.stamp_at).0 y),
                    clocked at cl (sym ((==_iff at params.stamp_at).0 y))
                        ((==_iff cl params.clock).0 z) c,
                    t ∙ ap some (inl-injective (some-injective _ _ e3)),
                  )
            ]
      ]
    where
      inl-injective : {a b : Timestamp} → ◌≡◌ {A = Timestamp ⊎ Code} (inl a) (inl b) → a ≡ b
      inl-injective {a} e = ap (λ s. elim s [ inl x ↦ x | inr _ ↦ a ]) e

      clocked :
          (at cl : ℕ)
          → params.stamp_at ≡ at
          → cl ≡ params.clock
          → (if at == at_none then some params.clock else clock p) ≡ some cl
          → (params.stamp_at ≡ at_none) ⊎ (clock p ≡ some params.clock)
      clocked at cl q r c = elim (Bool-cases (at == at_none)) [
        | inl z ↦ inl (q ∙ (==_iff at at_none).0 z)
        | inr z ↦ inr ((rw z at c) ∙ ap some r)
      ]

  pub check_echo-IsExpected :
      (p p' : Packet) (sts : Timestamp)
      → check_echo params p ≡ some (p', inl sts)
      → IsExpected params p p' sts
  unfolding check_echo
  check_echo-IsExpected p p' sts e =
      let p1 = (add_fields fecho_reply false p).0 in
      let p2 = add_expected params p1 in
      let (fs, f, e1) = bind-inv (flags p) _ e in
      elim (Bool-cases (has fs fl_open)) [
        | inl y ↦ absurd (inl-ne-inr sts _ (ap (λ q. q.1) (some-injective _ _ (rw y at e1))))
        | inr y ↦ elim (Bool-cases (ltb_ℤ (pos p1.fbuf.blen) params.len)) [
          | inl z ↦ absurd (inl-ne-inr sts _ (ap (λ q. q.1) (some-injective _ _ (rw (y, z) at e1))))
          | inr z ↦
              let (x, c, e2) = bind-inv (compare_stamps params p2) _ (rw (y, z) at e1) in
              let same : p2 ≡ p' = ap (λ q. q.0) (some-injective (p2, x) (p', inl sts) e2) in
              let known : x ≡ inl sts = ap (λ q. q.1) (some-injective (p2, x) (p', inl sts) e2) in
              let (s, cl, t) = compare_stamps-inv p2 sts (c ∙ ap some known) in
              record {
                not_open = (fs, f, y);
                long = at_least params.len p1.fbuf.blen z;
                fields = sym same;
                stamped = subst (λ q. stamp_at q ≡ some params.stamp_at) same s;
                clocks =
                    subst (λ q. (params.stamp_at ≡ at_none) ⊎ (clock q ≡ some params.clock)) same
                      cl;
                times = subst (λ q. timestamp q ≡ some sts) same t;
              }
        ]
      ]
    where
      at_least : (l : ℤ) (n : ℕ) → ltb_ℤ (pos n) l ≡ false → l ≤ℤ pos n
      at_least l n z = ground arith

  -- What one packet, which was read without an error, does to the recorder
  Effect : Packet → Recorder → Recorder → Type 0
  Effect p r r' =
      (r' ≡ r)
      ⊎ ((p' : Packet) × (sts : Timestamp) × (x : Bool ⊎ Code) × IsExpected params p p' sts
          × (record_receive p' sts r ≡ some (x, r')))

  record_echo-Effect :
      (p : Packet) (r : Recorder) (y : Packet × (Timestamp ⊎ Code)) (v : Reading)
      → check_echo params p ≡ some y
      → record_echo r y ≡ some v
      → Effect p r v.recorder
  unfolding record_echo Effect
  record_echo-Effect p r (p', inr c) v k e =
      inl (sym (ap (λ (q : Reading). q.recorder) (some-injective _ v e)))
  record_echo-Effect p r (p', inl sts) v k e =
      let ((x, r2), z, e1) = bind-inv (record_receive p' sts r) _ e in
      let same : r2 ≡ v.recorder = ap (λ (q : Reading). q.recorder) (some-injective _ v e1) in
      inr (p', sts, x, check_echo-IsExpected p p' sts k, z ∙ ap (λ q. some (x, q)) same)

module _ (h : Mac) (params : Params) where
  receive_one-Effect :
      (a : Arrival) (p : Packet) (r : Recorder) (v : Reading)
      → receive_one h params a p r ≡ some v
      → (v.recorder ≡ r)
        ⊎ ((p1 : Packet) × (creceive h a p ≡ some (p1, none)) × Effect params p1 r v.recorder)
  unfolding receive_one
  receive_one-Effect a p r v e =
      let ((p1, f), z, e1) = bind-inv (creceive h a p) _ e in
      elim (Option-cases f) [
        | inr (c, y) ↦
            inl (sym (ap (λ (q : Reading). q.recorder) (some-injective _ v (rw y at e1))))
        | inl y ↦
            let (x, k, e2) = bind-inv (check_echo params p1) _ (rw y at e1) in
            inr (p1, z ∙ ap (λ q. some (p1, q)) y, record_echo-Effect params p1 r x v k e2)
      ]

  -- The arrival `a`, and those after it.
  then_IsRecording :
      (a : Arrival) (arrivals : List Arrival) (p : Packet) (r r' : Recorder) (v : Reading)
      → receive_one h params a p r ≡ some v
      → IsRecording h params v.failure arrivals v.packet v.recorder r'
      → IsRecording h params none (a ∷ arrivals) p r r'
  unfolding Effect
  then_IsRecording a arrivals p r r' v e q = elim (receive_one-Effect a p r v e) [
    | inl same ↦ passed a v e same q
    | inr (p1, z, inl same) ↦ passed a v e same q
    | inr (p1, z, inr (p2, sts, x, k, y)) ↦ one_more a v p1 p2 sts e z k y q
  ]

  -- Whatever arrives at the client, until its loop ends, its recorder records nothing but packets that have
  -- arrived, each at its turn, that are no reply to an open request, are at least as long as the test's
  -- packets, and are stamped as the test asks for, by the clocks that it asks for. Any other arrival leaves it as it
  -- is.
  pub receive_all-IsRecording :
      (arrivals : List Arrival) (p : Packet) (r : Recorder) (v : Reading)
      → receive_all h params arrivals p r ≡ some v
      → IsRecording h params none arrivals p r v.recorder
  unfolding receive_all
  receive_all-IsRecording [] p r v e =
      subst (IsRecording h params none [] p r)
        (ap (λ (q : Reading). q.recorder) (some-injective _ v e)) ended
  receive_all-IsRecording (a ∷ arrivals) p r v e =
      let (x, z, e1) = bind-inv (receive_one h params a p r) _ e in
      then_IsRecording a arrivals p r v.recorder x z (elim (Option-cases (x.failure)) [
        | inr (f, y) ↦
            subst (λ g. IsRecording h params g arrivals x.packet x.recorder v.recorder) (sym y)
              (subst (IsRecording h params (some f) arrivals x.packet x.recorder)
                (ap (λ (q : Reading). q.recorder) (some-injective _ v (rw y at e1))) (stopped f))
        | inl y ↦
            subst (λ g. IsRecording h params g arrivals x.packet x.recorder v.recorder) (sym y)
              (receive_all-IsRecording arrivals x.packet x.recorder v (rw y at e1))
      ])
