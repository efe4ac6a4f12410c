-- ===== src/Server/Window.antt =====
-- The received window of `serveEcho` in sconn.go.
use native.Mathlib.Nat.{sub-zero}
use irtt.Prelude.{
  ℕ, zero, suc, ◌-◌, ◌^◌, ◌≤◌, ◌<◌, ◌≡◌, refl, ap, ◌∙◌, sym, Bool, true, false, ◌&&◌, ◌||◌, ◌⊎◌,
  inl, inr, List, [], ◌∷◌, arith, ◌==◌, ltb, leb, if◌then◌else◌, bit_or, leb-eq-true, lt→ltb,
  ltb-eq-false, ==-eq-false, ==-eq-true,
}
use irtt.Prelude.Bits.{bit, shl64, bit-shl64, shl64_all, bit-bit_or_one}
use irtt.Server.{Sconn, invalid_seqno, since_last, slide, sent_window}

-- The connection after the packets with these numbers, the last one first.
unfoldable pub slides : List ℕ → Sconn → Sconn
slides [] sc = sc
slides (s ∷ older) sc = slide s (slides older sc)

pub mem : ℕ → List ℕ → Bool
mem k [] = false
mem k (s ∷ ss) = (s == k) || mem k ss

-- Whether the numbers came in order, each above all before, and are numbers that a client sends.
pub data IsInOrder : List ℕ → Type 0 where
  first : (s : ℕ) → s < invalid_seqno → IsInOrder (s ∷ [])
  next :
      (s t : ℕ) (older : List ℕ)
      → t < s
      → s < invalid_seqno
      → IsInOrder (t ∷ older)
      → IsInOrder (s ∷ t ∷ older)

-- Every packet counts as a new one: the branch for a late packet is never taken, and the window is never
-- marked as invalid.
pub slide-rwin_valid : (s : ℕ) (sc : Sconn) → (slide s sc).rwin_valid ≡ true
unfolding slide
slide-rwin_valid s sc = leb-eq-true 0 _ (omega arith)

-- The window after a packet.
unfoldable pub after : ℕ → Sconn → ℕ
after s sc =
    let d = since_last s sc.last_seqno in
    bit_or (if ltb 0 d then shl64 sc.received_window d else sc.received_window) 1

pub slide-received_window : (s : ℕ) (sc : Sconn) → (slide s sc).received_window ≡ after s sc
unfolding slide after
slide-received_window s sc = rw (leb-eq-true 0 (since_last s sc.last_seqno) (omega arith)) refl

slide-last_seqno : (s : ℕ) (sc : Sconn) → (slide s sc).last_seqno ≡ s
unfolding slide
slide-last_seqno s sc = refl

sent_window-slide : (s : ℕ) (sc : Sconn) → sent_window (slide s sc) ≡ after s sc
unfolding sent_window
sent_window-slide s sc = rw (slide-rwin_valid s sc) (slide-received_window s sc)

bit-moved :
    (k d w : ℕ)
    → k < 64
    → bit k (if ltb 0 d then shl64 w d else w) ≡ (if ltb k d then false else bit (k - d) w)
bit-moved k zero w h =
    rw (ltb-eq-false 0 0 (λ l. omega arith), ltb-eq-false k 0 (λ l. omega arith), sub-zero k) refl
bit-moved k (suc d) w h = rw (lt→ltb 0 (suc d) (omega arith)) (bit-shl64 k (suc d) w h)

bit-after :
    (k s : ℕ) (sc : Sconn)
    → k < 64
    → bit k (after s sc) ≡ (
        if k == 0
        then true
        else (if ltb k (since_last s sc.last_seqno)
            then false
            else bit (k - since_last s sc.last_seqno) sc.received_window))
unfolding after
bit-after k s sc h =
    bit-bit_or_one k _
    ∙ ap (λ b. if k == 0 then true else b)
        (bit-moved k (since_last s sc.last_seqno) sc.received_window h)

since_last_late : (s l : ℕ) → s < l → l < 2 ^ 32 → since_last s l ≡ 2 ^ 32 - (l - s)
unfolding since_last
since_last_late s l h k = omega arith

since_last_next : (s l : ℕ) → l ≤ s → s < 2 ^ 32 → since_last s l ≡ s - l
unfolding since_last
since_last_next s l h k = omega arith

since_last_first : (s : ℕ) → s < invalid_seqno → since_last s invalid_seqno ≡ suc s
unfolding since_last
since_last_first s h = omega arith

shifted_out : (d w : ℕ) → w < 2 ^ 64 → 64 ≤ d → bit_or (if ltb 0 d then shl64 w d else w) 1 ≡ 1
shifted_out d w h l = rw (lt→ltb 0 d (omega arith), shl64_all w d h l) refl

-- A packet whose number is below the last one's, by 2 ^ 32 - 64 at most, leaves no packet but itself in
-- the window that is sent, if the numbers are below 2 ^ 32 and the window is below 2 ^ 64.
pub slide_late :
    (s : ℕ) (sc : Sconn)
    → s < sc.last_seqno
    → sc.last_seqno < 2 ^ 32
    → sc.last_seqno - s ≤ 2 ^ 32 - 64
    → sc.received_window < 2 ^ 64
    → sent_window (slide s sc) ≡ 1
unfolding after
slide_late s sc lt hi near w =
    sent_window-slide s sc
    ∙ shifted_out (since_last s sc.last_seqno) sc.received_window w
        (rw (since_last_late s sc.last_seqno lt hi) (omega arith))

mem-above : (t x : ℕ) (older : List ℕ) → IsInOrder (t ∷ older) → t < x → mem x (t ∷ older) ≡ false
unfolding mem
mem-above t x [] h l = rw (==-eq-false t x (λ e. omega arith)) refl
mem-above t x (u ∷ older) (next _ _ _ lt _ h) l =
    rw (==-eq-false t x (λ e. omega arith)) (mem-above u x older h (omega arith))

bit-none : (k : ℕ) → bit k 0 ≡ false
unfolding bit
bit-none zero = refl
bit-none (suc k) = bit-none k

here : (s : ℕ) (older : List ℕ) → (leb 0 s && mem (s - 0) (s ∷ older)) ≡ true
unfolding mem
here s older = rw (leb-eq-true 0 s (omega arith), sub-zero s, ==-eq-true s s refl) refl

mem_skip : (s x : ℕ) (l : List ℕ) → ¬ (s ≡ x) → mem x (s ∷ l) ≡ mem x l
unfolding mem
mem_skip s x l h = rw (==-eq-false s x h) refl

and_false : (b : Bool) → (b && false) ≡ false
and_false true = refl
and_false false = refl

-- Before the first packet there is none.
first_bit :
    (k s : ℕ)
    → (if suc k == 0 then true else (if ltb (suc k) (suc s) then false else bit (suc k - suc s) 0))
      ≡ (leb (suc k) s && mem (s - suc k) (s ∷ []))
unfolding mem
first_bit k s = rw (bit-none (suc k - suc s)) (ground arith)

next_bit :
    (s t : ℕ) (older : List ℕ) (w k : ℕ)
    → t < s
    → IsInOrder (t ∷ older)
    → ((j : ℕ) → j < 64 → bit j w ≡ (leb j t && mem (t - j) (t ∷ older)))
    → suc k < 64
    → (if suc k == 0
        then true
        else (if ltb (suc k) (s - t) then false else bit (suc k - (s - t)) w))
      ≡ (leb (suc k) s && mem (s - suc k) (s ∷ t ∷ older))
next_bit s t older w k l o h lt =
    rw (==-eq-false (suc k) 0 (λ e. omega arith)) (elim (placed (suc k) s t l) [
      | inl near ↦
          rw
            (
              lt→ltb (suc k) (s - t) near,
              mem_skip s (s - suc k) (t ∷ older) (λ e. omega arith),
              mem-above t (s - suc k) older o (omega arith),
            )
            (sym (and_false (leb (suc k) s)))
      | inr (inl (far, le)) ↦
          rw
            (
              ltb-eq-false (suc k) (s - t) (λ z. omega arith),
              mem_skip s (s - suc k) (t ∷ older) (λ e. omega arith),
              leb-eq-true (suc k) s le,
            )
            (h (suc k - (s - t)) (omega arith)
              ∙ rw (leb-eq-true (suc k - (s - t)) t (omega arith))
                  (ap (λ x. mem x (t ∷ older)) (back (suc k) s t l le far)))
      | inr (inr out) ↦
          rw (ltb-eq-false (suc k) (s - t) (λ z. omega arith), leb-eq-false (suc k) s out)
            (h (suc k - (s - t)) (omega arith)
              ∙ rw (leb-eq-false (suc k - (s - t)) t (omega arith)) refl)
    ])
  where
    placed : (k s t : ℕ) → t < s → (k < s - t) ⊎ (((s - t ≤ k) × (k ≤ s)) ⊎ (s < k))
    placed k s t l = ground arith

    back : (k s t : ℕ) → t < s → k ≤ s → s - t ≤ k → t - (k - (s - t)) ≡ s - k
    back k s t l h z = omega arith

    leb-eq-false : (a b : ℕ) → b < a → leb a b ≡ false
    leb-eq-false a b h = ground arith

slides_first :
    (s : ℕ) (sc : Sconn) (k : ℕ)
    → sc.last_seqno ≡ invalid_seqno
    → sc.received_window ≡ 0
    → s < invalid_seqno
    → k < 64
    → bit k (after s sc) ≡ (leb k s && mem (s - k) (s ∷ []))
slides_first s sc zero e w h lt = bit-after zero s sc lt ∙ sym (here s [])
slides_first s sc (suc k) e w h lt =
    bit-after (suc k) s sc lt ∙ rw (e, w, since_last_first s h) (first_bit k s)

slides_next :
    (s t : ℕ) (older : List ℕ) (sc : Sconn) (k : ℕ)
    → sc.last_seqno ≡ t
    → t < s
    → s < invalid_seqno
    → IsInOrder (t ∷ older)
    → ((j : ℕ) → j < 64 → bit j sc.received_window ≡ (leb j t && mem (t - j) (t ∷ older)))
    → k < 64
    → bit k (after s sc) ≡ (leb k s && mem (s - k) (s ∷ t ∷ older))
slides_next s t older sc zero e l h o w lt = bit-after zero s sc lt ∙ sym (here s (t ∷ older))
slides_next s t older sc (suc k) e l h o w lt =
    bit-after (suc k) s sc lt
    ∙ rw (e, since_last_next s t (omega arith) (omega arith))
        (next_bit s t older sc.received_window k l o w lt)

slides_all :
    (s : ℕ) (older : List ℕ) (sc : Sconn) (k : ℕ)
    → sc.last_seqno ≡ invalid_seqno
    → sc.received_window ≡ 0
    → IsInOrder (s ∷ older)
    → k < 64
    → bit k (after s (slides older sc)) ≡ (leb k s && mem (s - k) (s ∷ older))
unfolding slides
slides_all s [] sc k e w (first _ h) lt = slides_first s sc k e w h lt
slides_all s (t ∷ older) sc k e w (next _ _ _ l h o) lt =
    slides_next s t older (slide t (slides older sc)) k (slide-last_seqno t (slides older sc)) l h o
      (λ j z.
        ap (bit j) (slide-received_window t (slides older sc)) ∙ slides_all t older sc j e w o z)
      lt

-- After packets that came in order to a new connection, bit `k` of the window that is sent tells whether the
-- packet with the number `k` before the last came.
pub slides-window :
    (s : ℕ) (older : List ℕ) (sc : Sconn) (k : ℕ)
    → sc.last_seqno ≡ invalid_seqno
    → sc.received_window ≡ 0
    → IsInOrder (s ∷ older)
    → k < 64
    → bit k (sent_window (slides (s ∷ older) sc)) ≡ (leb k s && mem (s - k) (s ∷ older))
unfolding slides
slides-window s older sc k e w h lt =
    ap (bit k) (sent_window-slide s (slides older sc)) ∙ slides_all s older sc k e w h lt
