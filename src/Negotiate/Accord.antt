-- ===== src/Negotiate/Accord.antt =====
-- The client's check of the parameters that the server returned (`Client.checkParameters` of client.go)
-- against what the server does (`sconn.restrictParams` of sconn.go).
use irtt.Prelude.{
  ℕ, suc, ◌+◌, ◌≡◌, refl, ◌⊎◌, inl, inr, Bool, true, false, not, ◌&&◌, List, some, arith, ◌==◌,
  ltb-eq-false, [], ◌∷◌, ==_iff,
}
use irtt.Prelude.Int.{ℤ, pos, pos_part, neg_part, ltb_ℤ, eqb_ℤ, ◌≤ℤ◌, eq_of_parts}
use irtt.Prelude.Word.{quot}
use irtt.Code.{Code}
use irtt.Net.{bytes_equal}
use irtt.Params.{Params}
use irtt.Config.{ServerConfig, protocol_version, min_restricted_interval}
use irtt.Negotiate.{
  Verdict, accepted, rejected, noted, refused, check_others, check_parameters, restrict_params,
}
use irtt.Negotiate.Limits.{IsWithin, restrict_params-IsWithin}

-- What the client takes from the server, if it is loose.
pub record IsTolerable (s p : Params) : Type 0 where
  pub version : p.protocol_version ≡ protocol_version
  pub duration : p.duration ≤ℤ s.duration
  pub interval : (s.interval ≤ℤ p.interval) ⊎ (min_restricted_interval ≤ℤ p.interval)
  pub len : p.len ≤ℤ s.len

-- What it takes if it is strict: what it asked for.
pub record IsUnchanged (s p : Params) : Type 0 where
  pub version : p.protocol_version ≡ protocol_version
  pub duration : p.duration ≡ s.duration
  pub interval : p.interval ≡ s.interval
  pub len : p.len ≡ s.len
  pub stamp_at : p.stamp_at ≡ s.stamp_at
  pub clock : p.clock ≡ s.clock
  pub dscp : p.dscp ≡ s.dscp
  pub server_fill : p.server_fill ≡ s.server_fill

-- A verdict that is not an error.
unfoldable pub IsAccepted : Verdict → Type 0
IsAccepted v = (n : ℕ) × (v ≡ accepted n)

noted-IsAccepted : (b : Bool) (v : Verdict) → IsAccepted v → IsAccepted (noted true b v)
unfolding IsAccepted
noted-IsAccepted true v (n, e) = rw e (suc n, refl)
noted-IsAccepted false v a = a

refused-IsAccepted :
    (b : Bool) (e : Code) (v : Verdict) → b ≡ false → IsAccepted v → IsAccepted (refused b e v)
refused-IsAccepted b e v h a = rw h a

and_false : (b : Bool) → (b && false) ≡ false
and_false true = refl
and_false false = refl

not_longer : (a b : ℤ) → a ≤ℤ b → ltb_ℤ b a ≡ false
not_longer a b h = ltb-eq-false _ _ (λ l. omega arith)

interval_taken :
    (s p : Params)
    → (s.interval ≤ℤ p.interval) ⊎ (min_restricted_interval ≤ℤ p.interval)
    → (ltb_ℤ p.interval s.interval && ltb_ℤ p.interval min_restricted_interval) ≡ false
interval_taken s p (inl h) = rw (not_longer s.interval p.interval h) refl
interval_taken s p (inr h) = rw (not_longer min_restricted_interval p.interval h) (and_false _)

others-IsAccepted : (s p : Params) → p.len ≤ℤ s.len → IsAccepted (check_others true s p)
unfolding check_others IsAccepted
others-IsAccepted s p h = noted-IsAccepted _ _ (
    refused-IsAccepted _ _ _ (not_longer p.len s.len h) (
      noted-IsAccepted (not (p.stamp_at == s.stamp_at)) _ (
        noted-IsAccepted (not (p.clock == s.clock)) _ (
          noted-IsAccepted (not (eqb_ℤ p.dscp s.dscp)) _
            (noted-IsAccepted (not (bytes_equal p.server_fill s.server_fill)) _ (0, refl))))))

-- A loose client takes what is tolerable.
pub tolerable-IsAccepted : (s p : Params) → IsTolerable s p → IsAccepted (check_parameters true s p)
unfolding check_parameters
tolerable-IsAccepted s p t = refused-IsAccepted _ _ _ (rw (t.version) refl) (
    noted-IsAccepted _ _ (
      refused-IsAccepted _ _ _ (not_longer p.duration s.duration t.duration) (
        noted-IsAccepted _ _ (
          refused-IsAccepted _ _ _ (interval_taken s p t.interval)
            (noted-IsAccepted _ _ (others-IsAccepted s p t.len))))))

quarter : (t v : ℤ) → pos 4000000000 ≤ℤ t → v ≡ quot t 4 → min_restricted_interval ≤ℤ v
unfolding quot
quarter t v h e = rw e (ground arith)

within-IsTolerable :
    (cfg : ServerConfig) (s r : Params)
    → (cfg.timeout ≤ℤ pos 0) ⊎ (pos 4000000000 ≤ℤ cfg.timeout)
    → IsWithin cfg s r
    → IsTolerable s r
within-IsTolerable cfg s r t w = record {
  version = w.version;
  duration = w.duration;
  len = w.len;
  interval = elim (w.raised) [
    | inl h ↦ inl h
    | inr (l, e) ↦
        inr (elim t [ inl h ↦ absurd (omega arith) | inr h ↦ quarter cfg.timeout r.interval h e ])
  ];
}

-- A loose client accepts whatever a server made of its request, if the server has no timeout, or one of four seconds at least.
pub check_parameters-restrict_params :
    (cfg : ServerConfig) (d : Bool) (s r : Params)
    → (cfg.timeout ≤ℤ pos 0) ⊎ (pos 4000000000 ≤ℤ cfg.timeout)
    → restrict_params cfg d s ≡ some r
    → IsAccepted (check_parameters true s r)
check_parameters-restrict_params cfg d s r t e =
    tolerable-IsAccepted s r (within-IsTolerable cfg s r t (restrict_params-IsWithin cfg d s r e))

rejected-ne-accepted : (c : Code) (n : ℕ) → ¬ (rejected c ≡ accepted n)
rejected-ne-accepted c n e = cc

accepted-inv : (n : ℕ) → accepted 0 ≡ accepted n → n ≡ 0
accepted-inv n e = cc

noted-strict :
    (b : Bool) (v : Verdict) (n : ℕ) → noted false b v ≡ accepted n → (b ≡ false) × (v ≡ accepted n)
noted-strict true v n e = absurd (rejected-ne-accepted _ n e)
noted-strict false v n e = (refl, e)

refused-inv :
    (b : Bool) (c : Code) (v : Verdict) (n : ℕ)
    → refused b c v ≡ accepted n
    → (b ≡ false) × (v ≡ accepted n)
refused-inv true c v n e = absurd (rejected-ne-accepted _ n e)
refused-inv false c v n e = (refl, e)

and-inv : (a b : Bool) → (a && b) ≡ true → (a ≡ true) × (b ≡ true)
and-inv true b h = (refl, h)
and-inv false b h = absurd (cc)

cc_cons : (a b : ℕ) (l m : List ℕ) → a ≡ b → l ≡ m → (a ∷ l) ≡ (b ∷ m)
cc_cons a b l m x y = cc

not-inv : (b : Bool) → not b ≡ false → b ≡ true
not-inv true h = refl
not-inv false h = absurd (cc)

bytes_equal-eq : (a b : List ℕ) → bytes_equal a b ≡ true → a ≡ b
unfolding bytes_equal
bytes_equal-eq [] [] h = refl
bytes_equal-eq [] (b ∷ bs) h = absurd (cc)
bytes_equal-eq (a ∷ l) [] h = absurd (cc)
bytes_equal-eq (a ∷ l) (b ∷ bs) h =
    let (x, y) = and-inv (a == b) (bytes_equal l bs) h in
    cc_cons a b l bs ((==_iff a b).0 x) (bytes_equal-eq l bs y)

equal_of_neither : (a b : ℤ) → ltb_ℤ a b ≡ false → ltb_ℤ b a ≡ false → a ≡ b
equal_of_neither a b h k = eq_of_parts a b (ground arith)

same : (a b : ℕ) → not (a == b) ≡ false → a ≡ b
same a b h = (==_iff a b).0 (not-inv (a == b) h)

same_ℤ : (a b : ℤ) → not (eqb_ℤ a b) ≡ false → a ≡ b
same_ℤ a b h = eq_of_parts a b (same (pos_part a + neg_part b) (pos_part b + neg_part a) h)

-- What is the same where the second half of the check passes.
others-strict :
    (s p : Params) (n : ℕ)
    → check_others false s p ≡ accepted n
    → (n ≡ 0)
      × (p.len ≡ s.len)
      × (p.stamp_at ≡ s.stamp_at)
      × (p.clock ≡ s.clock)
      × (p.dscp ≡ s.dscp)
      × (p.server_fill ≡ s.server_fill)
unfolding check_others
others-strict s p n e =
    let (l1, e1) = noted-strict (ltb_ℤ p.len s.len) _ n e in
    let (l2, e2) = refused-inv (ltb_ℤ s.len p.len) _ _ n e1 in
    let (st, e3) = noted-strict (not (p.stamp_at == s.stamp_at)) _ n e2 in
    let (cl, e4) = noted-strict (not (p.clock == s.clock)) _ n e3 in
    let (ds, e5) = noted-strict (not (eqb_ℤ p.dscp s.dscp)) _ n e4 in
    let (fi, e6) = noted-strict (not (bytes_equal p.server_fill s.server_fill)) _ n e5 in
    (
      accepted-inv n e6,
      equal_of_neither p.len s.len l1 l2,
      same p.stamp_at s.stamp_at st,
      same p.clock s.clock cl,
      same_ℤ p.dscp s.dscp ds,
      bytes_equal-eq p.server_fill s.server_fill
          (not-inv (bytes_equal p.server_fill s.server_fill) fi),
    )

-- A client that is not loose accepts only what it asked for, the received statistics aside, in the known
-- version, and with no event.
pub check_parameters-strict :
    (s p : Params) (n : ℕ) → check_parameters false s p ≡ accepted n → (n ≡ 0) × IsUnchanged s p
unfolding check_parameters
check_parameters-strict s p n e0 =
    let (version, e1) = refused-inv (not (eqb_ℤ p.protocol_version protocol_version)) _ _ n e0 in
    let (d1, e2) = noted-strict (ltb_ℤ p.duration s.duration) _ n e1 in
    let (d2, e3) = refused-inv (ltb_ℤ s.duration p.duration) _ _ n e2 in
    let (i1, e4) = noted-strict (ltb_ℤ s.interval p.interval) _ n e3 in
    let (_, e5) =
      refused-inv (ltb_ℤ p.interval s.interval && ltb_ℤ p.interval min_restricted_interval) _ _ n
        e4 in
    let (i2, e6) = noted-strict (ltb_ℤ p.interval s.interval) _ n e5 in
    let (none_left, l, st, cl, ds, fi) = others-strict s p n e6 in
    (
      none_left,
      record {
        version = same_ℤ p.protocol_version protocol_version version;
        duration = equal_of_neither p.duration s.duration d1 d2;
        interval = equal_of_neither p.interval s.interval i2 i1;
        len = l;
        stamp_at = st;
        clock = cl;
        dscp = ds;
        server_fill = fi;
      },
    )
