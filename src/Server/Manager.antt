-- ===== src/Server/Manager.antt =====
-- The connection manager of server.go.
use mathlib.Core.Option.{some-injective, none-ne-some}
use mathlib.Core.Path.{subst}
use irtt.Prelude.{
  ℕ, ◌≡◌, refl, ap, ◌∙◌, sym, ◌⊎◌, inl, inr, true, List, [], ◌∷◌, ◌++◌, none, some, arith, ◌==◌,
  if◌then◌else◌, Option-cases, Bool-cases, take, ==_iff,
}
use irtt.Prelude.Int.{ℤ}
use irtt.Prelude.Dict.{
  lookup, erase, insert, lookup-erase, lookup-erase_ne, lookup-insert, lookup-insert_ne,
}
use irtt.Config.{ServerConfig}
use irtt.Server.{
  Sconn, Conns, expired, get, remove_if_expired, remove_expired, remove_some_expired, new_ctoken,
  put,
}

-- In `b` there is what was in `a`, less connections that had expired.
unfoldable pub IsPurged : ServerConfig → ℤ → Conns → Conns → Type 0
IsPurged cfg now a b =
    (t : ℕ)
    → (lookup t b ≡ lookup t a)
      ⊎ ((lookup t b ≡ none)
          × ((sc : Sconn) × (lookup t a ≡ some sc) × (expired cfg now sc ≡ true)))

pub erase-IsPurged :
    (cfg : ServerConfig) (now : ℤ) (ct : ℕ) (sc : Sconn) (m : Conns)
    → lookup ct m ≡ some sc
    → expired cfg now sc ≡ true
    → IsPurged cfg now m (erase ct m)
unfolding IsPurged
erase-IsPurged cfg now ct sc m f x t = elim (Bool-cases (t == ct)) [
  | inl e ↦ inr (go t ((==_iff t ct).0 e))
  | inr e ↦ inl (lookup-erase_ne ct t m (ground arith))
]
  where
    go :
        (t : ℕ)
        → t ≡ ct
        → (lookup t (erase ct m) ≡ none)
          × ((s : Sconn) × (lookup t m ≡ some s) × (expired cfg now s ≡ true))
    go t e = rw e (lookup-erase ct m, (sc, f, x))

pub IsPurged-refl : (cfg : ServerConfig) (now : ℤ) (m : Conns) → IsPurged cfg now m m
unfolding IsPurged
IsPurged-refl cfg now m t = inl refl

pub IsPurged-trans :
    (cfg : ServerConfig) (now : ℤ) (a b c : Conns)
    → IsPurged cfg now a b
    → IsPurged cfg now b c
    → IsPurged cfg now a c
unfolding IsPurged
IsPurged-trans cfg now a b c ab bc t = elim (bc t) [
  | inl e ↦ elim (ab t) [ inl f ↦ inl (e ∙ f) | inr (n, x) ↦ inr (e ∙ n, x) ]
  | inr (n, (sc, f, x)) ↦ elim (ab t) [
    | inl g ↦ inr (n, (sc, sym g ∙ f, x))
    | inr (g, _) ↦ absurd (none-ne-some sc (sym g ∙ f))
  ]
]

pub step-IsPurged :
    (cfg : ServerConfig) (now : ℤ) (ct : ℕ) (m : Conns)
    → IsPurged cfg now m (remove_if_expired cfg now ct m)
unfolding remove_if_expired
step-IsPurged cfg now ct m = elim (Option-cases (lookup ct m)) [
  | inl e ↦ rw (e, remove_if_expired) (IsPurged-refl cfg now m)
  | inr (sc, e) ↦ elim (Bool-cases (expired cfg now sc)) [
    | inl x ↦ rw (e, remove_if_expired) (rw x (erase-IsPurged cfg now ct sc m e x))
    | inr x ↦ rw (e, remove_if_expired) (rw x (IsPurged-refl cfg now m))
  ]
]

pub steps-IsPurged :
    (cfg : ServerConfig) (now : ℤ) (cts : List ℕ) (m : Conns)
    → IsPurged cfg now m (remove_expired cfg now cts m)
unfolding remove_expired
steps-IsPurged cfg now [] m = IsPurged-refl cfg now m
steps-IsPurged cfg now (ct ∷ cts) m =
    IsPurged-trans cfg now m (remove_if_expired cfg now ct m) _ (step-IsPurged cfg now ct m)
      (steps-IsPurged cfg now cts (remove_if_expired cfg now ct m))

-- `removeSomeExpired` removes no connection that has not expired, and changes none.
pub remove_some_expired-IsPurged :
    (cfg : ServerConfig) (now : ℤ) (order : List ℕ) (m : Conns)
    → IsPurged cfg now m (remove_some_expired cfg now order m)
unfolding remove_some_expired
remove_some_expired-IsPurged cfg now order m = steps-IsPurged cfg now (take 5 order) m

new_ctoken_fresh :
    (random : List ℕ) (m : Conns) (t : ℕ) → new_ctoken random m ≡ some t → lookup t m ≡ none
unfolding new_ctoken
new_ctoken_fresh [] m t e = absurd (none-ne-some t e)
new_ctoken_fresh (c ∷ cs) m t e = elim (Option-cases (lookup c m)) [
  | inl f ↦ ap (λ x. lookup x m) (sym (some-injective c t (rw (f, new_ctoken) at e))) ∙ f
  | inr (sc, f) ↦ new_ctoken_fresh cs m t (rw (f, new_ctoken) at e)
]

abbrev stored : ℕ → Sconn → Conns → Sconn × Conns
stored t sc m = (record sc { ctoken = t }, insert t (record sc { ctoken = t }) m)

put-inv :
    (cfg : ServerConfig) (now : ℤ) (order random : List ℕ) (sc sc' : Sconn) (m m' : Conns)
    → put cfg now order random sc m ≡ some (sc', m')
    → (t : ℕ) × (new_ctoken random (remove_some_expired cfg now order m) ≡ some t)
      × (stored t sc (remove_some_expired cfg now order m) ≡ (sc', m'))
unfolding put
put-inv cfg now order random sc sc' m m' e =
    elim (Option-cases (new_ctoken random (remove_some_expired cfg now order m))) [
      | inl f ↦ absurd (none-ne-some (sc', m') (rw f at e))
      | inr (t, f) ↦ (t, f, some-injective _ (sc', m') (rw f at e))
    ]

-- What `put` has done when it is done: the token was free, or its holder had expired; the connection is
-- stored under the token and is otherwise as it was; and among the others only expired ones are gone.
pub record IsStored (cfg : ServerConfig) (now : ℤ) (sc sc' : Sconn) (m m' : Conns) : Type 0 where
  pub same : sc' ≡ record sc { ctoken = sc'.ctoken }
  pub there : lookup sc'.ctoken m' ≡ some sc'
  pub was_free :
      (lookup sc'.ctoken m ≡ none)
      ⊎ ((old : Sconn) × (lookup sc'.ctoken m ≡ some old) × (expired cfg now old ≡ true))
  pub others :
      (t : ℕ)
      → ¬ (t ≡ sc'.ctoken)
      → (lookup t m' ≡ lookup t m)
        ⊎ ((lookup t m' ≡ none)
            × ((old : Sconn) × (lookup t m ≡ some old) × (expired cfg now old ≡ true)))

stored-IsStored :
    (cfg : ServerConfig) (now : ℤ) (t : ℕ) (sc : Sconn) (m m1 : Conns)
    → IsPurged cfg now m m1
    → lookup t m1 ≡ none
    → IsStored cfg now sc (stored t sc m1).0 m (stored t sc m1).1
unfolding IsPurged
stored-IsStored cfg now t sc m m1 p free = record {
  same = refl;
  there = lookup-insert t (record sc { ctoken = t }) m1;
  was_free = elim (p t) [ inl e ↦ inl (sym e ∙ free) | inr (_, x) ↦ inr x ];
  others = λ u n. elim (p u) [
    | inl e ↦ inl (lookup-insert_ne t u (record sc { ctoken = t }) m1 n ∙ e)
    | inr (z, x) ↦ inr (lookup-insert_ne t u (record sc { ctoken = t }) m1 n ∙ z, x)
  ];
}

-- Where `put` gives a connection and a map: that connection is the given one with its token set, and the map
-- has it under this token; before, the token was free or its holder had expired; and every other token
-- holds what it held, or nothing any more, if its holder had expired.
pub put-IsStored :
    (cfg : ServerConfig) (now : ℤ) (order random : List ℕ) (sc sc' : Sconn) (m m' : Conns)
    → put cfg now order random sc m ≡ some (sc', m')
    → IsStored cfg now sc sc' m m'
put-IsStored cfg now order random sc sc' m m' e =
    let (t, f, g) = put-inv cfg now order random sc sc' m m' e in
    let m1 = remove_some_expired cfg now order m in
    subst (λ (r : Sconn × Conns). IsStored cfg now sc r.0 m r.1) g
      (stored-IsStored cfg now t sc m m1 (remove_some_expired-IsPurged cfg now order m)
        (new_ctoken_fresh random m1 t f))

new_ctoken_ends :
    (before after : List ℕ) (t : ℕ) (m : Conns)
    → lookup t m ≡ none
    → (c : ℕ) × (new_ctoken (before ++ (t ∷ after)) m ≡ some c)
unfolding new_ctoken
new_ctoken_ends [] after t m f = rw (f, new_ctoken) (t, refl)
new_ctoken_ends (b ∷ before) after t m f = elim (Option-cases (lookup b m)) [
  | inl e ↦ rw (e, new_ctoken) (b, refl)
  | inr (sc, e) ↦ rw (e, new_ctoken) (new_ctoken_ends before after t m f)
]

pub still_free :
    (cfg : ServerConfig) (now : ℤ) (t : ℕ) (a b : Conns)
    → IsPurged cfg now a b
    → lookup t a ≡ none
    → lookup t b ≡ none
unfolding IsPurged
still_free cfg now t a b p f = elim (p t) [ inl e ↦ e ∙ f | inr (n, _) ↦ n ]

-- `put` gives a result, if one of the random candidates is not a token of the map.
pub put_ends :
    (cfg : ServerConfig) (now : ℤ) (order before after : List ℕ) (t : ℕ) (sc : Sconn) (m : Conns)
    → lookup t m ≡ none
    → (r : Sconn × Conns) × (put cfg now order (before ++ (t ∷ after)) sc m ≡ some r)
unfolding put
put_ends cfg now order before after t sc m f =
    let m1 = remove_some_expired cfg now order m in
    let (c, e) =
      new_ctoken_ends before after t m1
        (still_free cfg now t m m1 (remove_some_expired-IsPurged cfg now order m) f) in
    rw e (stored c sc m1, refl)

-- `get` gives the connection that the token holds, also where it has expired. After it the token holds
-- nothing if the connection had expired, and the same if not; no other is gone but expired ones.
pub get_lem :
    (cfg : ServerConfig) (now : ℤ) (ct : ℕ) (sc : Sconn) (m : Conns)
    → lookup ct m ≡ some sc
    → ((get cfg now ct m).0 ≡ some sc)
      × (lookup ct (get cfg now ct m).1 ≡ (if expired cfg now sc then none else some sc))
      × IsPurged cfg now m (get cfg now ct m).1
unfolding get
get_lem cfg now ct sc m e = elim (Bool-cases (expired cfg now sc)) [
  | inl x ↦ rw (e, get) (rw x (refl, lookup-erase ct m, erase-IsPurged cfg now ct sc m e x))
  | inr x ↦ rw (e, get) (rw x (refl, e, IsPurged-refl cfg now m))
]
