-- ===== src/Server/Expiry.antt =====
-- server.go: that `removeSomeExpired` gets rid of expired connections.
use irtt.Prelude.{
  ℕ, zero, suc, ◌<◌, ◌≡◌, ◌∙◌, ◌⊎◌, inl, inr, true, List, [], ◌∷◌, ◌++◌, none, some, arith, length,
  take,
}
use irtt.Prelude.Int.{ℤ}
use irtt.Prelude.Dict.{lookup, lookup-erase}
use irtt.Config.{ServerConfig, check_expired_count}
use irtt.Server.{Sconn, Conns, expired, remove_if_expired, remove_expired, remove_some_expired}
use irtt.Server.Manager.{IsPurged, step-IsPurged, steps-IsPurged, still_free}

-- The token holds an expired connection, or nothing.
IsOver : ServerConfig → ℤ → ℕ → Conns → Type 0
IsOver cfg now ct m =
    (lookup ct m ≡ none) ⊎ ((sc : Sconn) × (lookup ct m ≡ some sc) × (expired cfg now sc ≡ true))

module _ (cfg : ServerConfig) (now : ℤ) (ct : ℕ) where
  visited : (m : Conns) → IsOver cfg now ct m → lookup ct (remove_if_expired cfg now ct m) ≡ none
  unfolding IsOver remove_if_expired
  visited m (inl e) = rw (e, remove_if_expired) e
  visited m (inr (sc, e, x)) = rw (e, remove_if_expired) (rw x (lookup-erase ct m))

  passed :
      (b : ℕ) (m : Conns) → IsOver cfg now ct m → IsOver cfg now ct (remove_if_expired cfg now b m)
  unfolding IsOver IsPurged
  passed b m (inl e) = inl (still_free cfg now ct m _ (step-IsPurged cfg now b m) e)
  passed b m (inr (sc, e, x)) = elim (step-IsPurged cfg now b m ct) [
    | inl q ↦ inr (sc, q ∙ e, x)
    | inr (q, _) ↦ inl q
  ]

  removed :
      (n : ℕ) (before after : List ℕ) (m : Conns)
      → length before < n
      → IsOver cfg now ct m
      → lookup ct (remove_expired cfg now (take n (before ++ (ct ∷ after))) m) ≡ none
  unfolding remove_expired
  removed zero before after m h o = absurd (omega arith)
  removed (suc n) [] after m h o =
      still_free cfg now ct (remove_if_expired cfg now ct m) _
        (steps-IsPurged cfg now (take n after) (remove_if_expired cfg now ct m)) (visited m o)
  removed (suc n) (b ∷ before) after m h o =
      removed n before after (remove_if_expired cfg now b m) (omega arith) (passed b m o)

-- An expired connection is removed when it is among the first five that the visit of the map comes to,
-- whatever the order of the others.
pub remove_some_expired_visits :
    (cfg : ServerConfig) (now : ℤ) (before after : List ℕ) (ct : ℕ) (sc : Sconn) (m : Conns)
    → length before < check_expired_count
    → lookup ct m ≡ some sc
    → expired cfg now sc ≡ true
    → lookup ct (remove_some_expired cfg now (before ++ (ct ∷ after)) m) ≡ none
unfolding remove_some_expired IsOver
remove_some_expired_visits cfg now before after ct sc m h e x =
    removed cfg now ct check_expired_count before after m h (inr (sc, e, x))
