-- ===== src/Client/Start.antt =====
-- client.go: a run that starts a test makes a recorder with the room that was asked for.
use mathlib.Core.Bool.{true≢false}
use mathlib.Core.Option.{some-injective}
use irtt.Prelude.{
  ℕ, ◌≡◌, refl, ap, ◌∙◌, sym, inl, inr, Bool, true, false, Option, none, some, bind-inv, Bool-cases,
  Option-cases,
}
use irtt.Prelude.Int.{ℤ}
use irtt.Code.{Code}
use irtt.Params.{Params}
use irtt.Config.{ClientConfig}
use irtt.Negotiate.{Verdict, accepted, rejected, check_parameters, validate_config}
use irtt.Conn.{coded}
use irtt.Recorder.{Recorder, new_recorder, pcount}
use irtt.Client.Run.{
  Dialed, undialed, dialed, Options, Start, unstarted, no_test, started, set_options, make_recorder,
  begin, start_run,
}

is_started : Start → Bool
is_started (started p n r) = true
is_started x = false

not_started : (x y : Start) → some x ≡ some y → is_started y ≡ true → is_started x ≡ false → ⊥
not_started x y e a b = true≢false (sym a ∙ (ap is_started (sym (some-injective x y e)) ∙ b))

make_recorder-inv :
    (cfg : ClientConfig) (q p : Params) (n : ℕ) (r : Recorder)
    → cfg.stream ≡ false
    → make_recorder cfg q ≡ some (started p n r)
    → (pcount p.duration p.interval ≡ some n) × (r ≡ new_recorder n)
unfolding make_recorder
make_recorder-inv cfg q p n r no_stream e =
    let (n', z, e1) = bind-inv (pcount q.duration q.interval) _ (rw no_stream at e) in
    let same : started q n' (new_recorder n') ≡ started p n r = some-injective _ _ e1 in
    (
      rw (sym (ap (params_of q) same), sym (ap (room_of n) same)) z,
      sym (ap (recorder_of r) same) ∙ ap new_recorder (ap (room_of n) same),
    )
  where
    params_of : Params → Start → Params
    params_of q (started p n r) = p
    params_of q x = q

    room_of : ℕ → Start → ℕ
    room_of k (started p n r) = n
    room_of k x = k

    recorder_of : Recorder → Start → Recorder
    recorder_of k (started p n r) = r
    recorder_of k x = k

module _ (cfg : ClientConfig) (o : Options) (p : Params) (n : ℕ) (r : Recorder) where
  begin-inv :
      (q : Params) (conn : Option Bool)
      → begin cfg o q conn ≡ some (started p n r)
      → make_recorder cfg q ≡ some (started p n r)
  unfolding begin is_started
  begin-inv q none e = absurd (not_started no_test (started p n r) e refl refl)
  begin-inv q (some s) e = elim (Bool-cases cfg.no_test) [
    | inl z ↦ absurd (not_started no_test (started p n r) (rw z at e) refl refl)
    | inr z ↦ elim (Option-cases (set_options q s o)) [
      | inl y ↦ rw (z, y) at e
      | inr (c, y) ↦
          absurd (not_started (unstarted (coded c)) (started p n r) (rw (z, y) at e) refl refl)
    ]
  ]

  checked-inv :
      (v : Verdict) (q : Params) (conn : Option Bool)
      → elim v [ rejected e ↦ some (unstarted (coded e)) | accepted k ↦ begin cfg o q conn ]
        ≡ some (started p n r)
      → make_recorder cfg q ≡ some (started p n r)
  unfolding is_started
  checked-inv (rejected c) q conn e =
      absurd (not_started (unstarted (coded c)) (started p n r) e refl refl)
  checked-inv (accepted k) q conn e = begin-inv q conn e

  pub start_run-inv :
      (permitted : ℤ → Option Code) (d : Dialed)
      → cfg.stream ≡ false
      → start_run permitted cfg o d ≡ some (started p n r)
      → (pcount p.duration p.interval ≡ some n) × (r ≡ new_recorder n)
  unfolding start_run is_started
  start_run-inv permitted d no_stream e =
      elim (Option-cases (validate_config permitted cfg.params)) [
        | inr (c, z) ↦
            absurd
              (not_started (unstarted (coded c)) (started p n r) (rw (z, start_run) at e) refl refl)
        | inl z ↦
            make_recorder-inv cfg (granted d) p n r no_stream
              (dialed-inv d (rw (z, start_run) at e))
      ]
    where
      granted : Dialed → Params
      granted (undialed f) = p
      granted (dialed q conn) = q

      dialed-inv :
          (d : Dialed)
          → elim d [
            | undialed f ↦ some (unstarted f)
            | dialed q conn ↦ elim (check_parameters cfg.loose cfg.params q) [
              | rejected e ↦ some (unstarted (coded e))
              | accepted k ↦ begin cfg o q conn
            ]
          ]
            ≡ some (started p n r)
          → make_recorder cfg (granted d) ≡ some (started p n r)
      dialed-inv (undialed f) e = absurd (not_started (unstarted f) (started p n r) e refl refl)
      dialed-inv (dialed q conn) e = checked-inv (check_parameters cfg.loose cfg.params q) q conn e
