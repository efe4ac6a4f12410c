-- ===== src/Server/Sound.antt =====
-- server.go and sconn.go: what each operation keeps of the connections of a server.
use mathlib.Core.Option.{none-ne-some, some-injective}
use mathlib.Core.Path.{subst}
use irtt.Prelude.{
  ℕ, ◌^◌, ◌<◌, ◌≡◌, refl, ap, ◌∙◌, sym, inl, inr, Bool, true, false, List, Option, none, some,
  arith, if◌then◌else◌, Bool-cases, Option-cases, ◌==◌, ==_iff,
}
use irtt.Prelude.Int.{ℤ}
use irtt.Prelude.Dict.{
  lookup, erase, insert, lookup-erase, lookup-erase_ne, lookup-insert, lookup-insert_ne,
}
use irtt.Net.{UdpAddr}
use irtt.Filler.{Filler, Made, no_filler, made, failed, undecoded}
use irtt.Params.{Params}
use irtt.Config.{ServerConfig}
use irtt.Negotiate.Limits.{IsWithin}
use irtt.Server.{Sconn, new_sconn, Conns, expired, get, remove, put}
use irtt.Server.Manager.{put-IsStored}
use irtt.Server.Echo.{Served}
use irtt.Server.Open.{with_filler, store, Choice, listeners, own, set_filler, load_filler}
use irtt.Server.Kept.{IsKept, IsServed}

-- Which requests have come from which address
abbrev pub Requests : Type 1
Requests = UdpAddr → Params → Type 0

-- A connection under the token `t`: it is the token's, its counters are in the range of their types, and its
-- parameters are within the server's limits and a request that came from the connection's address.
pub record IsConn (cfg : ServerConfig) (A : Requests) (t : ℕ) (sc : Sconn) : Type 0 where
  pub key : sc.ctoken ≡ t
  pub window : sc.received_window < 2 ^ 64
  pub count : sc.received_count < 2 ^ 32
  pub limits : (asked : Params) × A sc.raddr asked × IsWithin cfg asked sc.params

-- All connections are such.
unfoldable pub IsSound : ServerConfig → Requests → Conns → Type 0
IsSound cfg A m = (t : ℕ) (sc : Sconn) → lookup t m ≡ some sc → IsConn cfg A t sc

-- What `b` has, `a` has.
unfoldable pub IsPart : Conns → Conns → Type 0
IsPart a b = (t : ℕ) (sc : Sconn) → lookup t b ≡ some sc → lookup t a ≡ some sc

pub part-IsSound :
    (cfg : ServerConfig) (A : Requests) (a b : Conns)
    → IsPart a b
    → IsSound cfg A a
    → IsSound cfg A b
unfolding IsSound IsPart
part-IsSound cfg A a b p s t sc e = s t sc (p t sc e)

IsPart-refl : (m : Conns) → IsPart m m
unfolding IsPart
IsPart-refl m t sc e = e

erase-IsPart : (ct : ℕ) (m : Conns) → IsPart m (erase ct m)
unfolding IsPart
erase-IsPart ct m t sc e = elim (Bool-cases (t == ct)) [
  | inl q ↦ absurd (none-ne-some sc (gone ((==_iff t ct).0 q)))
  | inr q ↦ sym (lookup-erase_ne ct t m (ground arith)) ∙ e
]
  where
    gone : t ≡ ct → ◌≡◌ {A = Option Sconn} none (some sc)
    gone q = sym (lookup-erase ct m) ∙ (ap (λ x. lookup x (erase ct m)) (sym q) ∙ e)

pub get-IsPart : (cfg : ServerConfig) (now : ℤ) (ct : ℕ) (m : Conns) → IsPart m (get cfg now ct m).1
unfolding get
get-IsPart cfg now ct m = elim (Option-cases (lookup ct m)) [
  | inl e ↦ rw (e, get) (IsPart-refl m)
  | inr (sc, e) ↦ rw (e, get) (taken (expired cfg now sc))
]
  where
    taken : (b : Bool) → IsPart m (if b then erase ct m else m)
    taken true = erase-IsPart ct m
    taken false = IsPart-refl m

pub get_found :
    (cfg : ServerConfig) (now : ℤ) (ct : ℕ) (m : Conns) (sc : Sconn)
    → (get cfg now ct m).0 ≡ some sc
    → lookup ct m ≡ some sc
unfolding get
get_found cfg now ct m sc e = elim (Option-cases (lookup ct m)) [
  | inl z ↦ absurd (none-ne-some sc (rw (z, get) at e))
  | inr (sc', z) ↦ z ∙ (rw (z, get) at e)
]

remove-IsPart : (ct : ℕ) (m : Conns) → IsPart m (remove ct m).1
unfolding remove
remove-IsPart ct m = elim (Option-cases (lookup ct m)) [
  | inl e ↦ rw (e, remove) (IsPart-refl m)
  | inr (sc, e) ↦ rw (e, remove) (erase-IsPart ct m)
]

insert-IsSound :
    (cfg : ServerConfig) (A : Requests) (ct : ℕ) (sc : Sconn) (m : Conns)
    → IsConn cfg A ct sc
    → IsSound cfg A m
    → IsSound cfg A (insert ct sc m)
unfolding IsSound
insert-IsSound cfg A ct sc m c s t x e = elim (Bool-cases (t == ct)) [
  | inl q ↦
      let q' : t ≡ ct = (==_iff t ct).0 q in
      let same : sc ≡ x =
        some-injective sc x
          (sym (lookup-insert ct sc m) ∙ (ap (λ y. lookup y (insert ct sc m)) (sym q') ∙ e)) in
      subst (λ y. IsConn cfg A t y) same (subst (λ y. IsConn cfg A y sc) (sym q') c)
  | inr q ↦ s t x (sym (lookup-insert_ne ct t sc m (ground arith)) ∙ e)
]

store-IsSound :
    (cfg : ServerConfig) (A : Requests) (ct : ℕ) (sc : Sconn) (m : Conns)
    → IsConn cfg A ct sc
    → IsSound cfg A m
    → IsSound cfg A (store ct sc m)
unfolding store
store-IsSound cfg A ct sc m c s = elim (Option-cases (lookup ct m)) [
  | inl e ↦ rw (e, store) s
  | inr (old, e) ↦ rw (e, store) (insert-IsSound cfg A ct sc m c s)
]

kept-IsConn :
    (cfg : ServerConfig) (A : Requests) (ct : ℕ) (a b : Sconn)
    → IsKept a b
    → IsConn cfg A ct a
    → IsConn cfg A ct b
kept-IsConn cfg A ct a b k c = record {
  key = k.ctoken ∙ c.key;
  window = k.window c.window;
  count = k.count c.count;
  limits =
      let (asked, came, within) = c.limits in
      (
        asked,
        subst (λ r. A r asked) (sym k.raddr) came,
        subst (λ r. IsWithin cfg asked r) (sym k.params) within,
      );
}

pub load_filler-IsConn :
    (cfg : ServerConfig) (A : Requests) (t : ℕ) (f : Option Filler) (sc : Sconn)
    → IsConn cfg A t sc
    → IsConn cfg A t (load_filler f sc)
unfolding load_filler
load_filler-IsConn cfg A t f sc c = loaded (sc.shares_filler)
  where
    loaded : (b : Bool) → IsConn cfg A t (if b then record sc { filler = f } else sc)
    loaded false = c
    loaded true = record { key = c.key; window = c.window; count = c.count; limits = c.limits }

pub served-IsSound :
    (cfg : ServerConfig) (A : Requests) (ct : ℕ) (f : Option Filler) (sc : Sconn) (m : Conns)
    (s : Served)
    → IsConn cfg A ct sc
    → IsSound cfg A m
    → IsServed sc m s
    → IsSound cfg A (store ct (load_filler f s.sc) s.conns)
served-IsSound cfg A ct f sc m s c g d =
    store-IsSound cfg A ct (load_filler f s.sc) s.conns
      (load_filler-IsConn cfg A ct f s.sc (kept-IsConn cfg A ct sc s.sc d.kept c))
      (elim (d.conns) [
        | inl e ↦ subst (IsSound cfg A) (sym e) g
        | inr e ↦
            subst (IsSound cfg A) (sym e)
              (part-IsSound cfg A m (remove sc.ctoken m).1 (remove-IsPart sc.ctoken m) g)
      ])

pub new-IsConn :
    (cfg : ServerConfig) (A : Requests) (now : ℤ) (raddr : UdpAddr) (c : Choice) (burst t : ℕ)
    (asked p : Params)
    → A raddr asked
    → IsWithin cfg asked p
    → IsConn cfg A t (record (set_filler c (new_sconn now raddr burst p)) { ctoken = t })
unfolding new_sconn set_filler
new-IsConn cfg A now raddr listeners burst t asked p came w = record {
  key = refl;
  window = omega arith;
  count = omega arith;
  limits = (asked, came, w);
}
new-IsConn cfg A now raddr (own g) burst t asked p came w = record {
  key = refl;
  window = omega arith;
  count = omega arith;
  limits = (asked, came, w);
}

pub put-IsSound :
    (cfg : ServerConfig) (A : Requests) (now : ℤ) (order random : List ℕ) (sc sc' : Sconn)
    (m m' : Conns)
    → IsConn cfg A sc'.ctoken (record sc { ctoken = sc'.ctoken })
    → IsSound cfg A m
    → put cfg now order random sc m ≡ some (sc', m')
    → IsSound cfg A m'
unfolding IsSound
put-IsSound cfg A now order random sc sc' m m' c s e t x f =
    let g = put-IsStored cfg now order random sc sc' m m' e in
    elim (Bool-cases (t == sc'.ctoken)) [
      | inl q ↦
          let q' : t ≡ sc'.ctoken = (==_iff t sc'.ctoken).0 q in
          let same : sc' ≡ x =
            some-injective sc' x (sym g.there ∙ (ap (λ y. lookup y m') (sym q') ∙ f)) in
          subst (λ y. IsConn cfg A t y) same
            (subst (λ y. IsConn cfg A y sc') (sym q')
              (subst (λ y. IsConn cfg A sc'.ctoken y) (sym g.same) c))
      | inr q ↦ elim (g.others t (ground arith)) [
        | inl z ↦ s t x (sym z ∙ f)
        | inr (z, _) ↦ absurd (none-ne-some x (sym z ∙ f))
      ]
    ]

refilled-IsWithin :
    (cfg : ServerConfig) (asked p : Params) (fill : List ℕ)
    → IsWithin cfg asked p
    → IsWithin cfg asked (record p { server_fill = fill })
refilled-IsWithin cfg asked p fill w = record {
  version = w.version;
  duration = w.duration;
  max_duration = w.max_duration;
  len = w.len;
  max_length = w.max_length;
  timeout = w.timeout;
  min_interval = w.min_interval;
  raised = w.raised;
  received_stats = w.received_stats;
  clock = w.clock;
}

pub with_filler-IsWithin :
    (cfg : ServerConfig) (asked p : Params) (m : Made)
    → IsWithin cfg asked p
    → IsWithin cfg asked (with_filler cfg p m).1
unfolding with_filler
with_filler-IsWithin cfg asked p no_filler w = w
with_filler-IsWithin cfg asked p (made f) w = w
with_filler-IsWithin cfg asked p (failed c) w = refilled-IsWithin cfg asked p cfg.default_filler w
with_filler-IsWithin cfg asked p undecoded w = refilled-IsWithin cfg asked p cfg.default_filler w

-- More requests.
pub IsSound-more :
    (cfg : ServerConfig) (A B : Requests) (m : Conns)
    → ((raddr : UdpAddr) (asked : Params) → A raddr asked → B raddr asked)
    → IsSound cfg A m
    → IsSound cfg B m
unfolding IsSound
IsSound-more cfg A B m f s t sc e =
    let c = s t sc e in
    let (asked, came, within) = c.limits in
    record {
      key = c.key;
      window = c.window;
      count = c.count;
      limits = (asked, f sc.raddr asked came, within);
    }

pub found-IsConn :
    {cfg : ServerConfig} {A : Requests} (ct : ℕ) (sc : Sconn) (m : Conns)
    → lookup ct m ≡ some sc
    → IsSound cfg A m
    → IsConn cfg A ct sc
unfolding IsSound
found-IsConn ct sc m e s = s ct sc e
