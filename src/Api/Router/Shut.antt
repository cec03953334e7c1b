-- ===== src/Api/Router/Shut.antt =====
-- NewRouter of api/internal/api/router.go with the limiter of api/internal/api/middleware.go: what
-- becomes of the routes behind the limiter.
use snow_radar.Common.{
  ℕ, ◌*◌, String, ◌≡◌, ◌⊎◌, refl, sym, ap, true, List, [], ◌∷◌, Result, ok, Bool-cases,
  Result-cases, inl, inr, string_eq,
}
use snow_radar.Common.Dict.{lookup}
use snow_radar.Netalloc.{AllocError}
use snow_radar.Store.{Store}
use snow_radar.Auth.{second}
use snow_radar.Peer.{Service}
use snow_radar.Api.Devices.{new_server}
use snow_radar.Api.RateLimit.{RateLimiter, Outcome, panics, blocks, new_rate_limiter, rate_limit}
use snow_radar.Api.RateLimit.Deadlock.{step_locked}
use snow_radar.Api.Router.{
  Libraries, Config, Server, Route, healthz, signs_up, logs_in, refreshes, paddle, pay_here, authed,
  Request, Reply, recovered, hangs, behind, limited, serve_route, serve, serve_all, new_router,
}

-- The mutex is held for good, or no address has a window.
abbrev pub IsShut : RateLimiter → Type 0
IsShut rl = (rl.locked ≡ true) ⊎ (rl.visitors ≡ [])

abbrev Stops : RateLimiter × Outcome → Type 0
Stops r = IsShut r.0 × ((r.1 ≡ panics) ⊎ (r.1 ≡ blocks))

rate_limit-locked :
    (max per now : ℕ) (key : String) (rl : RateLimiter)
    → rl.locked ≡ true
    → Stops (rate_limit max per key now rl)
rate_limit-locked max per now key rl h = rw (step_locked max per now key rl h) (inl h, inr refl)

rate_limit-shut :
    (max per now : ℕ) (key : String) (rl : RateLimiter)
    → IsShut rl
    → Stops (rate_limit max per key now rl)
unfolding rate_limit lookup
rate_limit-shut max per now key rl (inl h) = rate_limit-locked max per now key rl h
rate_limit-shut max per now key rl (inr h) = elim (Bool-cases rl.locked) [
  | inl held ↦ rate_limit-locked max per now key rl held
  | inr free ↦ rw (rate_limit, free, h) (inl refl, inl refl)
]

module _ {S : Type 0} where
  behind-stopped :
      (o : Outcome) (handler : Service S → Service S × Reply) (s : Service S)
      → (o ≡ panics) ⊎ (o ≡ blocks)
      → ((behind o handler s).0 ≡ s)
        × (((behind o handler s).1 ≡ recovered 500) ⊎ ((behind o handler s).1 ≡ hangs))
  unfolding behind
  behind-stopped o handler s (inl e) = rw e (refl, inl refl)
  behind-stopped o handler s (inr e) = rw e (refl, inr refl)

  -- The handler is not reached, and nothing changes behind the limiter.
  abbrev IsStopped : Server S → Server S × Reply → Type 0
  IsStopped srv r = (r.0.service ≡ srv.service) × ((r.1 ≡ recovered 500) ⊎ (r.1 ≡ hangs))

  limited-IsShut :
      (max : ℕ) (r : Request) (handler : Service S → Service S × Reply) (srv : Server S)
      → IsShut srv.limiter
      → IsShut (limited max r handler srv).0.limiter × IsStopped srv (limited max r handler srv)
  unfolding limited
  limited-IsShut max r handler srv h =
      let (shut, o) = rate_limit-shut max (60 * second) r.now r.remote_addr srv.limiter h in
      let (same, reply) = behind-stopped _ handler srv.service o in (shut, (same, reply))

module _ (libs : Libraries) (cfg : Config) {S : Type 0} (st : Store S) where
  serve_route-IsShut :
      (r : Request) (route : Route) (srv : Server S)
      → IsShut srv.limiter
      → IsShut (serve_route libs cfg st r route srv).0.limiter
  unfolding serve_route
  serve_route-IsShut r healthz srv h = h
  serve_route-IsShut r (signs_up c salt random) srv h = (limited-IsShut 10 r _ srv h).0
  serve_route-IsShut r (logs_in c random) srv h = (limited-IsShut 10 r _ srv h).0
  serve_route-IsShut r (refreshes token random) srv h = (limited-IsShut 30 r _ srv h).0
  serve_route-IsShut r (paddle header body) srv h = h
  serve_route-IsShut r (pay_here form) srv h = h
  serve_route-IsShut r (authed header request) srv h = h

  serve_all-IsShut :
      (rs : List Request) (srv : Server S)
      → IsShut srv.limiter
      → IsShut (serve_all libs cfg st rs srv).limiter
  unfolding serve_all serve
  serve_all-IsShut [] srv h = h
  serve_all-IsShut (r ∷ rs) srv h =
      serve_all-IsShut rs (serve_route libs cfg st r r.route srv).0
        (serve_route-IsShut r r.route srv h)

  -- The routes of signup, login and refresh.
  abbrev pub IsLimited : Route → Type 0
  IsLimited healthz = ⊥
  IsLimited (signs_up c salt random) = Unit
  IsLimited (logs_in c random) = Unit
  IsLimited (refreshes token random) = Unit
  IsLimited (paddle header body) = ⊥
  IsLimited (pay_here form) = ⊥
  IsLimited (authed header request) = ⊥

  serve_route-IsStopped :
      (r : Request) (route : Route) (srv : Server S)
      → IsLimited route
      → IsShut srv.limiter
      → IsStopped srv (serve_route libs cfg st r route srv)
  unfolding serve_route
  serve_route-IsStopped r healthz srv l h = absurd l
  serve_route-IsStopped r (signs_up c salt random) srv l h = (limited-IsShut 10 r _ srv h).1
  serve_route-IsStopped r (logs_in c random) srv l h = (limited-IsShut 10 r _ srv h).1
  serve_route-IsStopped r (refreshes token random) srv l h = (limited-IsShut 30 r _ srv h).1
  serve_route-IsStopped r (paddle header body) srv l h = absurd l
  serve_route-IsStopped r (pay_here form) srv l h = absurd l
  serve_route-IsStopped r (authed header request) srv l h = absurd l

  started-limiter :
      (s : S) (srv : Server S) → new_router cfg s ≡ ok srv → srv.limiter ≡ new_rate_limiter
  unfolding new_router
  started-limiter s srv e = elim (Result-cases (new_server cfg.keys s)) [
    | inr (x, f) ↦ cc (rw (new_router, f) at e)
    | inl (service, f) ↦
        let e' : ◌≡◌ {A = Result AllocError (Server S)}
            (ok (record { service = service; limiter = new_rate_limiter })) (ok srv) =
          rw (new_router, f) at e in
        let is : record { service = service; limiter = new_rate_limiter } ≡ srv = cc in
        ap (λ (x : Server S). x.limiter) (sym is)
  ]

  -- In every history of requests to a new server, over any store, no request to signup, login or
  -- refresh reaches its handler: each one ends in a panic, which gin.Recovery answers with status 500,
  -- or waits for good, and changes neither the store nor the peer service.
  pub limited-stopped :
      (s : S) (srv : Server S) (rs : List Request) (r : Request)
      → new_router cfg s ≡ ok srv
      → IsLimited r.route
      → ((serve libs cfg st r (serve_all libs cfg st rs srv)).0.service
          ≡ (serve_all libs cfg st rs srv).service)
        × (((serve libs cfg st r (serve_all libs cfg st rs srv)).1 ≡ recovered 500)
            ⊎ ((serve libs cfg st r (serve_all libs cfg st rs srv)).1 ≡ hangs))
  unfolding serve
  limited-stopped s srv rs r e l =
      serve_route-IsStopped r r.route (serve_all libs cfg st rs srv) l
        (serve_all-IsShut rs srv (rw (started-limiter s srv e) (inr refl)))
