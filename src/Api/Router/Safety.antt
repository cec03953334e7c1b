-- ===== src/Api/Router/Safety.antt =====
-- NewRouter of api/internal/api/router.go over the memory store: what holds of the peers whatever is
-- requested.
use snow_radar.Common.{
  ℕ, ◌*◌, ◌/◌, ◌≤◌, String, ◌≡◌, ◌∙◌, ap, none, List, [], ◌∷◌, Result, ok, err, length, string_eq,
  Result-cases, inl, inr,
}
use snow_radar.Common.Dict.{lookup}
use snow_radar.Netalloc.{AllocError}
use snow_radar.Auth.{second}
use snow_radar.Store.{Peer}
use snow_radar.Store.Memory.{Memory, memory, peers_by_user}
use snow_radar.Peer.{Service, new_id}
use snow_radar.Peer.Invariant.{IsActive}
use snow_radar.Peer.Histories.{
  Reach, here, next, writes, IsSafe, reach-IsSafe, new_service-IsSafe, IsSafe-unique,
}
use snow_radar.Api.RateLimit.{
  Outcome, too_many, passes, panics, blocks, new_rate_limiter, rate_limit,
}
use snow_radar.Api.Accounts.Keeping.{signup-Keeps, login-Keeps}
use snow_radar.Api.Sessions
use snow_radar.Api.Sessions.{require_auth}
use snow_radar.Api.Sessions.Keeping.{refresh-Keeps, logout-Keeps}
use snow_radar.Api.Payments.Keeping.{pay_here_webhook-Keeps}
use snow_radar.Api.Payments.Paddle.Keeping.{paddle_webhook-Keeps}
use snow_radar.Api.Devices.{new_server}
use snow_radar.Api.Devices.Stepping.{connect_device-Reach, revoke_device-Reach}
use snow_radar.Api.Router.{
  Libraries, Config, issuer, Server, Authed, connects, lists_peers, revokes_peer, checks_out,
  logs_out, Route, healthz, signs_up, logs_in, refreshes, paddle, pay_here, authed, Request, Reply,
  behind, limited, authed_handler, behind_auth, serve_route, serve, serve_all, new_router,
}

Reach-trans : {s t u : Service Memory} → Reach s t → Reach t u → Reach s u
Reach-trans r here = r
Reach-trans r (next q st) = next (Reach-trans r q) st

-- A handler that leaves the peers of the store alone.
wrote :
    (s : Service Memory) (m : Memory) → m.peers ≡ s.store.peers → Reach s (record s { store = m })
wrote s m h = next here (writes m h)

behind-Reach :
    (o : Outcome) (handler : Service Memory → Service Memory × Reply) (s : Service Memory)
    → Reach s (handler s).0
    → Reach s (behind o handler s).0
unfolding behind
behind-Reach too_many handler s h = here
behind-Reach passes handler s h = h
behind-Reach panics handler s h = here
behind-Reach blocks handler s h = here

limited-Reach :
    (max : ℕ) (r : Request) (handler : Service Memory → Service Memory × Reply)
    (srv : Server Memory)
    → Reach srv.service (handler srv.service).0
    → Reach srv.service (limited max r handler srv).0.service
unfolding limited
limited-Reach max r handler srv h =
    behind-Reach (rate_limit max (60 * second) r.remote_addr r.now srv.limiter).1 handler
      srv.service h

-- The id that a request to connect draws is not in use.
abbrev pub IsFresh : Route → Memory → Type 0
IsFresh (authed header (connects request random)) m = lookup (new_id random) m.peers ≡ none
IsFresh (authed header lists_peers) m = Unit
IsFresh (authed header (revokes_peer peer_id)) m = Unit
IsFresh (authed header (checks_out provider random)) m = Unit
IsFresh (authed header logs_out) m = Unit
IsFresh healthz m = Unit
IsFresh (signs_up c salt random) m = Unit
IsFresh (logs_in c random) m = Unit
IsFresh (refreshes token random) m = Unit
IsFresh (paddle header body) m = Unit
IsFresh (pay_here form) m = Unit

module _ (libs : Libraries) (cfg : Config) where
  authed-Reach :
      (header : String) (request : Authed) (user_id : String) (now : ℕ) (s : Service Memory)
      → IsFresh (authed header request) s.store
      → Reach s (authed_handler libs cfg memory request user_id now s).0
  unfolding authed_handler
  authed-Reach header (connects request random) user_id now s h =
      connect_device-Reach cfg.keys request user_id random (now / second) s h
  authed-Reach header lists_peers user_id now s h = here
  authed-Reach header (revokes_peer peer_id) user_id now s h = revoke_device-Reach user_id peer_id s
  authed-Reach header (checks_out provider random) user_id now s h = here
  authed-Reach header logs_out user_id now s h = wrote s _ (logout-Keeps user_id s.store)

  behind_auth-Reach :
      (header : String) (request : Authed) (now : ℕ) (who : Result Sessions.Response String)
      (s : Service Memory)
      → IsFresh (authed header request) s.store
      → Reach s (behind_auth libs cfg memory request now who s).0
  unfolding behind_auth
  behind_auth-Reach header request now (err response) s h = here
  behind_auth-Reach header request now (ok user_id) s h =
      authed-Reach header request user_id now s h

  serve_route-Reach :
      (r : Request) (route : Route) (srv : Server Memory)
      → IsFresh route srv.service.store
      → Reach srv.service (serve_route libs cfg memory r route srv).0.service
  unfolding serve_route
  serve_route-Reach r healthz srv h = here
  serve_route-Reach r (signs_up c salt random) srv h = limited-Reach 10 r _ srv (
      wrote srv.service _
        (signup-Keeps libs.to_lower libs.argon libs.is_email c salt random srv.service.store))
  serve_route-Reach r (logs_in c random) srv h = limited-Reach 10 r _ srv (
      wrote srv.service _ (
        login-Keeps libs.jwt issuer libs.to_lower libs.argon libs.is_email c random r.now
          srv.service.store))
  serve_route-Reach r (refreshes token random) srv h =
      limited-Reach 30 r _ srv
        (wrote srv.service _ (refresh-Keeps libs.jwt issuer token random r.now srv.service.store))
  serve_route-Reach r (paddle header body) srv h = wrote srv.service _ (
      paddle_webhook-Keeps libs.hmac libs.claims_json libs.payloads cfg.paddle_secret header body
        r.now srv.service.store)
  serve_route-Reach r (pay_here form) srv h = wrote srv.service _ (
      pay_here_webhook-Keeps libs.hmac libs.claims_json libs.md5 libs.to_upper cfg.pay_here_secret
        form r.now srv.service.store)
  serve_route-Reach r (authed header request) srv h =
      behind_auth-Reach header request r.now (require_auth libs.jwt issuer header r.now) srv.service
        h

  -- Each request to connect draws an id that is not in use.
  abbrev pub AllFresh : List Request → Server Memory → Type 0
  AllFresh [] srv = Unit
  AllFresh (r ∷ rs) srv =
      IsFresh r.route srv.service.store × AllFresh rs (serve libs cfg memory r srv).0

  serve_all-Reach :
      (rs : List Request) (srv : Server Memory)
      → AllFresh rs srv
      → Reach srv.service (serve_all libs cfg memory rs srv).service
  unfolding serve_all serve
  serve_all-Reach [] srv h = here
  serve_all-Reach (r ∷ rs) srv h =
      Reach-trans (serve_route-Reach r r.route srv h.0)
        (serve_all-Reach rs (serve libs cfg memory r srv).0 h.1)

  started :
      (m : Memory) (srv : Server Memory)
      → new_router cfg m ≡ ok srv
      → new_server cfg.keys m ≡ ok srv.service
  unfolding new_router
  started m srv e = elim (Result-cases (new_server cfg.keys m)) [
    | inr (x, f) ↦ cc (rw (new_router, f) at e)
    | inl (service, f) ↦
        let made : Server Memory = record { service = service; limiter = new_rate_limiter } in
        let e' : ◌≡◌ {A = Result AllocError (Server Memory)} (ok made) (ok srv) =
          rw (new_router, f) at e in
        let is : made ≡ srv = cc in f ∙ ap (λ (x : Server Memory). ok x.service) is
  ]

  served-IsSafe :
      (m : Memory) (srv : Server Memory) (rs : List Request)
      → m.peers ≡ []
      → new_router cfg m ≡ ok srv
      → AllFresh rs srv
      → IsSafe (serve_all libs cfg memory rs srv).service
  unfolding new_server
  served-IsSafe m srv rs empty e fresh =
      reach-IsSafe (new_service-IsSafe m _ _ srv.service empty (started m srv e))
        (serve_all-Reach rs srv fresh)

  -- In every history of requests to a new server over a memory store without peers, served one after
  -- another and whatever they are, two active peers never have the same address, if each request to
  -- connect draws an id that is not in use.
  pub served_addresses :
      (m : Memory) (srv : Server Memory) (rs : List Request) (p q : Peer)
      → m.peers ≡ []
      → new_router cfg m ≡ ok srv
      → AllFresh rs srv
      → IsActive p (serve_all libs cfg memory rs srv).service
      → IsActive q (serve_all libs cfg memory rs srv).service
      → p.address.addr ≡ q.address.addr
      → p ≡ q
  served_addresses m srv rs p q empty e fresh h k same =
      IsSafe-unique (serve_all libs cfg memory rs srv).service p q
        (served-IsSafe m srv rs empty e fresh) h k same

  -- In every history of requests to a new server over a memory store without peers, served one after
  -- another and whatever they are, no user has more than three active peers, if each request to
  -- connect draws an id that is not in use.
  pub served_limit :
      (m : Memory) (srv : Server Memory) (rs : List Request) (user_id : String)
      → m.peers ≡ []
      → new_router cfg m ≡ ok srv
      → AllFresh rs srv
      → length (peers_by_user user_id (serve_all libs cfg memory rs srv).service.store).0 ≤ 3
  served_limit m srv rs user_id empty e fresh = (served-IsSafe m srv rs empty e fresh).limit user_id
