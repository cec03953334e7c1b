-- ===== src/Api/Router.antt =====
-- NewRouter of api/internal/api/router.go: the routes, the handlers in front of them and the one server
-- behind them. Requests are served one after another; a body within the limit of bodyLimit comes as
-- what its handler reads of it.
pub mod Shut
pub mod Safety
pub mod Paying
mod Tests
use snow_radar.Common.{
  ℕ, ◌*◌, ◌/◌, String, Bool, true, false, not, ◌||◌, Option, none, some, List, [], ◌∷◌, Result, ok,
  err, ◌==◌, string_eq, if◌then◌else◌,
}
use snow_radar.Netalloc.{AllocError}
use snow_radar.Store.{Peer, Store}
use snow_radar.Auth.{Jwt, TokenIssuer, second}
use snow_radar.Auth.Passwords.{Argon2}
use snow_radar.Billing.{Hmac}
use snow_radar.Billing.Checkout.{ClaimsJson}
use snow_radar.Billing.Webhooks.{Payload}
use snow_radar.Peer.{Service}
use snow_radar.Api.RateLimit.{
  RateLimiter, Outcome, too_many, passes, panics, blocks, new_rate_limiter, rate_limit,
}
use snow_radar.Api.Accounts
use snow_radar.Api.Accounts.{Credentials, signup, login}
use snow_radar.Api.Sessions
use snow_radar.Api.Sessions.{refresh, logout, require_auth}
use snow_radar.Api.Devices
use snow_radar.Api.Devices.{ConnectRequest, new_server, connect_device, list_peers, revoke_device}
use snow_radar.Api.Payments
use snow_radar.Api.Payments.{Form, checkout_session, pay_here_webhook}
use snow_radar.Api.Payments.Paddle.{paddle_webhook}

-- What the program takes from other libraries.
pub record Libraries : Type 0 where
  pub hmac : Hmac
  pub claims_json : ClaimsJson
  pub payloads : List ℕ → Option Payload
  pub jwt : Jwt
  pub argon : Argon2
  pub md5 : List ℕ → List ℕ
  pub to_upper : String → String
  pub to_lower : String → String
  pub is_email : String → Bool

pub record Config : Type 0 where
  pub paddle_secret : String
  pub pay_here_secret : String
  pub checkout_secret : String
  pub keys : Devices.Config

-- `NewTokenIssuer(key, AccessTTL, RefreshTTL)`
abbrev pub issuer : TokenIssuer
issuer = record { access_ttl = 900 * second; refresh_ttl = 2592000 * second }

-- The store of the server is the one of its peer service.
pub record Server (S : Type 0) : Type 0 where
  pub service : Service S
  pub limiter : RateLimiter

-- The routes behind requireAuth, with what is read of the request and the random bytes drawn.
pub data Authed : Type 0 where
  connects : Option ConnectRequest → List ℕ → Authed
  lists_peers : Authed
  revokes_peer : String → Authed
  checks_out : Option String → List ℕ → Authed
  logs_out : Authed

pub data Route : Type 0 where
  healthz : Route
  signs_up : Option Credentials → Option (List ℕ) → List ℕ → Route
  logs_in : Option Credentials → List ℕ → Route
  refreshes : Option String → List ℕ → Route
  paddle : String → Option (List ℕ) → Route
  pay_here : Option Form → Route
  authed : String → Authed → Route

pub record Request : Type 0 where
  pub remote_addr : String
  pub now : ℕ
  pub route : Route

pub data Reply : Type 0 where
  healthy rate_limited : Reply
  -- a panic, which gin.Recovery answers with a status
  recovered : ℕ → Reply
  -- the request waits for good
  hangs : Reply
  of_account : Accounts.Answer → Reply
  of_session : Sessions.Response → Reply
  of_payment : Payments.Answer → Reply
  of_device : Devices.Answer → Reply
  peer_list : List Peer → Reply

-- What is answered to a request to signup or login.
abbrev pub account_reply : Accounts.Answer → Reply
account_reply (Accounts.refused status message) = of_account (Accounts.refused status message)
account_reply (Accounts.created id) = of_account (Accounts.created id)
account_reply (Accounts.entered access renewed) = of_account (Accounts.entered access renewed)
account_reply Accounts.panicked = recovered 500

module _ {S : Type 0} where
  -- A handler that touches the store alone.
  abbrev pub on_store : {A : Type 0} → (S → S × A) → (A → Reply) → Service S → Service S × Reply
  on_store f reply s = let r = f s.store in (record s { store = r.0 }, reply r.1)

  -- What the limiter lets through to a handler.
  pub behind : Outcome → (Service S → Service S × Reply) → Service S → Service S × Reply
  behind too_many handler s = (s, rate_limited)
  behind passes handler s = handler s
  behind panics handler s = (s, recovered 500)
  behind blocks handler s = (s, hangs)

  -- `s.rateLimit(max, time.Minute)` in front of a handler.
  unfoldable pub limited :
      ℕ → Request → (Service S → Service S × Reply) → Server S → Server S × Reply
  unfolding behind
  limited max r handler srv =
      let (limiter, o) = rate_limit max (60 * second) r.remote_addr r.now srv.limiter in
      let (service, reply) = behind o handler srv.service in
      (record { service = service; limiter = limiter }, reply)

  -- A handler in front of which nothing stands.
  abbrev pub plain : (Service S → Service S × Reply) → Server S → Server S × Reply
  plain handler srv = let r = handler srv.service in (record srv { service = r.0 }, r.1)

module _ (libs : Libraries) (cfg : Config) {S : Type 0} (st : Store S) where
  -- `required,oneof=paddle payhere`
  unfoldable pub checkout_route : Option String → String → List ℕ → ℕ → Payments.Answer
  checkout_route none user_id random now = Payments.refused 400 "provider must be paddle or payhere"
  checkout_route (some provider) user_id random now =
      if not (provider == "paddle" || provider == "payhere")
      then Payments.refused 400 "provider must be paddle or payhere"
      else checkout_session libs.hmac libs.claims_json cfg.checkout_secret user_id random now

  -- A new device keeps the time in seconds.
  unfoldable pub authed_handler : Authed → String → ℕ → Service S → Service S × Reply
  authed_handler (connects request random) user_id now s =
      let r = connect_device st cfg.keys request user_id random (now / second) s in
      (r.0, of_device r.1)
  authed_handler lists_peers user_id now s = (s, peer_list (list_peers st user_id s))
  authed_handler (revokes_peer peer_id) user_id now s =
      let r = revoke_device st user_id peer_id s in (r.0, of_device r.1)
  authed_handler (checks_out provider random) user_id now s =
      (s, of_payment (checkout_route provider user_id random now))
  authed_handler logs_out user_id now s = on_store (logout st user_id) of_session s

  -- `requireAuth` in front of the handlers of its group.
  pub behind_auth : Authed → ℕ → Result Sessions.Response String → Service S → Service S × Reply
  unfolding authed_handler
  behind_auth request now (err response) s = (s, of_session response)
  behind_auth request now (ok user_id) s = authed_handler request user_id now s

  unfoldable pub serve_route : Request → Route → Server S → Server S × Reply
  unfolding behind_auth
  serve_route r healthz srv = (srv, healthy)
  serve_route r (signs_up c salt random) srv =
      limited 10 r
        (on_store (signup libs.to_lower libs.argon libs.is_email st c salt random) account_reply)
        srv
  serve_route r (logs_in c random) srv =
      limited 10 r
        (on_store (login libs.to_lower libs.argon libs.is_email st libs.jwt issuer c random r.now)
          account_reply)
        srv
  serve_route r (refreshes token random) srv =
      limited 30 r (on_store (refresh libs.jwt issuer st token random r.now) of_session) srv
  serve_route r (paddle header body) srv =
      plain
        (on_store
          (paddle_webhook libs.hmac libs.claims_json libs.payloads st cfg.paddle_secret header body
            r.now)
          of_payment)
        srv
  serve_route r (pay_here form) srv =
      plain
        (on_store
          (pay_here_webhook libs.hmac libs.claims_json libs.md5 libs.to_upper st cfg.pay_here_secret
            form r.now)
          of_payment)
        srv
  serve_route r (authed header request) srv =
      plain (behind_auth request r.now (require_auth libs.jwt issuer header r.now)) srv

  unfoldable pub serve : Request → Server S → Server S × Reply
  serve r srv = serve_route r r.route srv

  -- The server after some requests.
  unfoldable pub serve_all : List Request → Server S → Server S
  serve_all [] srv = srv
  serve_all (r ∷ rs) srv = serve_all rs (serve r srv).0

-- `NewRouter`: one server for all requests.
unfoldable pub new_router : {S : Type 0} → Config → S → Result AllocError (Server S)
new_router cfg s = elim (new_server cfg.keys s) [
  | err e ↦ err e
  | ok service ↦ ok (record { service = service; limiter = new_rate_limiter })
]
