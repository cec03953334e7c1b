-- ===== src/Api/Router/Paying.antt =====
-- The routes of NewRouter of api/internal/api/router.go that can answer that a payment is accepted.
use snow_radar.Common.{
  ℕ, ◌*◌, String, ◌≡◌, ◌≢◌, ◌||◌, Option, none, some, List, Result, ok, err, ◌==◌, string_eq,
  Bool-cases, Result-cases, inl, inr,
}
use snow_radar.Auth.{second}
use snow_radar.Store.{Store}
use snow_radar.Peer.{Service}
use snow_radar.Billing.Checkout.{mint}
use snow_radar.Common.Texts.{bytes}
use snow_radar.Api.Accounts
use snow_radar.Api.Sessions
use snow_radar.Api.Payments.{accepted, checkout_session}
use snow_radar.Api.RateLimit.{Outcome, too_many, passes, panics, blocks, rate_limit}
use snow_radar.Api.Router.{
  Libraries, Config, Server, Authed, connects, lists_peers, revokes_peer, checks_out, logs_out,
  Route, healthz, signs_up, logs_in, refreshes, paddle, pay_here, authed, Request, Reply,
  of_payment, account_reply, behind, limited, checkout_route, authed_handler, behind_auth,
  serve_route,
}

-- The routes that providers of payments call.
abbrev pub IsWebhook : Route → Type 0
IsWebhook healthz = ⊥
IsWebhook (signs_up c salt random) = ⊥
IsWebhook (logs_in c random) = ⊥
IsWebhook (refreshes token random) = ⊥
IsWebhook (paddle header body) = Unit
IsWebhook (pay_here form) = Unit
IsWebhook (authed header request) = ⊥

account_reply-unpaid : (a : Accounts.Answer) → account_reply a ≢ of_payment accepted
account_reply-unpaid (Accounts.refused status message) e = cc
account_reply-unpaid (Accounts.created id) e = cc
account_reply-unpaid (Accounts.entered access renewed) e = cc
account_reply-unpaid Accounts.panicked e = cc

module _ {S : Type 0} where
  behind-unpaid :
      (o : Outcome) (handler : Service S → Service S × Reply) (s : Service S)
      → (handler s).1 ≢ of_payment accepted
      → (behind o handler s).1 ≢ of_payment accepted
  unfolding behind
  behind-unpaid too_many handler s h e = cc
  behind-unpaid passes handler s h e = h e
  behind-unpaid panics handler s h e = cc
  behind-unpaid blocks handler s h e = cc

  limited-unpaid :
      (max : ℕ) (r : Request) (handler : Service S → Service S × Reply) (srv : Server S)
      → (handler srv.service).1 ≢ of_payment accepted
      → (limited max r handler srv).1 ≢ of_payment accepted
  unfolding limited
  limited-unpaid max r handler srv h =
      behind-unpaid (rate_limit max (60 * second) r.remote_addr r.now srv.limiter).1 handler
        srv.service h

module _ (libs : Libraries) (cfg : Config) {S : Type 0} (st : Store S) where
  checkout_route-unpaid :
      (provider : Option String) (user_id : String) (random : List ℕ) (now : ℕ)
      → checkout_route libs cfg st provider user_id random now ≢ accepted
  unfolding checkout_route checkout_session
  checkout_route-unpaid none user_id random now e = cc
  checkout_route-unpaid (some provider) user_id random now e =
      elim (Bool-cases (provider == "paddle" || provider == "payhere")) [
        | inr other ↦ cc (rw (checkout_route, other) at e)
        | inl known ↦
            elim (Result-cases (
              mint libs.hmac libs.claims_json (bytes cfg.checkout_secret) user_id (1800 * second)
                random now)) [
                  | inl (token, m) ↦ cc (rw (checkout_route, known, checkout_session, m) at e)
                  | inr (x, m) ↦ cc (rw (checkout_route, known, checkout_session, m) at e)
                ]
      ]

  authed-unpaid :
      (request : Authed) (user_id : String) (now : ℕ) (s : Service S)
      → (authed_handler libs cfg st request user_id now s).1 ≢ of_payment accepted
  unfolding authed_handler
  authed-unpaid (connects request random) user_id now s e = cc
  authed-unpaid lists_peers user_id now s e = cc
  authed-unpaid (revokes_peer peer_id) user_id now s e = cc
  authed-unpaid (checks_out provider random) user_id now s e =
      checkout_route-unpaid provider user_id random now cc
  authed-unpaid logs_out user_id now s e = cc

  behind_auth-unpaid :
      (request : Authed) (now : ℕ) (r : Result Sessions.Response String) (s : Service S)
      → (behind_auth libs cfg st request now r s).1 ≢ of_payment accepted
  unfolding behind_auth
  behind_auth-unpaid request now (err response) s e = cc
  behind_auth-unpaid request now (ok user_id) s e = authed-unpaid request user_id now s e

  -- Only a webhook is answered as accepted.
  pub serve_route-IsWebhook :
      (r : Request) (route : Route) (srv : Server S)
      → (serve_route libs cfg st r route srv).1 ≡ of_payment accepted
      → IsWebhook route
  unfolding serve_route
  serve_route-IsWebhook r healthz srv e = cc
  serve_route-IsWebhook r (signs_up c salt random) srv e =
      limited-unpaid 10 r _ srv (account_reply-unpaid _) e
  serve_route-IsWebhook r (logs_in c random) srv e =
      limited-unpaid 10 r _ srv (account_reply-unpaid _) e
  serve_route-IsWebhook r (refreshes token random) srv e = limited-unpaid 30 r _ srv (λ f. cc) e
  serve_route-IsWebhook r (paddle header body) srv e = tt
  serve_route-IsWebhook r (pay_here form) srv e = tt
  serve_route-IsWebhook r (authed header request) srv e =
      behind_auth-unpaid request r.now _ srv.service e
