-- ===== src/Cmd/Webhooks.antt =====
-- The webhooks of the process of api/cmd/api/main.go: which variable of the environment vouches for them.
use snow_radar.Common.{ℕ, ◌≡◌, ap, subst, ok}
use snow_radar.Store.Memory.{Memory, memory}
use snow_radar.Api.Payments
use snow_radar.Api.Payments.{accepted, pay_here_webhook}
use snow_radar.Api.Payments.Paddle.{paddle_webhook}
use snow_radar.Api.Router.Paying.{IsWebhook, serve_route-IsWebhook}
use snow_radar.Api.Payments.Binding.{Settled, pay_here_webhook-Settled}
use snow_radar.Api.Payments.Paddle.Binding.{Bound, paddle_webhook-Bound}
use snow_radar.Api.Router.{
  Libraries, Server, Request, Route, healthz, signs_up, logs_in, refreshes, paddle, pay_here,
  authed, Reply, of_payment, on_store, plain, serve_route, serve,
}
use snow_radar.Cmd.{System, Config, Listening, configuration, start}
use snow_radar.Cmd.Starting.{start-HoldsKey, IsBuilt}

-- A webhook that is answered as accepted is one that its handler accepts.
handler-accepted :
    (handler : Memory → Memory × Payments.Answer) (srv srv' : Server Memory)
    → plain (on_store handler of_payment) srv ≡ (srv', of_payment accepted)
    → handler srv.service.store ≡ (srv'.service.store, accepted)
handler-accepted handler srv srv' e =
    let store : (handler srv.service.store).0 ≡ srv'.service.store =
      ap (λ (r : Server Memory × Reply). r.0.service.store) e in
    let reply : of_payment (handler srv.service.store).1 ≡ of_payment accepted =
      ap (λ (r : Server Memory × Reply). r.1) e in
    let answer : (handler srv.service.store).1 ≡ accepted = cc in λ i. (store i, answer i)

module _ {Rsa : Type 0} (sys : System Rsa) (libs : Libraries) where
  -- What stands behind a webhook under the secret of its own provider in the environment.
  abbrev pub IsBacked : Route → ℕ → Memory → Memory → Type 0
  IsBacked healthz now m m' = ⊥
  IsBacked (signs_up c salt random) now m m' = ⊥
  IsBacked (logs_in c random) now m m' = ⊥
  IsBacked (refreshes token random) now m m' = ⊥
  IsBacked (paddle header body) now m m' =
      Bound libs.hmac libs.claims_json libs.payloads memory (sys.environ "PADDLE_WEBHOOK_SECRET")
        header body now m m'
  IsBacked (pay_here form) now m m' =
      Settled libs.hmac libs.claims_json libs.md5 libs.to_upper memory
        (sys.environ "PAYHERE_MERCHANT_SECRET") form now m m'
  IsBacked (authed header request) now m m' = ⊥

  only_webhooks :
      (key : Rsa) (r : Request) (route : Route) (srv srv' : Server Memory)
      → serve_route libs (configuration sys key).router memory r route srv
        ≡ (srv', of_payment accepted)
      → IsWebhook route
  only_webhooks key r route srv srv' e =
      serve_route-IsWebhook libs (configuration sys key).router memory r route srv
        (ap (λ (x : Server Memory × Reply). x.1) e)

  served-IsBacked :
      (key : Rsa) (r : Request) (route : Route) (srv srv' : Server Memory)
      → serve_route libs (configuration sys key).router memory r route srv
        ≡ (srv', of_payment accepted)
      → IsBacked route r.now srv.service.store srv'.service.store
  unfolding serve_route configuration
  served-IsBacked key r healthz srv srv' e = absurd (only_webhooks key r healthz srv srv' e)
  served-IsBacked key r (signs_up c salt random) srv srv' e =
      absurd (only_webhooks key r (signs_up c salt random) srv srv' e)
  served-IsBacked key r (logs_in c random) srv srv' e =
      absurd (only_webhooks key r (logs_in c random) srv srv' e)
  served-IsBacked key r (refreshes token random) srv srv' e =
      absurd (only_webhooks key r (refreshes token random) srv srv' e)
  served-IsBacked key r (paddle header body) srv srv' e =
      paddle_webhook-Bound libs.hmac libs.claims_json libs.payloads memory _ header body r.now _ _ (
        handler-accepted
          (paddle_webhook libs.hmac libs.claims_json libs.payloads memory
            (sys.environ "PADDLE_WEBHOOK_SECRET") header body r.now)
          srv srv' e)
  served-IsBacked key r (pay_here form) srv srv' e =
      pay_here_webhook-Settled libs.hmac libs.claims_json libs.md5 libs.to_upper memory _ form r.now
        _ _
        (handler-accepted
          (pay_here_webhook libs.hmac libs.claims_json libs.md5 libs.to_upper memory
            (sys.environ "PAYHERE_MERCHANT_SECRET") form r.now)
          srv srv' e)
  served-IsBacked key r (authed header request) srv srv' e =
      absurd (only_webhooks key r (authed header request) srv srv' e)

  -- In the process that has started, whatever has been served before, a webhook that is answered as
  -- accepted is a notification of Paddle that is signed under PADDLE_WEBHOOK_SECRET of the
  -- environment, or one of PayHere that is signed under PAYHERE_MERCHANT_SECRET; it has a checkout
  -- token that the same secret vouches for and that has not expired, for a user that exists; and it
  -- writes the subscription of that user.
  pub start-webhooks :
      (l : Listening Rsa) (r : Request) (srv srv' : Server Memory)
      → start sys ≡ ok l
      → serve libs l.config.router memory r srv ≡ (srv', of_payment accepted)
      → IsBacked r.route r.now srv.service.store srv'.service.store
  unfolding serve IsBuilt
  start-webhooks l r srv srv' h e =
      let (key, k, built) = start-HoldsKey sys l h in
      served-IsBacked key r r.route srv srv' (
        subst
          (λ (c : Config Rsa).
            serve_route libs c.router memory r r.route srv ≡ (srv', of_payment accepted))
          built.0 e)
