-- ===== src/Api/Payments/Paddle.antt =====
-- paddleWebhook of api/internal/api/router.go. A body comes as its bytes, or as none where reading it
-- fails.
pub mod Binding
pub mod Keeping
mod Tests
use snow_radar.Common.{
  ℕ, ◌*◌, String, ◌≡◌, ◌≢◌, ◌∙◌, refl, Bool, true, false, not, ◌&&◌, Option, none, some, List,
  Result, ok, err, ◌==◌, string_eq, eq_iff, if◌then◌else◌, Bool-cases, Option-cases, Result-cases,
  inl, inr,
}
use snow_radar.Common.Texts.{bytes}
use snow_radar.Store.{StoreError, User, Subscription, Store}
use snow_radar.Billing.{Hmac, BillingError, bad_checkout_token}
use snow_radar.Billing.Checkout.{ClaimsJson, second, body_of, mint, verify}
use snow_radar.Billing.Checkout.Verifying.{verify_other_secret}
use snow_radar.Billing.Checkout.Vouching.{Vouched, verify-Vouched}
use snow_radar.Billing.Webhooks.{Event, Payload, verify_paddle, parse_paddle, limit, read_body}
use snow_radar.Billing.Webhooks.Paddle.{Signed, verify_paddle-Signed}
use snow_radar.Api.Payments.{Answer, refused, accepted, session, checkout_session}

abbrev pub max_webhook_body : ℕ
max_webhook_body = 65536

-- Another subscription of the user is active.
pub has_other : Event → Result StoreError Subscription → Bool
has_other ev (err e) = false
has_other ev (ok s) = not (s.external == ev.external) && s.state == "active"

abbrev pub paddle_subscription : Event → String → Subscription
paddle_subscription ev user_id = record {
  user_id = user_id;
  provider = ev.provider;
  external = ev.external;
  state = ev.state;
}

pub paddle_answer : {S : Type 0} → S × Option StoreError → S × Answer
paddle_answer (s, none) = (s, accepted)
paddle_answer (s, some failure) = (s, refused 500 "internal")

module _ (h : Hmac) (json : ClaimsJson) (payloads : List ℕ → Option Payload) {S : Type 0}
    (st : Store S) where
  -- `paddleWebhook` once the event is read.
  pub settle_event : String → Event → ℕ → S → S × Answer
  unfolding has_other paddle_answer
  settle_event secret ev now s = elim (verify h json (bytes secret) ev.checkout_token now) [
    | err e ↦ (s, refused 403 "invalid checkout session")
    | ok user_id ↦ elim (st.get_user user_id s) [
      | err e ↦ (s, refused 400 "unknown user reference")
      | ok user ↦
          if has_other ev (st.get_subscription user_id s)
          then (s, refused 409 "user already holds an active subscription")
          else paddle_answer (st.upsert_subscription (paddle_subscription ev user_id) s)
    ]
  ]

  unfoldable pub paddle_webhook : String → String → Option (List ℕ) → ℕ → S → S × Answer
  unfolding settle_event
  paddle_webhook secret header body now s = elim (read_body max_webhook_body body) [
    | none ↦ (s, refused 400 "body too large or unreadable")
    | some raw ↦
        if secret == ""
        then (s, refused 503 "webhook secret not configured")
        else if not (verify_paddle h secret header raw now)
        then (s, refused 403 "signature verification failed")
        else elim (parse_paddle payloads raw) [
          | none ↦ (s, refused 400 "unrecognized payload")
          | some ev ↦ settle_event secret ev now s
        ]
  ]
