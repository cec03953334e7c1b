-- ===== src/Api/Payments.antt =====
-- The routes of api/internal/api/router.go that bind a payment to a user: checkoutSession and
-- payHereWebhook, with VerifyPayHere of api/internal/billing/billing.go. MD5 and strings.ToUpper are
-- parameters. A form comes as the fields that the handler reads, or as none where ParseForm fails.
pub mod Binding
pub mod Keeping
pub mod Paddle
mod Tests
use snow_radar.Common.{
  ℕ, ◌*◌, String, Bool, true, false, not, Option, none, some, List, [], ◌∷◌, Result, ok, err, ◌==◌,
  string_eq, if◌then◌else◌,
}
use snow_radar.Common.Texts.{concat, bytes}
use snow_radar.Codec.{hex_encode}
use snow_radar.Store.{StoreError, User, Subscription, Store}
use snow_radar.Billing.{Hmac, BillingError}
use snow_radar.Billing.Checkout.{ClaimsJson, second, mint, verify}

pub record Form : Type 0 where
  pub merchant_id : String
  pub order_id : String
  pub payhere_amount : String
  pub payhere_currency : String
  pub status_code : String
  pub md5sig : String
  pub custom_1 : String
  pub subscription_id : String

pub data Answer : Type 0 where
  refused : ℕ → String → Answer
  session : String → Answer
  accepted : Answer

-- The states of the source's table by status code; a code that is not there reads as the empty text.
unfoldable pub state_of : String → String
state_of code =
    if code == "2"
    then "active"
    else if code == "0"
    then "past_due"
    else if code == "-1"
    then "cancelled"
    else if code == "-2"
    then "past_due"
    else if code == "-3"
    then "cancelled"
    else ""

module _ (md5 : List ℕ → List ℕ) (to_upper : String → String) where
  unfoldable pub md5_upper : String → String
  md5_upper s = to_upper (hex_encode (md5 (bytes s)))

  unfoldable pub verify_pay_here : String → Form → Bool
  unfolding md5_upper
  verify_pay_here merchant_secret f =
      md5_upper (
        concat (
          f.merchant_id
          ∷ f.order_id
          ∷ f.payhere_amount
          ∷ f.payhere_currency
          ∷ md5_upper merchant_secret
          ∷ f.status_code
          ∷ []))
      == to_upper f.md5sig

module _ (h : Hmac) (json : ClaimsJson) where
  -- `checkoutSession` once the provider is read: 30 minutes.
  unfoldable pub checkout_session : String → String → List ℕ → ℕ → Answer
  checkout_session checkout_secret user_id random now =
      elim (mint h json (bytes checkout_secret) user_id (1800 * second) random now) [
        | err e ↦ refused 500 "internal"
        | ok token ↦ session token
      ]

  module _ (md5 : List ℕ → List ℕ) (to_upper : String → String) {S : Type 0} (st : Store S) where
    -- `payHereWebhook` once the user is known.
    pub subscribe : Form → String → S × Option StoreError → S × Answer
    subscribe f user_id (s, none) = (s, accepted)
    subscribe f user_id (s, some failure) = (s, refused 500 "internal")

    abbrev pub subscription_of : Form → String → Subscription
    subscription_of f user_id = record {
      user_id = user_id;
      provider = "payhere";
      external = f.subscription_id;
      state = state_of f.status_code;
    }

    -- `payHereWebhook` once the form is verified.
    pub settle : String → Form → ℕ → S → S × Answer
    unfolding subscribe
    settle secret f now s = elim (verify h json (bytes secret) f.custom_1 now) [
      | err e ↦ (s, refused 403 "invalid checkout session")
      | ok user_id ↦ elim (st.get_user user_id s) [
        | err e ↦ (s, refused 400 "unknown user reference")
        | ok user ↦ subscribe f user_id (st.upsert_subscription (subscription_of f user_id) s)
      ]
    ]

    unfoldable pub pay_here_webhook : String → Option Form → ℕ → S → S × Answer
    unfolding settle
    pay_here_webhook secret form now s =
        if secret == "" then (s, refused 503 "webhook secret not configured") else elim form [
          | none ↦ (s, refused 400 "bad form")
          | some f ↦
              if not (verify_pay_here md5 to_upper secret f)
              then (s, refused 403 "signature verification failed")
              else if state_of f.status_code == ""
              then (s, refused 400 "unknown status_code")
              else settle secret f now s
        ]
