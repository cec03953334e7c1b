-- ===== src/Api/Payments/Keeping.antt =====
-- payHereWebhook of api/internal/api/router.go over the memory store leaves the peers alone.
use snow_radar.Common.{
  ℕ, String, refl, Option, none, some, List, ◌==◌, string_eq, Bool-cases, Option-cases,
  Result-cases, inl, inr,
}
use snow_radar.Common.Texts.{bytes}
use snow_radar.Store.{StoreError}
use snow_radar.Store.Memory.{Memory, memory, upsert_subscription}
use snow_radar.Store.Memory.Keeping.{Keeps}
use snow_radar.Billing.{Hmac}
use snow_radar.Billing.Checkout
use snow_radar.Billing.Checkout.{ClaimsJson}
use snow_radar.Api.Payments.{
  Form, state_of, verify_pay_here, subscribe, subscription_of, settle, pay_here_webhook,
}

module _ (h : Hmac) (json : ClaimsJson) (md5 : List ℕ → List ℕ) (to_upper : String → String) where
  subscribe-Keeps :
      (f : Form) (user_id : String) (m : Memory) (r : Memory × Option StoreError)
      → Keeps m r
      → Keeps m (subscribe h json md5 to_upper memory f user_id r)
  unfolding subscribe
  subscribe-Keeps f user_id m (s, none) e = e
  subscribe-Keeps f user_id m (s, some x) e = e

  settle-Keeps :
      (secret : String) (f : Form) (now : ℕ) (m : Memory)
      → Keeps m (settle h json md5 to_upper memory secret f now m)
  unfolding settle upsert_subscription
  settle-Keeps secret f now m =
      elim (Result-cases (Checkout.verify h json (bytes secret) f.custom_1 now)) [
        | inr (e, k) ↦ rw (settle, k) refl
        | inl (user_id, k) ↦ elim (Result-cases (memory.get_user user_id m)) [
          | inr (e, g) ↦ rw (settle, k, g) refl
          | inl (u, g) ↦
              rw (settle, k, g)
                (subscribe-Keeps f user_id m
                  (upsert_subscription (subscription_of h json md5 to_upper memory f user_id) m)
                  refl)
        ]
      ]

  pub pay_here_webhook-Keeps :
      (secret : String) (form : Option Form) (now : ℕ) (m : Memory)
      → Keeps m (pay_here_webhook h json md5 to_upper memory secret form now m)
  unfolding pay_here_webhook
  pay_here_webhook-Keeps secret form now m = elim (Bool-cases (secret == "")) [
    | inl c ↦ rw (pay_here_webhook, c) refl
    | inr c ↦ elim (Option-cases form) [
      | inl o ↦ rw (pay_here_webhook, c, o) refl
      | inr (f, o) ↦ elim (Bool-cases (verify_pay_here md5 to_upper secret f)) [
        | inr v ↦ rw (pay_here_webhook, c, o, v) refl
        | inl v ↦ elim (Bool-cases (state_of f.status_code == "")) [
          | inl k ↦ rw (pay_here_webhook, c, o, v, k) refl
          | inr k ↦ rw (pay_here_webhook, c, o, v, k) (settle-Keeps secret f now m)
        ]
      ]
    ]
  ]
