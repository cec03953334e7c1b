-- ===== src/Api/Payments/Paddle/Keeping.antt =====
-- paddleWebhook of api/internal/api/router.go over the memory store leaves the peers alone.
use snow_radar.Common.{
  ℕ, String, refl, Option, none, some, List, ◌==◌, string_eq, Bool-cases, Option-cases,
  Result-cases, inl, inr,
}
use snow_radar.Common.Texts.{bytes}
use snow_radar.Store.{StoreError}
use snow_radar.Store.Memory.{Memory, memory, upsert_subscription}
use snow_radar.Store.Memory.Keeping.{Keeps}
use snow_radar.Billing.{Hmac}
use snow_radar.Billing.Checkout
use snow_radar.Billing.Checkout.{ClaimsJson}
use snow_radar.Billing.Webhooks.{Event, Payload, verify_paddle, parse_paddle, read_body}
use snow_radar.Api.Payments.Paddle.{
  has_other, paddle_subscription, paddle_answer, max_webhook_body, settle_event, paddle_webhook,
}

paddle_answer-Keeps :
    (m : Memory) (r : Memory × Option StoreError) → Keeps m r → Keeps m (paddle_answer r)
unfolding paddle_answer
paddle_answer-Keeps m (s, none) e = e
paddle_answer-Keeps m (s, some x) e = e

module _ (h : Hmac) (json : ClaimsJson) (payloads : List ℕ → Option Payload) where
  settle_event-Keeps :
      (secret : String) (ev : Event) (now : ℕ) (m : Memory)
      → Keeps m (settle_event h json payloads memory secret ev now m)
  unfolding settle_event upsert_subscription
  settle_event-Keeps secret ev now m =
      elim (Result-cases (Checkout.verify h json (bytes secret) ev.checkout_token now)) [
        | inr (e, k) ↦ rw (settle_event, k) refl
        | inl (user_id, k) ↦ elim (Result-cases (memory.get_user user_id m)) [
          | inr (e, g) ↦ rw (settle_event, k, g) refl
          | inl (u, g) ↦ elim (Bool-cases (has_other ev (memory.get_subscription user_id m))) [
            | inl o ↦ rw (settle_event, k, g, o) refl
            | inr o ↦
                rw (settle_event, k, g, o)
                  (paddle_answer-Keeps m (upsert_subscription (paddle_subscription ev user_id) m)
                    refl)
          ]
        ]
      ]

  pub paddle_webhook-Keeps :
      (secret header : String) (body : Option (List ℕ)) (now : ℕ) (m : Memory)
      → Keeps m (paddle_webhook h json payloads memory secret header body now m)
  unfolding paddle_webhook
  paddle_webhook-Keeps secret header body now m =
      elim (Option-cases (read_body max_webhook_body body)) [
        | inl o ↦ rw (paddle_webhook, o) refl
        | inr (raw, o) ↦ elim (Bool-cases (secret == "")) [
          | inl c ↦ rw (paddle_webhook, o, c) refl
          | inr c ↦ elim (Bool-cases (verify_paddle h secret header raw now)) [
            | inr v ↦ rw (paddle_webhook, o, c, v) refl
            | inl v ↦ elim (Option-cases (parse_paddle payloads raw)) [
              | inl p ↦ rw (paddle_webhook, o, c, v, p) refl
              | inr (ev, p) ↦ rw (paddle_webhook, o, c, v, p) (settle_event-Keeps secret ev now m)
            ]
          ]
        ]
      ]
