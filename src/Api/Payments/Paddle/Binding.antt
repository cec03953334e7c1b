-- ===== src/Api/Payments/Paddle/Binding.antt =====
-- paddleWebhook of api/internal/api/router.go: what an accepted webhook has behind it.
use snow_radar.Common.{
  ℕ, String, ◌≡◌, ◌≢◌, true, false, Option, none, some, List, Result, ok, err, ◌==◌, string_eq,
  arith, eq_iff, Bool-cases, Option-cases, Result-cases, inl, inr,
}
use snow_radar.Common.Texts.{bytes}
use snow_radar.Store.{StoreError, User, Subscription, Store}
use snow_radar.Billing.{Hmac}
use snow_radar.Billing.Checkout.{ClaimsJson, verify}
use snow_radar.Billing.Checkout.Vouching.{Vouched, verify-Vouched}
use snow_radar.Billing.Webhooks.{Event, Payload, verify_paddle, parse_paddle, read_body}
use snow_radar.Billing.Webhooks.Paddle.{Signed, verify_paddle-Signed}
use snow_radar.Api.Payments.{accepted}
use snow_radar.Api.Payments.Paddle.{
  max_webhook_body, has_other, paddle_subscription, paddle_answer, settle_event, paddle_webhook,
}

module _ (h : Hmac) (json : ClaimsJson) (payloads : List ℕ → Option Payload) {S : Type 0}
    (st : Store S) where
  -- What stands behind a webhook that is accepted, and what it writes.
  pub record Bound (secret header : String) (body : Option (List ℕ)) (now : ℕ) (s s' : S)
      : Type 0 where
    raw : List ℕ
    ev : Event
    user_id : String
    user : User
    configured : secret ≢ ""
    read : read_body max_webhook_body body ≡ some raw
    signed : Signed h secret header raw now
    parsed : parse_paddle payloads raw ≡ some ev
    vouched : Vouched h json (bytes secret) ev.checkout_token now user_id
    exists : st.get_user user_id s ≡ ok user
    only :
        (sub : Subscription)
        → st.get_subscription user_id s ≡ ok sub
        → sub.state ≡ "active"
        → sub.external ≡ ev.external
    written :
        st.upsert_subscription
          (record {
            user_id = user_id;
            provider = ev.provider;
            external = ev.external;
            state = ev.state;
          })
          s
        ≡ (s', none)

  paddle_answer-accepted :
      (r : S × Option StoreError) (s' : S) → paddle_answer r ≡ (s', accepted) → r ≡ (s', none)
  unfolding paddle_answer
  paddle_answer-accepted (s, none) s' e = cc
  paddle_answer-accepted (s, some failure) s' e = cc

  has_other-none :
      (ev : Event) (r : Result StoreError Subscription)
      → has_other ev r ≡ false
      → (sub : Subscription) → r ≡ ok sub
      → sub.state ≡ "active"
      → sub.external ≡ ev.external
  unfolding has_other
  has_other-none ev (err x) e sub f a = cc
  has_other-none ev (ok t) e sub f a =
      ground (arith, eq_iff t.external ev.external, eq_iff t.state "active")

  settle_event-accepted :
      (secret : String) (ev : Event) (now : ℕ) (s s' : S)
      → settle_event h json payloads st secret ev now s ≡ (s', accepted)
      → (user_id : String) × (user : User) × (verify h json (bytes secret) ev.checkout_token now
          ≡ ok user_id)
        × (st.get_user user_id s ≡ ok user)
        × (has_other ev (st.get_subscription user_id s) ≡ false)
        × (st.upsert_subscription (paddle_subscription ev user_id) s ≡ (s', none))
  unfolding settle_event
  settle_event-accepted secret ev now s s' e =
      elim (Result-cases (verify h json (bytes secret) ev.checkout_token now)) [
        | inr (x, k) ↦ cc (rw (settle_event, k) at e)
        | inl (user_id, k) ↦ elim (Result-cases (st.get_user user_id s)) [
          | inr (x, g) ↦ cc (rw (settle_event, k, g) at e)
          | inl (user, g) ↦ elim (Bool-cases (has_other ev (st.get_subscription user_id s))) [
            | inl o ↦ cc (rw (settle_event, k, g, o) at e)
            | inr o ↦ (
              user_id,
              user,
              k,
              g,
              o,
              paddle_answer-accepted _ s' (rw (settle_event, k, g, o) at e),
            )
          ]
        ]
      ]

  paddle_passed :
      (secret header : String) (body : Option (List ℕ)) (now : ℕ) (s s' : S)
      → paddle_webhook h json payloads st secret header body now s ≡ (s', accepted)
      → (raw : List ℕ) × (ev : Event) × (secret ≢ "")
        × (read_body max_webhook_body body ≡ some raw)
        × (verify_paddle h secret header raw now ≡ true)
        × (parse_paddle payloads raw ≡ some ev)
        × (settle_event h json payloads st secret ev now s ≡ (s', accepted))
  unfolding paddle_webhook
  paddle_passed secret header body now s s' e =
      elim (Option-cases (read_body max_webhook_body body)) [
        | inl o ↦ cc (rw (paddle_webhook, o) at e)
        | inr (raw, o) ↦ elim (Bool-cases (secret == "")) [
          | inl c ↦ cc (rw (paddle_webhook, o, c) at e)
          | inr c ↦ elim (Bool-cases (verify_paddle h secret header raw now)) [
            | inr v ↦ cc (rw (paddle_webhook, o, c, v) at e)
            | inl v ↦ elim (Option-cases (parse_paddle payloads raw)) [
              | inl p ↦ cc (rw (paddle_webhook, o, c, v, p) at e)
              | inr (ev, p) ↦ (
                raw,
                ev,
                λ i. cc (c, (eq_iff secret "").1 i),
                o,
                v,
                p,
                rw (paddle_webhook, o, c, v, p) at e,
              )
            ]
          ]
        ]
      ]

  -- A webhook that is accepted is signed for its time and its body, cut to 64 KiB, under the
  -- configured secret; its event carries a token that the same secret vouches for and that has not
  -- expired; its user exists and has no active subscription but this one; and what is written is
  -- that user's subscription in the state of the event.
  pub paddle_webhook-Bound :
      (secret header : String) (body : Option (List ℕ)) (now : ℕ) (s s' : S)
      → paddle_webhook h json payloads st secret header body now s ≡ (s', accepted)
      → Bound secret header body now s s'
  paddle_webhook-Bound secret header body now s s' e =
      let (raw, ev, c, o, v, p, r) = paddle_passed secret header body now s s' e in
      let (user_id, user, w, g, n, u) = settle_event-accepted secret ev now s s' r in
      record {
        raw = raw;
        ev = ev;
        user_id = user_id;
        user = user;
        configured = c;
        read = o;
        signed = verify_paddle-Signed h secret header raw now v;
        parsed = p;
        vouched = verify-Vouched h json (bytes secret) ev.checkout_token now user_id w;
        exists = g;
        only = has_other-none ev (st.get_subscription user_id s) n;
        written = u;
      }
