-- ===== src/Api/Payments/Binding.antt =====
-- payHereWebhook of api/internal/api/router.go: whom a payment is bound to.
use snow_radar.Common.{
  ℕ, ◌*◌, String, ◌≡◌, ◌≢◌, ◌∙◌, refl, true, Option, none, some, List, ok, err, ◌==◌, string_eq,
  eq_iff, Bool-cases, Option-cases, Result-cases, inl, inr,
}
use snow_radar.Common.Texts.{bytes}
use snow_radar.Store.{StoreError, User, Store}
use snow_radar.Billing.{Hmac, bad_checkout_token}
use snow_radar.Billing.Checkout.{ClaimsJson, second, body_of, mint, verify}
use snow_radar.Billing.Checkout.Verifying.{verify_other_secret}
use snow_radar.Billing.Checkout.Vouching.{Vouched, verify-Vouched}
use snow_radar.Api.Payments.{
  Form, refused, session, accepted, state_of, verify_pay_here, checkout_session, subscribe,
  subscription_of, settle, pay_here_webhook,
}

module _ (h : Hmac) (json : ClaimsJson) (md5 : List ℕ → List ℕ) (to_upper : String → String)
    {S : Type 0} (st : Store S) where
  -- What stands behind a webhook that is accepted, and what it writes.
  pub record Settled (secret : String) (form : Option Form) (now : ℕ) (s s' : S) : Type 0 where
    f : Form
    user_id : String
    user : User
    configured : secret ≢ ""
    read : form ≡ some f
    verified : verify_pay_here md5 to_upper secret f ≡ true
    known_code : state_of f.status_code ≢ ""
    vouched : Vouched h json (bytes secret) f.custom_1 now user_id
    exists : st.get_user user_id s ≡ ok user
    written :
        st.upsert_subscription
          (record {
            user_id = user_id;
            provider = "payhere";
            external = f.subscription_id;
            state = state_of f.status_code;
          })
          s
        ≡ (s', none)

  subscribe-accepted :
      (f : Form) (user_id : String) (r : S × Option StoreError) (s' : S)
      → subscribe h json md5 to_upper st f user_id r ≡ (s', accepted)
      → r ≡ (s', none)
  unfolding subscribe
  subscribe-accepted f user_id (s, none) s' e = cc
  subscribe-accepted f user_id (s, some failure) s' e = cc

  settle-accepted :
      (secret : String) (f : Form) (now : ℕ) (s s' : S)
      → settle h json md5 to_upper st secret f now s ≡ (s', accepted)
      → (user_id : String) × (user : User) × (verify h json (bytes secret) f.custom_1 now
          ≡ ok user_id)
        × (st.get_user user_id s ≡ ok user)
        × (st.upsert_subscription (subscription_of h json md5 to_upper st f user_id) s ≡ (s', none))
  unfolding settle
  settle-accepted secret f now s s' e =
      elim (Result-cases (verify h json (bytes secret) f.custom_1 now)) [
        | inr (x, k) ↦ cc (rw (settle, k) at e)
        | inl (user_id, k) ↦ elim (Result-cases (st.get_user user_id s)) [
          | inr (x, g) ↦ cc (rw (settle, k, g) at e)
          | inl (user, g) ↦
              (user_id, user, k, g, subscribe-accepted f user_id _ s' (rw (settle, k, g) at e))
        ]
      ]

  passed :
      (secret : String) (form : Option Form) (now : ℕ) (s s' : S)
      → pay_here_webhook h json md5 to_upper st secret form now s ≡ (s', accepted)
      → (f : Form) × (secret ≢ "")
        × (form ≡ some f)
        × (verify_pay_here md5 to_upper secret f ≡ true)
        × (state_of f.status_code ≢ "")
        × (settle h json md5 to_upper st secret f now s ≡ (s', accepted))
  unfolding pay_here_webhook
  passed secret form now s s' e = elim (Bool-cases (secret == "")) [
    | inl c ↦ cc (rw (pay_here_webhook, c) at e)
    | inr c ↦ elim (Option-cases form) [
      | inl o ↦ cc (rw (pay_here_webhook, c, o) at e)
      | inr (f, o) ↦ elim (Bool-cases (verify_pay_here md5 to_upper secret f)) [
        | inr v ↦ cc (rw (pay_here_webhook, c, o, v) at e)
        | inl v ↦ elim (Bool-cases (state_of f.status_code == "")) [
          | inl k ↦ cc (rw (pay_here_webhook, c, o, v, k) at e)
          | inr k ↦ (
            f,
            λ i. cc (c, (eq_iff secret "").1 i),
            o,
            v,
            λ i. cc (k, (eq_iff (state_of f.status_code) "").1 i),
            rw (pay_here_webhook, c, o, v, k) at e,
          )
        ]
      ]
    ]
  ]

  -- A webhook that is accepted has the provider's hash under the configured secret, a status code of
  -- the table, and a token that the same secret vouches for and that has not expired; its user
  -- exists, and what is written is that user's subscription in the state of the code.
  pub pay_here_webhook-Settled :
      (secret : String) (form : Option Form) (now : ℕ) (s s' : S)
      → pay_here_webhook h json md5 to_upper st secret form now s ≡ (s', accepted)
      → Settled secret form now s s'
  pay_here_webhook-Settled secret form now s s' e =
      let (f, c, o, v, k, r) = passed secret form now s s' e in
      let (user_id, user, w, g, u) = settle-accepted secret f now s s' r in
      record {
        f = f;
        user_id = user_id;
        user = user;
        configured = c;
        read = o;
        verified = v;
        known_code = k;
        vouched = verify-Vouched h json (bytes secret) f.custom_1 now user_id w;
        exists = g;
        written = u;
      }

  settle-unbound :
      (secret : String) (f : Form) (now : ℕ) (s : S)
      → verify h json (bytes secret) f.custom_1 now ≡ err bad_checkout_token
      → settle h json md5 to_upper st secret f now s ≡ (s, refused 403 "invalid checkout session")
  unfolding settle
  settle-unbound secret f now s e = rw (settle, e)

  -- A token that does not verify is never accepted.
  unbound :
      (secret : String) (f : Form) (now : ℕ) (s : S)
      → verify h json (bytes secret) f.custom_1 now ≡ err bad_checkout_token
      → ((pay_here_webhook h json md5 to_upper st secret (some f) now s).0 ≡ s)
        × ((pay_here_webhook h json md5 to_upper st secret (some f) now s).1 ≢ accepted)
  unfolding pay_here_webhook
  unbound secret f now s e =
      let r = settle-unbound secret f now s e in
      elim (Bool-cases (secret == "")) [
        | inl c ↦ rw (pay_here_webhook, c) (refl, λ i. cc)
        | inr c ↦ elim (Bool-cases (verify_pay_here md5 to_upper secret f)) [
          | inr v ↦ rw (pay_here_webhook, c, v) (refl, λ i. cc)
          | inl v ↦ elim (Bool-cases (state_of f.status_code == "")) [
            | inl k ↦ rw (pay_here_webhook, c, v, k) (refl, λ i. cc)
            | inr k ↦ rw (pay_here_webhook, c, v, k, r) (refl, λ i. cc)
          ]
        ]
      ]

  session_cases :
      (secret user_id : String) (random : List ℕ) (now : ℕ) (token : String)
      → checkout_session h json secret user_id random now ≡ session token
      → mint h json (bytes secret) user_id (1800 * second) random now ≡ ok token
  unfolding checkout_session
  session_cases secret user_id random now token e =
      elim (Result-cases (mint h json (bytes secret) user_id (1800 * second) random now)) [
        | inl (t, k) ↦ let e' : session t ≡ session token = rw (checkout_session, k) at e in k ∙ cc
        | inr (x, k) ↦ cc (rw (checkout_session, k) at e)
      ]

  -- The webhook takes its own secret for the tokens, not the one that checkoutSession signs with: a
  -- payment with a token from checkoutSession is never accepted and writes nothing, whatever the
  -- form and the store, unless the authentication codes of the token's body under the two secrets
  -- are equal.
  pub pay_here_webhook-checkout_session :
      (secret checkout_secret user_id : String) (random : List ℕ) (now later : ℕ) (f : Form) (s : S)
      → checkout_session h json checkout_secret user_id random now ≡ session f.custom_1
      → h.mac (bytes secret) (bytes (body_of h json user_id (1800 * second) random now))
        ≢ h.mac (bytes checkout_secret) (bytes (body_of h json user_id (1800 * second) random now))
      → ((pay_here_webhook h json md5 to_upper st secret (some f) later s).0 ≡ s)
        × ((pay_here_webhook h json md5 to_upper st secret (some f) later s).1 ≢ accepted)
  pay_here_webhook-checkout_session secret checkout_secret user_id random now later f s e n =
      unbound secret f later s (
        verify_other_secret h json (bytes secret) (bytes checkout_secret) user_id (1800 * second)
          random now later f.custom_1
          (session_cases checkout_secret user_id random now f.custom_1 e) n)
