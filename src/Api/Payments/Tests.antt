-- ===== src/Api/Payments/Tests.antt =====
-- Runs of the payment routes over the memory store, and each theorem at an input that meets its
-- conditions.
use snow_radar.Common.{
  ℕ, ◌*◌, ◌%◌, String, ◌≡◌, ◌≢◌, refl, true, none, some, List, [], ◌∷◌, string_eq,
}
use snow_radar.Common.Dict.{lookup, insert}
use snow_radar.Common.Texts.{concat, bytes, cut}
use snow_radar.Codec.{hex_encode, encode_to_string, decode_string, letter, sextet}
use snow_radar.Store.Memory.{
  Memory, memory, new_memory, get_user, upsert_subscription, get_subscription,
}
use snow_radar.Peer.{may_connect}
use snow_radar.Billing.Checkout.{second, sign, body_of, mint, read_claims, verify}
use snow_radar.Billing.Checkout.Samples.{sums, counted, total, zeros, ones, read_expiry}
use snow_radar.Api.Payments.{
  Form, refused, session, accepted, state_of, md5_upper, verify_pay_here, checkout_session,
  pay_here_webhook,
}
use snow_radar.Api.Payments.Binding.{
  Settled, pay_here_webhook-Settled, pay_here_webhook-checkout_session,
}

tests : Unit {0}
unfolding lookup insert concat bytes cut hex_encode encode_to_string decode_string letter sextet
    get_user upsert_subscription get_subscription may_connect sign mint read_claims verify total
    zeros ones read_expiry state_of md5_upper verify_pay_here checkout_session pay_here_webhook
tests = tt

abbrev sum : List ℕ → List ℕ
sum = λ ns. (total ns % 256) ∷ []

abbrev same : String → String
same = λ s. s

abbrev known : Memory
known = record new_memory {
  users = ("u1", record { id = "u1"; email = "a@example.com"; password_hash = "h" }) ∷ [];
}

-- The token that checkoutSession gives user u1 under a secret, at the time 0.
abbrev token_under : String → String
token_under secret =
    let body = body_of sums counted "u1" (1800 * second) (1 ∷ 2 ∷ 3 ∷ []) 0 in
    concat (body ∷ "." ∷ sign sums counted (bytes secret) body ∷ [])

-- A payment that was received, with the hash under a secret.
abbrev paid : String → String → Form
paid secret token = record {
  merchant_id = "1";
  order_id = "2";
  payhere_amount = "3";
  payhere_currency = "LKR";
  status_code = "2";
  md5sig =
      md5_upper sum same (concat ("1" ∷ "2" ∷ "3" ∷ "LKR" ∷ md5_upper sum same secret ∷ "2" ∷ []));
  custom_1 = token;
  subscription_id = "s1";
}

session_made : checkout_session sums counted "c" "u1" (1 ∷ 2 ∷ 3 ∷ []) 0 ≡ session (token_under "c")
unfolding tests
session_made = refl

abbrev after : Memory
after = record known {
  subs =
      ("u1", record { user_id = "u1"; provider = "payhere"; external = "s1"; state = "active" })
      ∷ [];
}

webhook_accepts :
    pay_here_webhook sums counted sum same memory "p"
      (some (paid "p" (token_under "p")))
      second
      known
    ≡ (after, accepted)
unfolding tests
webhook_accepts = refl

webhook_tests :
    ((pay_here_webhook sums counted sum same memory "" none 0 known).1
      ≡ refused 503 "webhook secret not configured")
    × ((pay_here_webhook sums counted sum same memory "p" none 0 known).1 ≡ refused 400 "bad form")
    × ((pay_here_webhook sums counted sum same memory "p" (some (paid "q" "")) 0 known).1
        ≡ refused 403 "signature verification failed")
    × ((pay_here_webhook sums counted sum same memory "p"
          (some (paid "p" (token_under "p")))
          0
          new_memory).1
        ≡ refused 400 "unknown user reference")
    × (may_connect (get_subscription "u1" after) ≡ true)
unfolding tests
webhook_tests = (refl, refl, refl, refl, refl)

pay_here_webhook-Settled_example :
    Settled sums counted sum same memory "p" (some (paid "p" (token_under "p"))) second known after
pay_here_webhook-Settled_example =
    pay_here_webhook-Settled sums counted sum same memory "p" (some (paid "p" (token_under "p")))
      second known after webhook_accepts

secrets_differ :
    (body : String) → sums.mac (bytes "p") (bytes body) ≢ sums.mac (bytes "c") (bytes body)
unfolding total bytes
secrets_differ body e = cc

pay_here_webhook-checkout_session_example :
    ((pay_here_webhook sums counted sum same memory "p"
        (some (paid "p" (token_under "c")))
        second
        known).0
      ≡ known)
    × ((pay_here_webhook sums counted sum same memory "p"
          (some (paid "p" (token_under "c")))
          second
          known).1
        ≢ accepted)
pay_here_webhook-checkout_session_example =
    pay_here_webhook-checkout_session sums counted sum same memory "p" "c" "u1" (1 ∷ 2 ∷ 3 ∷ []) 0
      second (paid "p" (token_under "c")) known session_made
      (secrets_differ (body_of sums counted "u1" (1800 * second) (1 ∷ 2 ∷ 3 ∷ []) 0))
