-- ===== src/Api/Payments/Paddle/Tests.antt =====
-- Runs of paddleWebhook over the memory store, and the theorem about it at an input that meets its
-- conditions.
use snow_radar.Common.{ℕ, ◌*◌, String, ◌≡◌, refl, none, some, Option, List, [], ◌∷◌, string_eq}
use snow_radar.Common.Dict.{lookup, insert}
use snow_radar.Common.Texts.{concat, bytes, cut, digits, decimal}
use snow_radar.Common.Scan.{
  trim_prefix, is_digit, is_space, skip_space, scan_digits, scan_number, scan_signed, scan_int,
}
use snow_radar.Codec.{hex_encode, encode_to_string, decode_string, letter, sextet}
use snow_radar.Store.Memory.{
  Memory, memory, new_memory, get_user, upsert_subscription, get_subscription,
}
use snow_radar.Billing.Checkout.{second, sign, body_of, mint, read_claims, verify}
use snow_radar.Billing.Checkout.Samples.{sums, counted, total, zeros, ones, read_expiry}
use snow_radar.Billing.Webhooks.{
  Payload, split_semi, value_of, read_pieces, is_skewed, mac_of, verify_paddle, paddle_state,
  parse_paddle, limit, read_body,
}
use snow_radar.Billing.Webhooks.Headers.{header_of}
use snow_radar.Api.Payments.{refused, accepted}
use snow_radar.Api.Payments.Paddle.{paddle_webhook}
use snow_radar.Api.Payments.Paddle.Binding.{Bound, paddle_webhook-Bound}

tests : Unit {0}
unfolding lookup insert concat bytes cut digits decimal trim_prefix is_digit is_space skip_space
    scan_digits scan_number scan_signed scan_int hex_encode encode_to_string decode_string letter
    sextet get_user upsert_subscription get_subscription sign mint read_claims verify total zeros
    ones read_expiry split_semi value_of read_pieces is_skewed verify_paddle paddle_state
    parse_paddle limit read_body paddle_webhook
tests = tt

abbrev known : Memory
known = record new_memory {
  users = ("u1", record { id = "u1"; email = "a@example.com"; password_hash = "h" }) ∷ [];
}

-- A checkout token for user u1 under the secret p.
abbrev token : String
token =
    let body = body_of sums counted "u1" (1800 * second) (1 ∷ 2 ∷ 3 ∷ []) 0 in
    concat (body ∷ "." ∷ sign sums counted (bytes "p") body ∷ [])

-- A reader of bodies that have a first byte 7.
abbrev payloads : List ℕ → Option Payload
payloads = λ raw. elim raw [
  | [] ↦ none
  | b ∷ rest ↦ some (record { id = "s1"; status = "canceled"; custom_data = some token })
]

abbrev body : List ℕ
body = 7 ∷ 8 ∷ []

abbrev header : String
header = header_of 3 (mac_of sums "p" "3" body)

abbrev after : Memory
after = record known {
  subs =
      ("u1", record { user_id = "u1"; provider = "paddle"; external = "s1"; state = "cancelled" })
      ∷ [];
}

-- The user has another active subscription.
abbrev paid : Memory
paid = record known {
  subs =
      ("u1", record { user_id = "u1"; provider = "payhere"; external = "s0"; state = "active" })
      ∷ [];
}

webhook_accepts :
    paddle_webhook sums counted payloads memory "p" header (some body) (2 * second) known
    ≡ (after, accepted)
unfolding tests
webhook_accepts = refl

webhook_tests :
    ((paddle_webhook sums counted payloads memory "p" header none 0 known).1
      ≡ refused 400 "body too large or unreadable")
    × ((paddle_webhook sums counted payloads memory "" header (some body) 0 known).1
        ≡ refused 503 "webhook secret not configured")
    × ((paddle_webhook sums counted payloads memory "q" header (some body) 0 known).1
        ≡ refused 403 "signature verification failed")
    × ((paddle_webhook sums counted payloads memory "p" header (some body) (304 * second) known).1
        ≡ refused 403 "signature verification failed")
    × ((paddle_webhook sums counted payloads memory "p" header (some body) second paid).1
        ≡ refused 409 "user already holds an active subscription")
unfolding tests
webhook_tests = (refl, refl, refl, refl, refl)

paddle_webhook-Bound_example :
    Bound sums counted payloads memory "p" header (some body) (2 * second) known after
paddle_webhook-Bound_example =
    paddle_webhook-Bound sums counted payloads memory "p" header (some body) (2 * second) known
      after webhook_accepts
