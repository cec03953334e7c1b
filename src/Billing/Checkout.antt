-- ===== src/Billing/Checkout.antt =====
-- api/internal/billing/checkout.go: signed checkout sessions. Times are in nanoseconds since 1970.
pub mod Verifying
pub mod Vouching
pub mod Samples
mod Tests
use Prim.Native.Char.{code}
use snow_radar.Common.{
  ℕ, ◌+◌, ◌*◌, ◌/◌, String, Bool, true, false, not, ◌||◌, ◌≡◌, ◌≢◌, Option, none, some, List, [],
  ◌∷◌, Result, ok, err, ◌==◌, string_eq, ltb, if◌then◌else◌, All,
}
use snow_radar.Common.Texts.{concat, bytes, cut}
use snow_radar.Codec.{encode_to_string, decode_string, raw_url_encoding}
use snow_radar.Codec.RoundTrip.{IsByte}
use snow_radar.Billing.{Hmac, BillingError, bad_checkout_token, expired_checkout_token}

pub record CheckoutClaims : Type 0 where
  pub user_id : String
  pub expiry : ℕ
  pub nonce : String

-- encoding/json on these claims: a JSON text has at least one byte. `none` stands for an error of
-- `json.Unmarshal`.
pub record ClaimsJson : Type 0 where
  pub marshal : CheckoutClaims → List ℕ
  pub unmarshal : List ℕ → Option CheckoutClaims
  pub marshal-IsByte : (c : CheckoutClaims) → All IsByte (marshal c)
  pub marshal-ne-nil : (c : CheckoutClaims) → marshal c ≢ []

-- The claims come back from their JSON, as those with an expiry of 64 bits do.
abbrev pub IsCarried : ClaimsJson → CheckoutClaims → Type 0
IsCarried json c = json.unmarshal (json.marshal c) ≡ some c

abbrev pub second : ℕ
second = 1000000000

module _ (h : Hmac) (json : ClaimsJson) where
  unfoldable pub sign : List ℕ → String → String
  sign secret body = encode_to_string raw_url_encoding (h.mac secret (bytes body))

  abbrev pub claims_of : String → ℕ → List ℕ → ℕ → CheckoutClaims
  claims_of user_id ttl random now = record {
    user_id = user_id;
    expiry = (now + ttl) / second;
    nonce = encode_to_string raw_url_encoding random;
  }

  abbrev pub body_of : String → ℕ → List ℕ → ℕ → String
  body_of user_id ttl random now =
      encode_to_string raw_url_encoding (json.marshal (claims_of user_id ttl random now))

  -- `Mint`, where the random source and `json.Marshal` do not fail.
  unfoldable pub mint : List ℕ → String → ℕ → List ℕ → ℕ → Result BillingError String
  unfolding sign
  mint secret user_id ttl random now =
      if user_id == ""
      then err bad_checkout_token
      else let body = body_of user_id ttl random now in
        ok (concat (body ∷ "." ∷ sign secret body ∷ []))

  -- `Verify` after the signature.
  unfoldable pub read_claims : String → ℕ → Result BillingError String
  read_claims body now = elim (decode_string raw_url_encoding body) [
    | none ↦ err bad_checkout_token
    | some raw ↦ elim (json.unmarshal raw) [
      | none ↦ err bad_checkout_token
      | some claims ↦
          if claims.user_id == ""
          then err bad_checkout_token
          else if ltb (claims.expiry * second) now
          then err expired_checkout_token
          else ok claims.user_id
    ]
  ]

  -- `hmac.Equal` compares all bytes, in a time that does not depend on them.
  unfoldable pub verify : List ℕ → String → ℕ → Result BillingError String
  unfolding sign read_claims
  verify secret token now = elim (cut b'.' token) [
    | none ↦ err bad_checkout_token
    | some (body, sig) ↦
        if body == "" || sig == ""
        then err bad_checkout_token
        else if not (sign secret body == sig)
        then err bad_checkout_token
        else read_claims body now
  ]
