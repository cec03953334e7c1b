-- ===== src/Billing.antt =====
-- api/internal/billing: what the payment providers tell, and the checkout sessions that bind a
-- payment to a user. The message authentication codes and the JSON of the standard library are
-- parameters with the laws that the code relies on.
pub mod Checkout
pub mod Webhooks
use snow_radar.Common.{ℕ, String, Option, some, List, All, ◌≡◌, length}
use snow_radar.Codec.RoundTrip.{IsByte}

-- crypto/hmac with SHA-256: a key and a message to the code of 32 bytes.
pub record Hmac : Type 0 where
  pub mac : List ℕ → List ℕ → List ℕ
  pub mac-IsByte : (key message : List ℕ) → All IsByte (mac key message)
  pub mac-length : (key message : List ℕ) → length (mac key message) ≡ 32

pub data BillingError : Type 0 where
  bad_checkout_token expired_checkout_token : BillingError
