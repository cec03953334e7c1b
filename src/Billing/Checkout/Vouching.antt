-- ===== src/Billing/Checkout/Vouching.antt =====
-- `Verify` of api/internal/billing/checkout.go: what stands behind a checkout token that verifies.

use Prim.Native.String.{String}
use snow_radar.Common.{
  ℕ, ◌*◌, ◌≤◌, ◌≡◌, ◌≢◌, ◌∙◌, true, not, ◌||◌, some, List, ok, err, ◌==◌, string_eq, ltb,
  if◌then◌else◌, eq_iff, arith, Bool-cases, Option-cases, inl, inr,
}
use snow_radar.Common.Texts.{cut}
use snow_radar.Codec.{◌>>=◌, decode_string, raw_url_encoding}
use snow_radar.Billing.{Hmac, bad_checkout_token, expired_checkout_token}
use snow_radar.Billing.Checkout.{CheckoutClaims, ClaimsJson, second, sign, read_claims, verify}

module _ (h : Hmac) (json : ClaimsJson) where
  -- What stands behind a token that verifies.
  pub record Vouched (secret : List ℕ) (token : String) (now : ℕ) (user_id : String) : Type 0 where
    body : String
    claims : CheckoutClaims
    -- the token is the body and the signature of that body under the secret
    signed : cut b'.' token ≡ some (body, sign h json secret body)
    decoded : (decode_string raw_url_encoding body >>= json.unmarshal) ≡ some claims
    user : claims.user_id ≡ user_id
    named : user_id ≢ ""
    fresh : now ≤ claims.expiry * second

  abbrev VouchedClaims : String → ℕ → String → Type 0
  VouchedClaims body now user_id =
      (c : CheckoutClaims) × ((decode_string raw_url_encoding body >>= json.unmarshal) ≡ some c)
      × (c.user_id ≡ user_id)
      × (user_id ≢ "")
      × (now ≤ c.expiry * second)

  accepted :
      (c : CheckoutClaims) (now : ℕ) (user_id : String)
      → (if c.user_id == ""
          then err bad_checkout_token
          else if ltb (c.expiry * second) now
          then err expired_checkout_token
          else ok c.user_id)
        ≡ ok user_id
      → (c.user_id ≡ user_id) × (user_id ≢ "") × (now ≤ c.expiry * second)
  accepted c now user_id e = elim (Bool-cases (c.user_id == "")) [
    | inl empty ↦ let e' : err bad_checkout_token ≡ ok user_id = rw empty at e in cc
    | inr full ↦ elim (Bool-cases (ltb (c.expiry * second) now)) [
      | inl late ↦ let e' : err expired_checkout_token ≡ ok user_id = rw (full, late) at e in cc
      | inr early ↦
          let e' : ok c.user_id ≡ ok user_id = rw (full, early) at e in
          let same : c.user_id ≡ user_id = cc in
          (
            same,
            λ f. (let y : (c.user_id == "") ≡ true = (eq_iff c.user_id "").1 (same ∙ f) in cc),
            ground arith,
          )
    ]
  ]

  accepted_signature :
      (secret : List ℕ) (body sig : String) (now : ℕ) (user_id : String)
      → (if body == "" || sig == ""
          then err bad_checkout_token
          else if not (sign h json secret body == sig)
          then err bad_checkout_token
          else read_claims h json body now)
        ≡ ok user_id
      → (sign h json secret body ≡ sig) × (read_claims h json body now ≡ ok user_id)
  accepted_signature secret body sig now user_id e = elim (Bool-cases (body == "" || sig == "")) [
    | inl empty ↦ let e' : err bad_checkout_token ≡ ok user_id = rw empty at e in cc
    | inr full ↦ elim (Bool-cases (sign h json secret body == sig)) [
      | inl same ↦ ((eq_iff (sign h json secret body) sig).0 same, rw (full, same) at e)
      | inr other ↦ let e' : err bad_checkout_token ≡ ok user_id = rw (full, other) at e in cc
    ]
  ]

  read_claims_sound :
      (body : String) (now : ℕ) (user_id : String)
      → read_claims h json body now ≡ ok user_id
      → VouchedClaims body now user_id
  unfolding read_claims
  read_claims_sound body now user_id e = elim (Option-cases (decode_string raw_url_encoding body)) [
    | inl n ↦ let e' : err bad_checkout_token ≡ ok user_id = rw (read_claims, n) at e in cc
    | inr (raw, d) ↦ elim (Option-cases (json.unmarshal raw)) [
      | inl n ↦ let e' : err bad_checkout_token ≡ ok user_id = rw (read_claims, d, n) at e in cc
      | inr (c, u) ↦
          let e' : (if c.user_id == ""
                then err bad_checkout_token
                else if ltb (c.expiry * second) now
                then err expired_checkout_token
                else ok c.user_id)
              ≡ ok user_id =
            rw (read_claims, d, u) at e in
          let found : (decode_string raw_url_encoding body >>= json.unmarshal) ≡ some c = rw d u in
          let (same, named, fresh) = accepted c now user_id e' in (c, found, same, named, fresh)
    ]
  ]

  -- A token that verifies is a body and the signature of that body under the secret; the body decodes
  -- to claims that name the user, who is not the empty one, and have not expired.
  pub verify-Vouched :
      (secret : List ℕ) (token : String) (now : ℕ) (user_id : String)
      → verify h json secret token now ≡ ok user_id
      → Vouched secret token now user_id
  unfolding verify
  verify-Vouched secret token now user_id e = elim (Option-cases (cut b'.' token)) [
    | inl n ↦ let e' : err bad_checkout_token ≡ ok user_id = rw (verify, n) at e in cc
    | inr ((body, sig), c) ↦
        let (s, r) = accepted_signature secret body sig now user_id (rw (verify, c) at e) in
        let (claims, d, u, n, f) = read_claims_sound body now user_id r in
        record {
          body = body;
          claims = claims;
          signed = rw s c;
          decoded = d;
          user = u;
          named = n;
          fresh = f;
        }
  ]
