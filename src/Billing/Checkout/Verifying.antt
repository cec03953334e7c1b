-- ===== src/Billing/Checkout/Verifying.antt =====
-- `Verify` of api/internal/billing/checkout.go: which minted checkout tokens verify.
use Prim.Native.String
use Prim.Native.String.{String, char_at}
use text.Mathlib.TextLemmas.{append-nil, nil-append, cons-append}
use snow_radar.Common.{
  ℕ, ◌+◌, ◌*◌, ◌/◌, ◌≡◌, ◌≢◌, ◌∙◌, refl, true, false, not, some, List, [], ◌∷◌, ok, err, ◌==◌,
  string_eq, ltb, if◌then◌else◌, All, eq_iff, arith, Bool-cases, inl, inr,
}
use snow_radar.Common.Texts.{concat, bytes, cut}
use snow_radar.Codec.{Encoding, encode_to_string, raw_url_encoding}
use snow_radar.Common.Texts.{codes}
use snow_radar.Codec.RoundTrip.{decode_string-encode, raw_url}
use snow_radar.Codec.Letters.{encode-free, encode-ne-nil, raw_url-IsFree_dot}
use snow_radar.Billing.{Hmac, bad_checkout_token, expired_checkout_token}
use snow_radar.Billing.Checkout.{
  CheckoutClaims, ClaimsJson, IsCarried, second, sign, claims_of, body_of, mint, read_claims,
  verify,
}

-- Cutting at the first dot.
cut-append :
    (before after : String)
    → All (λ c. c ≢ b'.') (codes before)
    → cut b'.' (String.◌++◌ before (String.◌++◌ "." after)) ≡ some (before, after)
unfolding cut
cut-append String.[] after h =
    rw (nil-append (String.◌++◌ "." after), cons-append (char_at "." 0) "" after, nil-append after)
      refl
cut-append (String.◌∷◌ c before) after h =
    rw (cons-append c before (String.◌++◌ "." after), cut, cut-append before after h.1)
      (ground (arith, h.0))

text_eq-false : (s t : String) → s ≢ t → (s == t) ≡ false
text_eq-false s t n = elim (Bool-cases (s == t)) [
  | inl e ↦ absurd (n ((eq_iff s t).0 e))
  | inr e ↦ e
]

encode-not_empty : (e : Encoding) (bs : List ℕ) → bs ≢ [] → encode_to_string e bs ≢ ""
encode-not_empty e [] n = absurd (n refl)
encode-not_empty e (b ∷ bs) n = encode-ne-nil e b bs

module _ (h : Hmac) (json : ClaimsJson) where
  sign-ne-nil : (secret : List ℕ) (body : String) → sign h json secret body ≢ ""
  unfolding sign
  sign-ne-nil secret body =
      encode-not_empty raw_url_encoding _
        λ e. let l : 0 ≡ 32 = rw e at (h.mac-length secret (bytes body)) in omega arith

  -- A body and its signature come apart at the dot.
  cut-body :
      (c : CheckoutClaims) (sig : String)
      → cut b'.' (concat (encode_to_string raw_url_encoding (json.marshal c) ∷ "." ∷ sig ∷ []))
        ≡ some (encode_to_string raw_url_encoding (json.marshal c), sig)
  unfolding concat
  cut-body c sig = rw (append-nil sig) (
      cut-append _ sig (
        encode-free raw_url_encoding b'.' (json.marshal c) refl raw_url-IsFree_dot
          (json.marshal-IsByte c)))

  read_claims-claims :
      (c : CheckoutClaims) (now : ℕ)
      → c.user_id ≢ ""
      → IsCarried json c
      → read_claims h json (encode_to_string raw_url_encoding (json.marshal c)) now
        ≡ (if ltb (c.expiry * second) now then err expired_checkout_token else ok c.user_id)
  unfolding read_claims
  read_claims-claims c now n k = rw (
    read_claims,
    decode_string-encode raw_url_encoding (json.marshal c) raw_url (json.marshal-IsByte c),
    k,
    text_eq-false c.user_id "" n,
  )

  verify-body :
      (secret minting : List ℕ) (c : CheckoutClaims) (now : ℕ)
      → verify h json secret
          (concat (
            encode_to_string raw_url_encoding (json.marshal c)
            ∷ "."
            ∷ sign h json minting (encode_to_string raw_url_encoding (json.marshal c))
            ∷ []))
          now
        ≡ (if not (
              sign h json secret (encode_to_string raw_url_encoding (json.marshal c))
              == sign h json minting (encode_to_string raw_url_encoding (json.marshal c)))
            then err bad_checkout_token
            else read_claims h json (encode_to_string raw_url_encoding (json.marshal c)) now)
  unfolding verify
  verify-body secret minting c now = rw (
    verify,
    cut-body c (sign h json minting (encode_to_string raw_url_encoding (json.marshal c))),
    text_eq-false (encode_to_string raw_url_encoding (json.marshal c)) ""
        (encode-not_empty raw_url_encoding _ (json.marshal-ne-nil c)),
    text_eq-false (sign h json minting (encode_to_string raw_url_encoding (json.marshal c))) ""
        (sign-ne-nil minting _),
  )

module _ (h : Hmac) (json : ClaimsJson) where
  mint_cases :
      (secret : List ℕ) (user_id : String) (ttl : ℕ) (random : List ℕ) (now : ℕ) (token : String)
      → mint h json secret user_id ttl random now ≡ ok token
      → (user_id ≢ "")
        × (token
            ≡ concat (
                body_of h json user_id ttl random now
                ∷ "."
                ∷ sign h json secret (body_of h json user_id ttl random now)
                ∷ []))
  unfolding mint
  mint_cases secret user_id ttl random now token e = elim (Bool-cases (user_id == "")) [
    | inl empty ↦ let e' : err bad_checkout_token ≡ ok token = rw empty at e in cc
    | inr full ↦ (
      λ f. (let y : (user_id == "") ≡ true = (eq_iff user_id "").1 f in cc full),
      let e' : ok (
                concat (
                  body_of h json user_id ttl random now
                  ∷ "."
                  ∷ sign h json secret (body_of h json user_id ttl random now)
                  ∷ []))
              ≡ ok token =
            rw full at e in
          cc,
    )
  ]

  -- Equal signatures are of equal codes.
  sign_inj :
      (secret minting : List ℕ) (body : String)
      → sign h json secret body ≡ sign h json minting body
      → h.mac secret (bytes body) ≡ h.mac minting (bytes body)
  unfolding sign
  sign_inj secret minting body e =
      let a =
        decode_string-encode raw_url_encoding (h.mac secret (bytes body)) raw_url
          (h.mac-IsByte secret (bytes body)) in
      let b =
        decode_string-encode raw_url_encoding (h.mac minting (bytes body)) raw_url
          (h.mac-IsByte minting (bytes body)) in
      let a' = rw e at a in cc

  -- A minted token, whose claims come back from their JSON, verifies under the secret that it was
  -- minted with and names its user until the clock is past the whole second of its expiry; after
  -- that it is refused as expired.
  pub verify-mint :
      (secret : List ℕ) (user_id : String) (ttl : ℕ) (random : List ℕ) (now later : ℕ)
      (token : String)
      → mint h json secret user_id ttl random now ≡ ok token
      → IsCarried json (claims_of h json user_id ttl random now)
      → verify h json secret token later ≡ (
          if ltb ((now + ttl) / second * second) later
          then err expired_checkout_token
          else ok user_id)
  verify-mint secret user_id ttl random now later token e k =
      let (n, t) = mint_cases secret user_id ttl random now token e in
      let b = body_of h json user_id ttl random now in
      rw t (
        verify-body h json secret secret (claims_of h json user_id ttl random now) later
        ∙ rw ((eq_iff (sign h json secret b) (sign h json secret b)).1 refl)
            (read_claims-claims h json (claims_of h json user_id ttl random now) later n k))

  -- A token minted with one secret is refused under another one, whatever the time, unless the two
  -- authentication codes of its body are equal.
  pub verify_other_secret :
      (secret minting : List ℕ) (user_id : String) (ttl : ℕ) (random : List ℕ) (now later : ℕ)
      (token : String)
      → mint h json minting user_id ttl random now ≡ ok token
      → h.mac secret (bytes (body_of h json user_id ttl random now))
        ≢ h.mac minting (bytes (body_of h json user_id ttl random now))
      → verify h json secret token later ≡ err bad_checkout_token
  verify_other_secret secret minting user_id ttl random now later token e n =
      let (_, t) = mint_cases minting user_id ttl random now token e in
      let b = body_of h json user_id ttl random now in
      rw t (
        verify-body h json secret minting (claims_of h json user_id ttl random now) later
        ∙ rw
            (text_eq-false (sign h json secret b) (sign h json minting b)
              (λ f. n (sign_inj secret minting b f)))
            refl)
