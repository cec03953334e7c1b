-- ===== src/Auth/Tokens.antt =====
-- What `Verify` of api/internal/auth/auth.go gives for a token that `Issue` made.
use snow_radar.Common.{
  ℕ, ◌+◌, ◌*◌, ◌/◌, String, ◌≡◌, ◌≢◌, none, some, ◌==◌, string_eq, ltb, if◌then◌else◌, Bool-cases,
  inl, inr, eq_iff, ◌⊎◌,
}
use snow_radar.Auth.{
  Jwt, TokenIssuer, token_access, token_refresh, issuer_name, second, claims_for, issue, verify,
}

module _ (jwt : Jwt) (t : TokenIssuer) where
  -- How long a token of a type lives.
  abbrev pub ttl_of : String → ℕ
  ttl_of token_type = if token_type == token_refresh then t.refresh_ttl else t.access_ttl

  issue-signs :
      (user_id token_type jti : String) (now : ℕ) (token : String)
      → issue jwt t user_id token_type jti now ≡ some token
      → (jwt.sign (claims_for user_id token_type jti (ttl_of token_type) now) ≡ some token)
        × ((token_type ≡ token_access) ⊎ ((token_type ≡ token_refresh) × (jti ≢ "")))
  unfolding issue
  issue-signs user_id token_type jti now token e = elim (Bool-cases (token_type == token_refresh)) [
    | inl r ↦ elim (Bool-cases (jti == "")) [
      | inl empty ↦ cc (rw (r, empty) at e)
      | inr full ↦ (
        rw r (rw (r, full) at e),
        inr ((eq_iff token_type token_refresh).0 r, λ f. cc (full, (eq_iff jti "").1 f)),
      )
    ]
    | inr n ↦ elim (Bool-cases (token_type == token_access)) [
      | inl a ↦ (rw n (rw (n, a) at e), inl ((eq_iff token_type token_access).0 a))
      | inr o ↦ cc (rw (n, o) at e)
    ]
  ]

  -- `Issue` makes tokens of the two types only, a refresh token only with a jti, and the token
  -- verifies to the claims that it was made for until the second of its expiry.
  pub verify-issue :
      (user_id token_type jti : String) (now later : ℕ) (token : String)
      → issue jwt t user_id token_type jti now ≡ some token
      → ((token_type ≡ token_access) ⊎ ((token_type ≡ token_refresh) × (jti ≢ "")))
        × (verify jwt t token later ≡ (
            if ltb later ((now + ttl_of token_type) / second * second)
            then some (claims_for user_id token_type jti (ttl_of token_type) now)
            else none))
  unfolding verify
  verify-issue user_id token_type jti now later token e =
      let (s, kind) = issue-signs user_id token_type jti now token e in
      (
        kind,
        jwt.parse-sign (claims_for user_id token_type jti (ttl_of token_type) now) token issuer_name
            later s,
      )
