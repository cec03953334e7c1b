-- ===== src/Api/Sessions/Bearer.antt =====
-- requireAuth of api/internal/api/router.go: which tokens open the routes behind it.
use Prim.Native.String
use Prim.Native.String.{String}
use snow_radar.Common.{
  ℕ, ◌+◌, ◌*◌, ◌/◌, ◌≡◌, some, ok, err, ◌==◌, string_eq, ltb, if◌then◌else◌, arith, inl, inr,
}
use snow_radar.Auth.{Jwt, TokenIssuer, token_access, second, issue}
use snow_radar.Auth.Tokens.{verify-issue}
use snow_radar.Common.Scan.Decimals.{trim_prefix-append}
use snow_radar.Api.Sessions.{failed, admit, require_auth}

module _ (jwt : Jwt) (t : TokenIssuer) where
  -- A token that `Issue` made opens the routes behind requireAuth for its user exactly if it is an
  -- access token that has not expired; any other one is answered with "invalid token".
  pub require_auth-issue :
      (user_id token_type jti : String) (now later : ℕ) (token : String)
      → issue jwt t user_id token_type jti now ≡ some token
      → require_auth jwt t (String.◌++◌ "Bearer " token) later ≡ (
          if token_type == token_access
          then if ltb later ((now + t.access_ttl) / second * second)
            then ok user_id
            else err (failed 401 "invalid token")
          else err (failed 401 "invalid token"))
  unfolding require_auth
  require_auth-issue user_id token_type jti now later token e =
      let (kind, v) = verify-issue jwt t user_id token_type jti now later token e in
      elim kind [
        | inl a ↦
            rw (require_auth, trim_prefix-append "Bearer " token, v, a)
              (unfold admit in ground arith)
        | inr (r, _) ↦
            rw (require_auth, trim_prefix-append "Bearer " token, v, r)
              (unfold admit in ground arith)
      ]
