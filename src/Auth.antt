-- ===== src/Auth.antt =====
-- api/internal/auth/auth.go: session tokens. The library github.com/golang-jwt/jwt with an RSA key is
-- a parameter. Times are in nanoseconds since 1970, the dates of a token in whole seconds.
pub mod Tokens
pub mod Passwords
pub mod Table
mod Tests
use snow_radar.Common.{
  ℕ, ◌+◌, ◌*◌, ◌/◌, String, Bool, true, false, ◌&&◌, ◌≡◌, Option, none, some, ◌==◌, string_eq, ltb,
  if◌then◌else◌,
}

pub record Claims : Type 0 where
  pub user_id : String
  pub token_type : String
  pub id : String
  pub issued_at : ℕ
  pub expires_at : ℕ
  pub issuer : String
  pub subject : String

abbrev pub token_access : String
token_access = "access"

abbrev pub token_refresh : String
token_refresh = "refresh"

abbrev pub issuer_name : String
issuer_name = "snowradar-api"

abbrev pub second : ℕ
second = 1000000000

-- `SignedString` with the private key, and `ParseWithClaims` with its public key, for RS256 and the
-- issuer that is named, at a time; `none` stands for an error.
pub record Jwt : Type 0 where
  pub sign : Claims → Option String
  pub parse : String → ℕ → String → Option Claims
  -- a signed token parses to its claims, until they expire, if the issuer is theirs
  pub parse-sign :
      (c : Claims) (token issuer : String) (now : ℕ)
      → sign c ≡ some token
      → parse issuer now token
        ≡ (if c.issuer == issuer && ltb now (c.expires_at * second) then some c else none)
  -- what a token says does not depend on the time at which it is read
  pub parse_stable :
      (token issuer : String) (now later : ℕ) (c d : Claims)
      → parse issuer now token ≡ some c
      → parse issuer later token ≡ some d
      → c ≡ d

pub record TokenIssuer : Type 0 where
  pub access_ttl : ℕ
  pub refresh_ttl : ℕ

-- The claims that `Issue` signs.
abbrev pub claims_for : String → String → String → ℕ → ℕ → Claims
claims_for user_id token_type jti ttl now = record {
  user_id = user_id;
  token_type = token_type;
  id = jti;
  issued_at = now / second;
  expires_at = (now + ttl) / second;
  issuer = issuer_name;
  subject = user_id;
}

module _ (jwt : Jwt) (t : TokenIssuer) where
  unfoldable pub issue : String → String → String → ℕ → Option String
  issue user_id token_type jti now =
      if token_type == token_refresh
      then if jti == ""
        then none
        else jwt.sign (claims_for user_id token_type jti t.refresh_ttl now)
      else if token_type == token_access
      then jwt.sign (claims_for user_id token_type jti t.access_ttl now)
      else none

  unfoldable pub verify : String → ℕ → Option Claims
  verify token now = jwt.parse issuer_name now token
