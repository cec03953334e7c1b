-- ===== src/Api/Sessions.antt =====
-- The session manager of api/internal/api/middleware.go, and the handlers of api/internal/api/router.go
-- that issue, rotate, check and revoke session tokens. A request's body comes as the value that
-- ShouldBindJSON reads, or as none where it answers with an error.
pub mod Rotation
pub mod Ledger
pub mod Stores
pub mod Bearer
pub mod Keeping
mod Tests
use snow_radar.Common.{
  ℕ, String, Bool, true, false, not, ◌||◌, Option, none, some, List, Result, ok, err, ◌==◌,
  string_eq, nat_eq, if◌then◌else◌,
}
use snow_radar.Common.Scan.{trim_prefix}
use snow_radar.Codec.{hex_encode}
use snow_radar.Auth.{Claims, Jwt, TokenIssuer, token_access, token_refresh, issue, verify}
use snow_radar.Store.{StoreError, Store}

-- The status and the body of an answer.
pub data Response : Type 0 where
  failed : ℕ → String → Response
  tokens : String → String → Response
  logged_out : Response

abbrev pub status : Response → ℕ
status (failed code message) = code
status (tokens access refresh) = 200
status logged_out = 200

unfoldable pub new_jti : List ℕ → String
new_jti random = hex_encode random

-- `requireAuth` once the token is read.
pub admit : Option Claims → Result Response String
admit none = err (failed 401 "invalid token")
admit (some claims) =
    if not (claims.token_type == token_access)
    then err (failed 401 "invalid token")
    else ok claims.user_id

module _ (jwt : Jwt) (t : TokenIssuer) where
  -- `requireAuth`: the user of the request, or the answer that ends it.
  unfoldable pub require_auth : String → ℕ → Result Response String
  unfolding admit
  require_auth header now = elim (trim_prefix "Bearer " header) [
    | none ↦ err (failed 401 "missing bearer token")
    | some token ↦ admit (verify jwt t token now)
  ]

  module _ {S : Type 0} (st : Store S) where
    unfoldable pub issue_token_pair : String → List ℕ → ℕ → S → S × Option (String × String)
    issue_token_pair user_id random now s =
        let jti = new_jti random in
        elim (issue jwt t user_id token_access "" now) [
          | none ↦ (s, none)
          | some access ↦ elim (issue jwt t user_id token_refresh jti now) [
            | none ↦ (s, none)
            | some refresh ↦
                let (s', e) = st.save_refresh_token jti user_id s in
                elim e [ some failure ↦ (s', none) | none ↦ (s', some (access, refresh)) ]
          ]
        ]

    -- The answer to a refresh once the new pair is made, or not.
    pub answer : S × Option (String × String) → S × Response
    answer (s, none) = (s, failed 500 "internal")
    answer (s, some (access, refresh)) = (s, tokens access refresh)

    -- `refresh` after the token is consumed.
    pub renew : Claims → List ℕ → ℕ → S × String × Option StoreError → S × Response
    unfolding answer
    renew claims random now (s, user_id, some failure) = (s, failed 401 "token revoked or replayed")
    renew claims random now (s, user_id, none) =
        if not (user_id == claims.user_id)
        then (s, failed 401 "token revoked or replayed")
        else answer (issue_token_pair claims.user_id random now s)

    -- `refresh` after the check of the token's claims.
    unfoldable pub rotate : Claims → List ℕ → ℕ → S → S × Response
    unfolding renew
    rotate claims random now s = renew claims random now (st.consume_refresh_token claims.id s)

    unfoldable pub refresh : Option String → List ℕ → ℕ → S → S × Response
    unfolding rotate
    refresh none random now s = (s, failed 400 "invalid request")
    refresh (some token) random now s = elim (verify jwt t token now) [
      | none ↦ (s, failed 401 "invalid token")
      | some claims ↦
          if not (claims.token_type == token_refresh)
          then (s, failed 401 "invalid token")
          else rotate claims random now s
    ]

module _ {S : Type 0} (st : Store S) where
  unfoldable pub logout : String → S → S × Response
  logout user_id s =
      let (s', e) = st.revoke_all_refresh_tokens user_id s in
      elim e [ some failure ↦ (s', failed 500 "internal") | none ↦ (s', logged_out) ]
