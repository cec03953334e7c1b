-- ===== src/Api/Accounts.antt =====
-- The routes of accounts of api/internal/api/router.go: signup and login. A request's body comes as the
-- fields of its JSON, or as none where it is malformed. The test of an email by the `binding` tag and
-- strings.ToLower are parameters.
pub mod Entering
pub mod Keeping
pub mod Databases
mod Tests
use snow_radar.Common.{
  ℕ, String, Bool, true, false, not, ◌&&◌, Option, none, some, List, Result, ok, err, ◌==◌,
  string_eq, leb, if◌then◌else◌, length,
}
use snow_radar.Common.Texts.{codes}
use snow_radar.Common.Scan.{trim_space}
use snow_radar.Auth.{Jwt, TokenIssuer}
use snow_radar.Auth.Passwords.{Argon2, hash_password, verify_password}
use snow_radar.Store.{StoreError, User, Store}
use snow_radar.Api.Sessions.{issue_token_pair}

pub record Credentials : Type 0 where
  pub email : String
  pub password : String

pub data Answer : Type 0 where
  refused : ℕ → String → Answer
  created : String → Answer
  entered : String → String → Answer
  -- a panic, which gin.Recovery answers
  panicked : Answer

-- `required,email` and `required,min=12,max=128`, which counts characters
unfoldable pub is_bound : (String → Bool) → Credentials → Bool
is_bound is_email c =
    not (c.email == "")
    && (is_email c.email
        && (leb 12 (length (codes c.password)) && leb (length (codes c.password)) 128))

module _ (to_lower : String → String) where
  abbrev pub normalised : String → String
  normalised email = to_lower (trim_space email)

  module _ (a : Argon2) (is_email : String → Bool) {S : Type 0} (st : Store S) where
    -- `signup` once the store has answered.
    pub signup_answer : S × Result StoreError User → S × Answer
    signup_answer (s, ok u) = (s, created u.id)
    signup_answer (s, err e) = (s, refused 409 "email already registered")

    unfoldable pub signup : Option Credentials → Option (List ℕ) → List ℕ → S → S × Answer
    unfolding signup_answer
    signup none salt random s =
        (s, refused 400 "email and a password of at least 12 characters are required")
    signup (some c) salt random s =
        if not (is_bound is_email c)
        then (s, refused 400 "email and a password of at least 12 characters are required")
        else elim (hash_password a c.password salt) [
          | none ↦ (s, refused 500 "internal")
          | some hash ↦ signup_answer (
              st.create_user random
                (record { id = ""; email = normalised c.email; password_hash = hash }) s)
        ]

    -- `login` once the tokens are made, or not.
    pub login_answer : S × Option (String × String) → S × Answer
    login_answer (s, none) = (s, refused 500 "internal")
    login_answer (s, some (access, refresh)) = (s, entered access refresh)

    module _ (jwt : Jwt) (t : TokenIssuer) where
      -- `login` once the password is checked.
      pub enter : User → List ℕ → ℕ → S → Option Bool → S × Answer
      unfolding login_answer
      enter u random now s none = (s, panicked)
      enter u random now s (some false) = (s, refused 401 "invalid credentials")
      enter u random now s (some true) = login_answer (issue_token_pair jwt t st u.id random now s)

      unfoldable pub login : Option Credentials → List ℕ → ℕ → S → S × Answer
      unfolding enter
      login none random now s = (s, refused 400 "invalid request")
      login (some c) random now s =
          if not (is_bound is_email c)
          then (s, refused 400 "invalid request")
          else elim (st.get_user_by_email (normalised c.email) s) [
            | err e ↦ (s, refused 401 "invalid credentials")
            | ok u ↦ enter u random now s (verify_password a c.password u.password_hash)
          ]
