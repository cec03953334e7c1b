-- ===== src/Api/Accounts/Keeping.antt =====
-- signup and login of api/internal/api/router.go over the memory store leave the peers alone.
use snow_radar.Common.{
  ℕ, String, refl, Bool, true, false, Option, none, some, List, Result, ok, err, string_eq,
  Bool-cases, Option-cases, Result-cases, inl, inr,
}
use snow_radar.Store.{StoreError, User}
use snow_radar.Store.Memory.{Memory, memory}
use snow_radar.Store.Memory.Keeping.{Keeps, create_user-Keeps}
use snow_radar.Auth.{Jwt, TokenIssuer}
use snow_radar.Auth.Passwords.{Argon2, hash_password, verify_password}
use snow_radar.Api.Sessions.Keeping.{pair-Keeps}
use snow_radar.Api.Accounts.{
  Credentials, is_bound, normalised, signup_answer, signup, login_answer, enter, login,
}

module _ (to_lower : String → String) (a : Argon2) (is_email : String → Bool) where
  signup_answer-Keeps :
      (m : Memory) (r : Memory × Result StoreError User)
      → Keeps m r
      → Keeps m (signup_answer to_lower a is_email memory r)
  unfolding signup_answer
  signup_answer-Keeps m (s, ok u) h = h
  signup_answer-Keeps m (s, err e) h = h

  pub signup-Keeps :
      (c : Option Credentials) (salt : Option (List ℕ)) (random : List ℕ) (m : Memory)
      → Keeps m (signup to_lower a is_email memory c salt random m)
  unfolding signup
  signup-Keeps none salt random m = refl
  signup-Keeps (some c) salt random m = elim (Bool-cases (is_bound is_email c)) [
    | inr b ↦ rw (signup, b) refl
    | inl b ↦ elim (Option-cases (hash_password a c.password salt)) [
      | inl h ↦ rw (signup, b, h) refl
      | inr (hash, h) ↦
          rw (signup, b, h)
            (signup_answer-Keeps m _ (
              create_user-Keeps random
                (record { id = ""; email = normalised to_lower c.email; password_hash = hash }) m))
    ]
  ]

module _ (jwt : Jwt) (t : TokenIssuer) where
  module _ (to_lower : String → String) (a : Argon2) (is_email : String → Bool) where
    login_answer-Keeps :
        (m : Memory) (r : Memory × Option (String × String))
        → Keeps m r
        → Keeps m (login_answer to_lower a is_email memory r)
    unfolding login_answer
    login_answer-Keeps m (s, none) h = h
    login_answer-Keeps m (s, some (x, y)) h = h

    enter-Keeps :
        (u : User) (random : List ℕ) (now : ℕ) (m : Memory) (o : Option Bool)
        → Keeps m (enter to_lower a is_email memory jwt t u random now m o)
    unfolding enter
    enter-Keeps u random now m none = refl
    enter-Keeps u random now m (some false) = refl
    enter-Keeps u random now m (some true) =
        login_answer-Keeps m _ (pair-Keeps jwt t u.id random now m)

    pub login-Keeps :
        (c : Option Credentials) (random : List ℕ) (now : ℕ) (m : Memory)
        → Keeps m (login to_lower a is_email memory jwt t c random now m)
    unfolding login
    login-Keeps none random now m = refl
    login-Keeps (some c) random now m = elim (Bool-cases (is_bound is_email c)) [
      | inr b ↦ rw (login, b) refl
      | inl b ↦ elim (Result-cases (memory.get_user_by_email (normalised to_lower c.email) m)) [
        | inr (e, g) ↦ rw (login, b, g) refl
        | inl (u, g) ↦
            rw (login, b, g)
              (enter-Keeps u random now m (verify_password a c.password u.password_hash))
      ]
    ]
