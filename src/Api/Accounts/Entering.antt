-- ===== src/Api/Accounts/Entering.antt =====
-- signup and login of api/internal/api/router.go over the memory store: who gets in.
use snow_radar.Common.{
  ℕ, String, ◌≡◌, ◌≢◌, ◌⊎◌, ◌∙◌, refl, Bool, true, Option, some, List, Result, ok, err, string_eq,
  All, Bool-cases, Option-cases, inl, inr,
}
use snow_radar.Codec.RoundTrip.{IsByte}
use snow_radar.Auth.{Jwt, TokenIssuer}
use snow_radar.Auth.Passwords.{Argon2, hash_password, verify_password}
use snow_radar.Auth.Passwords.Checking.{key_of, verify_password-hash_password}
use snow_radar.Store.{StoreError, User}
use snow_radar.Store.Memory.{Memory, memory, create_user, get_user_by_email}
use snow_radar.Store.Memory.Users.{create_user_lem}
use snow_radar.Api.Sessions.{issue_token_pair}
use snow_radar.Api.Accounts.{
  Credentials, refused, created, is_bound, normalised, signup_answer, signup, login_answer, enter,
  login,
}

module _ (to_lower : String → String) (a : Argon2) (is_email : String → Bool) where
  abbrev new_user : String → String → User
  new_user email hash = record { id = ""; email = email; password_hash = hash }

  signup_answer-created :
      (id : String) (r : Memory × Result StoreError User)
      → (signup_answer to_lower a is_email memory r).1 ≡ created id
      → (u : User) × (r.1 ≡ ok u)
        × (u.id ≡ id)
        × ((signup_answer to_lower a is_email memory r).0 ≡ r.0)
  unfolding signup_answer
  signup_answer-created id (m, ok u) e = (u, refl, cc, refl)
  signup_answer-created id (m, err x) e = cc

  -- A signup that succeeds has hashed the password and created the user.
  signed_up :
      (c : Credentials) (salt : Option (List ℕ)) (random : List ℕ) (id : String) (m : Memory)
      → (signup to_lower a is_email memory (some c) salt random m).1 ≡ created id
      → (hash : String) × (u : User) × (is_bound is_email c ≡ true)
        × (hash_password a c.password salt ≡ some hash)
        × ((create_user random (new_user (normalised to_lower c.email) hash) m).1 ≡ ok u)
        × (u.id ≡ id)
        × ((signup to_lower a is_email memory (some c) salt random m).0
            ≡ (create_user random (new_user (normalised to_lower c.email) hash) m).0)
  unfolding signup
  signed_up c salt random id m e = elim (Bool-cases (is_bound is_email c)) [
    | inr b ↦ cc (rw (signup, b) at e)
    | inl b ↦ elim (Option-cases (hash_password a c.password salt)) [
      | inl h ↦ cc (rw (signup, b, h) at e)
      | inr (hash, h) ↦
          let (u, f, own, same) =
            signup_answer-created id
              (create_user random (new_user (normalised to_lower c.email) hash) m)
              (rw (signup, b, h) at e) in
          (hash, u, b, h, f, own, rw (signup, b, h) same)
    ]
  ]

  module _ (jwt : Jwt) (t : TokenIssuer) where
    login-found :
        (c : Credentials) (random : List ℕ) (now : ℕ) (m : Memory) (u : User) (o : Option Bool)
        → is_bound is_email c ≡ true
        → get_user_by_email (normalised to_lower c.email) m ≡ ok u
        → verify_password a c.password u.password_hash ≡ o
        → login to_lower a is_email memory jwt t (some c) random now m
          ≡ enter to_lower a is_email memory jwt t u random now m o
    unfolding login
    login-found c random now m u o b f v = rw (login, b, f, v) refl

    -- After a signup that succeeds over the memory store, a login whose email and password have the
    -- form that the request asks for, and whose email is the same once normalised, either has a
    -- password of the same key under the salt, and goes on to issue tokens for the new user, or has
    -- one of another key, is answered with status 401 and changes nothing.
    pub login-signup :
        (c d : Credentials) (salt random random' : List ℕ) (now : ℕ) (id : String) (m : Memory)
        → (signup to_lower a is_email memory (some c) (some salt) random m).1 ≡ created id
        → All IsByte salt
        → is_bound is_email d ≡ true
        → normalised to_lower d.email ≡ normalised to_lower c.email
        → let m' = (signup to_lower a is_email memory (some c) (some salt) random m).0 in
          let r = login to_lower a is_email memory jwt t (some d) random' now m' in
          ((key_of a d.password salt ≡ key_of a c.password salt)
            × (r
                ≡ login_answer to_lower a is_email memory
                    (issue_token_pair jwt t memory id random' now m')))
          ⊎ ((key_of a d.password salt ≢ key_of a c.password salt)
              × (r ≡ (m', refused 401 "invalid credentials")))
    unfolding enter
    login-signup c d salt random random' now id m e hs bound same =
        let (hash, u, b, h, f, own, after) = signed_up c (some salt) random id m e in
        let (hash', accepts, h', v, iff) =
          verify_password-hash_password a c.password d.password salt hs in
        let (found, i, j, stored, k) =
          create_user_lem random random' (new_user (normalised to_lower c.email) hash)
            (new_user (normalised to_lower c.email) hash) u m f refl in
        let is : hash ≡ hash' = cc in
        let m' = (signup to_lower a is_email memory (some c) (some salt) random m).0 in
        let found' : get_user_by_email (normalised to_lower d.email) m' ≡ ok u =
          rw (same, after) found in
        let v' : verify_password a d.password u.password_hash ≡ some accepts = rw (stored, is) v in
        let r = login-found d random' now m' u (some accepts) bound found' v' in
        elim (Bool-cases accepts) [
          | inl y ↦ inl (iff.0 y, r ∙ rw y (rw own refl))
          | inr n ↦ inr (λ g. cc (iff.1 g, n), r ∙ rw n refl)
        ]
