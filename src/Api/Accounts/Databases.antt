-- ===== src/Api/Accounts/Databases.antt =====
-- signup of api/internal/api/router.go over the Postgres store.
use snow_radar.Common.{
  ℕ, String, ◌≡◌, ◌≢◌, refl, Bool, Option, none, some, List, Result, ok, err, Bool-cases,
  Option-cases, inl, inr,
}
use snow_radar.Auth.Passwords.{Argon2, hash_password}
use snow_radar.Store.{StoreError, User}
use snow_radar.Store.Postgres.{Postgres, postgres, create_user}
use snow_radar.Store.Postgres.Gaps.{create_user-refused}
use snow_radar.Api.Accounts.{
  Credentials, refused, created, is_bound, normalised, signup_answer, signup,
}

module _ (to_lower : String → String) (a : Argon2) (is_email : String → Bool) where
  refused_answer :
      (r : Postgres × Result StoreError User) (e : StoreError)
      → r.1 ≡ err e
      → signup_answer to_lower a is_email postgres r ≡ (r.0, refused 409 "email already registered")
  unfolding signup_answer
  refused_answer (p, ok u) e h = cc
  refused_answer (p, err x) e h = refl

  -- Over the Postgres store with the schema of the migration no account is ever made: whatever the
  -- request and whatever becomes of the statement, signup does not answer with a new user and
  -- leaves the rows as they were.
  pub signup-postgres :
      (c : Option Credentials) (salt : Option (List ℕ)) (random : List ℕ) (id : String)
      (p : Postgres)
      → ((signup to_lower a is_email postgres c salt random p).1 ≢ created id)
        × ((signup to_lower a is_email postgres c salt random p).0.tables ≡ p.tables)
  unfolding signup
  signup-postgres none salt random id p = (λ e. cc, refl)
  signup-postgres (some c) salt random id p = elim (Bool-cases (is_bound is_email c)) [
    | inr b ↦ rw (signup, b) (λ e. cc, refl)
    | inl b ↦ elim (Option-cases (hash_password a c.password salt)) [
      | inl h ↦ rw (signup, b, h) (λ e. cc, refl)
      | inr (hash, h) ↦
          let u : User = record {
            id = "";
            email = normalised to_lower c.email;
            password_hash = hash;
          } in
          let (message, f, same) = create_user-refused random u p in
          rw (signup, b, h, refused_answer (create_user random u p) _ f) (λ e. cc, same)
    ]
  ]
