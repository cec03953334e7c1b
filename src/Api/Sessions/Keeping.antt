-- ===== src/Api/Sessions/Keeping.antt =====
-- The session handlers of api/internal/api/router.go over the memory store leave the peers alone.
use snow_radar.Common.{
  ℕ, String, ◌≡◌, ◌∙◌, refl, Option, none, some, List, ◌==◌, string_eq, Bool-cases, Option-cases,
  inl, inr,
}
use snow_radar.Store.{StoreError}
use snow_radar.Store.Memory.{
  Memory, memory, save_refresh_token, consume_refresh_token, revoke_all_refresh_tokens,
}
use snow_radar.Store.Memory.Keeping.{Keeps, consume-Keeps}
use snow_radar.Auth.{Claims, Jwt, TokenIssuer, token_access, token_refresh, issue, verify}
use snow_radar.Api.Sessions.{new_jti, issue_token_pair, answer, renew, rotate, refresh, logout}

module _ (jwt : Jwt) (t : TokenIssuer) where
  pub pair-Keeps :
      (user_id : String) (random : List ℕ) (now : ℕ) (m : Memory)
      → Keeps m (issue_token_pair jwt t memory user_id random now m)
  unfolding issue_token_pair save_refresh_token
  pair-Keeps user_id random now m = elim (Option-cases (issue jwt t user_id token_access "" now)) [
    | inl e ↦ rw (issue_token_pair, e) refl
    | inr (x, e) ↦ elim (Option-cases (issue jwt t user_id token_refresh (new_jti random) now)) [
      | inl f ↦ rw (issue_token_pair, e, f) refl
      | inr (y, f) ↦ rw (issue_token_pair, e, f) refl
    ]
  ]

  answer-Keeps :
      (m : Memory) (r : Memory × Option (String × String))
      → Keeps m r
      → Keeps m (answer jwt t memory r)
  unfolding answer
  answer-Keeps m (s, none) h = h
  answer-Keeps m (s, some (x, y)) h = h

  renew-Keeps :
      (c : Claims) (random : List ℕ) (now : ℕ) (m : Memory)
      (r : Memory × String × Option StoreError)
      → r.0.peers ≡ m.peers
      → Keeps m (renew jwt t memory c random now r)
  unfolding renew
  renew-Keeps c random now m (s, user_id, some e) h = h
  renew-Keeps c random now m (s, user_id, none) h = elim (Bool-cases (user_id == c.user_id)) [
    | inr other ↦ rw other h
    | inl own ↦ rw own (answer-Keeps m _ (pair-Keeps c.user_id random now s ∙ h))
  ]

  pub refresh-Keeps :
      (token : Option String) (random : List ℕ) (now : ℕ) (m : Memory)
      → Keeps m (refresh jwt t memory token random now m)
  unfolding refresh rotate
  refresh-Keeps none random now m = refl
  refresh-Keeps (some token) random now m = elim (Option-cases (verify jwt t token now)) [
    | inl e ↦ rw (refresh, e) refl
    | inr (c, e) ↦ elim (Bool-cases (c.token_type == token_refresh)) [
      | inr other ↦ rw (refresh, e, other) refl
      | inl kind ↦
          rw (refresh, e, kind)
            (renew-Keeps c random now m (consume_refresh_token c.id m) (consume-Keeps c.id m))
    ]
  ]

pub logout-Keeps : (user_id : String) (m : Memory) → Keeps m (logout memory user_id m)
unfolding logout revoke_all_refresh_tokens
logout-Keeps user_id m = refl
