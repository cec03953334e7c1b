-- ===== src/Api/Sessions/Rotation.antt =====
-- The handlers of refresh and logout (api/internal/api/router.go) over the memory store.
use snow_radar.Common.{
  ℕ, String, ◌≡◌, ◌≢◌, ◌⊎◌, ◌∙◌, refl, ap, Bool, false, none, some, List, ◌==◌, string_eq, arith,
  Bool-cases, Option-cases, inl, inr, eq_iff,
}
use snow_radar.Common.Dict.{lookup, insert, lookup-insert}
use snow_radar.Auth.{
  Claims, Jwt, TokenIssuer, token_access, token_refresh, issuer_name, issue, verify,
}
use snow_radar.Store.Memory.{Memory, memory, save_refresh_token, revoke_all_refresh_tokens}
use snow_radar.Store.Memory.Tokens.{
  Call, NoneIssues, revoke_all-IsSpent, IsSpent, spent, run, run-IsSpent, unknown, first_use,
  replay, consume-Consumes,
}
use snow_radar.Api.Sessions.{
  failed, tokens, status, new_jti, issue_token_pair, rotate, refresh, logout,
}

module _ (jwt : Jwt) (t : TokenIssuer) where
  rotate-spent :
      (c : Claims) (user_id : String) (random : List ℕ) (now : ℕ) (m : Memory)
      → IsSpent c.id user_id m
      → rotate jwt t memory c random now m
        ≡ ((revoke_all_refresh_tokens user_id m).0, failed 401 "token revoked or replayed")
  unfolding rotate
  rotate-spent c user_id random now m h = elim (consume-Consumes c.id m) [
    | unknown e r ↦ cc
    | first_use u e r ↦ cc
    | replay u e r ↦
        let same : u ≡ user_id = cc in
        rw r (
          ap
            (λ (x : String).
              ((revoke_all_refresh_tokens x m).0, failed 401 "token revoked or replayed"))
            same)
  ]

  verify_stable :
      (token : String) (now later : ℕ) (c d : Claims)
      → verify jwt t token now ≡ some c
      → verify jwt t token later ≡ some d
      → c ≡ d
  unfolding verify
  verify_stable token now later c d p q = jwt.parse_stable token issuer_name now later c d p q

  -- A refresh with a token that is spent.
  refresh-spent :
      (token user_id : String) (random : List ℕ) (first now : ℕ) (c : Claims) (m : Memory)
      → verify jwt t token first ≡ some c
      → IsSpent c.id user_id m
      → status (refresh jwt t memory (some token) random now m).1 ≡ 401
  unfolding refresh
  refresh-spent token user_id random first now c m p h =
      elim (Option-cases (verify jwt t token now)) [
        | inl e ↦ rw (refresh, e)
        | inr (d, e) ↦
            let same = verify_stable token first now c d p e in
            elim (Bool-cases (d.token_type == token_refresh)) [
              | inr other ↦ rw (refresh, e, other)
              | inl kind ↦ rw (refresh, e, kind, rotate-spent d user_id random now m (rw same at h))
            ]
      ]

  pair_cases :
      (user_id : String) (random : List ℕ) (now : ℕ) (m : Memory)
      → ((issue_token_pair jwt t memory user_id random now m) ≡ (m, none))
        ⊎ ((access : String) × (new : String) × (issue_token_pair jwt t memory user_id random now m
              ≡ ((save_refresh_token (new_jti random) user_id m).0, some (access, new))))
  unfolding issue_token_pair save_refresh_token
  pair_cases user_id random now m = elim (Option-cases (issue jwt t user_id token_access "" now)) [
    | inl e ↦ inl (rw (issue_token_pair, e))
    | inr (a, e) ↦ elim (Option-cases (issue jwt t user_id token_refresh (new_jti random) now)) [
      | inl f ↦ inl (rw (issue_token_pair, e, f))
      | inr (n, f) ↦ inr (a, n, rw (issue_token_pair, e, f))
    ]
  ]

  saved_other :
      (jti user_id owner : String) (random : List ℕ) (m : Memory)
      → new_jti random ≢ jti
      → lookup jti
          (save_refresh_token
            (new_jti random)
            owner
            (record m { refresh = insert jti (spent user_id) m.refresh })).0.refresh
        ≡ some (spent user_id)
  unfolding save_refresh_token
  saved_other jti user_id owner random m n = ground (
    arith,
    lookup-insert (new_jti random) jti (record { user_id = owner; consumed = false })
        (insert jti (spent user_id) m.refresh),
    lookup-insert jti jti (spent user_id) m.refresh,
    eq_iff (new_jti random) jti,
    eq_iff jti jti,
  )

  -- The token that was rotated is spent.
  rotate_tokens :
      (c : Claims) (random : List ℕ) (now : ℕ) (m : Memory) (access new : String)
      → (rotate jwt t memory c random now m).1 ≡ tokens access new
      → new_jti random ≢ c.id
      → IsSpent c.id c.user_id (rotate jwt t memory c random now m).0
  unfolding rotate
  rotate_tokens c random now m access new h n = elim (consume-Consumes c.id m) [
    | unknown e r ↦ cc (rw r at h)
    | replay u e r ↦ cc (rw r at h)
    | first_use u e r ↦ elim (Bool-cases (u == c.user_id)) [
      | inr other ↦ cc (rw (r, other) at h)
      | inl own ↦
          elim (pair_cases c.user_id random now
            (record m { refresh = insert c.id (spent u) m.refresh })) [
              | inl q ↦ cc (rw (r, own, q) at h)
              | inr (a, b, q) ↦
                  rw (r, own, q)
                    (saved_other c.id u c.user_id random m n
                      ∙ ap (λ x. some (spent x)) ((eq_iff u c.user_id).0 own))
            ]
    ]
  ]

  refresh_tokens :
      (token : String) (c : Claims) (random : List ℕ) (now : ℕ) (m : Memory) (access new : String)
      → verify jwt t token now ≡ some c
      → (refresh jwt t memory (some token) random now m).1 ≡ tokens access new
      → refresh jwt t memory (some token) random now m ≡ rotate jwt t memory c random now m
  unfolding refresh
  refresh_tokens token c random now m access new p h =
      elim (Bool-cases (c.token_type == token_refresh)) [
        | inr other ↦ cc (rw (refresh, p, other) at h)
        | inl kind ↦ rw (refresh, p, kind)
      ]

  -- A refresh token gives one pair of tokens at most: once it has, using it again is answered with
  -- status 401, at any time and in whatever calls of the store follow that do not issue its jti
  -- anew, if the pair did not get its jti either.
  pub refresh-once :
      (token : String) (c : Claims) (random again : List ℕ) (now later : ℕ) (m : Memory)
      (access new : String) (cs : List Call)
      → verify jwt t token now ≡ some c
      → (refresh jwt t memory (some token) random now m).1 ≡ tokens access new
      → new_jti random ≢ c.id
      → NoneIssues c.id cs
      → status
          (refresh jwt t memory
            (some token)
            again
            later
            (run (refresh jwt t memory (some token) random now m).0 cs)).1
        ≡ 401
  refresh-once token c random again now later m access new cs p h n fresh =
      let r = refresh_tokens token c random now m access new p h in
      refresh-spent token c.user_id again now later c _ p (
        run-IsSpent c.id c.user_id _ cs fresh
          (rw r (rotate_tokens c random now m access new (rw r at h) n)))

  -- After a logout, every refresh token of the user that the store knows is answered with status
  -- 401, at any time and in whatever calls of the store follow that do not issue its jti anew.
  pub logout-refresh :
      (user_id token : String) (c : Claims) (first later : ℕ) (random : List ℕ) (m : Memory)
      (consumed : Bool) (cs : List Call)
      → verify jwt t token first ≡ some c
      → lookup c.id m.refresh ≡ some (record { user_id = user_id; consumed = consumed })
      → NoneIssues c.id cs
      → status
          (refresh jwt t memory (some token) random later (run (logout memory user_id m).0 cs)).1
        ≡ 401
  unfolding logout revoke_all_refresh_tokens
  logout-refresh user_id token c first later random m consumed cs p h fresh =
      refresh-spent token user_id random first later c (run (logout memory user_id m).0 cs) p (
        run-IsSpent c.id user_id (logout memory user_id m).0 cs fresh (
          revoke_all-IsSpent c.id user_id m (record { user_id = user_id; consumed = consumed }) h
            refl))
