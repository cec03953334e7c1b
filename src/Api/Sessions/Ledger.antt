-- ===== src/Api/Sessions/Ledger.antt =====
-- The handlers of refresh and logout (api/internal/api/router.go) on an abstract ledger of tokens, and
-- over any store that keeps one.
use snow_radar.Common.{
  ℕ, String, ◌≡◌, ◌∙◌, refl, ap, sym, Bool, true, not, Option, none, some, List, [], ◌∷◌, ◌==◌,
  string_eq, if◌then◌else◌, Bool-cases, Option-cases, inl, inr, eq_iff,
}
use snow_radar.Auth.{Claims, Jwt, TokenIssuer, token_access, token_refresh, issue, verify}
use snow_radar.Store.{StoreError, Store}
use snow_radar.Store.Ledger.{
  Ledger, put, use_up_all, viewed, consume, KeepsLedger, consume-first_use,
}
use snow_radar.Api.Sessions.{
  Response, failed, tokens, logged_out, new_jti, issue_token_pair, answer, renew, rotate, refresh,
  logout,
}

module _ (jwt : Jwt) (t : TokenIssuer) where
  -- The handlers on the ledger.
  pub pair_on : String → List ℕ → ℕ → Ledger → Ledger × Option (String × String)
  pair_on user_id random now l = elim (issue jwt t user_id token_access "" now) [
    | none ↦ (l, none)
    | some access ↦ elim (issue jwt t user_id token_refresh (new_jti random) now) [
      | none ↦ (l, none)
      | some new ↦ (put (new_jti random) user_id l, some (access, new))
    ]
  ]

  pub answer_on : Ledger × Option (String × String) → Ledger × Response
  answer_on (l, none) = (l, failed 500 "internal")
  answer_on (l, some (access, new)) = (l, tokens access new)

  pub renew_on : Claims → List ℕ → ℕ → Ledger × String × Option StoreError → Ledger × Response
  renew_on claims random now (l, user_id, some e) = (l, failed 401 "token revoked or replayed")
  renew_on claims random now (l, user_id, none) =
      if not (user_id == claims.user_id)
      then (l, failed 401 "token revoked or replayed")
      else answer_on (pair_on claims.user_id random now l)

  unfoldable pub refresh_on : Option String → List ℕ → ℕ → Ledger → Ledger × Response
  refresh_on none random now l = (l, failed 400 "invalid request")
  refresh_on (some token) random now l = elim (verify jwt t token now) [
    | none ↦ (l, failed 401 "invalid token")
    | some claims ↦
        if not (claims.token_type == token_refresh)
        then (l, failed 401 "invalid token")
        else renew_on claims random now (consume claims.id l)
  ]

  unfoldable pub logout_on : String → Ledger → Ledger × Response
  logout_on user_id l = (use_up_all user_id l, logged_out)

  module _ {S : Type 0} (st : Store S) (IsOk : S → Type 0) (HasUser : String → S → Type 0)
      (view : S → Ledger) (keeps : KeepsLedger st IsOk HasUser view) where
    -- The call keeps the state in order, and shows as the handler on the ledger.
    abbrev Shows : {A : Type 0} → S × A → Ledger × A → Type 0
    Shows r q = IsOk r.0 × ((view r.0, r.1) ≡ q)

    pair-Shows :
        (user_id other : String) (used : Bool) (random : List ℕ) (now : ℕ) (s : S)
        → IsOk s
        → view s other ≡ some (user_id, used)
        → Shows
            (issue_token_pair jwt t st user_id random now s)
            (pair_on user_id random now (view s))
    unfolding issue_token_pair pair_on issue
    pair-Shows user_id other used random now s o h =
        elim (Option-cases (issue jwt t user_id token_access "" now)) [
          | inl e ↦ rw e (o, refl)
          | inr (a, e) ↦
              elim (Option-cases (issue jwt t user_id token_refresh (new_jti random) now)) [
                | inl f ↦ rw (e, f) (o, refl)
                | inr (n, f) ↦
                    let (o', quiet, v) =
                      keeps.saves (new_jti random) user_id s o
                        (keeps.belongs other user_id used s o h) in
                    rw (e, f, quiet) (o', ap (λ (l : Ledger). (l, some (a, n))) v)
              ]
        ]

    answer-Shows :
        (r : S × Option (String × String)) (q : Ledger × Option (String × String))
        → Shows r q
        → Shows (answer jwt t st r) (answer_on q)
    unfolding answer answer_on
    answer-Shows (s, none) q (o, e) = (o, rw (← e) refl)
    answer-Shows (s, some (a, n)) q (o, e) = (o, rw (← e) refl)

    renew-Shows :
        (c : Claims) (random : List ℕ) (now : ℕ) (s : S)
        → IsOk s
        → Shows
            (renew jwt t st c random now (st.consume_refresh_token c.id s))
            (renew_on c random now (consume c.id (view s)))
    unfolding renew renew_on
    renew-Shows c random now s o =
        let (o', e) = keeps.consumes c.id s o in
        rw (← e) (go (st.consume_refresh_token c.id s) o' e)
      where
        go :
            (r : S × String × Option StoreError)
            → IsOk r.0
            → viewed view r ≡ consume c.id (view s)
            → Shows (renew jwt t st c random now r) (renew_on c random now (viewed view r))
        go (s', user_id, some x) o' e = (o', refl)
        go (s', user_id, none) o' e = elim (Bool-cases (user_id == c.user_id)) [
          | inr other ↦ rw other (o', refl)
          | inl own ↦
              let h = consume-first_use c.id user_id (view s) (view s') (sym e) in
              rw own (
                answer-Shows _ _ (
                  pair-Shows c.user_id c.id true random now s' o'
                    (rw ((eq_iff user_id c.user_id).0 own) at h)))
        ]

    refresh-Shows :
        (token : Option String) (random : List ℕ) (now : ℕ) (s : S)
        → IsOk s
        → Shows (refresh jwt t st token random now s) (refresh_on token random now (view s))
    unfolding refresh rotate refresh_on
    refresh-Shows none random now s o = (o, refl)
    refresh-Shows (some token) random now s o = elim (Option-cases (verify jwt t token now)) [
      | inl e ↦ rw (refresh, refresh_on, e) (o, refl)
      | inr (c, e) ↦ elim (Bool-cases (c.token_type == token_refresh)) [
        | inr other ↦ rw (refresh, refresh_on, e, other) (o, refl)
        | inl kind ↦ rw (refresh, refresh_on, e, kind) (renew-Shows c random now s o)
      ]
    ]

    logout-Shows :
        (user_id : String) (s : S)
        → IsOk s
        → Shows (logout st user_id s) (logout_on user_id (view s))
    unfolding logout logout_on
    logout-Shows user_id s o =
        let (o', quiet, v) = keeps.revokes user_id s o in
        rw (logout, quiet) (o', ap (λ (l : Ledger). (l, logged_out)) v)

-- A request to a session handler, once it is read.
pub data Request : Type 0 where
  refreshes : Option String → List ℕ → ℕ → Request
  logs_out : String → Request

module _ (jwt : Jwt) (t : TokenIssuer) where
  unfoldable pub handle_on : Ledger → Request → Ledger × Response
  handle_on l (refreshes token random now) = refresh_on jwt t token random now l
  handle_on l (logs_out user_id) = logout_on jwt t user_id l

  unfoldable pub answers_on : Ledger → List Request → List Response
  unfolding handle_on
  answers_on l [] = []
  answers_on l (r ∷ rs) = let (l', a) = handle_on l r in a ∷ answers_on l' rs

  module _ {S : Type 0} (st : Store S) where
    unfoldable pub handle : S → Request → S × Response
    handle s (refreshes token random now) = refresh jwt t st token random now s
    handle s (logs_out user_id) = logout st user_id s

    -- The answers to requests one after another.
    unfoldable pub answers : S → List Request → List Response
    unfolding handle
    answers s [] = []
    answers s (r ∷ rs) = let (s', a) = handle s r in a ∷ answers s' rs

    -- Over every store that keeps a ledger, the handlers of refresh and logout answer any requests,
    -- one after another, as on the ledger that the store shows at the start.
    pub answers-answers_on :
        (IsOk : S → Type 0) (HasUser : String → S → Type 0) (view : S → Ledger)
        → KeepsLedger st IsOk HasUser view
        → (rs : List Request) (s : S) → IsOk s
        → answers s rs ≡ answers_on (view s) rs
    unfolding answers answers_on
    answers-answers_on IsOk HasUser view keeps [] s o = refl
    answers-answers_on IsOk HasUser view keeps (refreshes token random now ∷ rs) s o =
        let (o', e) = refresh-Shows jwt t st IsOk HasUser view keeps token random now s o in
        ap (λ (os : List Response). (refresh jwt t st token random now s).1 ∷ os)
          (answers-answers_on IsOk HasUser view keeps rs _ o')
        ∙ ap (λ (x : Ledger × Response). x.1 ∷ answers_on x.0 rs) e
    answers-answers_on IsOk HasUser view keeps (logs_out user_id ∷ rs) s o =
        let (o', e) = logout-Shows jwt t st IsOk HasUser view keeps user_id s o in
        ap (λ (os : List Response). (logout st user_id s).1 ∷ os)
          (answers-answers_on IsOk HasUser view keeps rs _ o')
        ∙ ap (λ (x : Ledger × Response). x.1 ∷ answers_on x.0 rs) e
