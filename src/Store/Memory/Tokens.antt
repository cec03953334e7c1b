-- ===== src/Store/Memory/Tokens.antt =====
-- The refresh tokens of api/internal/store/memory.go: single use, replay and logout.
use snow_radar.Common.{
  ℕ, String, ◌≡◌, ◌≢◌, inl, inr, ap, true, false, Option, none, some, List, [], ◌∷◌, arith,
  string_eq, eq_iff, Option-cases, Bool-cases,
}
use snow_radar.Common.Dict.{lookup, insert, map_values, lookup-insert, lookup-map_values}
use snow_radar.Store.{StoreError, not_found, token_replayed, User, Peer, Subscription}
use snow_radar.Store.Memory.{
  RefreshRow, Memory, create_user, save_peer, revoke_peer, upsert_subscription, save_refresh_token,
  burn, consume_refresh_token, revoke_all_refresh_tokens,
}

-- The calls that change the store.
pub data Call : Type 0 where
  creates_user : List ℕ → User → Call
  saves_peer : Peer → Call
  revokes_peer : String → String → Call
  upserts_subscription : Subscription → Call
  saves_refresh_token : String → String → Call
  consumes_refresh_token : String → Call
  revokes_all : String → Call

unfoldable pub step : Memory → Call → Memory
step m (creates_user random u) = (create_user random u m).0
step m (saves_peer p) = (save_peer p m).0
step m (revokes_peer peer_id user_id) = (revoke_peer peer_id user_id m).0
step m (upserts_subscription s) = (upsert_subscription s m).0
step m (saves_refresh_token jti user_id) = (save_refresh_token jti user_id m).0
step m (consumes_refresh_token jti) = (consume_refresh_token jti m).0
step m (revokes_all user_id) = (revoke_all_refresh_tokens user_id m).0

unfoldable pub run : Memory → List Call → Memory
run m [] = m
run m (c ∷ cs) = run (step m c) cs

-- The token is not issued anew.
abbrev pub Issues : String → Call → Type 0
Issues jti (saves_refresh_token j user_id) = j ≡ jti
Issues jti _ = ⊥

abbrev pub NoneIssues : String → List Call → Type 0
NoneIssues jti [] = Unit
NoneIssues jti (c ∷ cs) = ¬ Issues jti c × NoneIssues jti cs

abbrev pub spent : String → RefreshRow
spent user_id = record { user_id = user_id; consumed = true }

-- The token is the user's, and consumed.
abbrev pub IsSpent : String → String → Memory → Type 0
IsSpent jti user_id m = lookup jti m.refresh ≡ some (spent user_id)

burn-spent : (user_id other : String) → burn other (spent user_id) ≡ spent user_id
unfolding burn
burn-spent user_id other = ground arith

map-burn-IsSpent :
    (jti user_id other : String) (m : Memory)
    → IsSpent jti user_id m
    → lookup jti (map_values (burn other) m.refresh) ≡ some (spent user_id)
map-burn-IsSpent jti user_id other m h =
    rw (lookup-map_values (burn other) jti m.refresh, h)
      (ap (λ (r : RefreshRow). some r) (burn-spent user_id other))

consume-IsSpent :
    (jti user_id j : String) (m : Memory)
    → IsSpent jti user_id m
    → IsSpent jti user_id (consume_refresh_token j m).0
unfolding consume_refresh_token
consume-IsSpent jti user_id j m h = elim (Option-cases (lookup j m.refresh)) [
  | inl e ↦ rw (e, consume_refresh_token) h
  | inr (row, e) ↦ elim (Bool-cases row.consumed) [
    | inl done ↦ rw (e, consume_refresh_token, done) (map-burn-IsSpent jti user_id row.user_id m h)
    | inr fresh ↦
        rw (e, consume_refresh_token, fresh)
          (rw (lookup-insert j jti (spent row.user_id) m.refresh) (ground (arith, eq_iff j jti)))
  ]
]

step-IsSpent :
    (jti user_id : String) (m : Memory) (c : Call)
    → ¬ Issues jti c
    → IsSpent jti user_id m
    → IsSpent jti user_id (step m c)
unfolding step create_user save_peer revoke_peer upsert_subscription save_refresh_token
    revoke_all_refresh_tokens
step-IsSpent jti user_id m (creates_user random u) n h = ground arith
step-IsSpent jti user_id m (saves_peer p) n h = h
step-IsSpent jti user_id m (revokes_peer peer_id owner) n h = ground arith
step-IsSpent jti user_id m (upserts_subscription s) n h = h
step-IsSpent jti user_id m (saves_refresh_token j owner) n h =
    rw (lookup-insert j jti _ m.refresh) (ground (arith, eq_iff j jti))
step-IsSpent jti user_id m (consumes_refresh_token j) n h = consume-IsSpent jti user_id j m h
step-IsSpent jti user_id m (revokes_all other) n h = map-burn-IsSpent jti user_id other m h

pub run-IsSpent :
    (jti user_id : String) (m : Memory) (cs : List Call)
    → NoneIssues jti cs
    → IsSpent jti user_id m
    → IsSpent jti user_id (run m cs)
unfolding run
run-IsSpent jti user_id m [] n h = h
run-IsSpent jti user_id m (c ∷ cs) n h =
    run-IsSpent jti user_id (step m c) cs n.1 (step-IsSpent jti user_id m c n.0 h)

abbrev pub consumed_by : String → Memory → String × Option StoreError
consumed_by jti m = let r = consume_refresh_token jti m in (r.1, r.2)

-- What consuming a token answers, and when.
pub data Consumes (jti : String) (m : Memory) (r : Memory × String × Option StoreError)
    : Type 0 where
  unknown : lookup jti m.refresh ≡ none → r ≡ (m, "", some not_found) → Consumes jti m r
  first_use :
      (user_id : String)
      → lookup jti m.refresh ≡ some (record { user_id = user_id; consumed = false })
      → r ≡ (record m { refresh = insert jti (spent user_id) m.refresh }, user_id, none)
      → Consumes jti m r
  replay :
      (user_id : String)
      → IsSpent jti user_id m
      → r ≡ ((revoke_all_refresh_tokens user_id m).0, user_id, some token_replayed)
      → Consumes jti m r

pub consume-Consumes : (jti : String) (m : Memory) → Consumes jti m (consume_refresh_token jti m)
unfolding consume_refresh_token revoke_all_refresh_tokens
consume-Consumes jti m = elim (Option-cases (lookup jti m.refresh)) [
  | inl e ↦ unknown e (rw (e, consume_refresh_token))
  | inr (row, e) ↦ elim (Bool-cases row.consumed) [
    | inl done ↦ replay row.user_id (ground arith) (rw (e, consume_refresh_token, done))
    | inr fresh ↦ first_use row.user_id (ground arith) (rw (e, consume_refresh_token, fresh))
  ]
]

consumed_by-spent :
    (jti user_id : String) (m : Memory)
    → IsSpent jti user_id m
    → consumed_by jti m ≡ (user_id, some token_replayed)
unfolding consume_refresh_token
consumed_by-spent jti user_id m h = rw (h, consume_refresh_token)

first_use-IsSpent :
    (jti user_id : String) (m : Memory)
    → consumed_by jti m ≡ (user_id, none)
    → IsSpent jti user_id (consume_refresh_token jti m).0
first_use-IsSpent jti user_id m h = elim (consume-Consumes jti m) [
  | unknown e r ↦ ground arith
  | first_use u e r ↦
      rw r (rw (lookup-insert jti jti (spent u) m.refresh) (ground (arith, eq_iff jti jti)))
  | replay u e r ↦ ground arith
]

-- A token is good for one use: once it has been consumed, in whatever calls follow that do not issue
-- it anew, using it again is answered with ErrTokenReplayed and its user.
pub consume-once :
    (jti user_id : String) (m : Memory) (cs : List Call)
    → consumed_by jti m ≡ (user_id, none)
    → NoneIssues jti cs
    → consumed_by jti (run (consume_refresh_token jti m).0 cs) ≡ (user_id, some token_replayed)
consume-once jti user_id m cs h n =
    consumed_by-spent jti user_id (run (consume_refresh_token jti m).0 cs)
      (run-IsSpent jti user_id _ cs n (first_use-IsSpent jti user_id m h))

pub revoke_all-IsSpent :
    (j user_id : String) (m : Memory) (row : RefreshRow)
    → lookup j m.refresh ≡ some row
    → row.user_id ≡ user_id
    → IsSpent j user_id (revoke_all_refresh_tokens user_id m).0
unfolding revoke_all_refresh_tokens burn
revoke_all-IsSpent j user_id m row h own =
    rw (lookup-map_values (burn user_id) j m.refresh, h)
      (ground (arith, eq_iff row.user_id user_id))

-- After a logout every token that the user had is refused as replayed, in whatever calls follow
-- that do not issue it anew; the tokens of other users are as they were.
pub revoke_all_lem :
    (user_id j : String) (m : Memory) (row : RefreshRow) (cs : List Call)
    → lookup j m.refresh ≡ some row
    → NoneIssues j cs
    → (row.user_id ≡ user_id
        → consumed_by j (run (revoke_all_refresh_tokens user_id m).0 cs)
          ≡ (user_id, some token_replayed))
      × (row.user_id ≢ user_id
          → lookup j (revoke_all_refresh_tokens user_id m).0.refresh ≡ some row)
unfolding revoke_all_refresh_tokens burn
revoke_all_lem user_id j m row cs h n = (
  λ own.
      consumed_by-spent j user_id _
        (run-IsSpent j user_id _ cs n (revoke_all-IsSpent j user_id m row h own)),
  λ other.
      rw (lookup-map_values (burn user_id) j m.refresh, h)
        (ground (arith, eq_iff row.user_id user_id)),
)

replay-state :
    (jti user_id : String) (m : Memory)
    → consumed_by jti m ≡ (user_id, some token_replayed)
    → (consume_refresh_token jti m).0 ≡ (revoke_all_refresh_tokens user_id m).0
replay-state jti user_id m h = elim (consume-Consumes jti m) [
  | unknown e r ↦ ground arith
  | first_use u e r ↦ ground arith
  | replay u e r ↦ ground arith
]

-- A replayed token spends the whole family: every token of its user is refused as replayed, in
-- whatever calls follow that do not issue it anew, and the tokens of other users are as they were.
pub replay-burns :
    (jti user_id j : String) (m : Memory) (row : RefreshRow) (cs : List Call)
    → consumed_by jti m ≡ (user_id, some token_replayed)
    → lookup j m.refresh ≡ some row
    → NoneIssues j cs
    → (row.user_id ≡ user_id
        → consumed_by j (run (consume_refresh_token jti m).0 cs) ≡ (user_id, some token_replayed))
      × (row.user_id ≢ user_id → lookup j (consume_refresh_token jti m).0.refresh ≡ some row)
replay-burns jti user_id j m row cs r h n =
    rw (replay-state jti user_id m r) (revoke_all_lem user_id j m row cs h n)
