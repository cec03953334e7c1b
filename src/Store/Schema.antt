-- ===== src/Store/Schema.antt =====
-- The SQL of api/internal/store/postgres.go over the schema of api/migrations/001_init.sql: the tables
-- with their constraints, and each statement as a step on them. A statement that breaks a constraint
-- changes nothing and gives a message. Rows come in the order in which they were inserted.
use snow_radar.Common.{
  ℕ, ◌+◌, ◌-◌, ◌*◌, ◌%◌, ◌^◌, String, Bool, true, false, not, ◌&&◌, ◌||◌, Option, none, some, List,
  [], ◌∷◌, ◌++◌, Result, ok, err, ◌==◌, string_eq, nat_beq, ltb, if◌then◌else◌,
}
use snow_radar.Netalloc.{Prefix, addr_eq}
use snow_radar.Store.{User, Peer, Subscription}

pub record TokenRow : Type 0 where
  pub jti : String
  pub user_id : String
  pub consumed : Bool

pub record SubscriptionRow : Type 0 where
  pub subscription : Subscription
  pub updated_at : ℕ

pub record Tables : Type 0 where
  pub users : List User
  pub subscriptions : List SubscriptionRow
  pub peers : List Peer
  pub refresh_tokens : List TokenRow

-- WHERE, LIMIT 1, UPDATE and EXISTS.
module _ {ℓ} {A : Type ℓ} where
  unfoldable pub select : (A → Bool) → List A → List A
  select test [] = []
  select test (a ∷ rows) = let rest = select test rows in if test a then a ∷ rest else rest

  unfoldable pub first : List A → Option A
  first [] = none
  first (a ∷ rows) = some a

  unfoldable pub update : (A → Bool) → (A → A) → List A → List A
  update test change [] = []
  update test change (a ∷ rows) = (if test a then change a else a) ∷ update test change rows

  unfoldable pub exists : (A → Bool) → List A → Bool
  exists test [] = false
  exists test (a ∷ rows) = let rest = exists test rows in test a || rest

-- What a statement does, or the message of the constraint that it breaks.
abbrev pub Statement : Type 0 → Type 0
Statement A = Tables → Tables × Result String A

abbrev pub known_user : String → Tables → Bool
known_user id t = exists (λ (u : User). u.id == id) t.users

-- INSERT INTO users: a column that is not named is null, since the id has no default.
unfoldable pub insert_user : Option String → String → String → Statement String
insert_user none email hash t = (t, err "users.id is null")
insert_user (some id) email hash t =
    if exists (λ (u : User). u.id == id) t.users
    then (t, err "users_pkey")
    else if exists (λ (u : User). u.email == email) t.users
    then (t, err "users_email_key")
    else (
      record t {
        users = t.users ++ (record { id = id; email = email; password_hash = hash } ∷ []);
      },
      ok id,
    )

unfoldable pub select_user : (User → Bool) → Statement (Option User)
select_user test t = (t, ok (first (select test t.users)))

-- A value of type CIDR has no bits set to the right of its mask.
unfoldable pub is_cidr : Prefix → Bool
is_cidr p =
    nat_beq ((((p.addr.a * 256 + p.addr.b) * 256 + p.addr.c) * 256 + p.addr.d) % 2 ^ (32 - p.bits))
      0

-- INSERT INTO peers ... ON CONFLICT (id) DO UPDATE SET active
unfoldable pub upsert_peer : Peer → Statement Unit
upsert_peer p t =
    if not (is_cidr p.address)
    then (t, err "invalid cidr value")
    else if not (p.node_id == "sgp" || p.node_id == "fsn")
    then (t, err "peers_node_id_check")
    else if exists (λ (q : Peer). q.id == p.id) t.peers
    then (
      record t {
        peers = update (λ (q : Peer). q.id == p.id) (λ q. record q { active = p.active }) t.peers;
      },
      ok tt,
    )
    else if exists
        (λ (q : Peer). q.address.addr == p.address.addr && nat_beq q.address.bits p.address.bits)
        t.peers
    then (t, err "peers_address_key")
    else if exists (λ (q : Peer). q.public_key == p.public_key) t.peers
    then (t, err "peers_public_key_key")
    else if not (known_user p.user_id t)
    then (t, err "peers_user_id_fkey")
    else (record t { peers = t.peers ++ (p ∷ []) }, ok tt)

unfoldable pub select_peers : (Peer → Bool) → Statement (List Peer)
select_peers test t = (t, ok (select test t.peers))

-- UPDATE peers SET active = FALSE, with the number of rows as whether there is one.
unfoldable pub deactivate : (Peer → Bool) → Statement Bool
deactivate test t = (
  record t { peers = update test (λ p. record p { active = false }) t.peers },
  ok (exists test t.peers),
)

unfoldable pub is_state : String → Bool
is_state s = s == "trialing" || (s == "active" || (s == "past_due" || s == "cancelled"))

-- INSERT INTO subscriptions ... ON CONFLICT (user_id, provider) DO UPDATE, at a time
unfoldable pub upsert_subscription_row : Subscription → ℕ → Statement Unit
upsert_subscription_row s now t =
    let same = λ (r : SubscriptionRow).
      r.subscription.user_id == s.user_id && r.subscription.provider == s.provider in
    let row : SubscriptionRow = record { subscription = s; updated_at = now } in
    if not (is_state s.state)
    then (t, err "subscriptions_state_check")
    else if exists same t.subscriptions
    then (record t { subscriptions = update same (λ r. row) t.subscriptions }, ok tt)
    else if not (known_user s.user_id t)
    then (t, err "subscriptions_user_id_fkey")
    else (record t { subscriptions = t.subscriptions ++ (row ∷ []) }, ok tt)

-- Whether a row comes before another by ORDER BY (state = 'active') DESC, updated_at DESC.
unfoldable pub precedes : SubscriptionRow → SubscriptionRow → Bool
precedes r q =
    if r.subscription.state == "active"
    then not (q.subscription.state == "active") || ltb q.updated_at r.updated_at
    else not (q.subscription.state == "active") && ltb q.updated_at r.updated_at

-- ORDER BY ... LIMIT 1: a row that no other one comes before.
unfoldable pub top : List SubscriptionRow → Option SubscriptionRow
top [] = none
top (r ∷ rs) = elim (top rs) [ none ↦ some r | some q ↦ if precedes q r then some q else some r ]

unfoldable pub select_subscription : String → Statement (Option Subscription)
unfolding top precedes
select_subscription user_id t = (
  t,
  ok
      (elim (top
        (select (λ (r : SubscriptionRow). r.subscription.user_id == user_id) t.subscriptions)) [
          | none ↦ none
          | some r ↦ some r.subscription
        ]),
)

-- INSERT INTO refresh_tokens ... ON CONFLICT (jti) DO UPDATE SET consumed = FALSE, user_id
unfoldable pub upsert_token : String → String → Statement Unit
upsert_token jti user_id t =
    let row : TokenRow = record { jti = jti; user_id = user_id; consumed = false } in
    if not (known_user user_id t)
    then (t, err "refresh_tokens_user_id_fkey")
    else if exists (λ (r : TokenRow). r.jti == jti) t.refresh_tokens
    then (
      record t {
        refresh_tokens = update (λ (r : TokenRow). r.jti == jti) (λ r. row) t.refresh_tokens;
      },
      ok tt,
    )
    else (record t { refresh_tokens = t.refresh_tokens ++ (row ∷ []) }, ok tt)

-- UPDATE refresh_tokens SET consumed = TRUE WHERE ..., with the rows that it changes
unfoldable pub spend_rows : (TokenRow → Bool) → Statement (Option TokenRow)
spend_rows test t = (
  record t { refresh_tokens = update test (λ r. record r { consumed = true }) t.refresh_tokens },
  ok (first (select test t.refresh_tokens)),
)

unfoldable pub select_token : String → Statement (Option TokenRow)
select_token jti t = (t, ok (first (select (λ (r : TokenRow). r.jti == jti) t.refresh_tokens)))
