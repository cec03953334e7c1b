-- ===== src/Store/Memory.antt =====
-- api/internal/store/memory.go: the store in memory. Each method holds the mutex, so it is one step.
-- The source stores pointers to copies that nobody else holds; here the maps hold the values.
pub mod Tokens
pub mod Ledger
pub mod Keeping
pub mod Users
pub mod Peers
mod Tests
use snow_radar.Common.{
  ℕ, String, Bool, true, false, ◌&&◌, Option, none, some, List, [], ◌∷◌, Result, ok, err, ◌==◌,
  string_eq, if◌then◌else◌,
}
use snow_radar.Common.Dict.{Dict, lookup, insert, values, map_values}
use snow_radar.Codec.{hex_encode}
use snow_radar.Store.{StoreError, not_found, token_replayed, other, User, Peer, Subscription, Store}

pub record RefreshRow : Type 0 where
  pub user_id : String
  pub consumed : Bool

pub record Memory : Type 0 where
  pub users : Dict String User
  pub by_email : Dict String User
  pub peers : Dict String Peer
  pub subs : Dict String Subscription
  pub refresh : Dict String RefreshRow

abbrev pub new_memory : Memory
new_memory = record { users = []; by_email = []; peers = []; subs = []; refresh = [] }

-- `if u.ID == ""`, the id is 16 random bytes in hexadecimal.
unfoldable pub with_id : List ℕ → User → User
with_id random u = if u.id == "" then record u { id = hex_encode random } else u

unfoldable pub create_user : List ℕ → User → Memory → Memory × Result StoreError User
unfolding with_id
create_user random u m = elim (lookup u.email m.by_email) [
  | some taken ↦ (m, err (other "email already registered"))
  | none ↦
      let cp = with_id random u in
      (
        record m { users = insert cp.id cp m.users; by_email = insert cp.email cp m.by_email },
        ok cp,
      )
]

abbrev found {ℓ} : {A : Type ℓ} → Option A → Result StoreError A
found none = err not_found
found (some a) = ok a

unfoldable pub get_user_by_email : String → Memory → Result StoreError User
get_user_by_email email m = found (lookup email m.by_email)

unfoldable pub get_user : String → Memory → Result StoreError User
get_user id m = found (lookup id m.users)

unfoldable pub save_peer : Peer → Memory → Memory × Option StoreError
save_peer p m = (record m { peers = insert p.id p m.peers }, none)

-- The loop of `PeersByUser`.
unfoldable pub active_of : String → List Peer → List Peer
active_of user_id [] = []
active_of user_id (p ∷ ps) =
    let rest = active_of user_id ps in if p.user_id == user_id && p.active then p ∷ rest else rest

unfoldable pub peers_by_user : String → Memory → List Peer × Option StoreError
unfolding active_of
peers_by_user user_id m = (active_of user_id (values m.peers), none)

unfoldable pub revoke_peer : String → String → Memory → Memory × Option StoreError
revoke_peer peer_id user_id m = elim (lookup peer_id m.peers) [
  | none ↦ (m, some not_found)
  | some p ↦
      if p.user_id == user_id
      then (record m { peers = insert peer_id (record p { active = false }) m.peers }, none)
      else (m, some not_found)
]

unfoldable pub upsert_subscription : Subscription → Memory → Memory × Option StoreError
upsert_subscription s m = (record m { subs = insert s.user_id s m.subs }, none)

unfoldable pub get_subscription : String → Memory → Result StoreError Subscription
get_subscription user_id m = found (lookup user_id m.subs)

unfoldable pub save_refresh_token : String → String → Memory → Memory × Option StoreError
save_refresh_token jti user_id m = (
  record m { refresh = insert jti (record { user_id = user_id; consumed = false }) m.refresh },
  none,
)

-- The body of the loops that consume every token of a user.
unfoldable pub burn : String → RefreshRow → RefreshRow
burn user_id row = if row.user_id == user_id then record row { consumed = true } else row

unfoldable pub consume_refresh_token : String → Memory → Memory × String × Option StoreError
unfolding burn
consume_refresh_token jti m = elim (lookup jti m.refresh) [
  | none ↦ (m, "", some not_found)
  | some row ↦
      if row.consumed
      then (
        record m { refresh = map_values (burn row.user_id) m.refresh },
        row.user_id,
        some token_replayed,
      )
      else (
        record m { refresh = insert jti (record row { consumed = true }) m.refresh },
        row.user_id,
        none,
      )
]

unfoldable pub revoke_all_refresh_tokens : String → Memory → Memory × Option StoreError
unfolding burn
revoke_all_refresh_tokens user_id m =
    (record m { refresh = map_values (burn user_id) m.refresh }, none)

abbrev pub memory : Store Memory
memory = record {
  create_user = create_user;
  get_user_by_email = get_user_by_email;
  get_user = get_user;
  save_peer = save_peer;
  peers_by_user = peers_by_user;
  revoke_peer = revoke_peer;
  upsert_subscription = upsert_subscription;
  get_subscription = get_subscription;
  save_refresh_token = save_refresh_token;
  consume_refresh_token = consume_refresh_token;
  revoke_all_refresh_tokens = revoke_all_refresh_tokens;
}

-- Go's `range` goes through a map in any order: the store with what that makes of the lists of
-- PeersByUser.
abbrev pub ranged : (List Peer → List Peer) → Store Memory
ranged order = record memory {
  peers_by_user =
      λ user_id m. (order (memory.peers_by_user user_id m).0, (memory.peers_by_user user_id m).1);
}
