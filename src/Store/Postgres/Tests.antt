-- ===== src/Store/Postgres/Tests.antt =====
-- Runs of the Postgres store, and each theorem at an input that meets its conditions.
use snow_radar.Common.{
  String, ◌≡◌, ◌≢◌, refl, true, false, none, some, List, [], ◌∷◌, ok, err, ◌==◌, string_eq, arith,
  eq_iff,
}
use snow_radar.Netalloc.{must_prefix}
use snow_radar.Store.{User, Peer, Subscription, not_found, token_replayed, other}
use snow_radar.Store.Schema.{
  Tables, select, first, update, exists, insert_user, select_user, is_cidr, upsert_peer,
  select_peers, deactivate, is_state, upsert_subscription_row, precedes, top, select_subscription,
  upsert_token, spend_rows, select_token,
}
use snow_radar.Store.Memory.Tokens.{Call, saves_refresh_token, revokes_all, NoneIssues}
use snow_radar.Store.Postgres.{
  read, works, refused, lost, Turn, Postgres, run, exec, done, scanned, with_returned_id, affected,
  confirm, spend_or_confirm, create_user, get_user, get_user_by_email, save_peer, peers_by_user,
  revoke_peer, upsert_subscription, get_subscription, save_refresh_token, consume_refresh_token,
  revoke_all_refresh_tokens,
}
use snow_radar.Store.Postgres.SingleUse.{steps, consume-once_outages}

tests : Unit {0}
unfolding select first update exists insert_user select_user is_cidr upsert_peer select_peers
    deactivate is_state upsert_subscription_row precedes top select_subscription upsert_token
    spend_rows select_token run exec read done scanned with_returned_id affected confirm
    spend_or_confirm create_user get_user get_user_by_email save_peer peers_by_user revoke_peer
    upsert_subscription get_subscription save_refresh_token consume_refresh_token
    revoke_all_refresh_tokens
tests = tt

abbrev user : User
user = record { id = "a"; email = "a@b.c"; password_hash = "h" }

abbrev device : Peer
device = record {
  id = "p1";
  user_id = "a";
  node_id = "sgp";
  stealth = false;
  address = must_prefix 10 20 0 2 32;
  public_key = "k";
  created_at = 5;
  active = true;
}

abbrev filled : Tables
filled = record {
  users = user ∷ [];
  subscriptions = [];
  peers = device ∷ [];
  refresh_tokens = record { jti = "j1"; user_id = "a"; consumed = false } ∷ [];
}

abbrev running : List Turn → Postgres
running turns = record { tables = filled; clock = 100; turns = turns }

user_tests :
    (get_user "a" (running []) ≡ ok user)
    × (get_user_by_email "b" (running []) ≡ err not_found)
    × (get_user "a" (
          running
            (record { wait = 1; outcome = refused "down"; reads = λ kind. refused "down" } ∷ []))
        ≡ err (other "down"))
    × ((create_user [] user (running [])).1 ≡ err (other "users.id is null"))
unfolding tests
user_tests = (refl, refl, refl, refl)

-- A peer is revoked once; after that there is no active row, and its address is still taken.
peer_tests :
    (peers_by_user "a" (running []) ≡ (device ∷ [], none))
    × ((revoke_peer "p1" "b" (running [])).1 ≡ some not_found)
    × ((revoke_peer "p1" "a" (running [])).1 ≡ none)
    × ((revoke_peer "p1" "a" (revoke_peer "p1" "a" (running [])).0).1 ≡ some not_found)
    × ((save_peer
          (record device { id = "p2"; public_key = "m" })
          (revoke_peer "p1" "a" (running [])).0).1
        ≡ some (other "peers_address_key"))
    × ((save_peer (record device { id = "p2"; address = must_prefix 10 20 0 3 24 }) (running [])).1
        ≡ some (other "invalid cidr value"))
unfolding tests
peer_tests = (refl, refl, refl, refl, refl, refl)

abbrev paid : String → String → Subscription
paid provider state = record { user_id = "a"; provider = provider; external = "e"; state = state }

subscription_tests :
    (get_subscription "a" (running []) ≡ err not_found)
    × ((upsert_subscription (paid "paddle" "") (running [])).1
        ≡ some (other "subscriptions_state_check"))
    × (get_subscription "a"
          (upsert_subscription
            (paid "payhere" "cancelled")
            (upsert_subscription (paid "paddle" "active") (running [])).0).0
        ≡ ok (paid "paddle" "active"))
unfolding tests
subscription_tests = (refl, refl, refl)

-- A use whose first answer is lost uses the token up, and so the next one is a replay.
token_tests :
    ((consume_refresh_token "j1" (running [])).2 ≡ none)
    × ((consume_refresh_token "j2" (running [])).2 ≡ some not_found)
    × ((consume_refresh_token "j1"
          (consume_refresh_token "j1" (
            running
              (record { wait = 1; outcome = lost "gone"; reads = λ kind. lost "gone" } ∷ []))).0).2
        ≡ some token_replayed)
    × ((save_refresh_token "j3" "nobody" (running [])).1
        ≡ some (other "refresh_tokens_user_id_fkey"))
unfolding tests
token_tests = (refl, refl, refl, refl)

abbrev outages : List Turn
outages =
    record { wait = 1; outcome = works; reads = λ kind. works }
    ∷ record { wait = 1; outcome = lost "gone"; reads = λ kind. lost "gone" }
    ∷ record { wait = 3; outcome = refused "down"; reads = λ kind. refused "down" }
    ∷ []

abbrev later_calls : List Call
later_calls = saves_refresh_token "j2" "a" ∷ revokes_all "a" ∷ []

apart : (s t : String) → (s == t) ≡ false → s ≢ t
apart s t h e = ground (arith, eq_iff s t)

later_j1 : NoneIssues "j1" later_calls
later_j1 = (apart "j2" "j1" refl, (λ e. e, tt))

used_once : (consume_refresh_token "j1" (running outages)).2 ≡ none
unfolding tests
used_once = refl

consume-once_outages_example :
    (consume_refresh_token "j1"
      (steps (consume_refresh_token "j1" (running outages)).0 later_calls)).2
    ≢ none
consume-once_outages_example =
    consume-once_outages "j1" (running outages) later_calls used_once later_j1
