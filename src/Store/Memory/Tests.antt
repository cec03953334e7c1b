-- ===== src/Store/Memory/Tests.antt =====
-- Runs of the memory store, and each theorem at an input that meets its conditions.
use snow_radar.Common.{
  String, ◌≡◌, ◌≢◌, refl, true, false, some, none, List, [], ◌∷◌, ok, err, ◌==◌, string_eq, eq_iff,
  arith,
}
use snow_radar.Common.Dict.{lookup, insert, delete, map_values}
use snow_radar.Codec.{hex_encode}
use snow_radar.Netalloc.{must_prefix}
use snow_radar.Store.{not_found, token_replayed, other, User, Peer}
use snow_radar.Store.Memory.{
  Memory, new_memory, with_id, create_user, get_user_by_email, get_user, save_peer, active_of,
  peers_by_user, revoke_peer, upsert_subscription, get_subscription, save_refresh_token, burn,
  consume_refresh_token, revoke_all_refresh_tokens,
}
use snow_radar.Store.Memory.Tokens.{
  NoneIssues, Call, saves_refresh_token, revokes_all, step, run, consumed_by, Consumes,
  consume-Consumes, consume-once, replay-burns,
}
use snow_radar.Store.Memory.Users.{IsCoherent, create_user_lem}
use snow_radar.Store.Memory.Peers.{IsKeyed, save_peer-IsKeyed}

tests : Unit {0}
unfolding create_user with_id get_user_by_email get_user save_peer peers_by_user active_of
    revoke_peer upsert_subscription get_subscription save_refresh_token burn consume_refresh_token
    revoke_all_refresh_tokens step run lookup insert delete map_values hex_encode
tests = tt

-- Two tokens of user a and one of user b.
abbrev issued : Memory
issued = record new_memory {
  refresh =
      ("j1", record { user_id = "a"; consumed = false })
      ∷ ("j2", record { user_id = "a"; consumed = false })
      ∷ ("j4", record { user_id = "b"; consumed = false })
      ∷ [];
}

-- The scenario of TestRefreshRotationSingleUse.
rotation :
    (consumed_by "j1" issued ≡ ("a", none))
    × (consumed_by "j1" (consume_refresh_token "j1" issued).0 ≡ ("a", some token_replayed))
    × (consumed_by "j2"
          (run issued (Call.consumes_refresh_token "j1" ∷ Call.consumes_refresh_token "j1" ∷ []))
        ≡ ("a", some token_replayed))
    × (consumed_by "j4"
          (run issued (Call.consumes_refresh_token "j1" ∷ Call.consumes_refresh_token "j1" ∷ []))
        ≡ ("b", none))
    × (consumed_by "j9" issued ≡ ("", some not_found))
unfolding tests
rotation = (refl, refl, refl, refl, refl)

abbrev later : List Call
later = saves_refresh_token "j5" "a" ∷ revokes_all "b" ∷ []

apart : (s t : String) → (s == t) ≡ false → s ≢ t
apart s t h e = ground (arith, eq_iff s t)

later_j4 : NoneIssues "j4" later
later_j4 = (apart "j5" "j4" refl, (λ e. e, tt))

later_j2 : NoneIssues "j2" later
later_j2 = (apart "j5" "j2" refl, (λ e. e, tt))

consume-Consumes_example : Consumes "j1" issued (consume_refresh_token "j1" issued)
consume-Consumes_example = consume-Consumes "j1" issued

consume-once_example :
    consumed_by "j1" (run (consume_refresh_token "j1" issued).0 later) ≡ ("a", some token_replayed)
consume-once_example = consume-once "j1" "a" issued later rotation.0 (λ e. cc, (λ e. e, tt))

-- The store after j1 has been used.
abbrev used : Memory
used = record issued {
  refresh =
      ("j1", record { user_id = "a"; consumed = true })
      ∷ ("j2", record { user_id = "a"; consumed = false })
      ∷ ("j4", record { user_id = "b"; consumed = false })
      ∷ [];
}

replay-burns_example :
    (◌≡◌ {A = String} "a" "a"
      → consumed_by "j2" (run (consume_refresh_token "j1" used).0 later)
        ≡ ("a", some token_replayed))
    × (◌≢◌ {A = String} "a" "a"
        → lookup "j2" (consume_refresh_token "j1" used).0.refresh
          ≡ some (record { user_id = "a"; consumed = false }))
unfolding tests
replay-burns_example =
    replay-burns "j1" "a" "j2" used (record { user_id = "a"; consumed = false }) later refl refl
      later_j2

abbrev alice : User
alice = record { id = ""; email = "a@example.com"; password_hash = "h" }

abbrev alice_1 : User
alice_1 = record alice { id = "0f" }

new_memory-IsCoherent : IsCoherent new_memory
unfolding tests
new_memory-IsCoherent = record { emails = λ email u h. cc; ids = λ email u h. cc }

create_user_lem_example :
    (get_user_by_email "a@example.com" (create_user (15 ∷ []) alice new_memory).0 ≡ ok alice_1)
    × (get_user "0f" (create_user (15 ∷ []) alice new_memory).0 ≡ ok alice_1)
    × (◌≡◌ {A = String} "a@example.com" "a@example.com")
    × (◌≡◌ {A = String} "h" "h")
    × (create_user (16 ∷ []) alice (create_user (15 ∷ []) alice new_memory).0
        ≡ ((create_user (15 ∷ []) alice new_memory).0, err (other "email already registered")))
unfolding tests
create_user_lem_example =
    create_user_lem (15 ∷ []) (16 ∷ []) alice alice alice_1 new_memory refl refl

abbrev laptop : Peer
laptop = record {
  id = "p1";
  user_id = "a";
  node_id = "sgp";
  stealth = false;
  address = must_prefix 10 20 0 2 24;
  public_key = "key";
  created_at = 1;
  active = true;
}

abbrev with_laptop : Memory
with_laptop = record new_memory { peers = ("p1", laptop) ∷ [] }

new_memory-IsKeyed : IsKeyed new_memory
unfolding tests
new_memory-IsKeyed = record { distinct = tt; own_id = λ id p h. cc }

with_laptop-IsKeyed : IsKeyed with_laptop
unfolding tests
with_laptop-IsKeyed = save_peer-IsKeyed laptop new_memory new_memory-IsKeyed

peer_tests :
    (peers_by_user "a" with_laptop ≡ (laptop ∷ [], none))
    × (peers_by_user "a" (revoke_peer "p1" "a" with_laptop).0 ≡ ([], none))
    × ((revoke_peer "p1" "b" with_laptop).1 ≡ some not_found)
    × ((revoke_peer "p1" "a" (revoke_peer "p1" "a" with_laptop).0).1 ≡ none)
unfolding tests
peer_tests = (refl, refl, refl, refl)
