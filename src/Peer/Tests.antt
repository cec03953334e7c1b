-- ===== src/Peer/Tests.antt =====
-- Runs of the service over the memory store, and each theorem at an input that meets its conditions.
use snow_radar.Common.{
  String, ◌≡◌, ◌≢◌, refl, Bool, true, false, none, [], ◌∷◌, ok, err, ◌==◌, string_eq, eq_iff, arith,
  if◌then◌else◌,
}
use snow_radar.Common.Dict.{Dict, lookup, insert, delete}
use snow_radar.Common.Texts.{concat, digits, decimal}
use snow_radar.Codec.{sextet, letter, encode_to_string, decode_string}
use snow_radar.Netalloc.{
  must_prefix, find_node, new, advance, host, search, allocate, allocate_from, release, fsn, sgp,
}
use snow_radar.Netalloc.Invariant.{initial}
use snow_radar.Store.{Peer}
use snow_radar.Store.Memory.{
  Memory, memory, new_memory, save_peer, active_of, peers_by_user, revoke_peer, upsert_subscription,
  get_subscription,
}
use snow_radar.Peer.{
  not_subscribed, bad_public_key, node_unknown, Service, prefix_string, endpoint, new_id, find_same,
  find_id, is_public_key, may_connect, render_client_config, add_nodes, new_service, release_lease,
  provision, connect, revoke,
}
use snow_radar.Peer.Slots.{Slot, slot_eq, slot_of, holder}
use snow_radar.Peer.Invariant.{IsActive, IsSound, connect-IsSound}
use snow_radar.Peer.Revoking.Courses.{Owns}
use snow_radar.Peer.Revoking.{revoke-IsSound, revoke_own}
use snow_radar.Peer.Repeating.{IsOrder, HasOne, connect_twice}
use snow_radar.Store.Memory.{ranged}
use snow_radar.Peer.Histories.{
  IsSafe, Reach, connects, writes, here, next, reach-IsSafe, new_service-IsSafe,
}

tests : Unit {0}
unfolding lookup insert delete concat digits decimal sextet letter encode_to_string decode_string
    find_node new advance host search allocate allocate_from release save_peer active_of
    peers_by_user revoke_peer upsert_subscription get_subscription prefix_string endpoint new_id
    find_same find_id is_public_key may_connect render_client_config add_nodes new_service
    release_lease provision connect revoke
tests = tt

abbrev key : String
key = "AAAAAAAAAAAAAAAAAAAAAAAAAAAAAAAAAAAAAAAAAAA="

abbrev keys : Dict String String
keys = ("sgp", "S") ∷ ("fsn", "F") ∷ []

abbrev endpoints : Dict String (Dict Bool String)
endpoints = ("sgp", (false, "sgp.example:51820") ∷ []) ∷ []

abbrev fresh : Service Memory
fresh = record {
  store = new_memory;
  allocators =
      ("sgp", record { wg = initial sgp false; awg = initial sgp true })
      ∷ ("fsn", record { wg = initial fsn false; awg = initial fsn true })
      ∷ [];
  server_pub_keys = keys;
  endpoints = endpoints;
}

started : new_service new_memory keys endpoints ≡ ok fresh
unfolding tests
started = refl

abbrev paid : Memory
paid = record new_memory {
  subs =
      ("u", record { user_id = "u"; provider = "paddle"; external = "s1"; state = "active" }) ∷ [];
}

-- User u has paid.
abbrev ready : Service Memory
ready = record fresh { store = paid }

abbrev phone : Peer
phone = record {
  id = "Bw";
  user_id = "u";
  node_id = "sgp";
  stealth = false;
  address = must_prefix 10 20 0 2 24;
  public_key = key;
  created_at = 9;
  active = true;
}

-- The service after `Connect` for the phone.
abbrev joined : Service Memory
joined = (connect memory "u" "sgp" key false (7 ∷ []) 9 ready).0

connect_tests :
    ((connect memory "u" "sgp" key false (7 ∷ []) 9 ready).1
      ≡ ok (phone, render_client_config ready phone))
    × ((connect memory "u" "sgp" "x" false (7 ∷ []) 9 ready).1 ≡ err bad_public_key)
    × ((connect memory "v" "sgp" key false (7 ∷ []) 9 ready).1 ≡ err not_subscribed)
    × ((connect memory "u" "nyc" key false (7 ∷ []) 9 ready).1 ≡ err node_unknown)
    × (peers_by_user "u" joined.store ≡ (phone ∷ [], none))
unfolding tests
connect_tests = (refl, refl, refl, refl, refl)

config_test :
    render_client_config ready phone
    ≡ "[Interface]\nAddress = 10.20.0.2/24\nDNS = 1.1.1.1, 1.0.0.1\n\n[Peer]\nPublicKey = S\nEndpoint = sgp.example:51820\nAllowedIPs = 0.0.0.0/0\nPersistentKeepalive = 25\n"
unfolding tests
config_test = refl

free_id : lookup (new_id (7 ∷ [])) ready.store.peers ≡ none
unfolding tests
free_id = refl

abbrev history : Reach fresh joined
history = next (next here (writes paid refl)) (connects "u" "sgp" key false (7 ∷ []) 9 free_id)

fresh-IsSafe : IsSafe fresh
fresh-IsSafe = new_service-IsSafe new_memory keys endpoints fresh refl started

ready-IsSafe : IsSafe ready
ready-IsSafe = reach-IsSafe fresh-IsSafe (next here (writes paid refl))

joined-IsSafe : IsSafe joined
joined-IsSafe = reach-IsSafe fresh-IsSafe history

phone-IsActive : IsActive phone joined
unfolding tests
phone-IsActive = (refl, refl)

phone-Owns : Owns "u" "Bw" phone joined
phone-Owns = (phone-IsActive, refl, refl)

connect-IsSound_example : IsSound (connect memory "u" "sgp" key false (7 ∷ []) 9 ready).0
connect-IsSound_example =
    connect-IsSound "u" "sgp" key false (7 ∷ []) 9 ready ready-IsSafe.sound free_id

revoke-IsSound_example : IsSound (revoke memory "u" "Bw" joined).0
revoke-IsSound_example = revoke-IsSound "u" "Bw" joined joined-IsSafe.sound

other_user : ◌≢◌ {A = String} "u" "v"
other_user e = ground (arith, eq_iff "u" "v")

revoke_own_example :
    ((revoke memory "u" "Bw" joined).1 ≡ none)
    × ((q : Peer) → IsActive q (revoke memory "u" "Bw" joined).0 → q.id ≢ "Bw")
    × ((t : Slot)
        → holder t (revoke memory "u" "Bw" joined).0.allocators
          ≡ (if slot_of phone == t then none else holder t joined.allocators))
revoke_own_example = revoke_own "u" "Bw" joined phone joined-IsSafe.sound phone-Owns

listed-IsOrder : IsOrder (λ ps. ps)
listed-IsOrder ps q = (λ m. m, λ m. m)

no_peers : HasOne "u" "sgp" key false ready.store
unfolding tests
no_peers p q m n e f = absurd m

connect_twice_example :
    connect (ranged (λ ps. ps)) "u" "sgp" key false (8 ∷ []) 10 joined
    ≡ (joined, ok (phone, render_client_config ready phone))
connect_twice_example =
    connect_twice "u" "sgp" key false (7 ∷ []) (8 ∷ []) 9 10 ready phone
      (render_client_config ready phone) (λ ps. ps) (λ ps. ps) listed-IsOrder listed-IsOrder
      ready-IsSafe.sound no_peers free_id connect_tests.0
