-- ===== src/Peer/Interleaving/Tests.antt =====
-- Calls that run at the same time over the memory store, and each theorem at an input that meets its
-- conditions.
use snow_radar.Common.{
  ℕ, String, ◌≡◌, refl, true, false, none, List, [], ◌∷◌, ok, string_eq, length,
}
use snow_radar.Common.Dict.{lookup, insert, delete}
use snow_radar.Common.Texts.{concat, digits, decimal}
use snow_radar.Codec.{sextet, letter, encode_to_string, decode_string}
use snow_radar.Netalloc.{
  must_prefix, find_node, new, advance, host, search, allocate, allocate_from, release, sgp,
}
use snow_radar.Netalloc.Invariant.{initial}
use snow_radar.Store.Memory.{
  Memory, memory, new_memory, save_peer, active_of, peers_by_user, revoke_peer, get_subscription,
}
use snow_radar.Peer.{
  Service, prefix_string, endpoint, new_id, find_same, find_id, is_public_key, may_connect,
  render_client_config, add_nodes, new_service, connect, release_lease,
}
use snow_radar.Peer.Slots.{AllGood}
use snow_radar.Peer.Histories.{new_service-IsSafe}
use snow_radar.Peer.Interleaving.{
  Device, Call, asking, looking, device_peer, step, alone, turn, interleave,
}
use snow_radar.Peer.Interleaving.Allocators.{interleave-AllGood}

tests : Unit {0}
unfolding lookup insert delete concat digits decimal sextet letter encode_to_string decode_string
    find_node new advance host search allocate allocate_from release save_peer active_of
    peers_by_user revoke_peer get_subscription prefix_string endpoint new_id find_same find_id
    is_public_key may_connect render_client_config add_nodes new_service connect release_lease step
    alone turn interleave
tests = tt

-- Users u and v have paid.
abbrev paid : Memory
paid = record new_memory {
  subs =
      ("u", record { user_id = "u"; provider = "paddle"; external = "s1"; state = "active" })
      ∷ ("v", record { user_id = "v"; provider = "paddle"; external = "s2"; state = "active" })
      ∷ [];
}

abbrev ready : Service Memory
ready = record {
  store = paid;
  allocators = ("sgp", record { wg = initial sgp false; awg = initial sgp true }) ∷ [];
  server_pub_keys = ("sgp", "S") ∷ [];
  endpoints = [];
}

made : new_service paid (("sgp", "S") ∷ []) [] ≡ ok ready
unfolding tests
made = refl

all_good : AllGood ready.allocators
all_good = (new_service-IsSafe paid (("sgp", "S") ∷ []) [] ready refl made).sound.good

abbrev device : String → String → ℕ → Device
device user_id key r = record {
  user_id = user_id;
  node_id = "sgp";
  key = key;
  stealth = false;
  random = r ∷ [];
  now = 9;
}

abbrev key : String
key = "AAAAAAAAAAAAAAAAAAAAAAAAAAAAAAAAAAAAAAAAAAA="

abbrev key_b : String
key_b = "BAAAAAAAAAAAAAAAAAAAAAAAAAAAAAAAAAAAAAAAAAA="

abbrev key_c : String
key_c = "CAAAAAAAAAAAAAAAAAAAAAAAAAAAAAAAAAAAAAAAAAA="

abbrev key_d : String
key_d = "DAAAAAAAAAAAAAAAAAAAAAAAAAAAAAAAAAAAAAAAAAA="

-- Four devices of one user, each of which counts the peers before any of them is saved.
abbrev together : Service Memory × List Call
together =
    interleave memory (0 ∷ 1 ∷ 2 ∷ 3 ∷ 0 ∷ 1 ∷ 2 ∷ 3 ∷ 0 ∷ 1 ∷ 2 ∷ 3 ∷ 0 ∷ 1 ∷ 2 ∷ 3 ∷ [])
      (asking (device "u" key 1)
        ∷ asking (device "u" key_b 2)
        ∷ asking (device "u" key_c 3)
        ∷ asking (device "u" key_d 4)
        ∷ [])
      ready

-- All four are connected.
limit_race : length (peers_by_user "u" together.0.store).0 ≡ 4
unfolding tests
limit_race = refl

abbrev joined : Service Memory
joined = (connect memory "u" "sgp" key false (7 ∷ []) 9 ready).0

-- The phone is revoked twice at the same time. Between the two releases its user connects another
-- device, which gets the address; the second release frees it, and user v gets it too.
abbrev twice : Service Memory × List Call
twice =
    interleave memory (0 ∷ 1 ∷ 0 ∷ 0 ∷ 2 ∷ 2 ∷ 2 ∷ 2 ∷ 1 ∷ 1 ∷ 3 ∷ 3 ∷ 3 ∷ 3 ∷ [])
      (looking "u" "Bw"
        ∷ looking "u" "Bw"
        ∷ asking (device "u" key_b 2)
        ∷ asking (device "v" key_c 3)
        ∷ [])
      joined

address_race :
    (peers_by_user "u" twice.0.store
      ≡ (device_peer (device "u" key_b 2) (must_prefix 10 20 0 2 24) ∷ [], none))
    × (peers_by_user "v" twice.0.store
        ≡ (device_peer (device "v" key_c 3) (must_prefix 10 20 0 2 24) ∷ [], none))
unfolding tests
address_race = (refl, refl)

interleave-AllGood_example :
    AllGood
      (interleave memory
        (0 ∷ 1 ∷ 0 ∷ 1 ∷ [])
        (asking (device "u" key 1) ∷ asking (device "v" key_b 2) ∷ [])
        ready).0.allocators
interleave-AllGood_example =
    interleave-AllGood memory (0 ∷ 1 ∷ 0 ∷ 1 ∷ [])
      (asking (device "u" key 1) ∷ asking (device "v" key_b 2) ∷ []) ready all_good
