-- ===== src/Api/Devices/Tests.antt =====
-- Runs of the device routes over the memory store, and each theorem at an input that meets its
-- conditions.
use snow_radar.Common.{
  ℕ, String, ◌≡◌, ◌≢◌, refl, Bool, true, false, Option, none, some, List, [], ◌∷◌, ok, string_eq,
  arith, eq_iff, ◌==◌, sym, ◌∙◌, ap,
}
use snow_radar.Common.Dict.{Dict, lookup, insert, delete}
use snow_radar.Common.Texts.{concat, digits, decimal}
use snow_radar.Codec.{sextet, letter, encode_to_string, decode_string}
use snow_radar.Netalloc.{
  find_node, new, advance, host, search, allocate, allocate_from, release, sgp, fsn,
}
use snow_radar.Netalloc.Invariant.{initial}
use snow_radar.Store.{Peer}
use snow_radar.Store.Memory.{
  Memory, memory, new_memory, save_peer, active_of, peers_by_user, revoke_peer, get_subscription,
}
use snow_radar.Peer.{
  Service, prefix_string, endpoint, new_id, find_same, find_id, is_public_key, may_connect,
  render_client_config, add_nodes, new_service, connect, revoke,
}
use snow_radar.Peer.Invariant.{IsSound}
use snow_radar.Peer.Histories.{writes, connects, here, next, reach-IsSafe, new_service-IsSafe}
use snow_radar.Api.Devices.{
  Config, ConnectRequest, Answer, connected, new_server, binds, is_provisioned, connect_device,
  revoke_device,
}
use snow_radar.Api.Devices.Keys.{connect_device-awg}
use snow_radar.Api.Devices.Answers.{revoke_device-foreign, connect_device-allowed}

tests : Unit {0}
unfolding lookup insert delete concat digits decimal sextet letter encode_to_string decode_string
    find_node new advance host search allocate allocate_from release save_peer active_of
    peers_by_user revoke_peer get_subscription prefix_string endpoint new_id find_same find_id
    is_public_key may_connect render_client_config add_nodes new_service connect revoke new_server
    binds is_provisioned connect_device revoke_device
tests = tt

abbrev cfg : Config
cfg = record {
  sgp_wg_public_key = "S";
  sgp_awg_public_key = "SA";
  fsn_wg_public_key = "F";
  fsn_awg_public_key = "FA";
}

abbrev keys : Dict String String
keys = ("sgp", "S") ∷ ("fsn", "F") ∷ []

abbrev endpoints : Dict String (Dict Bool String)
endpoints =
    ("sgp", (false, "sgp.snowradar.app:51820") ∷ (true, "sgp.snowradar.app:51821") ∷ [])
    ∷ ("fsn", (false, "fsn.snowradar.app:51820") ∷ (true, "fsn.snowradar.app:51821") ∷ [])
    ∷ []

abbrev fresh : Service Memory
fresh = record {
  store = new_memory;
  allocators =
      ("sgp", record { wg = initial sgp false; awg = initial sgp true })
      ∷ ("fsn", record { wg = initial fsn false; awg = initial fsn true })
      ∷ [];
  server_pub_keys = keys;
  endpoints = endpoints;
}

started : new_server cfg new_memory ≡ ok fresh
unfolding tests
started = refl

service_started : new_service new_memory keys endpoints ≡ ok fresh
unfolding tests
service_started = refl

abbrev paid : Memory
paid = record new_memory {
  subs =
      ("u", record { user_id = "u"; provider = "paddle"; external = "s1"; state = "active" }) ∷ [];
}

abbrev ready : Service Memory
ready = record fresh { store = paid }

abbrev stealthy : ConnectRequest
stealthy = record {
  node_id = "sgp";
  public_key = "AAAAAAAAAAAAAAAAAAAAAAAAAAAAAAAAAAAAAAAAAAA=";
  stealth_mode = true;
}

-- The configuration of a stealth device shows the key of the other protocol.
abbrev config : String
config =
    "[Interface]\nAddress = 10.20.1.2/24\nDNS = 1.1.1.1, 1.0.0.1\n\n[Peer]\nPublicKey = S\nEndpoint = sgp.snowradar.app:51821\nAllowedIPs = 0.0.0.0/0\nPersistentKeepalive = 25\n"

connects_device :
    (connect_device memory cfg (some stealthy) "u" (7 ∷ []) 9 ready).1
    ≡ connected "Bw" "10.20.1.2/24" config
unfolding tests
connects_device = refl

device_tests :
    ((connect_device memory cfg none "u" (7 ∷ []) 9 ready).1
      ≡ Answer.refused 400 "node_id must be sgp|fsn; public_key required")
    × ((connect_device memory
          (record cfg { fsn_awg_public_key = "" })
          (some stealthy)
          "u"
          (7 ∷ [])
          9
          ready).1
        ≡ Answer.refused 503 "node keys not provisioned yet")
    × ((connect_device memory cfg (some stealthy) "v" (7 ∷ []) 9 ready).1
        ≡ Answer.refused 402 "no active subscription")
    × (is_provisioned cfg ≡ true)
    × (is_provisioned (record cfg { sgp_awg_public_key = "X"; fsn_awg_public_key = "Y" }) ≡ true)
unfolding tests
device_tests = (refl, refl, refl, refl, refl)

connect_device-awg_example :
    ((s : Memory)
      → new_server (record cfg { sgp_awg_public_key = "X"; fsn_awg_public_key = "Y" }) s
        ≡ new_server cfg s)
    × ((r : Option ConnectRequest) (user_id : String) (random : List ℕ) (now : ℕ)
          (s : Service Memory)
        → connect_device memory
            (record cfg { sgp_awg_public_key = "X"; fsn_awg_public_key = "Y" })
            r
            user_id
            random
            now
            s
          ≡ connect_device memory cfg r user_id random now s)
connect_device-awg_example = connect_device-awg memory cfg "X" "Y" device_tests.3 device_tests.4

connect_device-allowed_example :
    (q : ConnectRequest) × (some stealthy ≡ some q)
    × (binds q ≡ true)
    × (is_provisioned cfg ≡ true)
    × (is_public_key q.public_key ≡ true)
    × (may_connect (get_subscription "u" paid) ≡ true)
    × (lookup q.node_id ready.allocators ≢ none)
connect_device-allowed_example =
    connect_device-allowed memory cfg (some stealthy) "u" (7 ∷ []) 9 ready "Bw" "10.20.1.2/24"
      config connects_device

-- The service once user u has connected the device.
abbrev joined : Service Memory
joined =
    (connect memory "u" "sgp" "AAAAAAAAAAAAAAAAAAAAAAAAAAAAAAAAAAAAAAAAAAA=" true (7 ∷ []) 9
      ready).0

free_id : lookup (new_id (7 ∷ [])) ready.store.peers ≡ none
unfolding tests
free_id = refl

joined-IsSound : IsSound joined
joined-IsSound =
    (reach-IsSafe (new_service-IsSafe new_memory keys endpoints fresh refl service_started) (
      next (next here (writes paid refl)) (
        connects "u" "sgp" "AAAAAAAAAAAAAAAAAAAAAAAAAAAAAAAAAAAAAAAAAAA=" true (7 ∷ []) 9
          free_id))).sound

owner_of : Option Peer → String
owner_of none = ""
owner_of (some p) = p.user_id

kept_owner : owner_of (lookup "Bw" joined.store.peers) ≡ "u"
unfolding tests owner_of
kept_owner = refl

apart : (s t : String) → (s == t) ≡ false → s ≢ t
apart s t h e = ground (arith, eq_iff s t)

foreign : (p : Peer) → lookup "Bw" joined.store.peers ≡ some p → p.user_id ≢ "v"
unfolding owner_of
foreign p e f = apart "u" "v" refl (sym kept_owner ∙ ap owner_of e ∙ f)

revoke_device-foreign_example :
    revoke_device memory "v" "Bw" joined ≡ (joined, Answer.refused 404 "no such peer for this user")
revoke_device-foreign_example = revoke_device-foreign "v" "Bw" joined joined-IsSound foreign
