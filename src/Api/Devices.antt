-- ===== src/Api/Devices.antt =====
-- The device routes of api/internal/api/router.go: connect, listPeers and revokePeer, and NewServer as far as it
-- makes the peer service. A request's body comes as the fields of its JSON, or as none where it is
-- malformed; the rules of its `binding` tags are `binds`.
pub mod Keys
pub mod Stepping
pub mod Answers
mod Tests
use snow_radar.Common.{
  ℕ, String, Bool, true, false, not, ◌&&◌, ◌||◌, Option, none, some, List, [], ◌∷◌, Result, ok, err,
  ◌==◌, string_eq, if◌then◌else◌,
}
use snow_radar.Common.Dict.{Dict}
use snow_radar.Common.Texts.{concat}
use snow_radar.Netalloc.{AllocError, pool_exhausted, unknown_node, not_held}
use snow_radar.Store.{StoreError, not_found, token_replayed, other, Peer, Store}
use snow_radar.Peer.{
  PeerError, node_unknown, not_subscribed, too_many_peers, bad_public_key, allocate_failed,
  store_failed, Service, new_service, connect, revoke, prefix_string,
}

-- The public keys of the configuration.
pub record Config : Type 0 where
  pub sgp_wg_public_key : String
  pub sgp_awg_public_key : String
  pub fsn_wg_public_key : String
  pub fsn_awg_public_key : String

unfoldable pub new_server : {S : Type 0} → Config → S → Result AllocError (Service S)
new_server cfg s =
    new_service s (("sgp", cfg.sgp_wg_public_key) ∷ ("fsn", cfg.fsn_wg_public_key) ∷ []) (
      ("sgp", (false, "sgp.snowradar.app:51820") ∷ (true, "sgp.snowradar.app:51821") ∷ [])
      ∷ ("fsn", (false, "fsn.snowradar.app:51820") ∷ (true, "fsn.snowradar.app:51821") ∷ [])
      ∷ [])

pub record ConnectRequest : Type 0 where
  pub node_id : String
  pub public_key : String
  pub stealth_mode : Bool

pub data Answer : Type 0 where
  refused : ℕ → String → Answer
  connected : (peer_id address config : String) → Answer
  revoked : Answer

-- `required,oneof=sgp fsn` and `required`
unfoldable pub binds : ConnectRequest → Bool
binds r = (r.node_id == "sgp" || r.node_id == "fsn") && not (r.public_key == "")

-- No node lacks a key.
unfoldable pub is_provisioned : Config → Bool
is_provisioned cfg =
    not (cfg.sgp_wg_public_key == "" || cfg.sgp_awg_public_key == "")
    && not (cfg.fsn_wg_public_key == "" || cfg.fsn_awg_public_key == "")

abbrev alloc_text : AllocError → String
alloc_text pool_exhausted = "netalloc: address pool exhausted"
alloc_text unknown_node = "netalloc: unknown node id"
alloc_text not_held = "netalloc: address not held by peer"

abbrev store_text : StoreError → String
store_text not_found = "store: not found"
store_text token_replayed = "store: refresh token already consumed"
store_text (other message) = message

-- The answer to an error of `Connect`.
pub refusal : PeerError → Answer
refusal not_subscribed = refused 402 "no active subscription"
refusal too_many_peers = refused 409 "device limit reached"
refusal node_unknown = refused 400 "peer: unknown node"
refusal bad_public_key = refused 400 "peer: public key must be 32 bytes, base64-encoded"
refusal (allocate_failed e) = refused 400 (concat ("peer: allocate: " ∷ alloc_text e ∷ []))
refusal (store_failed e) = refused 400 (store_text e)

module _ {S : Type 0} where
  pub connect_answer : Service S × Result PeerError (Peer × String) → Service S × Answer
  unfolding refusal
  connect_answer (s, ok (p, config)) = (s, connected p.id (prefix_string p.address) config)
  connect_answer (s, err e) = (s, refusal e)

  pub revoke_answer : Service S × Option StoreError → Service S × Answer
  revoke_answer (s, none) = (s, revoked)
  revoke_answer (s, some not_found) = (s, refused 404 "no such peer for this user")
  revoke_answer (s, some token_replayed) = (s, refused 500 "internal")
  revoke_answer (s, some (other message)) = (s, refused 500 "internal")

module _ {S : Type 0} (st : Store S) where
  unfoldable pub connect_device :
      Config
      → Option ConnectRequest
      → (user_id : String) (random : List ℕ) (now : ℕ) → Service S
      → Service S × Answer
  unfolding connect_answer
  connect_device cfg none user_id random now s =
      (s, refused 400 "node_id must be sgp|fsn; public_key required")
  connect_device cfg (some r) user_id random now s =
      if not (binds r)
      then (s, refused 400 "node_id must be sgp|fsn; public_key required")
      else if not (is_provisioned cfg)
      then (s, refused 503 "node keys not provisioned yet")
      else connect_answer (connect st user_id r.node_id r.public_key r.stealth_mode random now s)

  unfoldable pub revoke_device : (user_id peer_id : String) → Service S → Service S × Answer
  unfolding revoke_answer
  revoke_device user_id peer_id s = revoke_answer (revoke st user_id peer_id s)

  unfoldable pub list_peers : String → Service S → List Peer
  list_peers user_id s = (st.peers_by_user user_id s.store).0
