-- ===== src/Peer.antt =====
-- api/internal/peer/service.go: the life of a device. `Connect` leases an address, keeps the peer and
-- renders the client's configuration; `Revoke` undoes that. The store is any `Store`; random bytes
-- and the clock are arguments. The allocators are shared by pointer in the source: the service holds
-- the only ones, so a call gives the service with the allocator that it changed.
pub mod Slots
pub mod Provision
pub mod Connecting
pub mod Persisting
pub mod Interleaving
pub mod Revoking
pub mod Limit
pub mod Repeating
pub mod Histories
pub mod Invariant
mod Tests
use snow_radar.Common.{
  ℕ, suc, String, Bool, true, false, not, ◌&&◌, ◌||◌, Option, none, some, List, [], ◌∷◌, Result, ok,
  err, ◌==◌, string_eq, bool_eq, nat_beq, leb, if◌then◌else◌, length,
}
use snow_radar.Common.Dict.{Dict, lookup, insert}
use snow_radar.Common.Texts.{concat, decimal}
use snow_radar.Codec.{encode_to_string, decode_string, std_encoding, raw_url_encoding}
use snow_radar.Netalloc.{Addr, Prefix, Allocator, AllocError, allocate, release, new}
use snow_radar.Store.{StoreError, not_found, Peer, Subscription, Store}

pub data PeerError : Type 0 where
  node_unknown not_subscribed too_many_peers bad_public_key : PeerError
  -- `fmt.Errorf("peer: allocate: %w", err)`
  allocate_failed : AllocError → PeerError
  -- an error of the store, passed on
  store_failed : StoreError → PeerError

abbrev pub max_peers_per_user : ℕ
max_peers_per_user = 3

pub record Entry : Type 0 where
  pub wg : Allocator
  pub awg : Allocator

pub record Service (S : Type 0) : Type 0 where
  pub store : S
  pub allocators : Dict String Entry
  pub server_pub_keys : Dict String String
  pub endpoints : Dict String (Dict Bool String)

-- The allocator of a protocol.
abbrev pub choose : Bool → Entry → Allocator
choose stealth entry = if stealth then entry.awg else entry.wg

abbrev pub update : Bool → Allocator → Entry → Entry
update true a entry = record entry { awg = a }
update false a entry = record entry { wg = a }

-- `netip.Prefix.String`
unfoldable pub prefix_string : Prefix → String
prefix_string p = concat (
    decimal p.addr.a
    ∷ "."
    ∷ decimal p.addr.b
    ∷ "."
    ∷ decimal p.addr.c
    ∷ "."
    ∷ decimal p.addr.d
    ∷ "/"
    ∷ decimal p.bits
    ∷ [])

-- A read of a missing key gives the empty text.
abbrev pub text_of : Option String → String
text_of none = ""
text_of (some s) = s

unfoldable pub endpoint : String → Bool → Dict String (Dict Bool String) → String
endpoint node_id stealth m = elim (lookup node_id m) [
  | none ↦ ""
  | some by_protocol ↦ text_of (lookup stealth by_protocol)
]

unfoldable pub new_id : List ℕ → String
new_id random = encode_to_string raw_url_encoding random

-- The search of `Connect` among the user's peers.
unfoldable pub find_same : String → Bool → String → List Peer → Option Peer
find_same node_id stealth key [] = none
find_same node_id stealth key (p ∷ ps) =
    if p.node_id == node_id && (p.stealth == stealth && p.public_key == key)
    then some p
    else find_same node_id stealth key ps

-- The search of `Revoke`.
unfoldable pub find_id : String → List Peer → Option Peer
find_id peer_id [] = none
find_id peer_id (p ∷ ps) = if p.id == peer_id then some p else find_id peer_id ps

-- `err != nil || len(pubBytes) != 32`, negated
unfoldable pub is_public_key : String → Bool
is_public_key key = elim (decode_string std_encoding key) [
  | none ↦ false
  | some bytes ↦ nat_beq (length bytes) 32
]

unfoldable pub may_connect : Result StoreError Subscription → Bool
may_connect (err e) = false
may_connect (ok sub) = sub.state == "active" || sub.state == "trialing"

module _ {S : Type 0} where
  unfoldable pub render_client_config : Service S → Peer → String
  render_client_config s p = concat (
      "[Interface]\nAddress = "
      ∷ prefix_string p.address
      ∷ "\nDNS = 1.1.1.1, 1.0.0.1\n\n[Peer]\nPublicKey = "
      ∷ text_of (lookup p.node_id s.server_pub_keys)
      ∷ "\nEndpoint = "
      ∷ endpoint p.node_id p.stealth s.endpoints
      ∷ "\nAllowedIPs = 0.0.0.0/0\nPersistentKeepalive = 25\n"
      ∷ [])

  abbrev pub set_entry : String → Bool → Allocator → Entry → Service S → Service S
  set_entry node_id stealth a entry s = record s {
    allocators = insert node_id (update stealth a entry) s.allocators;
  }

  -- The loop of `NewService`.
  unfoldable pub add_nodes : List String → Service S → Result AllocError (Service S)
  add_nodes [] s = ok s
  add_nodes (node_id ∷ rest) s = elim (lookup node_id s.server_pub_keys) [
    | none ↦ add_nodes rest s
    | some key ↦ elim (new node_id false) [
      | err e ↦ err e
      | ok wg ↦ elim (new node_id true) [
        | err e ↦ err e
        | ok awg ↦
            add_nodes rest (record s {
              allocators = insert node_id (record { wg = wg; awg = awg }) s.allocators;
            })
      ]
    ]
  ]

  unfoldable pub new_service :
      S → Dict String String → Dict String (Dict Bool String) → Result AllocError (Service S)
  unfolding add_nodes
  new_service st keys endpoints =
      add_nodes ("sgp" ∷ "fsn" ∷ [])
        (record { store = st; allocators = []; server_pub_keys = keys; endpoints = endpoints })

  -- `Revoke`: the release of the target's address, if its node has allocators.
  pub release_lease : Peer → String → Service S → Service S
  release_lease target user_id s = elim (lookup target.node_id s.allocators) [
    | none ↦ s
    | some entry ↦
        set_entry target.node_id target.stealth
          (release target.address user_id (choose target.stealth entry)).0 entry s
  ]

module _ {S : Type 0} (st : Store S) where
  -- `Connect` from the call of `Allocate` on.
  pub provision :
      (user_id node_id key : String) (stealth : Bool) (random : List ℕ) (now : ℕ)
      → Entry
      → Service S
      → Service S × Result PeerError (Peer × String)
  provision user_id node_id key stealth random now entry s =
      let (a, r) = allocate user_id (choose stealth entry) in
      elim r [
        | err e ↦ (set_entry node_id stealth a entry s, err (allocate_failed e))
        | ok addr ↦
            let p : Peer = record {
              id = new_id random;
              user_id = user_id;
              node_id = node_id;
              stealth = stealth;
              address = addr;
              public_key = key;
              created_at = now;
              active = true;
            } in
            let (store', e) = st.save_peer p s.store in
            elim e [
              | some failure ↦ (
                record (set_entry node_id stealth (release addr user_id a).0 entry s) {
                  store = store';
                },
                err (store_failed failure),
              )
              | none ↦ (
                record (set_entry node_id stealth a entry s) { store = store' },
                ok (p, render_client_config s p),
              )
            ]
      ]

  unfoldable pub connect :
      (user_id node_id key : String) (stealth : Bool) (random : List ℕ) (now : ℕ)
      → Service S
      → Service S × Result PeerError (Peer × String)
  unfolding provision
  connect user_id node_id key stealth random now s =
      if not (is_public_key key)
      then (s, err bad_public_key)
      else if not (may_connect (st.get_subscription user_id s.store))
      then (s, err not_subscribed)
      else elim (lookup node_id s.allocators) [
        | none ↦ (s, err node_unknown)
        | some entry ↦
            let existing = (st.peers_by_user user_id s.store).0 in
            elim (find_same node_id stealth key existing) [
              | some p ↦ (s, ok (p, render_client_config s p))
              | none ↦
                  if leb max_peers_per_user (length existing)
                  then (s, err too_many_peers)
                  else provision user_id node_id key stealth random now entry s
            ]
      ]

  unfoldable pub revoke : String → String → Service S → Service S × Option StoreError
  unfolding release_lease
  revoke user_id peer_id s =
      let (peers, e) = st.peers_by_user user_id s.store in
      elim e [
        | some failure ↦ (s, some failure)
        | none ↦ elim (find_id peer_id peers) [
          | none ↦ (s, some not_found)
          | some target ↦
              let s' = release_lease target user_id s in
              let (store', e') = st.revoke_peer peer_id user_id s'.store in
              (record s' { store = store' }, e')
        ]
      ]
