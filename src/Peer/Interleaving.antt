-- ===== src/Peer/Interleaving.antt =====
-- Connect and Revoke of api/internal/peer/service.go as calls that run at the same time: the allocators and
-- the store are each behind a mutex, and between two of their calls the others may run. A call is at
-- one of its points, and a step takes it to the next one.
pub mod Alone
pub mod Allocators
mod Tests
use snow_radar.Common.{
  ℕ, zero, suc, String, Bool, true, false, not, Option, none, some, List, [], ◌∷◌, Result, ok, err,
  if◌then◌else◌, leb, length, string_eq,
}
use snow_radar.Common.Dict.{lookup}
use snow_radar.Netalloc.{Prefix, AllocError, allocate, release}
use snow_radar.Store.{StoreError, not_found, Peer, Store}
use snow_radar.Peer.{
  PeerError, bad_public_key, not_subscribed, node_unknown, too_many_peers, allocate_failed,
  store_failed, max_peers_per_user, Service, Entry, choose, new_id, find_same, find_id,
  is_public_key, may_connect, render_client_config, set_entry, release_lease,
}

pub record Device : Type 0 where
  pub user_id : String
  pub node_id : String
  pub key : String
  pub stealth : Bool
  pub random : List ℕ
  pub now : ℕ

pub data Call : Type 0 where
  -- Connect before it reads the subscription, before it reads the peers, before Allocate, before
  -- SavePeer, before the Release after a failure, and at its end
  asking counting leasing : Device → Call
  saving : Device → Prefix → Call
  undoing : Device → Prefix → StoreError → Call
  connected : Result PeerError (Peer × String) → Call
  -- Revoke before it reads the peers, before Release, before RevokePeer, and at its end
  looking : (user_id peer_id : String) → Call
  releasing : (user_id peer_id : String) → Peer → Call
  marking : (user_id peer_id : String) → Call
  revoked : Option StoreError → Call

-- The peer that Connect makes for a lease.
abbrev pub device_peer : Device → Prefix → Peer
device_peer d lease = record {
  id = new_id d.random;
  user_id = d.user_id;
  node_id = d.node_id;
  stealth = d.stealth;
  address = lease;
  public_key = d.key;
  created_at = d.now;
  active = true;
}

pub after_allocate : Device → Result AllocError Prefix → Call
after_allocate d (err e) = connected (err (allocate_failed e))
after_allocate d (ok lease) = saving d lease

pub after_save : {S : Type 0} → Device → Prefix → Service S → Option StoreError → Call
after_save d lease s none =
    connected (ok (device_peer d lease, render_client_config s (device_peer d lease)))
after_save d lease s (some failure) = undoing d lease failure

pub after_looking : (user_id peer_id : String) → List Peer × Option StoreError → Call
after_looking user_id peer_id (peers, some failure) = revoked (some failure)
after_looking user_id peer_id (peers, none) = elim (find_id peer_id peers) [
  | none ↦ revoked (some not_found)
  | some target ↦ releasing user_id peer_id target
]

module _ {S : Type 0} (st : Store S) where
  unfoldable pub step : Call → Service S → Service S × Call
  unfolding after_allocate after_save after_looking
  step (asking d) s =
      if not (is_public_key d.key)
      then (s, connected (err bad_public_key))
      else if not (may_connect (st.get_subscription d.user_id s.store))
      then (s, connected (err not_subscribed))
      else (s, counting d)
  step (counting d) s = elim (lookup d.node_id s.allocators) [
    | none ↦ (s, connected (err node_unknown))
    | some entry ↦
        let existing = (st.peers_by_user d.user_id s.store).0 in
        elim (find_same d.node_id d.stealth d.key existing) [
          | some p ↦ (s, connected (ok (p, render_client_config s p)))
          | none ↦
              if leb max_peers_per_user (length existing)
              then (s, connected (err too_many_peers))
              else (s, leasing d)
        ]
  ]
  step (leasing d) s = elim (lookup d.node_id s.allocators) [
    | none ↦ (s, connected (err node_unknown))
    | some entry ↦
        let (a, r) = allocate d.user_id (choose d.stealth entry) in
        (set_entry d.node_id d.stealth a entry s, after_allocate d r)
  ]
  step (saving d lease) s =
      let (store', e) = st.save_peer (device_peer d lease) s.store in
      (record s { store = store' }, after_save d lease s e)
  step (undoing d lease failure) s = elim (lookup d.node_id s.allocators) [
    | none ↦ (s, connected (err (store_failed failure)))
    | some entry ↦ (
      set_entry d.node_id d.stealth (release lease d.user_id (choose d.stealth entry)).0 entry s,
      connected (err (store_failed failure)),
    )
  ]
  step (connected r) s = (s, connected r)
  step (looking user_id peer_id) s =
      (s, after_looking user_id peer_id (st.peers_by_user user_id s.store))
  step (releasing user_id peer_id target) s =
      (release_lease target user_id s, marking user_id peer_id)
  step (marking user_id peer_id) s =
      let (store', e) = st.revoke_peer peer_id user_id s.store in
      (record s { store = store' }, revoked e)
  step (revoked e) s = (s, revoked e)

  -- One call, with nothing between its steps.
  unfoldable pub alone : ℕ → Call → Service S → Service S × Call
  alone zero c s = (s, c)
  alone (suc n) c s = let r = step c s in alone n r.1 r.0

  -- The calls that are under way, and whose turn it is: the call of that number, if there is one,
  -- takes a step.
  unfoldable pub turn : ℕ → List Call → Service S → Service S × List Call
  unfolding step
  turn n [] s = (s, [])
  turn zero (c ∷ cs) s = let r = step c s in (r.0, r.1 ∷ cs)
  turn (suc n) (c ∷ cs) s = let r = turn n cs s in (r.0, c ∷ r.1)

  unfoldable pub interleave : List ℕ → List Call → Service S → Service S × List Call
  interleave [] cs s = (s, cs)
  interleave (n ∷ ns) cs s = let r = turn n cs s in interleave ns r.1 r.0
