-- ===== src/Peer/Provision.antt =====
-- The end of `Connect` of api/internal/peer/service.go, from `Allocate` on, over the memory store, which never fails to save a peer.
use snow_radar.Common.{ℕ, String, ◌≡◌, refl, Bool, true, some, List, string_eq, Result, ok, err}
use snow_radar.Common.Dict.{lookup, insert}
use snow_radar.Netalloc.{Prefix, Allocator, pool_exhausted, allocate}
use snow_radar.Netalloc.Search.{IsHost, IsTaken}
use snow_radar.Netalloc.Invariant.{IsValid, allocate-IsValid}
use snow_radar.Netalloc.Leases.{Leases, leased, exhausted, allocate-Allocated}
use snow_radar.Store.{Peer}
use snow_radar.Store.Memory.{Memory, memory, save_peer}
use snow_radar.Peer.{
  PeerError, allocate_failed, Service, Entry, choose, update, new_id, render_client_config,
  provision,
}
use snow_radar.Peer.Slots.{insert-unchanged}

module _ (user_id node_id key : String) (stealth : Bool) (random : List ℕ) (now : ℕ) where
  -- The peer that `Connect` makes for a lease.
  abbrev pub new_peer : Prefix → Peer
  new_peer lease = record {
    id = new_id random;
    user_id = user_id;
    node_id = node_id;
    stealth = stealth;
    address = lease;
    public_key = key;
    created_at = now;
    active = true;
  }

  -- The service once the peer is saved and its lease is taken from allocator `a`.
  abbrev pub with_peer : Prefix → Allocator → Entry → Service Memory → Service Memory
  with_peer lease a entry s = record s {
    store = (save_peer (new_peer lease) s.store).0;
    allocators = insert node_id (update stealth a entry) s.allocators;
  }

  pub data Provisioned (entry : Entry) (s : Service Memory)
      (r : Service Memory × Result PeerError (Peer × String)) : Type 0 where
    no_address :
        ((h : ℕ) → IsHost h → IsTaken (choose stealth entry) h)
        → r ≡ (s, err (allocate_failed pool_exhausted))
        → Provisioned entry s r
    added :
        (a : Allocator) (lease : Prefix)
        → IsValid a
        → Leases user_id (choose stealth entry) a lease
        → r ≡ (
          with_peer lease a entry s,
          ok (new_peer lease, render_client_config s (new_peer lease)),
        )
        → Provisioned entry s r

  pub provision-Provisioned :
      (entry : Entry) (s : Service Memory)
      → lookup node_id s.allocators ≡ some entry
      → IsValid (choose stealth entry)
      → Provisioned entry s (provision memory user_id node_id key stealth random now entry s)
  unfolding provision save_peer
  provision-Provisioned entry s at_node v =
      elim (allocate-Allocated user_id (choose stealth entry) v) [
        | exhausted all e ↦ no_address all (
            rw (e, provision) (rw (e, insert-unchanged node_id stealth entry s.allocators at_node)))
        | leased lease e l ↦
            added (allocate user_id (choose stealth entry)).0 lease (allocate-IsValid user_id _ v) l
              (rw (e, provision) refl)
      ]
