-- ===== src/Peer/Persisting.antt =====
-- `Connect` of api/internal/peer/service.go over the Postgres store of api/internal/store/postgres.go.
mod Tests
use snow_radar.Common.{
  ℕ, String, ◌≡◌, ◌∙◌, refl, ap, Bool, true, none, some, List, ◌==◌, string_eq, Result, ok, err,
}
use snow_radar.Common.Dict.{lookup}
use snow_radar.Netalloc.{Prefix, prefix, pool_exhausted, allocate}
use snow_radar.Netalloc.Invariant.{IsValid}
use snow_radar.Netalloc.Leases.{leased, exhausted, allocate-Allocated}
use snow_radar.Store.{StoreError, other, Peer}
use snow_radar.Store.Postgres.{Postgres, postgres, save_peer}
use snow_radar.Store.Postgres.Gaps.{save_peer-host}
use snow_radar.Peer.{
  PeerError, allocate_failed, store_failed, bad_public_key, not_subscribed, node_unknown,
  too_many_peers, Service, Entry, choose, update, new_id, find_same, provision, connect,
}
use snow_radar.Peer.Provision.{new_peer}
use snow_radar.Peer.Connecting.{
  Connects, bad_key, unpaid, no_node, reuses, full, provisions, connect-Connects,
}

-- An error, and the rows as they were.
abbrev Refused : {A : Type 0} → Service Postgres → Service Postgres × Result PeerError A → Type 0
Refused s r = ((e : PeerError) × (r.1 ≡ err e)) × (r.0.store.tables ≡ s.store.tables)

module _ (user_id node_id key : String) (stealth : Bool) (random : List ℕ) (now : ℕ) (entry : Entry)
    (s : Service Postgres) (v : IsValid (choose stealth entry))
    (wide : (prefix (choose stealth entry)).bits ≡ 24) where
  provision-Refused : Refused s (provision postgres user_id node_id key stealth random now entry s)
  unfolding provision
  provision-Refused = elim (allocate-Allocated user_id (choose stealth entry) v) [
    | exhausted all e ↦ rw (provision, e) ((allocate_failed pool_exhausted, refl), refl)
    | leased lease e l ↦
        let (h, k, at) = l.in_pool in
        let (message, failed, same) =
          save_peer-host (new_peer user_id node_id key stealth random now lease)
            (prefix (choose stealth entry)) h s.store k wide
            (λ i. record { addr = at i; bits = l.bits i }) in
        rw (provision, e) (rw failed ((store_failed (other message), refl), same))
  ]

  -- Over the Postgres store, and whatever becomes of each of its statements, `Connect` for a device that
  -- is not found in the list of its user's peers (one that cannot be read counts as empty) ends in an
  -- error and leaves the rows as they were, if the allocator of the node is valid and its pool has 24
  -- bits.
  pub connect-postgres :
      lookup node_id s.allocators ≡ some entry
      → find_same node_id stealth key (postgres.peers_by_user user_id s.store).0 ≡ none
      → ((e : PeerError) × ((connect postgres user_id node_id key stealth random now s).1 ≡ err e))
        × ((connect postgres user_id node_id key stealth random now s).0.store.tables
            ≡ s.store.tables)
  connect-postgres at_node fresh =
      elim (connect-Connects postgres user_id node_id key stealth random now s) [
        | bad_key k e ↦ rw e ((bad_public_key, refl), refl)
        | unpaid k m e ↦ rw e ((not_subscribed, refl), refl)
        | no_node k m f e ↦ rw e ((node_unknown, refl), refl)
        | reuses k m other_entry f p found e ↦ cc
        | full k m other_entry f g l e ↦ rw e ((too_many_peers, refl), refl)
        | provisions k m other_entry f g l e ↦
            let is : other_entry ≡ entry = cc in rw (e, is) provision-Refused
      ]
