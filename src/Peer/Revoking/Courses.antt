-- ===== src/Peer/Revoking/Courses.antt =====
-- The two courses of `Revoke` of api/internal/peer/service.go over the memory store.
use snow_radar.Common.{
  String, ◌≡◌, ◌≢◌, ◌⊎◌, refl, ap, ◌∙◌, false, Option, none, some, List, [], ◌∷◌, arith, ◌==◌,
  string_eq, eq_iff, Bool-cases, inl, inr, In, subst,
}
use snow_radar.Common.Dict.{lookup, insert, delete}
use snow_radar.Netalloc.{Allocator, release, addr_eq}
use snow_radar.Netalloc.Leases.{release_cases}
use snow_radar.Store.{StoreError, not_found, Peer}
use snow_radar.Store.Memory.{Memory, memory, peers_by_user, revoke_peer}
use snow_radar.Store.Memory.Peers.{In-peers_by_user, revoke_peer_cases}
use snow_radar.Peer.{Service, Entry, choose, update, find_id, release_lease, revoke, set_entry}
use snow_radar.Peer.Slots.{slot_eq, slot_of, holder-some}
use snow_radar.Peer.Invariant.{IsActive, IsSound}

find_id_cases :
    (peer_id : String) (ps : List Peer)
    → ((p : Peer) × (find_id peer_id ps ≡ some p) × In p ps × (p.id ≡ peer_id))
      ⊎ ((find_id peer_id ps ≡ none) × ((p : Peer) → In p ps → p.id ≢ peer_id))
unfolding find_id
find_id_cases peer_id [] = inr (refl, λ p m. absurd m)
find_id_cases peer_id (q ∷ ps) = elim (Bool-cases (q.id == peer_id)) [
  | inl same ↦ inl (q, rw same, inl refl, (eq_iff q.id peer_id).0 same)
  | inr other ↦ elim (find_id_cases peer_id ps) [
    | inl (p, e, m, i) ↦ inl (p, rw other e, inr m, i)
    | inr (e, all) ↦ inr (
      rw other e,
      λ p m. elim m [
        | inl is ↦ λ i. ground (arith, eq_iff q.id peer_id, ap (λ (x : Peer). x.id) is)
        | inr later ↦ all p later
      ],
    )
  ]
]

-- The user's own active peer, by its id.
abbrev pub Owns : String → String → Peer → Service Memory → Type 0
Owns user_id peer_id p s = IsActive p s × (p.user_id ≡ user_id) × (p.id ≡ peer_id)

-- The service after the revocation of a peer whose lease went back to allocator `a`.
abbrev pub without_peer : String → Peer → Allocator → Entry → Service Memory → Service Memory
without_peer peer_id p a entry s = record s {
  store = record s.store { peers = insert peer_id (record p { active = false }) s.store.peers };
  allocators = insert p.node_id (update p.stealth a entry) s.allocators;
}

pub data Revokes (user_id peer_id : String) (s : Service Memory)
    (r : Service Memory × Option StoreError) : Type 0 where
  refused :
      ((p : Peer) → ¬ Owns user_id peer_id p s)
      → r ≡ (s, some not_found)
      → Revokes user_id peer_id s r
  revoked :
      (p : Peer) (entry : Entry) (a : Allocator)
      → Owns user_id peer_id p s
      → lookup p.node_id s.allocators ≡ some entry
      → release p.address user_id (choose p.stealth entry) ≡ (a, none)
      → a.held ≡ delete p.address.addr (choose p.stealth entry).held
      → r ≡ (without_peer peer_id p a entry s, none)
      → Revokes user_id peer_id s r

release_lease_lem :
    (p : Peer) (user_id : String) (s : Service Memory) (entry : Entry) (a : Allocator)
    → lookup p.node_id s.allocators ≡ some entry
    → (release p.address user_id (choose p.stealth entry)).0 ≡ a
    → release_lease p user_id s ≡ set_entry p.node_id p.stealth a entry s
unfolding release_lease
release_lease_lem p user_id s entry a at_node rel = rw (at_node, release_lease) (rw rel)

revoke_found :
    (user_id peer_id : String) (s : Service Memory) (p : Peer) (entry : Entry) (a : Allocator)
    → find_id peer_id (peers_by_user user_id s.store).0 ≡ some p
    → release_lease p user_id s ≡ set_entry p.node_id p.stealth a entry s
    → revoke_peer peer_id user_id s.store ≡ (
      record s.store { peers = insert peer_id (record p { active = false }) s.store.peers },
      none,
    )
    → revoke memory user_id peer_id s ≡ (without_peer peer_id p a entry s, none)
unfolding revoke peers_by_user
revoke_found user_id peer_id s p entry a e rel rev = rw (e, revoke) (rw rel (rw rev))

revoke_missing :
    (user_id peer_id : String) (s : Service Memory)
    → find_id peer_id (peers_by_user user_id s.store).0 ≡ none
    → revoke memory user_id peer_id s ≡ (s, some not_found)
unfolding revoke peers_by_user
revoke_missing user_id peer_id s e = rw (e, revoke)

-- In a sound service, `Revoke` either finds no active peer of the user under that id, answers
-- ErrNotFound and changes nothing; or it deactivates that peer and releases its address.
pub revoke-Revokes :
    (user_id peer_id : String) (s : Service Memory)
    → IsSound s
    → Revokes user_id peer_id s (revoke memory user_id peer_id s)
revoke-Revokes user_id peer_id s v =
    elim (find_id_cases peer_id (peers_by_user user_id s.store).0) [
      | inr (e, all) ↦
          refused
            (λ p o. all p ((In-peers_by_user user_id p s.store v.keyed).1 (o.0.0, o.1, o.0.1)) o.2)
            (revoke_missing user_id peer_id s e)
      | inl (p, e, m, i) ↦
          let (at_id, own, active) = (In-peers_by_user user_id p s.store v.keyed).0 m in
          let (entry, at_node, held) =
            holder-some (slot_of p) p.user_id s.allocators (v.leased p (at_id, active)) in
          let at_peer : lookup peer_id s.store.peers ≡ some p =
            subst (λ id. lookup id s.store.peers ≡ some p) i at_id in
          elim (release_cases p.address user_id (choose p.stealth entry)) [
            | inr (n, _) ↦ absurd (n (held ∙ ap (λ (x : String). some x) own))
            | inl (_, rel) ↦ elim (revoke_peer_cases peer_id user_id s.store) [
              | inr (n, _) ↦ absurd (n p at_peer own)
              | inl (q, at_q, _, rev) ↦
                  let same : q ≡ p = cc in
                  revoked p entry _ ((at_id, active), own, i) at_node rel refl
                    (revoke_found user_id peer_id s p entry _ e
                      (release_lease_lem p user_id s entry _ at_node (ap (λ r. r.0) rel))
                      (subst
                        (λ x. revoke_peer peer_id user_id s.store ≡ (
                          record s.store {
                            peers = insert peer_id (record x { active = false }) s.store.peers;
                          },
                          none,
                        ))
                        same rev))
            ]
          ]
    ]
