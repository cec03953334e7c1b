-- ===== src/Peer/Revoking.antt =====
-- `Revoke` of api/internal/peer/service.go over the memory store: who may revoke a peer, and what it gives back.
pub mod Courses
use snow_radar.Common.{
  String, ◌≡◌, ◌≢◌, ◌⊎◌, refl, ap, sym, ◌∙◌, false, Option, none, some, List, [], ◌∷◌, arith, ◌==◌,
  string_eq, eq_iff, if◌then◌else◌, Bool-cases, inl, inr, In, subst,
}
use snow_radar.Common.Dict.{lookup, insert, delete, lookup-insert}
use snow_radar.Netalloc.{prefix, Prefix, Allocator, release, addr_eq}
use snow_radar.Netalloc.Invariant.{IsValid, release-IsValid}
use snow_radar.Netalloc.Leases.{release_cases}
use snow_radar.Store.{StoreError, not_found, Peer}
use snow_radar.Store.Memory.{Memory, memory, peers_by_user, revoke_peer}
use snow_radar.Store.Memory.Peers.{In-peers_by_user, revoke_peer_cases, insert-IsKeyed}
use snow_radar.Peer.{Service, Entry, choose, update, find_id, release_lease, revoke, set_entry}
use snow_radar.Peer.Slots.{
  Slot, slot_eq, slot_beq_iff, slot_of, holder, holder-some, holder-release, AllGood-insert,
}
use snow_radar.Peer.Invariant.{IsActive, IsSound}
use snow_radar.Peer.Revoking.Courses.{Owns, without_peer, Revokes, refused, revoked, revoke-Revokes}

module _ (user_id peer_id : String) (s : Service Memory) (v : IsSound s) (p : Peer) (entry : Entry)
    (a : Allocator) (o : Owns user_id peer_id p s)
    (at_node : lookup p.node_id s.allocators ≡ some entry) (ok_a : IsValid a)
    (same_pool : prefix a ≡ prefix (choose p.stealth entry))
    (held : a.held ≡ delete p.address.addr (choose p.stealth entry).held) where
  after : Service Memory
  after = without_peer peer_id p a entry s

  -- An active peer after the call was active before, and is not the revoked one.
  kept-IsActive : (q : Peer) → IsActive q after → IsActive q s × (q.id ≢ p.id)
  unfolding after
  kept-IsActive q (h, active) = ground (
    arith,
    lookup-insert peer_id q.id (record p { active = false }) s.store.peers,
    eq_iff peer_id q.id,
    o.2,
  )

  holder-after :
      (t : Slot)
      → holder t after.allocators ≡ (if slot_of p == t then none else holder t s.allocators)
  unfolding after
  holder-after t =
      holder-release p.node_id p.stealth a entry s.allocators at_node p.address.addr t held

  after-leased :
      (q : Peer) → IsActive q after → holder (slot_of q) after.allocators ≡ some q.user_id
  after-leased q h =
      let (old, other) = kept-IsActive q h in
      elim (Bool-cases (slot_of p == slot_of q)) [
        | inl same ↦ absurd (
            other (
              ap (λ (x : Peer). x.id)
                (v.unique q p old o.0 (sym ((slot_beq_iff (slot_of p) (slot_of q)).0 same)))))
        | inr apart ↦ holder-after (slot_of q) ∙ rw apart (v.leased q old)
      ]

  after-IsSound : IsSound after
  unfolding after
  after-IsSound = record {
    keyed = insert-IsKeyed peer_id (record p { active = false }) s.store v.keyed o.2;
    good = AllGood-insert p.node_id p.stealth a entry s.allocators at_node ok_a same_pool v.good;
    leased = after-leased;
    unique = λ q r h k e. v.unique q r (kept-IsActive q h).0 (kept-IsActive r k).0 e;
  }

pub release-same_pool :
    (lease : Prefix) (user_id : String) (b : Allocator)
    → prefix (release lease user_id b).0 ≡ prefix b
release-same_pool lease user_id b = elim (release_cases lease user_id b) [
  | inl (_, e) ↦ rw e refl
  | inr (_, e) ↦ rw e refl
]

-- The allocator after a release is valid and hands out the same pool.
released-IsValid :
    (lease : Prefix) (user_id : String) (b a : Allocator)
    → IsValid b
    → release lease user_id b ≡ (a, none)
    → IsValid a × (prefix a ≡ prefix b)
released-IsValid lease user_id b a v e =
    let is : (release lease user_id b).0 ≡ a = ap (λ x. x.0) e in
    (
      subst IsValid is (release-IsValid lease user_id b v),
      ap prefix (sym is) ∙ release-same_pool lease user_id b,
    )

-- `Revoke`, successful or not, keeps leases and peers in agreement.
pub revoke-IsSound :
    (user_id peer_id : String) (s : Service Memory)
    → IsSound s
    → IsSound (revoke memory user_id peer_id s).0
unfolding after
revoke-IsSound user_id peer_id s v = elim (revoke-Revokes user_id peer_id s v) [
  | refused all r ↦ rw r v
  | revoked p entry a o at_node rel held r ↦
      let (ok_a, same_pool) =
        released-IsValid p.address user_id _ a (v.good p.node_id entry p.stealth at_node).valid
          rel in
      rw r (after-IsSound user_id peer_id s v p entry a o at_node ok_a same_pool held)
]

-- In a sound service, nobody can revoke a peer of another user: the answer is the one for a peer that does not exist,
-- and nothing changes.
pub revoke_foreign :
    (user_id peer_id : String) (s : Service Memory) (p : Peer)
    → IsSound s
    → lookup peer_id s.store.peers ≡ some p
    → p.user_id ≢ user_id
    → revoke memory user_id peer_id s ≡ (s, some not_found)
revoke_foreign user_id peer_id s p v h other = elim (revoke-Revokes user_id peer_id s v) [
  | refused all r ↦ r
  | revoked q entry a o at_node rel held r ↦
      let at_id : lookup peer_id s.store.peers ≡ some q =
        subst (λ id. lookup id s.store.peers ≡ some q) o.2 o.0.0 in
      let same : q ≡ p = cc in absurd (other (ap (λ (x : Peer). x.user_id) (sym same) ∙ o.1))
]

-- In a sound service, a user's own active peer is revoked: the call succeeds, the peer is active no more, its slot is free,
-- and every other slot is held by whom it was.
pub revoke_own :
    (user_id peer_id : String) (s : Service Memory) (p : Peer)
    → IsSound s
    → Owns user_id peer_id p s
    → ((revoke memory user_id peer_id s).1 ≡ none)
      × ((q : Peer) → IsActive q (revoke memory user_id peer_id s).0 → q.id ≢ peer_id)
      × ((t : Slot)
          → holder t (revoke memory user_id peer_id s).0.allocators
            ≡ (if slot_of p == t then none else holder t s.allocators))
unfolding after
revoke_own user_id peer_id s p v own = elim (revoke-Revokes user_id peer_id s v) [
  | refused all r ↦ absurd (all p own)
  | revoked q entry a o at_node rel held r ↦
      let at_p : lookup q.id s.store.peers ≡ some p =
        subst (λ id. lookup id s.store.peers ≡ some p) (own.2 ∙ sym o.2) own.0.0 in
      let at_q : lookup q.id s.store.peers ≡ some q = o.0.0 in
      let same : q ≡ p = cc in
      let (ok_a, same_pool) =
        released-IsValid q.address user_id _ a (v.good q.node_id entry q.stealth at_node).valid
          rel in
      rw r (
        refl,
        λ t k e.
            (kept-IsActive user_id peer_id s v q entry a o at_node ok_a same_pool held t k).1
              (e ∙ sym o.2),
        λ t.
            holder-after user_id peer_id s v q entry a o at_node ok_a same_pool held t
            ∙ ap (λ x. if slot_of x == t then none else holder t s.allocators) same,
      )
]
