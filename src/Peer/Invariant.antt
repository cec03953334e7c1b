-- ===== src/Peer/Invariant.antt =====
-- The agreement of leases and peers in api/internal/peer/service.go over the memory store, and what
-- `Connect` does to it.
use snow_radar.Common.{
  ℕ, String, ◌≡◌, ◌≢◌, ◌⊎◌, refl, ap, sym, ◌∙◌, Bool, true, none, some, List, arith, ◌==◌,
  string_eq, eq_iff, if◌then◌else◌, inl, inr,
}
use snow_radar.Common.Dict.{lookup, lookup-insert}
use snow_radar.Netalloc.{Prefix, Allocator}
use snow_radar.Netalloc.Invariant.{IsValid}
use snow_radar.Netalloc.Leases.{Leases}
use snow_radar.Store.{Peer}
use snow_radar.Store.Memory.{Memory, memory, save_peer}
use snow_radar.Store.Memory.Peers.{IsKeyed, save_peer-IsKeyed}
use snow_radar.Peer.{Service, Entry, choose, new_id, provision, connect}
use snow_radar.Peer.Slots.{
  Slot, slot_eq, slot_beq_iff, slot_of, holder, holder-lease, holder-at, AllGood, AllGood-insert,
}
use snow_radar.Peer.Provision.{new_peer, with_peer, no_address, added, provision-Provisioned}
use snow_radar.Peer.Connecting.{
  bad_key, unpaid, no_node, reuses, full, provisions, connect-Connects,
}

-- The store keeps the peer, active.
abbrev pub IsActive : Peer → Service Memory → Type 0
IsActive p s = (lookup p.id s.store.peers ≡ some p) × (p.active ≡ true)

pub record IsSound (s : Service Memory) : Type 0 where
  pub keyed : IsKeyed s.store
  pub good : AllGood s.allocators
  pub leased : (p : Peer) → IsActive p s → holder (slot_of p) s.allocators ≡ some p.user_id
  pub unique : (p q : Peer) → IsActive p s → IsActive q s → slot_of p ≡ slot_of q → p ≡ q

module _ (user_id node_id key : String) (stealth : Bool) (random : List ℕ) (now : ℕ)
    (s : Service Memory) (v : IsSound s) (fresh : lookup (new_id random) s.store.peers ≡ none)
    (entry : Entry) (at_node : lookup node_id s.allocators ≡ some entry) (a : Allocator)
    (lease : Prefix) (ok_a : IsValid a) (l : Leases user_id (choose stealth entry) a lease) where
  made : Peer
  made = new_peer user_id node_id key stealth random now lease

  after : Service Memory
  after = with_peer user_id node_id key stealth random now lease a entry s

  -- An active peer after the call is the new one, or was active before.
  new_or_old : (q : Peer) → IsActive q after → (q ≡ made) ⊎ IsActive q s
  unfolding after made save_peer
  new_or_old q (h, active) =
      ground (arith, lookup-insert made.id q.id made s.store.peers, eq_iff made.id q.id)

  -- The new lease was held by nobody.
  slot_free : holder (slot_of made) s.allocators ≡ none
  unfolding made
  slot_free = holder-at node_id stealth a entry s.allocators at_node _ refl refl ∙ l.was_free

  holder-after :
      (t : Slot)
      → holder t after.allocators
        ≡ (if slot_of made == t then some user_id else holder t s.allocators)
  unfolding after made
  holder-after t =
      holder-lease node_id stealth a entry s.allocators at_node lease.addr user_id t l.now_held

  after-leased :
      (q : Peer) → IsActive q after → holder (slot_of q) after.allocators ≡ some q.user_id
  unfolding made
  after-leased q h = elim (new_or_old q h) [
    | inl new ↦
        ground
          (arith, holder-after (slot_of q), slot_beq_iff (slot_of made) (slot_of q), ap slot_of new)
    | inr old ↦ ground (
      arith,
      holder-after (slot_of q),
      slot_beq_iff (slot_of made) (slot_of q),
      v.leased q old,
      slot_free,
    )
  ]

  -- A peer that was active does not have the new slot.
  old_slot : (q : Peer) → IsActive q s → slot_of made ≢ slot_of q
  unfolding made
  old_slot q h e = cc (ap (λ t. holder t s.allocators) e, slot_free, v.leased q h)

  after_unique : (q r : Peer) → IsActive q after → IsActive r after → slot_of q ≡ slot_of r → q ≡ r
  after_unique q r h k e = elim (new_or_old q h) [
    | inl new ↦ elim (new_or_old r k) [
      | inl also ↦ new ∙ sym also
      | inr old ↦ absurd (old_slot r old (ap slot_of (sym new) ∙ e))
    ]
    | inr old ↦ elim (new_or_old r k) [
      | inl new ↦ absurd (old_slot q old (ap slot_of (sym new) ∙ sym e))
      | inr also ↦ v.unique q r old also e
    ]
  ]

  with_peer-IsSound : IsSound after
  unfolding after made
  with_peer-IsSound = record {
    keyed = save_peer-IsKeyed made s.store v.keyed;
    good = AllGood-insert node_id stealth a entry s.allocators at_node ok_a l.same_pool v.good;
    leased = after-leased;
    unique = after_unique;
  }

provision-IsSound :
    (user_id node_id key : String) (stealth : Bool) (random : List ℕ) (now : ℕ) (s : Service Memory)
    (entry : Entry)
    → IsSound s
    → lookup (new_id random) s.store.peers ≡ none
    → lookup node_id s.allocators ≡ some entry
    → IsSound (provision memory user_id node_id key stealth random now entry s).0
unfolding after
provision-IsSound user_id node_id key stealth random now s entry v fresh at_node =
    elim (provision-Provisioned user_id node_id key stealth random now entry s at_node
      (v.good node_id entry stealth at_node).valid) [
        | no_address all r ↦ rw r v
        | added a lease ok_a l r ↦ rw r (
            with_peer-IsSound user_id node_id key stealth random now s v fresh entry at_node a lease
              ok_a l)
      ]

-- `Connect`, successful or not, keeps leases and peers in agreement, if the id that it draws for a
-- new peer is not in use.
pub connect-IsSound :
    (user_id node_id key : String) (stealth : Bool) (random : List ℕ) (now : ℕ) (s : Service Memory)
    → IsSound s
    → lookup (new_id random) s.store.peers ≡ none
    → IsSound (connect memory user_id node_id key stealth random now s).0
connect-IsSound user_id node_id key stealth random now s v fresh =
    elim (connect-Connects memory user_id node_id key stealth random now s) [
      | bad_key _ r ↦ rw r v
      | unpaid _ _ r ↦ rw r v
      | no_node _ _ _ r ↦ rw r v
      | reuses _ _ _ _ _ _ r ↦ rw r v
      | full _ _ _ _ _ _ r ↦ rw r v
      | provisions _ _ entry at_node _ _ r ↦
          rw r (provision-IsSound user_id node_id key stealth random now s entry v fresh at_node)
    ]
