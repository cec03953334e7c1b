-- ===== src/Peer/Limit.antt =====
-- The device limit of api/internal/peer/service.go.
use snow_radar.Common.{
  subst, ℕ, ◌+◌, ◌≤◌, ◌<◌, String, ◌≡◌, ◌≢◌, refl, ap, Bool, false, ◌&&◌, none, some, List, [], ◌∷◌,
  ◌++◌, arith, ◌==◌, string_eq, eq_iff, if◌then◌else◌, length,
}
use native.Mathlib.Nat.{le_trans}
use snow_radar.Common.Dict.{Dict, lookup, insert, values, values-insert_new}
use snow_radar.Store.{Peer}
use snow_radar.Store.Memory.{Memory, memory, active_of, peers_by_user, save_peer}
use snow_radar.Peer.{Service, new_id, provision, connect, revoke, Entry}
use snow_radar.Peer.Provision.{new_peer, no_address, added, provision-Provisioned}
use snow_radar.Peer.Connecting.{
  bad_key, unpaid, no_node, reuses, full, provisions, connect-Connects,
}
use snow_radar.Peer.Invariant.{IsSound}
use snow_radar.Peer.Revoking.Courses.{refused, revoked, revoke-Revokes}

abbrev pub WithinLimit : Memory → Type 0
WithinLimit m = (user_id : String) → length (peers_by_user user_id m).0 ≤ 3

length-active_of-append :
    (user_id : String) (ps : List Peer) (p : Peer)
    → length (active_of user_id (ps ++ p ∷ []))
      ≡ length (active_of user_id ps) + (if p.user_id == user_id && p.active then 1 else 0)
unfolding active_of
length-active_of-append user_id [] p = ground arith
length-active_of-append user_id (q ∷ ps) p = ground (arith, length-active_of-append user_id ps p)

length-active_of-inactive :
    (user_id peer_id : String) (p : Peer) (m : Dict String Peer)
    → p.active ≡ false
    → lookup peer_id m ≢ none
    → length (active_of user_id (values (insert peer_id p m)))
      ≤ length (active_of user_id (values m))
unfolding active_of lookup insert
length-active_of-inactive user_id peer_id p [] off there = absurd (there refl)
length-active_of-inactive user_id peer_id p ((k, q) ∷ m) off there =
    ground (arith, length-active_of-inactive user_id peer_id p m)

save_peer-WithinLimit :
    (p : Peer) (m : Memory)
    → lookup p.id m.peers ≡ none
    → length (peers_by_user p.user_id m).0 < 3
    → WithinLimit m
    → WithinLimit (save_peer p m).0
unfolding peers_by_user save_peer
save_peer-WithinLimit p m fresh room v user_id = rw (values-insert_new p.id p m.peers fresh) (
    ground (
      arith,
      length-active_of-append user_id (values m.peers) p,
      v user_id,
      eq_iff p.user_id user_id,
      λ (e : p.user_id ≡ user_id). ap (λ u. length (active_of u (values m.peers))) e,
    ))

provision-WithinLimit :
    (user_id node_id key : String) (stealth : Bool) (random : List ℕ) (now : ℕ) (s : Service Memory)
    (entry : Entry)
    → IsSound s
    → lookup (new_id random) s.store.peers ≡ none
    → lookup node_id s.allocators ≡ some entry
    → length (peers_by_user user_id s.store).0 < 3
    → WithinLimit s.store
    → WithinLimit (provision memory user_id node_id key stealth random now entry s).0.store
provision-WithinLimit user_id node_id key stealth random now s entry v fresh at_node room w =
    elim (provision-Provisioned user_id node_id key stealth random now entry s at_node
      (v.good node_id entry stealth at_node).valid) [
        | no_address all r ↦ rw r w
        | added a lease ok_a l r ↦ rw r (
            save_peer-WithinLimit (new_peer user_id node_id key stealth random now lease) s.store
              fresh room w)
      ]

-- `Connect` keeps every user within the limit.
pub connect-WithinLimit :
    (user_id node_id key : String) (stealth : Bool) (random : List ℕ) (now : ℕ) (s : Service Memory)
    → IsSound s
    → lookup (new_id random) s.store.peers ≡ none
    → WithinLimit s.store
    → WithinLimit (connect memory user_id node_id key stealth random now s).0.store
connect-WithinLimit user_id node_id key stealth random now s v fresh w =
    elim (connect-Connects memory user_id node_id key stealth random now s) [
      | bad_key _ r ↦ rw r w
      | unpaid _ _ r ↦ rw r w
      | no_node _ _ _ r ↦ rw r w
      | reuses _ _ _ _ _ _ r ↦ rw r w
      | full _ _ _ _ _ _ r ↦ rw r w
      | provisions _ _ entry at_node _ room r ↦ rw r (
          provision-WithinLimit user_id node_id key stealth random now s entry v fresh at_node room
            w)
    ]

-- So does `Revoke`.
pub revoke-WithinLimit :
    (user_id peer_id : String) (s : Service Memory)
    → IsSound s
    → WithinLimit s.store
    → WithinLimit (revoke memory user_id peer_id s).0.store
unfolding peers_by_user
revoke-WithinLimit user_id peer_id s v w u = elim (revoke-Revokes user_id peer_id s v) [
  | refused all r ↦ rw r (w u)
  | revoked p entry a o at_node rel held r ↦ rw r (
      le_trans
        (length-active_of-inactive u peer_id (record p { active = false }) s.store.peers refl
          (λ e. cc (subst (λ id. lookup id s.store.peers ≡ some p) o.2 o.0.0)))
        (w u))
]
