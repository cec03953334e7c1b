-- ===== src/Peer/Repeating.antt =====
-- A call of `Connect` (api/internal/peer/service.go) that fails, and one that is made twice.
use snow_radar.Common.{
  ℕ, String, ◌≡◌, refl, ap, sym, ◌∙◌, Bool, true, Option-cases, Bool-cases, inl, inr, In, ◌↔◌, ◌==◌,
  none, some, List, [], ◌∷◌, ok, err, arith, string_eq, bool_eq, eq_iff, bool_beq_iff,
}
use snow_radar.Common.Dict.{lookup, lookup-insert, lookup-insert_self}
use snow_radar.Store.{Peer}
use snow_radar.Store.Memory.{Memory, memory, ranged, peers_by_user, save_peer, get_subscription}
use snow_radar.Peer.{
  Service, Entry, PeerError, new_id, connect, find_same, render_client_config, is_public_key,
  may_connect, update, provision,
}
use snow_radar.Peer.Provision.{new_peer, with_peer, no_address, added, provision-Provisioned}
use snow_radar.Peer.Connecting.{
  bad_key, unpaid, no_node, reuses, full, provisions, connect-Connects, find_same_sound,
}
use snow_radar.Store.Memory.Peers.{IsKeyed, In-peers_by_user, insert-IsKeyed}
use snow_radar.Peer.Invariant.{IsSound}

-- In a sound service, a call of `Connect` that fails, for whatever reason, leaves the service as it
-- was.
pub connect_failure :
    (user_id node_id key : String) (stealth : Bool) (random : List ℕ) (now : ℕ) (s : Service Memory)
    (e : PeerError)
    → IsSound s
    → (connect memory user_id node_id key stealth random now s).1 ≡ err e
    → (connect memory user_id node_id key stealth random now s).0 ≡ s
connect_failure user_id node_id key stealth random now s e v h =
    elim (connect-Connects memory user_id node_id key stealth random now s) [
      | bad_key _ r ↦ ap (λ x. x.0) r
      | unpaid _ _ r ↦ ap (λ x. x.0) r
      | no_node _ _ _ r ↦ ap (λ x. x.0) r
      | reuses _ _ _ _ _ _ r ↦ ap (λ x. x.0) r
      | full _ _ _ _ _ _ r ↦ ap (λ x. x.0) r
      | provisions _ _ entry at_node _ _ r ↦
          elim (provision-Provisioned user_id node_id key stealth random now entry s at_node
            (v.good node_id entry stealth at_node).valid) [
              | no_address all q ↦ ap (λ x. x.0) (r ∙ q)
              | added a lease ok_a l q ↦ cc
            ]
    ]

-- The order in which `range` lists some peers.
abbrev pub IsOrder : (List Peer → List Peer) → Type 0
IsOrder order = (ps : List Peer) (q : Peer) → In q (order ps) ↔ In q ps

-- The peer of a device, on a node and protocol.
abbrev pub IsSame : String → String → Bool → Peer → Type 0
IsSame node_id key stealth p = (p.node_id ≡ node_id) × (p.stealth ≡ stealth) × (p.public_key ≡ key)

find_same_missing :
    (node_id key : String) (stealth : Bool) (p : Peer) (ps : List Peer)
    → find_same node_id stealth key ps ≡ none
    → In p ps
    → ¬ IsSame node_id key stealth p
unfolding find_same
find_same_missing node_id key stealth p [] h m same = absurd m
find_same_missing node_id key stealth p (q ∷ ps) h (inl e) (n, t, k) =
    ground
      (arith, eq_iff q.node_id node_id, bool_beq_iff q.stealth stealth, eq_iff q.public_key key)
find_same_missing node_id key stealth p (q ∷ ps) h (inr m) same =
    find_same_missing node_id key stealth p ps (ground arith) m same

-- A search finds the only peer of its kind.
find_same_unique :
    (node_id key : String) (stealth : Bool) (p : Peer) (ps : List Peer)
    → In p ps
    → IsSame node_id key stealth p
    → ((q : Peer) → In q ps → IsSame node_id key stealth q → q ≡ p)
    → find_same node_id stealth key ps ≡ some p
find_same_unique node_id key stealth p ps m same only =
    elim (Option-cases (find_same node_id stealth key ps)) [
      | inl e ↦ absurd (find_same_missing node_id key stealth p ps e m same)
      | inr (q, e) ↦
          let (at, n, t, k) = find_same_sound node_id key stealth q ps e in
          e ∙ ap (λ (x : Peer). some x) (only q at (n, t, k))
    ]

-- In whatever order they are listed.
find_same-ranged :
    (node_id key : String) (stealth : Bool) (p : Peer) (ps : List Peer)
    (order : List Peer → List Peer)
    → IsOrder order
    → In p ps
    → IsSame node_id key stealth p
    → ((q : Peer) → In q ps → IsSame node_id key stealth q → q ≡ p)
    → find_same node_id stealth key (order ps) ≡ some p
find_same-ranged node_id key stealth p ps order o m same only =
    find_same_unique node_id key stealth p (order ps) ((o ps p).1 m) same
      (λ q h kind. only q ((o ps q).0 h) kind)

-- The peer that was just made is the one that the next search finds.
found_again :
    (user_id node_id key : String) (stealth : Bool) (p : Peer) (m : Memory)
    (order order' : List Peer → List Peer)
    → IsOrder order
    → IsOrder order'
    → IsKeyed m
    → find_same node_id stealth key (order (peers_by_user user_id m).0) ≡ none
    → p.user_id ≡ user_id
    → p.active ≡ true
    → IsSame node_id key stealth p
    → find_same node_id stealth key (order' (peers_by_user user_id (save_peer p m).0).0) ≡ some p
unfolding save_peer
found_again user_id node_id key stealth p m order order' o o' v missing own on same =
    let after : Memory = (save_peer p m).0 in
    let v' : IsKeyed after = insert-IsKeyed p.id p m v refl in
    find_same-ranged node_id key stealth p (peers_by_user user_id after).0 order' o'
      ((In-peers_by_user user_id p after v').1 (lookup-insert_self p.id p m.peers, own, on)) same
      only
  where
    only :
        (q : Peer)
        → In q (peers_by_user user_id (save_peer p m).0).0
        → IsSame node_id key stealth q
        → q ≡ p
    only q h kind =
        let (at_id, mine, active) =
          (In-peers_by_user user_id q (save_peer p m).0 (insert-IsKeyed p.id p m v refl)).0 h in
        elim (Bool-cases (p.id == q.id)) [
          | inl e ↦ ground (arith, lookup-insert p.id q.id p m.peers)
          | inr e ↦
              let before : lookup q.id m.peers ≡ some q =
                ground (arith, lookup-insert p.id q.id p m.peers) in
              absurd (
                find_same_missing node_id key stealth q (order (peers_by_user user_id m).0) missing
                  ((o (peers_by_user user_id m).0 q).1
                    ((In-peers_by_user user_id q m v).1 (before, mine, active)))
                  kind)
        ]

-- The course of a call whose search succeeds.
connect_reuses :
    (user_id node_id key : String) (stealth : Bool) (random : List ℕ) (now : ℕ) (s : Service Memory)
    (entry : Entry) (p : Peer) (order : List Peer → List Peer)
    → is_public_key key ≡ true
    → may_connect (get_subscription user_id s.store) ≡ true
    → lookup node_id s.allocators ≡ some entry
    → find_same node_id stealth key (order (peers_by_user user_id s.store).0) ≡ some p
    → connect (ranged order) user_id node_id key stealth random now s
      ≡ (s, ok (p, render_client_config s p))
connect_reuses user_id node_id key stealth random now s entry p order k m e f =
    elim (connect-Connects (ranged order) user_id node_id key stealth random now s) [
      | bad_key b r ↦ cc
      | unpaid _ b r ↦ cc
      | no_node _ _ b r ↦ cc
      | reuses _ _ _ _ q g r ↦
          r ∙ ap (λ x. (s, ok (x, render_client_config s x))) (let same : q ≡ p = cc in same)
      | full _ _ _ _ g _ r ↦ cc
      | provisions _ _ _ _ g _ r ↦ cc
    ]

-- A second call on the state that the first one left.
second_call :
    {S R : Type 0} (f : S → S × R) (r : S × R) (t : S) (o o' : R)
    → r ≡ (t, o)
    → f t ≡ (t, o)
    → r.1 ≡ o'
    → f r.0 ≡ (r.0, o')
second_call f r t o o' e g h =
    let state : r.0 ≡ t = ap (λ x. x.0) e in
    let answer : o ≡ o' = sym (ap (λ x. x.1) e) ∙ h in rw state (g ∙ ap (λ x. (t, x)) answer)

-- The user has no two active peers for one device on one node and protocol.
abbrev pub HasOne : String → String → String → Bool → Memory → Type 0
HasOne user_id node_id key stealth m =
    (p q : Peer)
    → In p (peers_by_user user_id m).0
    → In q (peers_by_user user_id m).0
    → IsSame node_id key stealth p
    → IsSame node_id key stealth q
    → p ≡ q

-- In a sound service over the memory store, in which the user has no two active peers for the device
-- on that node and protocol, a `Connect` that succeeds and draws an unused id may be repeated: it
-- gives the same peer and the same configuration again, and nothing changes, whatever the time, the
-- random bytes and the order in which the peers are listed are by then.
pub connect_twice :
    (user_id node_id key : String) (stealth : Bool) (random random' : List ℕ) (now now' : ℕ)
    (s : Service Memory) (p : Peer) (cfg : String) (order order' : List Peer → List Peer)
    → IsOrder order
    → IsOrder order'
    → IsSound s
    → HasOne user_id node_id key stealth s.store
    → lookup (new_id random) s.store.peers ≡ none
    → (connect (ranged order) user_id node_id key stealth random now s).1 ≡ ok (p, cfg)
    → connect
        (ranged order')
        user_id
        node_id
        key
        stealth
        random'
        now'
        (connect (ranged order) user_id node_id key stealth random now s).0
      ≡ ((connect (ranged order) user_id node_id key stealth random now s).0, ok (p, cfg))
unfolding render_client_config save_peer get_subscription provision
connect_twice user_id node_id key stealth random random' now now' s p cfg order order' o o' v one
      fresh h =
    elim (connect-Connects (ranged order) user_id node_id key stealth random now s) [
      | bad_key _ r ↦ cc
      | unpaid _ _ r ↦ cc
      | no_node _ _ _ r ↦ cc
      | full _ _ _ _ _ _ r ↦ cc
      | reuses k m entry e q f r ↦
          let ps = (peers_by_user user_id s.store).0 in
          let (at, n, t, c) = find_same_sound node_id key stealth q (order ps) f in
          let listed = (o ps q).0 at in
          second_call (connect (ranged order') user_id node_id key stealth random' now') _ s _ _ r
            (connect_reuses user_id node_id key stealth random' now' s entry q order' k m e (
              find_same-ranged node_id key stealth q ps order' o' listed (n, t, c)
                (λ x i kind. one x q i listed kind (n, t, c))))
            h
      | provisions k m entry e f _ r ↦
          elim (provision-Provisioned user_id node_id key stealth random now entry s e
            (v.good node_id entry stealth e).valid) [
              | no_address all w ↦ cc
              | added a lease ok_a l w ↦
                  let made = new_peer user_id node_id key stealth random now lease in
                  let after = with_peer user_id node_id key stealth random now lease a entry s in
                  second_call (connect (ranged order') user_id node_id key stealth random' now') _
                    after (ok (made, render_client_config s made)) _ (r ∙ w)
                    (connect_reuses user_id node_id key stealth random' now' after
                      (update stealth a entry) made order' k m
                      (lookup-insert_self node_id (update stealth a entry) s.allocators)
                      (found_again user_id node_id key stealth made s.store order order' o o'
                        v.keyed f refl refl (refl, refl, refl)))
                    h
            ]
    ]
