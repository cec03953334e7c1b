-- ===== src/Store/Memory/Peers.antt =====
-- The peers of api/internal/store/memory.go: what `PeersByUser` lists, and who may revoke what.
use snow_radar.Common.{
  subst, String, ◌≡◌, ◌≢◌, ◌↔◌, ◌⊎◌, inl, inr, refl, sym, true, false, ◌&&◌, none, some, List, [],
  ◌∷◌, arith, ◌==◌, string_eq, eq_iff, Option-cases, Bool-cases, In, Distinct,
}
use snow_radar.Common.Dict.{
  lookup, insert, keys, values, lookup-insert, In-values, key_of_value, Distinct-insert,
}
use snow_radar.Store.{not_found, Peer}
use snow_radar.Store.Memory.{Memory, save_peer, active_of, peers_by_user, revoke_peer}

listed_test :
    (q : Peer) (user_id : String)
    → (q.user_id == user_id && q.active) ≡ true
    → (q.user_id ≡ user_id) × (q.active ≡ true)
listed_test q user_id h = ground (arith, eq_iff q.user_id user_id)

not_listed :
    (q : Peer) (user_id : String)
    → (q.user_id == user_id && q.active) ≡ false
    → q.user_id ≡ user_id
    → q.active ≡ true
    → ⊥
not_listed q user_id h own active = ground (arith, eq_iff q.user_id user_id)

pub In-active_of :
    (user_id : String) (p : Peer) (ps : List Peer)
    → In p (active_of user_id ps) ↔ (In p ps × (p.user_id ≡ user_id) × (p.active ≡ true))
unfolding active_of
In-active_of user_id p [] = (λ h. absurd h, λ h. absurd h.0)
In-active_of user_id p (q ∷ ps) = elim (Bool-cases (q.user_id == user_id && q.active)) [
  | inl keep ↦
      let (own, active) = listed_test q user_id keep in
      rw keep (
        λ h. elim h [
          | inl same ↦ (inl same, rw (← same) own, rw (← same) active)
          | inr later ↦ let (m, o, a) = (In-active_of user_id p ps).0 later in (inr m, o, a)
        ],
        λ (m, o, a). elim m [
          | inl same ↦ inl same
          | inr later ↦ inr ((In-active_of user_id p ps).1 (later, o, a))
        ],
      )
  | inr skip ↦ rw skip (
    λ h. let (m, o, a) = (In-active_of user_id p ps).0 h in (inr m, o, a),
    λ (m, o, a). elim m [
      | inl same ↦ absurd (not_listed q user_id skip (rw same o) (rw same a))
      | inr later ↦ (In-active_of user_id p ps).1 (later, o, a)
    ],
  )
]

-- Every peer is kept under its own id.
pub record IsKeyed (m : Memory) : Type 0 where
  pub distinct : Distinct (keys m.peers)
  pub own_id : (id : String) (p : Peer) → lookup id m.peers ≡ some p → p.id ≡ id

-- In a store that keeps every peer under its own id, `PeersByUser` lists exactly the active peers that the store keeps for the user.
pub In-peers_by_user :
    (user_id : String) (p : Peer) (m : Memory)
    → IsKeyed m
    → In p (peers_by_user user_id m).0
      ↔ ((lookup p.id m.peers ≡ some p) × (p.user_id ≡ user_id) × (p.active ≡ true))
unfolding peers_by_user
In-peers_by_user user_id p m v = (
  λ h.
      let (listed, own, active) = (In-active_of user_id p (values m.peers)).0 h in
      let (k, at_k) = key_of_value p m.peers v.distinct listed in
      (subst (λ id. lookup id m.peers ≡ some p) (sym (v.own_id k p at_k)) at_k, own, active),
  λ (at_id, own, active).
      (In-active_of user_id p (values m.peers)).1 (In-values p.id p m.peers at_id, own, active),
)

-- `RevokePeer` succeeds exactly on a peer of the user that the store keeps. Then that peer is
-- inactive, with all else of it as before; in either case every other peer is as it was.
pub revoke_peer_cases :
    (peer_id user_id : String) (m : Memory)
    → ((p : Peer) × (lookup peer_id m.peers ≡ some p)
        × (p.user_id ≡ user_id)
        × (revoke_peer peer_id user_id m
            ≡ (record m { peers = insert peer_id (record p { active = false }) m.peers }, none)))
      ⊎ (((p : Peer) → lookup peer_id m.peers ≡ some p → p.user_id ≢ user_id)
          × (revoke_peer peer_id user_id m ≡ (m, some not_found)))
unfolding revoke_peer
revoke_peer_cases peer_id user_id m = elim (Option-cases (lookup peer_id m.peers)) [
  | inl e ↦ inr (λ p h. cc, rw (e, revoke_peer))
  | inr (p, e) ↦ elim (Bool-cases (p.user_id == user_id)) [
    | inl own ↦ inl (p, e, (eq_iff p.user_id user_id).0 own, rw (e, revoke_peer, own))
    | inr other ↦ inr (λ q h. ground (arith, eq_iff p.user_id user_id), rw (e, revoke_peer, other))
  ]
]

-- So is a store after one of its peers has been written anew.
pub insert-IsKeyed :
    (peer_id : String) (p : Peer) (m : Memory)
    → IsKeyed m
    → p.id ≡ peer_id
    → IsKeyed (record m { peers = insert peer_id p m.peers })
insert-IsKeyed peer_id p m v i = record {
  distinct = Distinct-insert peer_id p m.peers v.distinct;
  own_id = λ id q h.
      ground (arith, lookup-insert peer_id id p m.peers, eq_iff peer_id id, v.own_id id q);
}

pub save_peer-IsKeyed : (p : Peer) (m : Memory) → IsKeyed m → IsKeyed (save_peer p m).0
unfolding save_peer
save_peer-IsKeyed p m v = insert-IsKeyed p.id p m v refl
