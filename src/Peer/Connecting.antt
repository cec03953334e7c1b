-- ===== src/Peer/Connecting.antt =====
-- The courses of a call of `Connect` (api/internal/peer/service.go), over any store.
use snow_radar.Common.{
  ℕ, ◌≤◌, ◌<◌, String, ◌≡◌, inl, inr, Bool, true, false, ◌&&◌, none, some, List, [], ◌∷◌, Result,
  ok, err, arith, ◌==◌, string_eq, bool_eq, leb, length, In, eq_iff, bool_beq_iff, Option-cases,
  Bool-cases,
}
use snow_radar.Common.Dict.{lookup}
use snow_radar.Store.{Peer, Store}
use snow_radar.Peer.{
  PeerError, node_unknown, not_subscribed, too_many_peers, bad_public_key, Service, Entry,
  is_public_key, may_connect, find_same, render_client_config, provision, connect,
}

same_test :
    (node_id key : String) (stealth : Bool) (q : Peer)
    → (q.node_id == node_id && (q.stealth == stealth && q.public_key == key)) ≡ true
    → (q.node_id ≡ node_id) × (q.stealth ≡ stealth) × (q.public_key ≡ key)
same_test node_id key stealth q h =
    ground
      (arith, eq_iff q.node_id node_id, bool_beq_iff q.stealth stealth, eq_iff q.public_key key)

-- The peer that the search finds is one of the list, on that node, protocol and key.
pub find_same_sound :
    (node_id key : String) (stealth : Bool) (p : Peer) (ps : List Peer)
    → find_same node_id stealth key ps ≡ some p
    → In p ps × (p.node_id ≡ node_id) × (p.stealth ≡ stealth) × (p.public_key ≡ key)
unfolding find_same
find_same_sound node_id key stealth p [] h = cc
find_same_sound node_id key stealth p (q ∷ ps) h =
    elim (Bool-cases (q.node_id == node_id && (q.stealth == stealth && q.public_key == key))) [
      | inl same ↦
          let is : q ≡ p = ground arith in
          let (n, t, k) = same_test node_id key stealth q same in
          (inl is, rw (← is) n, rw (← is) t, rw (← is) k)
      | inr other ↦
          let (m, n, t, k) = find_same_sound node_id key stealth p ps (rw other at h) in
          (inr m, n, t, k)
    ]

pub data Connects {S : Type 0} (st : Store S) (user_id node_id key : String) (stealth : Bool)
    (random : List ℕ) (now : ℕ) (s : Service S) (r : Service S × Result PeerError (Peer × String))
    : Type 0 where
  bad_key :
      is_public_key key ≡ false
      → r ≡ (s, err bad_public_key)
      → Connects st user_id node_id key stealth random now s r
  unpaid :
      is_public_key key ≡ true
      → may_connect (st.get_subscription user_id s.store) ≡ false
      → r ≡ (s, err not_subscribed)
      → Connects st user_id node_id key stealth random now s r
  no_node :
      is_public_key key ≡ true
      → may_connect (st.get_subscription user_id s.store) ≡ true
      → lookup node_id s.allocators ≡ none
      → r ≡ (s, err node_unknown)
      → Connects st user_id node_id key stealth random now s r
  reuses :
      is_public_key key ≡ true
      → may_connect (st.get_subscription user_id s.store) ≡ true
      → (entry : Entry) → lookup node_id s.allocators ≡ some entry
      → (p : Peer) → find_same node_id stealth key (st.peers_by_user user_id s.store).0 ≡ some p
      → r ≡ (s, ok (p, render_client_config s p))
      → Connects st user_id node_id key stealth random now s r
  full :
      is_public_key key ≡ true
      → may_connect (st.get_subscription user_id s.store) ≡ true
      → (entry : Entry) → lookup node_id s.allocators ≡ some entry
      → find_same node_id stealth key (st.peers_by_user user_id s.store).0 ≡ none
      → 3 ≤ length (st.peers_by_user user_id s.store).0
      → r ≡ (s, err too_many_peers)
      → Connects st user_id node_id key stealth random now s r
  provisions :
      is_public_key key ≡ true
      → may_connect (st.get_subscription user_id s.store) ≡ true
      → (entry : Entry) → lookup node_id s.allocators ≡ some entry
      → find_same node_id stealth key (st.peers_by_user user_id s.store).0 ≡ none
      → length (st.peers_by_user user_id s.store).0 < 3
      → r ≡ provision st user_id node_id key stealth random now entry s
      → Connects st user_id node_id key stealth random now s r

-- Over any store, every call of `Connect` takes one of these courses under its conditions.
pub connect-Connects :
    {S : Type 0} (st : Store S) (user_id node_id key : String) (stealth : Bool) (random : List ℕ)
    (now : ℕ) (s : Service S)
    → Connects st user_id node_id key stealth random now s
        (connect st user_id node_id key stealth random now s)
unfolding connect
connect-Connects st user_id node_id key stealth random now s =
    elim (Bool-cases (is_public_key key)) [
      | inr k ↦ bad_key k (rw (k, connect))
      | inl k ↦ elim (Bool-cases (may_connect (st.get_subscription user_id s.store))) [
        | inr m ↦ unpaid k m (rw (k, m))
        | inl m ↦ elim (Option-cases (lookup node_id s.allocators)) [
          | inl e ↦ no_node k m e (rw (k, m, e, connect))
          | inr (entry, e) ↦
              elim (Option-cases
                (find_same node_id stealth key (st.peers_by_user user_id s.store).0)) [
                  | inr (p, f) ↦ reuses k m entry e p f (rw (k, m, e, connect, f))
                  | inl f ↦
                      elim (Bool-cases (leb 3 (length (st.peers_by_user user_id s.store).0))) [
                        | inl l ↦ full k m entry e f (ground arith) (rw (k, m, e, connect, f, l))
                        | inr l ↦
                            provisions k m entry e f (ground arith) (rw (k, m, e, connect, f, l))
                      ]
                ]
        ]
      ]
    ]
