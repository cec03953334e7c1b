-- ===== src/Peer/Interleaving/Allocators.antt =====
-- The allocators of api/internal/peer/service.go under calls that run at the same time.
use snow_radar.Common.{
  ℕ, zero, suc, String, ◌≡◌, ap, Bool, some, List, [], ◌∷◌, Result, leb, length, Bool-cases,
  Option-cases, inl, inr, string_eq,
}
use snow_radar.Common.Dict.{lookup}
use snow_radar.Netalloc.{Prefix, Allocator, AllocError, prefix, allocate, release}
use snow_radar.Netalloc.Invariant.{IsValid, allocate-IsValid, release-IsValid}
use snow_radar.Store.{Store}
use snow_radar.Peer.{
  Service, Entry, choose, find_same, is_public_key, may_connect, max_peers_per_user, set_entry,
  release_lease,
}
use snow_radar.Peer.Revoking.{release-same_pool}
use snow_radar.Netalloc.Leases.{leased, exhausted, allocate-Allocated}
use snow_radar.Peer.Slots.{AllGood, AllGood-insert}
use snow_radar.Peer.Interleaving.{
  Call, asking, counting, leasing, saving, undoing, connected, looking, releasing, marking, revoked,
  step, turn, interleave,
}

allocate-same_pool :
    (user_id : String) (a : Allocator) → IsValid a → prefix (allocate user_id a).0 ≡ prefix a
allocate-same_pool user_id a v = elim (allocate-Allocated user_id a v) [
  | leased lease e l ↦ l.same_pool
  | exhausted all e ↦ ap (λ (r : Allocator × Result AllocError Prefix). prefix r.0) e
]

module _ {S : Type 0} (st : Store S) where
  released :
      (node_id : String) (stealth : Bool) (lease : Prefix) (user_id : String) (entry : Entry)
      (s : Service S)
      → lookup node_id s.allocators ≡ some entry
      → AllGood s.allocators
      → AllGood
          (set_entry node_id stealth
            (release lease user_id (choose stealth entry)).0
            entry
            s).allocators
  released node_id stealth lease user_id entry s e v =
      AllGood-insert node_id stealth (release lease user_id (choose stealth entry)).0 entry
        s.allocators e
        (release-IsValid lease user_id (choose stealth entry) (v node_id entry stealth e).valid)
        (release-same_pool lease user_id (choose stealth entry)) v

  step-AllGood :
      (c : Call) (s : Service S) → AllGood s.allocators → AllGood (step st c s).0.allocators
  unfolding step release_lease
  step-AllGood (asking d) s v = elim (Bool-cases (is_public_key d.key)) [
    | inr k ↦ rw (step, k) v
    | inl k ↦ elim (Bool-cases (may_connect (st.get_subscription d.user_id s.store))) [
      | inr m ↦ rw (step, k, m) v
      | inl m ↦ rw (step, k, m) v
    ]
  ]
  step-AllGood (counting d) s v = elim (Option-cases (lookup d.node_id s.allocators)) [
    | inl e ↦ rw (step, e) v
    | inr (entry, e) ↦
        let existing = (st.peers_by_user d.user_id s.store).0 in
        elim (Option-cases (find_same d.node_id d.stealth d.key existing)) [
          | inr (p, f) ↦ rw (step, e, f) v
          | inl f ↦ elim (Bool-cases (leb max_peers_per_user (length existing))) [
            | inl l ↦ rw (step, e, f, l) v
            | inr l ↦ rw (step, e, f, l) v
          ]
        ]
  ]
  step-AllGood (leasing d) s v = elim (Option-cases (lookup d.node_id s.allocators)) [
    | inl e ↦ rw (step, e) v
    | inr (entry, e) ↦
        let w = (v d.node_id entry d.stealth e).valid in
        rw (step, e)
          (AllGood-insert d.node_id d.stealth (allocate d.user_id (choose d.stealth entry)).0 entry
            s.allocators e (allocate-IsValid d.user_id (choose d.stealth entry) w)
            (allocate-same_pool d.user_id (choose d.stealth entry) w) v)
  ]
  step-AllGood (saving d lease) s v = v
  step-AllGood (undoing d lease failure) s v = elim (Option-cases (lookup d.node_id s.allocators)) [
    | inl e ↦ rw (step, e) v
    | inr (entry, e) ↦ rw (step, e) (released d.node_id d.stealth lease d.user_id entry s e v)
  ]
  step-AllGood (connected r) s v = v
  step-AllGood (looking user_id peer_id) s v = v
  step-AllGood (releasing user_id peer_id target) s v =
      elim (Option-cases (lookup target.node_id s.allocators)) [
        | inl e ↦ rw (release_lease, e) v
        | inr (entry, e) ↦
            rw (release_lease, e)
              (released target.node_id target.stealth target.address user_id entry s e v)
      ]
  step-AllGood (marking user_id peer_id) s v = v
  step-AllGood (revoked e) s v = v

  turn-AllGood :
      (n : ℕ) (cs : List Call) (s : Service S)
      → AllGood s.allocators
      → AllGood (turn st n cs s).0.allocators
  unfolding turn
  turn-AllGood n [] s v = v
  turn-AllGood zero (c ∷ cs) s v = step-AllGood c s v
  turn-AllGood (suc n) (c ∷ cs) s v = turn-AllGood n cs s v

  -- Over any store, whatever calls of Connect and Revoke are under way and in whatever order they take
  -- their steps, each allocator stays valid and hands out the addresses of its own pool.
  pub interleave-AllGood :
      (ns : List ℕ) (cs : List Call) (s : Service S)
      → AllGood s.allocators
      → AllGood (interleave st ns cs s).0.allocators
  unfolding interleave
  interleave-AllGood [] cs s v = v
  interleave-AllGood (n ∷ ns) cs s v =
      interleave-AllGood ns (turn st n cs s).1 (turn st n cs s).0 (turn-AllGood n cs s v)
