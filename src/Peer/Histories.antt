-- ===== src/Peer/Histories.antt =====
-- Histories of the service of api/internal/peer/service.go: any sequence of its calls from a new service over an empty memory store.
use snow_radar.Common.{
  ℕ, ◌≤◌, String, ◌≡◌, refl, ap, sym, subst, Bool, true, false, none, List, [], ◌∷◌, ok, arith,
  string_eq, Option-cases, Result-cases, inl, inr, length, eq_iff, ◌==◌, Bool-cases,
}
use snow_radar.Common.Dict.{Dict, lookup, insert, lookup-insert}
use snow_radar.Netalloc.{Allocator, new}
use snow_radar.Netalloc.Invariant.{new-IsValid}
use snow_radar.Netalloc.Pools.{InPool-unique}
use snow_radar.Store.{Peer}
use snow_radar.Store.Memory.{Memory, memory, new_memory, active_of, peers_by_user}
use snow_radar.Peer.{Service, Entry, choose, new_id, add_nodes, new_service, connect, revoke}
use snow_radar.Peer.Slots.{AllGood, IsGood, slot_of, InPool-holder}
use snow_radar.Peer.Invariant.{IsActive, IsSound, connect-IsSound}
use snow_radar.Peer.Revoking.{revoke-IsSound}
use snow_radar.Peer.Limit.{WithinLimit, connect-WithinLimit, revoke-WithinLimit}

-- One call. The store may also be written by others, who leave its peers alone.
pub data Step (s : Service Memory) : Service Memory → Type 0 where
  connects :
      (user_id node_id key : String) (stealth : Bool) (random : List ℕ) (now : ℕ)
      → lookup (new_id random) s.store.peers ≡ none
      → Step s (connect memory user_id node_id key stealth random now s).0
  revokes : (user_id peer_id : String) → Step s (revoke memory user_id peer_id s).0
  writes : (m : Memory) → m.peers ≡ s.store.peers → Step s (record s { store = m })

pub data Reach (s : Service Memory) : Service Memory → Type 0 where
  here : Reach s s
  next : {t u : Service Memory} → Reach s t → Step t u → Reach s u

pub record IsSafe (s : Service Memory) : Type 0 where
  pub sound : IsSound s
  pub limit : WithinLimit s.store

writes-IsSafe :
    (s : Service Memory) (m : Memory)
    → m.peers ≡ s.store.peers
    → IsSafe s
    → IsSafe (record s { store = m })
unfolding peers_by_user
writes-IsSafe s m same v = record {
  sound = record {
    keyed = record {
      distinct = rw same v.sound.keyed.distinct;
      own_id = λ id p h. v.sound.keyed.own_id id p (rw same at h);
    };
    good = v.sound.good;
    leased = λ p h. v.sound.leased p (rw same at h.0, h.1);
    unique = λ p q h k e. v.sound.unique p q (rw same at h.0, h.1) (rw same at k.0, k.1) e;
  };
  limit = λ user_id. rw same (v.limit user_id);
}

Step-IsSafe : {s t : Service Memory} → Step s t → IsSafe s → IsSafe t
Step-IsSafe {s} (connects user_id node_id key stealth random now fresh) v = record {
  sound = connect-IsSound user_id node_id key stealth random now s v.sound fresh;
  limit = connect-WithinLimit user_id node_id key stealth random now s v.sound fresh v.limit;
}
Step-IsSafe {s} (revokes user_id peer_id) v = record {
  sound = revoke-IsSound user_id peer_id s v.sound;
  limit = revoke-WithinLimit user_id peer_id s v.sound v.limit;
}
Step-IsSafe {s} (writes m same) v = writes-IsSafe s m same v

pub reach-IsSafe : {s t : Service Memory} → IsSafe s → Reach s t → IsSafe t
reach-IsSafe v here = v
reach-IsSafe v (next r st) = Step-IsSafe st (reach-IsSafe v r)

AllGood-new :
    (node_id : String) (wg awg : Allocator) (m : Dict String Entry)
    → new node_id false ≡ ok wg
    → new node_id true ≡ ok awg
    → AllGood m
    → AllGood (insert node_id (record { wg = wg; awg = awg }) m)
AllGood-new node_id wg awg m p q all n e b h = elim (Bool-cases (node_id == n)) [
  | inr other ↦
      all n e b (rw (lookup-insert node_id n (record { wg = wg; awg = awg }) m, other) at h)
  | inl same ↦
      let is : ◌≡◌ {A = Entry} (record { wg = wg; awg = awg }) e =
        ground (arith, lookup-insert node_id n (record { wg = wg; awg = awg }) m) in
      subst (λ x. IsGood x b (choose b e)) ((eq_iff node_id n).0 same)
        (subst (λ x. IsGood node_id b (choose b x)) is (both b))
]
  where
    both : (c : Bool) → IsGood node_id c (choose c (record { wg = wg; awg = awg }))
    both false = record { valid = new-IsValid node_id false wg p; pool = (wg, p, refl) }
    both true = record { valid = new-IsValid node_id true awg q; pool = (awg, q, refl) }

add_nodes-AllGood :
    (node_ids : List String) (s t : Service Memory)
    → AllGood s.allocators
    → add_nodes node_ids s ≡ ok t
    → AllGood t.allocators × (t.store ≡ s.store)
unfolding add_nodes
add_nodes-AllGood [] s t all h =
    let same : s ≡ t = cc in
    (
      subst (λ (x : Service Memory). AllGood x.allocators) same all,
      ap (λ (x : Service Memory). x.store) (sym same),
    )
add_nodes-AllGood (node_id ∷ rest) s t all h =
    elim (Option-cases (lookup node_id s.server_pub_keys)) [
      | inl e ↦ add_nodes-AllGood rest s t all (rw (e, add_nodes) at h)
      | inr (key, e) ↦ elim (Result-cases (new node_id false)) [
        | inr (failure, f) ↦ cc (rw (e, add_nodes, f) at h)
        | inl (wg, f) ↦ elim (Result-cases (new node_id true)) [
          | inr (failure, g) ↦ cc (rw (e, add_nodes, f, g) at h)
          | inl (awg, g) ↦
              add_nodes-AllGood rest _ t (AllGood-new node_id wg awg s.allocators f g all)
                (rw (e, add_nodes, f, g) at h)
        ]
      ]
    ]

abbrev unstarted : Memory → Dict String String → Dict String (Dict Bool String) → Service Memory
unstarted m keys endpoints = record {
  store = m;
  allocators = [];
  server_pub_keys = keys;
  endpoints = endpoints;
}

-- A new service over a store without peers.
pub new_service-IsSafe :
    (m : Memory) (keys : Dict String String) (endpoints : Dict String (Dict Bool String))
    (s : Service Memory)
    → m.peers ≡ []
    → new_service m keys endpoints ≡ ok s
    → IsSafe s
unfolding new_service lookup peers_by_user active_of
new_service-IsSafe m keys endpoints s empty h =
    let (all, st) =
      add_nodes-AllGood ("sgp" ∷ "fsn" ∷ []) (unstarted m keys endpoints) s (λ n e b f. cc) h in
    record {
      sound = record {
        keyed = rw (st, empty) (record { distinct = tt; own_id = λ id p f. cc });
        good = all;
        leased = λ p k. cc (rw (st, empty) at k.0);
        unique = λ p q k l e. cc (rw (st, empty) at k.0);
      };
      limit = λ user_id. rw (st, empty) (omega arith);
    }

-- In a safe service two active peers with the same address are the same.
pub IsSafe-unique :
    (t : Service Memory) (p q : Peer)
    → IsSafe t
    → IsActive p t
    → IsActive q t
    → p.address.addr ≡ q.address.addr
    → p ≡ q
IsSafe-unique t p q safe h k e =
    let v = safe.sound in
    let (a, new_a, in_a) = InPool-holder (slot_of p) p.user_id t.allocators v.good (v.leased p h) in
    let (b, new_b, in_b) = InPool-holder (slot_of q) q.user_id t.allocators v.good (v.leased q k) in
    let (same_node, same_protocol) =
      InPool-unique p.node_id q.node_id p.stealth q.stealth a b p.address.addr new_a new_b in_a
        (rw e in_b) in
    v.unique p q h k (λ i. record { node_id = same_node i; stealth = same_protocol i; addr = e i })

-- In every history of a service over the memory store, with its calls one after another, two active
-- peers never have the same address, whatever their users, nodes and protocols.
pub distinct_addresses :
    (keys : Dict String String) (endpoints : Dict String (Dict Bool String)) (s t : Service Memory)
    (p q : Peer)
    → new_service new_memory keys endpoints ≡ ok s
    → Reach s t
    → IsActive p t
    → IsActive q t
    → p.address.addr ≡ q.address.addr
    → p ≡ q
distinct_addresses keys endpoints s t p q started r h k e =
    IsSafe-unique t p q
      (reach-IsSafe (new_service-IsSafe new_memory keys endpoints s refl started) r) h k e

-- In every history of a service over the memory store, with its calls one after another, no user has
-- more than three active peers.
pub device_limit :
    (keys : Dict String String) (endpoints : Dict String (Dict Bool String)) (s t : Service Memory)
    (user_id : String)
    → new_service new_memory keys endpoints ≡ ok s
    → Reach s t
    → length (peers_by_user user_id t.store).0 ≤ 3
device_limit keys endpoints s t user_id started r =
    (reach-IsSafe (new_service-IsSafe new_memory keys endpoints s refl started) r).limit user_id
