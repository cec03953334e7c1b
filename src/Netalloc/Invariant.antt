-- ===== src/Netalloc/Invariant.antt =====
-- The invariant of an allocator of api/internal/netalloc/allocator.go.
use snow_radar.Common.{
  subst, ℕ, String, ◌≡◌, refl, ap, none, some, List, [], ◌∷◌, arith, ◌==◌, Result, ok, Option-cases,
  inl, inr, In, Distinct, Bool, Bool-cases, string_eq, ◌≢◌,
}
use snow_radar.Common.Dict.{
  lookup, insert, delete, keys, lookup-insert, In-keys-insert, lookup-delete, In-keys,
  In-keys-delete, lookup-ne-none, Distinct-insert, Distinct-delete,
}
use snow_radar.Netalloc.{
  Prefix, Addr, Node, addr_eq, addr_beq_iff, Allocator, AllocError, prefix, host, allocate,
  allocate_from, release, new, find_node, default_nodes,
}
use snow_radar.Netalloc.Search.{
  IsHost, nth, nth-IsHost, advance-IsHost, Searched, found, full, search-Searched,
}

-- The address is one that the pool hands out.
abbrev pub InPool : Allocator → Addr → Type 0
InPool a x = (h : ℕ) × IsHost h × (x ≡ host (prefix a) h)

pub record IsValid (a : Allocator) : Type 0 where
  pub held_pool : (x : Addr) → In x (keys a.held) → InPool a x
  pub held_distinct : Distinct (keys a.held)
  pub free_pool : (x : Addr) → In x a.free → InPool a x
  pub free_distinct : Distinct a.free
  -- a released address is not held
  pub apart : (x : Addr) → In x a.free → lookup x a.held ≡ none
  pub next_host : IsHost a.next

abbrev pub initial : Node → Bool → Allocator
initial n stealth = record { node = n; stealth = stealth; held = []; free = []; next = 2 }

initial-IsValid : (n : Node) (stealth : Bool) → IsValid (initial n stealth)
initial-IsValid n stealth = record {
  held_pool = λ x m. absurd m;
  held_distinct = tt;
  free_pool = λ x m. absurd m;
  free_distinct = tt;
  apart = λ x m. absurd m;
  next_host = omega arith;
}

pub new-initial :
    (node_id : String) (stealth : Bool) (a : Allocator)
    → new node_id stealth ≡ ok a
    → (n : Node) × (find_node node_id default_nodes ≡ some n) × (initial n stealth ≡ a)
unfolding new
new-initial node_id stealth a e = elim (Option-cases (find_node node_id default_nodes)) [
  | inl missing ↦ cc (rw (missing, new) at e)
  | inr (n, hit) ↦
      let e' : ◌≡◌ {A = Result AllocError Allocator} (ok (initial n stealth)) (ok a) =
        rw (hit, new) at e in
      (n, hit, cc)
]

-- A new allocator is valid.
pub new-IsValid :
    (node_id : String) (stealth : Bool) (a : Allocator) → new node_id stealth ≡ ok a → IsValid a
new-IsValid node_id stealth a e =
    let (n, hit, p) = new-initial node_id stealth a e in subst IsValid p (initial-IsValid n stealth)

-- Leasing a free address of the pool keeps the invariant.
lease-IsValid :
    (x : Addr) (peer_id : String) (a : Allocator) (free : List Addr) (next : ℕ)
    → IsValid a
    → InPool a x
    → ((y : Addr) → In y free → In y a.free)
    → Distinct free
    → ¬ In x free
    → IsHost next
    → IsValid (record a { held = insert x peer_id a.held; free = free; next = next })
lease-IsValid x peer_id a free next v p sub d out n = record {
  held_pool = λ y m. elim (In-keys-insert x y peer_id a.held m) [
    | inl e ↦ subst (InPool a) e p
    | inr old ↦ v.held_pool y old
  ];
  held_distinct = Distinct-insert x peer_id a.held v.held_distinct;
  free_pool = λ y m. v.free_pool y (sub y m);
  free_distinct = d;
  apart = λ y m. ground (
    arith,
    lookup-insert x y peer_id a.held,
    addr_beq_iff x y,
    v.apart y (sub y m),
    λ (e : x ≡ y). out (rw e m),
  );
  next_host = n;
}

pub host-IsHost_inj : (p : Prefix) (h k : ℕ) → IsHost h → IsHost k → host p h ≡ host p k → h ≡ k
unfolding host
host-IsHost_inj p h k a b e = omega (arith, ap (λ (x : Addr). x.d) e)

not-In_of_none : (x : Addr) (a : Allocator) → lookup x a.held ≡ none → ¬ In x (keys a.held)
not-In_of_none x a e m = lookup-ne-none x a.held m e

Searched-IsValid :
    (n : ℕ) (peer_id : String) (a : Allocator) {r : Allocator × Result AllocError Prefix}
    → IsValid a
    → a.free ≡ []
    → Searched n peer_id a r
    → IsValid r.0
Searched-IsValid n peer_id a v empty (found j l before free e) = rw e (
    lease-IsValid (host (prefix a) (nth a.next j)) peer_id a a.free _ v
      (nth a.next j, nth-IsHost a.next j, refl) (λ y m. m) v.free_distinct (λ m. rw empty at m)
      (advance-IsHost _ (nth-IsHost a.next j)))
Searched-IsValid n peer_id a v empty (full all e) = rw e (record {
  held_pool = v.held_pool;
  held_distinct = v.held_distinct;
  free_pool = v.free_pool;
  free_distinct = v.free_distinct;
  apart = v.apart;
  next_host = nth-IsHost a.next n;
})

allocate_from-IsValid :
    (free : List Addr) (peer_id : String) (a : Allocator)
    → a.free ≡ free
    → IsValid a
    → IsValid (allocate_from free peer_id a).0
unfolding allocate_from
allocate_from-IsValid [] peer_id a e v =
    Searched-IsValid 253 peer_id a v e (search-Searched 253 peer_id a v.next_host)
allocate_from-IsValid (x ∷ rest) peer_id a e v =
    let d : Distinct (x ∷ rest) = rw e at v.free_distinct in
    lease-IsValid x peer_id a rest a.next v (v.free_pool x (rw e (inl refl))) (λ y m. rw e (inr m))
      d.1 d.0 v.next_host

-- Every call of `Allocate`, successful or not, keeps the allocator valid.
pub allocate-IsValid :
    (peer_id : String) (a : Allocator) → IsValid a → IsValid (allocate peer_id a).0
unfolding allocate
allocate-IsValid peer_id a v = allocate_from-IsValid a.free peer_id a refl v

released-IsValid :
    (x : Addr) (a : Allocator)
    → IsValid a
    → lookup x a.held ≢ none
    → IsValid (record a { held = delete x a.held; free = x ∷ a.free })
released-IsValid x a v h = record {
  held_pool = λ y m. v.held_pool y (In-keys-delete x y a.held m);
  held_distinct = Distinct-delete x a.held v.held_distinct;
  free_pool = λ y m. elim m [
    | inl e ↦ subst (InPool a) e (v.held_pool x (In-keys x a.held h))
    | inr old ↦ v.free_pool y old
  ];
  free_distinct = (λ m. h (v.apart x m), v.free_distinct);
  apart = λ y m. rw (lookup-delete x y a.held) (elim m [
    | inl e ↦ rw ((addr_beq_iff x y).1 e) refl
    | inr old ↦ ground (arith, v.apart y old)
  ]);
  next_host = v.next_host;
}

-- Every call of `Release`, successful or not, keeps the allocator valid.
pub release-IsValid :
    (lease : Prefix) (peer_id : String) (a : Allocator)
    → IsValid a
    → IsValid (release lease peer_id a).0
unfolding release
release-IsValid lease peer_id a v = elim (Option-cases (lookup lease.addr a.held)) [
  | inl e ↦ rw (e, release) v
  | inr (owner, e) ↦ elim (Bool-cases (owner == peer_id)) [
    | inl own ↦ rw (e, release, own) (released-IsValid lease.addr a v (λ f. cc))
    | inr other ↦ rw (e, release, other) v
  ]
]
