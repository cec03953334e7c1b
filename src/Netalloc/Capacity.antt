-- ===== src/Netalloc/Capacity.antt =====
-- `InUse` of api/internal/netalloc/allocator.go, and how many leases a pool has.
use snow_radar.Common.{
  ◌⊎◌, ℕ, zero, suc, ◌+◌, ◌≤◌, ◌<◌, String, ◌≡◌, ◌↔◌, refl, sym, ◌∙◌, ap, none, List, [], ◌∷◌,
  arith, Result, Result-cases, ok, err, inl, inr, In, Distinct, length, length-le_of_In,
}
use snow_radar.Common.Dict.{keys, length-insert, length-delete, In-keys, Dict}
use snow_radar.Netalloc.{
  Prefix, Addr, addr_eq, Allocator, AllocError, pool_exhausted, prefix, host, allocate, release,
  in_use,
}
use snow_radar.Netalloc.Search.{IsHost, IsTaken}
use snow_radar.Netalloc.Invariant.{IsValid, allocate-IsValid, host-IsHost_inj}
use snow_radar.Netalloc.Leases.{
  allocate_failure, allocate-Leases, release_cases, allocate-exhausted_iff,
}

-- The addresses of the hosts 2, …, n + 1.
hosts : Prefix → ℕ → List Addr
hosts p zero = []
hosts p (suc n) = host p (n + 2) ∷ hosts p n

length-hosts : (p : Prefix) (n : ℕ) → length (hosts p n) ≡ n
unfolding hosts
length-hosts p zero = refl
length-hosts p (suc n) = omega (arith, length-hosts p n)

In-hosts : (p : Prefix) (n h : ℕ) → 2 ≤ h → h < n + 2 → In (host p h) (hosts p n)
unfolding hosts
In-hosts p zero h a b = absurd (omega arith)
In-hosts p (suc n) h a b = elim (last_or_before n h b) [
  | inl e ↦ inl (rw e refl)
  | inr l ↦ inr (In-hosts p n h a l)
]
  where
    last_or_before : (m k : ℕ) → k < suc m + 2 → (k ≡ m + 2) ⊎ (k < m + 2)
    last_or_before m k l = grind arith

host_of_In :
    (p : Prefix) (n : ℕ) (x : Addr)
    → In x (hosts p n)
    → (h : ℕ) × (2 ≤ h) × (h < n + 2) × (x ≡ host p h)
unfolding hosts
host_of_In p zero x m = absurd m
host_of_In p (suc n) x (inl e) = (n + 2, omega arith, omega arith, sym e)
host_of_In p (suc n) x (inr m) = let (h, a, b, e) = host_of_In p n x m in (h, a, omega arith, e)

Distinct-hosts : (p : Prefix) (n : ℕ) → n ≤ 253 → Distinct (hosts p n)
unfolding hosts
Distinct-hosts p zero l = tt
Distinct-hosts p (suc n) l = (
  λ m.
      let (h, a, b, e) = host_of_In p n (host p (n + 2)) m in
      let same : n + 2 ≡ h = host-IsHost_inj p (n + 2) h (omega arith) (omega arith) e in
      omega arith,
  Distinct-hosts p n (omega arith),
)

length-keys : {V : Type 0} (m : Dict Addr V) → length (keys m) ≡ length m
length-keys [] = refl
length-keys ((k, v) ∷ m) = omega (arith, length-keys m)

-- A valid allocator never has more than 253 leases.
pub in_use-le : (a : Allocator) → IsValid a → in_use a ≤ 253
unfolding in_use
in_use-le a v = omega (
  arith,
  length-keys a.held,
  length-hosts (prefix a) 253,
  length-le_of_In (keys a.held) (hosts (prefix a) 253) v.held_distinct (λ x m.
      let (h, k, e) = v.held_pool x m in rw e (In-hosts (prefix a) 253 h k.0 (omega arith))),
)

all_taken-in_use : (a : Allocator) → ((h : ℕ) → IsHost h → IsTaken a h) → 253 ≤ in_use a
unfolding in_use
all_taken-in_use a all = omega (
  arith,
  length-keys a.held,
  length-hosts (prefix a) 253,
  length-le_of_In (hosts (prefix a) 253) (keys a.held) (Distinct-hosts (prefix a) 253 (omega arith))
      (λ x m.
        let (h, l, u, e) = host_of_In (prefix a) 253 x m in
        rw e (In-keys (host (prefix a) h) a.held (all h (l, omega arith)))),
)

-- A lease adds one to the count.
pub in_use-allocate :
    (peer_id : String) (a : Allocator) (lease : Prefix)
    → IsValid a
    → (allocate peer_id a).1 ≡ ok lease
    → in_use (allocate peer_id a).0 ≡ in_use a + 1
unfolding in_use
in_use-allocate peer_id a lease v e =
    let l = allocate-Leases peer_id a lease v e in
    ap length l.now_held ∙ length-insert lease.addr peer_id a.held l.was_free

-- In a valid allocator, a successful release takes one off the count.
pub in_use-release :
    (lease : Prefix) (peer_id : String) (a : Allocator)
    → IsValid a
    → (release lease peer_id a).1 ≡ none
    → in_use (release lease peer_id a).0 + 1 ≡ in_use a
unfolding in_use
in_use-release lease peer_id a v e = elim (release_cases lease peer_id a) [
  | inl (h, r) ↦ rw r (length-delete lease.addr a.held v.held_distinct (λ f. cc))
  | inr (n, r) ↦ cc
]

-- In a valid allocator, `Allocate` fails exactly when 253 addresses are in use.
pub in_use-exhausted_iff :
    (peer_id : String) (a : Allocator)
    → IsValid a
    → ((allocate peer_id a).1 ≡ err pool_exhausted) ↔ (in_use a ≡ 253)
in_use-exhausted_iff peer_id a v = (
  λ e. omega (arith, in_use-le a v, all_taken-in_use a ((allocate-exhausted_iff peer_id a v).0 e)),
  λ full. elim (Result-cases (allocate peer_id a).1) [
    | inl (lease, e) ↦ absurd (
        omega (
          arith,
          in_use-allocate peer_id a lease v e,
          in_use-le (allocate peer_id a).0 (allocate-IsValid peer_id a v),
        ))
    | inr (e, failed) ↦
        ap (λ (r : Allocator × Result AllocError Prefix). r.1)
          (allocate_failure peer_id a e v failed)
  ],
)
