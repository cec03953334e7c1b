-- ===== src/Netalloc/Leases.antt =====
-- api/internal/netalloc/allocator.go: what a call of `Allocate` or `Release` does to the leases.
use snow_radar.Common.{
  subst, ℕ, ◌<◌, String, ◌≡◌, ◌≢◌, ◌↔◌, ◌⊎◌, refl, sym, ◌∙◌, ap, none, some, List, [], ◌∷◌, arith,
  ◌==◌, Result, ok, err, Option-cases, inl, inr, Bool-cases, eq_iff, string_eq,
}
use snow_radar.Common.Dict.{lookup, insert, delete}
use snow_radar.Netalloc.{
  Prefix, Addr, addr_eq, Allocator, AllocError, pool_exhausted, not_held, prefix, allocate,
  allocate_from, release,
}
use snow_radar.Netalloc.Search.{
  IsHost, IsTaken, nth, nth-IsHost, round_of, round_of-lt, nth-round_of, nth-turn, Searched, found,
  full, search-Searched, lease_at,
}
use snow_radar.Netalloc.Invariant.{InPool, IsValid}

-- A call that leases out an address: it was free and belongs to the pool, the peer holds it after
-- the call, and every other address is held as before.
pub record Leases (peer_id : String) (a a' : Allocator) (lease : Prefix) : Type 0 where
  pub in_pool : InPool a lease.addr
  pub bits : lease.bits ≡ (prefix a).bits
  pub was_free : lookup lease.addr a.held ≡ none
  pub now_held : a'.held ≡ insert lease.addr peer_id a.held
  pub same_pool : prefix a' ≡ prefix a

-- The two ends of a call: a lease, or a full pool and nothing changed.
pub data Allocated (peer_id : String) (a : Allocator) (r : Allocator × Result AllocError Prefix)
    : Type 0 where
  leased : (lease : Prefix) → r.1 ≡ ok lease → Leases peer_id a r.0 lease → Allocated peer_id a r
  exhausted :
      ((h : ℕ) → IsHost h → IsTaken a h) → r ≡ (a, err pool_exhausted) → Allocated peer_id a r

every-IsTaken :
    (a : Allocator)
    → IsHost a.next
    → ((i : ℕ) → i < 253 → IsTaken a (nth a.next i))
    → (h : ℕ) → IsHost h
    → IsTaken a h
every-IsTaken a n all h k =
    rw (nth-round_of a.next h n k) at (all (round_of a.next h) (round_of-lt a.next h))

Searched-Allocated :
    (peer_id : String) (a : Allocator) {r : Allocator × Result AllocError Prefix}
    → IsHost a.next
    → Searched 253 peer_id a r
    → Allocated peer_id a r
Searched-Allocated peer_id a n (found j l before free e) =
    leased (lease_at a (nth a.next j)) (rw e refl) (
      rw e (record {
        in_pool = (nth a.next j, nth-IsHost a.next j, refl);
        bits = refl;
        was_free = free;
        now_held = refl;
        same_pool = refl;
      }))
Searched-Allocated peer_id a n (full all e) =
    exhausted (every-IsTaken a n all) (e ∙ rw (nth-turn a.next n) refl)

allocate_from-Allocated :
    (free : List Addr) (peer_id : String) (a : Allocator)
    → a.free ≡ free
    → IsValid a
    → Allocated peer_id a (allocate_from free peer_id a)
unfolding allocate_from
allocate_from-Allocated [] peer_id a e v =
    Searched-Allocated peer_id a v.next_host (search-Searched 253 peer_id a v.next_host)
allocate_from-Allocated (x ∷ rest) peer_id a e v =
    leased (record { addr = x; bits = (prefix a).bits }) refl
      (record {
        in_pool = v.free_pool x (rw e (inl refl));
        bits = refl;
        was_free = v.apart x (rw e (inl refl));
        now_held = refl;
        same_pool = refl;
      })

pub allocate-Allocated :
    (peer_id : String) (a : Allocator) → IsValid a → Allocated peer_id a (allocate peer_id a)
unfolding allocate
allocate-Allocated peer_id a v = allocate_from-Allocated a.free peer_id a refl v

-- In a valid allocator, a successful call leases an address of the pool that nobody held to the
-- caller, with the pool's prefix length; every other address is held by whom it was.
pub allocate-Leases :
    (peer_id : String) (a : Allocator) (lease : Prefix)
    → IsValid a
    → (allocate peer_id a).1 ≡ ok lease
    → Leases peer_id a (allocate peer_id a).0 lease
allocate-Leases peer_id a lease v e = elim (allocate-Allocated peer_id a v) [
  | leased x e' l ↦
      subst (Leases peer_id a (allocate peer_id a).0)
        (let p : ◌≡◌ {A = Result AllocError Prefix} (ok x) (ok lease) = sym e' ∙ e in cc) l
  | exhausted all e' ↦ cc
]

-- In a valid allocator, a call fails exactly when every host from .2 to .254 is held.
pub allocate-exhausted_iff :
    (peer_id : String) (a : Allocator)
    → IsValid a
    → ((allocate peer_id a).1 ≡ err pool_exhausted) ↔ ((h : ℕ) → IsHost h → IsTaken a h)
allocate-exhausted_iff peer_id a v = elim (allocate-Allocated peer_id a v) [
  | leased x e l ↦
      (λ e'. cc, λ all. let (h, k, p) = l.in_pool in absurd (all h k (rw p at l.was_free)))
  | exhausted all e ↦ (λ _. all, λ _. ap (λ (r : Allocator × Result AllocError Prefix). r.1) e)
]

-- In a valid allocator, a call that fails answers ErrPoolExhausted and leaves the allocator as it
-- was, the probing counter included.
pub allocate_failure :
    (peer_id : String) (a : Allocator) (e : AllocError)
    → IsValid a
    → (allocate peer_id a).1 ≡ err e
    → allocate peer_id a ≡ (a, err pool_exhausted)
allocate_failure peer_id a e v h = elim (allocate-Allocated peer_id a v) [
  | leased x e' l ↦ cc
  | exhausted all e' ↦ e'
]

-- `Release` succeeds exactly when the peer holds the address; then the address is free and every
-- other one is held as before. Otherwise it answers ErrNotHeld and changes nothing.
pub release_cases :
    (lease : Prefix) (peer_id : String) (a : Allocator)
    → ((lookup lease.addr a.held ≡ some peer_id)
        × (release lease peer_id a
            ≡ (record a { held = delete lease.addr a.held; free = lease.addr ∷ a.free }, none)))
      ⊎ ((lookup lease.addr a.held ≢ some peer_id) × (release lease peer_id a ≡ (a, some not_held)))
unfolding release
release_cases lease peer_id a = elim (Option-cases (lookup lease.addr a.held)) [
  | inl e ↦ inr (λ f. cc, rw (e, release))
  | inr (owner, e) ↦ elim (Bool-cases (owner == peer_id)) [
    | inl own ↦
        inl (e ∙ ap (λ (o : String). some o) ((eq_iff owner peer_id).0 own), rw (e, release, own))
    | inr other ↦ inr (λ f. ground (arith, eq_iff owner peer_id), rw (e, release, other))
  ]
]

-- An address that its holder releases is the next one that `Allocate` hands out, whoever asks.
pub allocate-release :
    (lease : Prefix) (peer_id other : String) (a : Allocator)
    → lookup lease.addr a.held ≡ some peer_id
    → (allocate other (release lease peer_id a).0).1
      ≡ ok (record { addr = lease.addr; bits = (prefix a).bits })
unfolding allocate allocate_from
allocate-release lease peer_id other a h = elim (release_cases lease peer_id a) [
  | inl (_, e) ↦ rw e refl
  | inr (n, _) ↦ absurd (n h)
]
