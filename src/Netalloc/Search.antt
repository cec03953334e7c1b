-- ===== src/Netalloc/Search.antt =====
-- The probing loop of `Allocate` (api/internal/netalloc/allocator.go): which hosts it tries, and when it gives up.
use snow_radar.Common.{
  ℕ, zero, suc, ◌+◌, ◌-◌, ◌%◌, ◌≤◌, ◌<◌, String, ◌≡◌, ◌≢◌, none, arith, Result, ok, err,
  Option-cases, inl, inr,
}
use snow_radar.Common.Dict.{lookup, insert}
use snow_radar.Netalloc.{
  Prefix, addr_eq, Allocator, AllocError, pool_exhausted, prefix, advance, host, search,
}

-- A host octet that the pool hands out: the server's .1 and the broadcast .255 are not among them.
abbrev pub IsHost : ℕ → Type 0
IsHost h = (2 ≤ h) × (h ≤ 254)

-- The host that the loop tries in round `i`, from the counter `next`.
pub nth : ℕ → ℕ → ℕ
nth next i = 2 + (next - 2 + i) % 253

nth-zero : (next : ℕ) → IsHost next → nth next 0 ≡ next
unfolding nth
nth-zero next h = omega arith

nth-advance : (next i : ℕ) → IsHost next → nth (advance next) i ≡ nth next (suc i)
unfolding nth advance
nth-advance next i h = ground arith

pub advance-IsHost : (next : ℕ) → IsHost next → IsHost (advance next)
unfolding advance
advance-IsHost next h = ground arith

pub nth-IsHost : (next i : ℕ) → IsHost (nth next i)
unfolding nth
nth-IsHost next i = omega arith

-- A full turn leads back.
pub nth-turn : (next : ℕ) → IsHost next → nth next 253 ≡ next
unfolding nth
nth-turn next h = omega arith

-- Within a turn every host is tried.
pub round_of : ℕ → ℕ → ℕ
round_of next h = (h + 253 - next) % 253

pub nth-round_of : (next h : ℕ) → IsHost next → IsHost h → nth next (round_of next h) ≡ h
unfolding nth round_of
nth-round_of next h n k = omega arith

pub round_of-lt : (next h : ℕ) → round_of next h < 253
unfolding round_of
round_of-lt next h = omega arith

-- The host's address is held.
abbrev pub IsTaken : Allocator → ℕ → Type 0
IsTaken a h = lookup (host (prefix a) h) a.held ≢ none

abbrev pub lease_at : Allocator → ℕ → Prefix
lease_at a h = record { addr = host (prefix a) h; bits = (prefix a).bits }

-- The state after host `h` has been given to a peer.
abbrev pub give : String → ℕ → Allocator → Allocator
give peer_id h a = record a { next = advance h; held = insert (host (prefix a) h) peer_id a.held }

-- What the loop does in `n` rounds: it stops at the first host that is free, or finds none.
pub data Searched (n : ℕ) (peer_id : String) (a : Allocator)
    (r : Allocator × Result AllocError Prefix) : Type 0 where
  found :
      (j : ℕ)
      → j < n
      → ((i : ℕ) → i < j → IsTaken a (nth a.next i))
      → lookup (host (prefix a) (nth a.next j)) a.held ≡ none
      → r ≡ (give peer_id (nth a.next j) a, ok (lease_at a (nth a.next j)))
      → Searched n peer_id a r
  full :
      ((i : ℕ) → i < n → IsTaken a (nth a.next i))
      → r ≡ (record a { next = nth a.next n }, err pool_exhausted)
      → Searched n peer_id a r

abbrev moved : Allocator → Allocator
moved a = record a { next = advance a.next }

IsTaken-suc :
    (a : Allocator) (n : ℕ)
    → IsHost a.next
    → IsTaken a a.next
    → ((i : ℕ) → i < n → IsTaken a (nth (advance a.next) i))
    → (i : ℕ) → i < suc n
    → IsTaken a (nth a.next i)
IsTaken-suc a n h t rest zero l = rw (nth-zero a.next h) t
IsTaken-suc a n h t rest (suc i) l = rw (← nth-advance a.next i h) (rest i (omega arith))

Searched-suc :
    (n : ℕ) (peer_id : String) (a : Allocator) {r : Allocator × Result AllocError Prefix}
    → IsHost a.next
    → IsTaken a a.next
    → Searched n peer_id (moved a) r
    → Searched (suc n) peer_id a r
Searched-suc n peer_id a h t (found j l before free e) =
    found (suc j) (omega arith) (IsTaken-suc a j h t before) (rw (← nth-advance a.next j h) free)
      (rw (← nth-advance a.next j h) e)
Searched-suc n peer_id a h t (full all e) =
    full (IsTaken-suc a n h t all) (rw (← nth-advance a.next n h) e)

pub search-Searched :
    (n : ℕ) (peer_id : String) (a : Allocator)
    → IsHost a.next
    → Searched n peer_id a (search n peer_id a)
unfolding search
search-Searched zero peer_id a h = full (λ i l. absurd (omega arith)) (rw (nth-zero a.next h))
search-Searched (suc n) peer_id a h = elim (Option-cases (lookup (host (prefix a) a.next) a.held)) [
  | inl e ↦
      found 0 (omega arith) (λ i l. absurd (omega arith)) (rw (nth-zero a.next h) e)
        (rw (nth-zero a.next h) (rw (e, search)))
  | inr (owner, e) ↦
      rw (e, search)
        (Searched-suc n peer_id a h (λ f. cc)
          (search-Searched n peer_id (moved a) (advance-IsHost a.next h)))
]
