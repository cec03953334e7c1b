-- ===== src/Netalloc/Tests.antt =====
-- Runs of the allocator, and each theorem at an input that meets its conditions.
use snow_radar.Common.{ℕ, suc, String, ◌≡◌, ◌↔◌, refl, false, some, none, [], ◌∷◌, arith, ok, err}
use snow_radar.Netalloc.Pools.{InPool-unique}
use snow_radar.Common.Dict.{lookup, insert, delete}
use snow_radar.Netalloc.{
  addr_eq, Prefix, Allocator, must_prefix, pool_exhausted, unknown_node, not_held, find_node, new,
  advance, host, search, allocate, allocate_from, release, held_by, in_use, sgp,
}
use snow_radar.Netalloc.Search.{IsHost, IsTaken}
use snow_radar.Netalloc.Invariant.{IsValid, initial, new-IsValid, allocate-IsValid, release-IsValid}
use snow_radar.Netalloc.Leases.{Leases, allocate-Leases, allocate-exhausted_iff}
use snow_radar.Netalloc.Capacity.{in_use-exhausted_iff}

run : Unit {0}
unfolding new find_node allocate allocate_from search release held_by in_use advance host lookup
    insert delete
run = tt

abbrev empty : Allocator
empty = initial sgp false

abbrev lease : ℕ → Prefix
lease h = must_prefix 10 20 0 h 24

-- Two leases, as the calls give them.
abbrev two : Allocator
two = record {
  node = sgp;
  stealth = false;
  held = ((lease 2).addr, "p1") ∷ ((lease 3).addr, "p2") ∷ [];
  free = [];
  next = 4;
}

new_tests : (new "sgp" false ≡ ok empty) × (new "nyc" false ≡ err unknown_node)
unfolding run
new_tests = (refl, refl)

first_leases :
    (allocate "p2" (allocate "p1" empty).0 ≡ (two, ok (lease 3)))
    × (held_by (lease 2) two ≡ "p1")
    × (held_by (lease 9) two ≡ "")
    × (in_use two ≡ 2)
unfolding run
first_leases = (refl, refl, refl, refl)

release_tests :
    ((release (lease 2) "p2" two).1 ≡ some not_held)
    × ((release (lease 7) "p1" two).1 ≡ some not_held)
    × ((release (lease 2) "p1" two).1 ≡ none)
    × ((allocate "p3" (release (lease 2) "p1" two).0).1 ≡ ok (lease 2))
unfolding run
release_tests = (refl, refl, refl, refl)

fill : ℕ → Allocator → Allocator
fill ℕ.zero a = a
fill (suc n) a = fill n (allocate "p" a).0

filled : (allocate "q" (fill 253 empty)).1 ≡ err pool_exhausted
unfolding run fill
filled = refl

empty-IsValid : IsValid empty
unfolding run
empty-IsValid = new-IsValid "sgp" false empty refl

two-IsValid : IsValid two
unfolding run
two-IsValid = allocate-IsValid "p2" _ (allocate-IsValid "p1" empty empty-IsValid)

allocate-IsValid_example : IsValid (allocate "p3" two).0
allocate-IsValid_example = allocate-IsValid "p3" two two-IsValid

release-IsValid_example : IsValid (release (lease 2) "p1" two).0
release-IsValid_example = release-IsValid (lease 2) "p1" two two-IsValid

third : (allocate "p3" two).1 ≡ ok (lease 4)
unfolding run
third = refl

allocate-Leases_example : Leases "p3" two (allocate "p3" two).0 (lease 4)
allocate-Leases_example = allocate-Leases "p3" two (lease 4) two-IsValid third

allocate-exhausted_iff_example :
    ((allocate "p3" two).1 ≡ err pool_exhausted) ↔ ((h : ℕ) → IsHost h → IsTaken two h)
allocate-exhausted_iff_example = allocate-exhausted_iff "p3" two two-IsValid

fill-IsValid : (n : ℕ) (a : Allocator) → IsValid a → IsValid (fill n a)
unfolding fill
fill-IsValid ℕ.zero a v = v
fill-IsValid (suc n) a v = fill-IsValid n (allocate "p" a).0 (allocate-IsValid "p" a v)

in_use-exhausted_iff_example : ((allocate "p3" two).1 ≡ err pool_exhausted) ↔ (in_use two ≡ 253)
in_use-exhausted_iff_example = in_use-exhausted_iff "p3" two two-IsValid

InPool-unique_example : (◌≡◌ {A = String} "sgp" "sgp") × (false ≡ false)
unfolding run
InPool-unique_example =
    InPool-unique "sgp" "sgp" false false empty empty (lease 2).addr refl refl
      (2, (omega arith, omega arith), refl) (2, (omega arith, omega arith), refl)
