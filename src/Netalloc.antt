-- ===== src/Netalloc.antt =====
-- api/internal/netalloc/allocator.go: leases of tunnel addresses from the pool of one node.
-- A call runs under the allocator's mutex, so it is one step from state to state.
pub mod Search
pub mod Invariant
pub mod Leases
pub mod Capacity
pub mod Pools
mod Tests
use snow_radar.Common.{
  ℕ, zero, suc, ◌+◌, ◌%◌, String, ◌≡◌, ◌↔◌, refl, Bool, true, false, ◌&&◌, Option, none, some, List,
  [], ◌∷◌, arith, Eq, ◌==◌, nat_eq, string_eq, if◌then◌else◌, ltb, Result, ok, err, length,
}
use snow_radar.Common.Dict.{Dict, lookup, insert, delete}

-- net/netip: an IPv4 address by its octets, and a prefix.
pub record Addr : Type 0 where
  pub a : ℕ
  pub b : ℕ
  pub c : ℕ
  pub d : ℕ

pub record Prefix : Type 0 where
  pub addr : Addr
  pub bits : ℕ

abbrev pub addr_beq : Addr → Addr → Bool
addr_beq x y = x.a == y.a && (x.b == y.b && (x.c == y.c && x.d == y.d))

pub addr_beq_iff : (x y : Addr) → (addr_beq x y ≡ true) ↔ (x ≡ y)
addr_beq_iff x y = (λ h. ground arith, λ h. ground arith)

instance abbrev pub addr_eq : Eq Addr
addr_eq = record { equal = addr_beq; equal_iff = addr_beq_iff }

pub data AllocError : Type 0 where
  pool_exhausted unknown_node not_held : AllocError

pub record Node : Type 0 where
  pub id : String
  pub wg_prefix : Prefix
  pub awg_prefix : Prefix

abbrev pub must_prefix : ℕ → ℕ → ℕ → ℕ → ℕ → Prefix
must_prefix a b c d bits = record { addr = record { a = a; b = b; c = c; d = d }; bits = bits }

abbrev pub sgp : Node
sgp = record {
  id = "sgp";
  wg_prefix = must_prefix 10 20 0 0 24;
  awg_prefix = must_prefix 10 20 1 0 24;
}

abbrev pub fsn : Node
fsn = record {
  id = "fsn";
  wg_prefix = must_prefix 10 21 0 0 24;
  awg_prefix = must_prefix 10 21 1 0 24;
}

abbrev pub default_nodes : List Node
default_nodes = sgp ∷ fsn ∷ []

-- The head of `free` is the end of the source's slice.
pub record Allocator : Type 0 where
  pub node : Node
  pub stealth : Bool
  pub held : Dict Addr String
  pub free : List Addr
  pub next : ℕ

-- The loop of `New` over the table of nodes.
unfoldable pub find_node : String → List Node → Option Node
find_node node_id [] = none
find_node node_id (n ∷ ns) = if n.id == node_id then some n else find_node node_id ns

unfoldable pub new : String → Bool → Result AllocError Allocator
unfolding find_node
new node_id stealth = elim (find_node node_id default_nodes) [
  | none ↦ err unknown_node
  | some n ↦ ok (record { node = n; stealth = stealth; held = []; free = []; next = 2 })
]

abbrev pub prefix : Allocator → Prefix
prefix a = if a.stealth then a.node.awg_prefix else a.node.wg_prefix

-- `a.next++; if a.next > 254 { a.next = 2 }`
unfoldable pub advance : ℕ → ℕ
advance next = if ltb 254 (next + 1) then 2 else next + 1

-- `netip.AddrFrom4` of the pool's first three octets and `byte(octet)`
unfoldable pub host : Prefix → ℕ → Addr
host base octet = record base.addr { d = octet % 256 }

-- The loop of `Allocate`, with the number of rounds that are left.
unfoldable pub search : ℕ → String → Allocator → Allocator × Result AllocError Prefix
search zero peer_id a = (a, err pool_exhausted)
search (suc rounds) peer_id a =
    let octet = a.next in
    let moved : Allocator = record a { next = advance octet } in
    let addr = host (prefix a) octet in
    elim (lookup addr a.held) [
      | none ↦ (
        record moved { held = insert addr peer_id a.held },
        ok (record { addr = addr; bits = (prefix a).bits }),
      )
      | some taken ↦ search rounds peer_id moved
    ]

unfoldable pub allocate_from : List Addr → String → Allocator → Allocator × Result AllocError Prefix
allocate_from (addr ∷ rest) peer_id a = (
  record a { free = rest; held = insert addr peer_id a.held },
  ok (record { addr = addr; bits = (prefix a).bits }),
)
allocate_from [] peer_id a = search 253 peer_id a

unfoldable pub allocate : String → Allocator → Allocator × Result AllocError Prefix
unfolding allocate_from
allocate peer_id a = allocate_from a.free peer_id a

unfoldable pub release : Prefix → String → Allocator → Allocator × Option AllocError
release lease peer_id a = elim (lookup lease.addr a.held) [
  | none ↦ (a, some not_held)
  | some owner ↦
      if owner == peer_id
      then (record a { held = delete lease.addr a.held; free = lease.addr ∷ a.free }, none)
      else (a, some not_held)
]

-- A missing key reads as the empty text.
unfoldable pub held_by : Prefix → Allocator → String
held_by lease a = elim (lookup lease.addr a.held) [ none ↦ "" | some owner ↦ owner ]

unfoldable pub in_use : Allocator → ℕ
in_use a = length a.held
