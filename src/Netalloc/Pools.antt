-- ===== src/Netalloc/Pools.antt =====
-- The pools of api/internal/netalloc/allocator.go that `New` gives out by node and protocol.
use snow_radar.Common.{
  String, ◌≡◌, ◌⊎◌, inl, inr, sym, Bool, Bool-cases, arith, some, ok, ◌==◌, string_eq, eq_iff,
  if◌then◌else◌,
}
use snow_radar.Netalloc.{Addr, Node, Allocator, host, new, find_node, default_nodes, sgp, fsn}
use snow_radar.Netalloc.Invariant.{InPool, new-initial}

pub find_node_cases :
    (node_id : String) (n : Node)
    → find_node node_id default_nodes ≡ some n
    → ((node_id ≡ "sgp") × (n ≡ sgp)) ⊎ ((node_id ≡ "fsn") × (n ≡ fsn))
unfolding find_node
find_node_cases node_id n e = elim (Bool-cases ("sgp" == node_id)) [
  | inl hit ↦
      inl (sym ((eq_iff "sgp" node_id).0 hit), let e' : some sgp ≡ some n = rw hit at e in cc)
  | inr miss ↦ elim (Bool-cases ("fsn" == node_id)) [
    | inl hit ↦
        inr (
          sym ((eq_iff "fsn" node_id).0 hit),
          let e' : some fsn ≡ some n = rw (miss, hit) at e in cc,
        )
    | inr lost ↦ cc (rw (miss, lost) at e)
  ]
]

-- The second octet names the node and the third one the protocol.
pub octets :
    (node_id : String) (stealth : Bool) (a : Allocator) (x : Addr)
    → new node_id stealth ≡ ok a
    → InPool a x
    → (((node_id ≡ "sgp") × (x.b ≡ 20)) ⊎ ((node_id ≡ "fsn") × (x.b ≡ 21)))
      × (x.c ≡ (if stealth then 1 else 0))
unfolding host
octets node_id stealth a x e (h, k, p) =
    let (n, hit, same) = new-initial node_id stealth a e in
    elim (find_node_cases node_id n hit) [
      | inl (id, is) ↦ ground arith
      | inr (id, is) ↦ ground arith
    ]

-- No address lies in two pools: neither in those of two nodes nor in both pools of one node.
pub InPool-unique :
    (node_id other_id : String) (stealth other_stealth : Bool) (a b : Allocator) (x : Addr)
    → new node_id stealth ≡ ok a
    → new other_id other_stealth ≡ ok b
    → InPool a x
    → InPool b x
    → (node_id ≡ other_id) × (stealth ≡ other_stealth)
InPool-unique node_id other_id stealth other_stealth a b x p q m n =
    ground (arith, octets node_id stealth a x p m, octets other_id other_stealth b x q n)
