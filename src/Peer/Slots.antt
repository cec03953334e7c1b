-- ===== src/Peer/Slots.antt =====
-- The allocators of api/internal/peer/service.go as one map from slots to users. A slot is an address of one protocol on
-- one node.
use snow_radar.Common.{
  ok, subst, String, ◌≡◌, ◌↔◌, refl, ap, ◌∙◌, Bool, true, false, ◌&&◌, Option, none, some, arith,
  Eq, ◌==◌, string_eq, bool_eq, if◌then◌else◌, eq_iff, bool_beq_iff, Bool-cases, inl, inr,
  Option-cases,
}
use snow_radar.Common.Dict.{
  In-keys, Dict, lookup, insert, delete, lookup-insert, lookup-delete, insert-lookup,
}
use snow_radar.Netalloc.{new, prefix, host, Addr, addr_eq, addr_beq, addr_beq_iff, Allocator}
use snow_radar.Netalloc.Invariant.{IsValid, InPool}
use snow_radar.Store.{Peer}
use snow_radar.Peer.{Entry, choose, update}

pub record Slot : Type 0 where
  pub node_id : String
  pub stealth : Bool
  pub addr : Addr

abbrev pub slot_beq : Slot → Slot → Bool
slot_beq x y = x.node_id == y.node_id && (x.stealth == y.stealth && addr_beq x.addr y.addr)

pub slot_beq_iff : (x y : Slot) → (slot_beq x y ≡ true) ↔ (x ≡ y)
slot_beq_iff x y = (
  λ h. ground (
    arith,
    eq_iff x.node_id y.node_id,
    bool_beq_iff x.stealth y.stealth,
    addr_beq_iff x.addr y.addr,
  ),
  λ h. ground (
    arith,
    eq_iff x.node_id y.node_id,
    bool_beq_iff x.stealth y.stealth,
    addr_beq_iff x.addr y.addr,
  ),
)

instance abbrev pub slot_eq : Eq Slot
slot_eq = record { equal = slot_beq; equal_iff = slot_beq_iff }

abbrev pub slot_of : Peer → Slot
slot_of p = record { node_id = p.node_id; stealth = p.stealth; addr = p.address.addr }

holder_in : Option Entry → Bool → Addr → Option String
holder_in none stealth x = none
holder_in (some entry) stealth x = lookup x (choose stealth entry).held

-- The user that holds a slot.
pub holder : Slot → Dict String Entry → Option String
unfolding holder_in
holder t m = holder_in (lookup t.node_id m) t.stealth t.addr

-- The allocator hands out the addresses that `New` gives the node and the protocol.
abbrev pub IsPoolOf : String → Bool → Allocator → Type 0
IsPoolOf node_id stealth a = (o : Allocator) × (new node_id stealth ≡ ok o) × (prefix a ≡ prefix o)

pub record IsGood (node_id : String) (stealth : Bool) (a : Allocator) : Type 0 where
  pub valid : IsValid a
  pub pool : IsPoolOf node_id stealth a

abbrev pub AllGood : Dict String Entry → Type 0
AllGood m =
    (node_id : String) (entry : Entry) (stealth : Bool)
    → lookup node_id m ≡ some entry
    → IsGood node_id stealth (choose stealth entry)

pub update-choose : (b : Bool) (entry : Entry) → update b (choose b entry) entry ≡ entry
update-choose true entry = refl
update-choose false entry = refl

-- Writing back the allocator that is there changes nothing.
pub insert-unchanged :
    (node_id : String) (b : Bool) (entry : Entry) (m : Dict String Entry)
    → lookup node_id m ≡ some entry
    → insert node_id (update b (choose b entry) entry) m ≡ m
insert-unchanged node_id b entry m at_node =
    rw (update-choose b entry) (insert-lookup node_id entry m at_node)

holder_in-update :
    (b c : Bool) (a : Allocator) (entry : Entry) (x : Addr)
    → holder_in (some (update b a entry)) c x
      ≡ (if b == c then lookup x a.held else holder_in (some entry) c x)
unfolding holder_in
holder_in-update true true a entry x = refl
holder_in-update true false a entry x = refl
holder_in-update false true a entry x = refl
holder_in-update false false a entry x = refl

IsGood-update :
    (node_id : String) (b c : Bool) (a : Allocator) (entry : Entry)
    → IsGood node_id b a
    → IsGood node_id c (choose c entry)
    → IsGood node_id c (choose c (update b a entry))
IsGood-update node_id true true a entry v w = v
IsGood-update node_id true false a entry v w = w
IsGood-update node_id false true a entry v w = w
IsGood-update node_id false false a entry v w = v

module _ (node_id : String) (b : Bool) (a : Allocator) (entry : Entry) (m : Dict String Entry)
    (at_node : lookup node_id m ≡ some entry) where
  -- Replacing one allocator: the slots of the others are as before.
  holder-insert :
      (t : Slot)
      → holder t (insert node_id (update b a entry) m)
        ≡ (if node_id == t.node_id && b == t.stealth then lookup t.addr a.held else holder t m)
  unfolding holder
  holder-insert t = elim (Bool-cases (node_id == t.node_id)) [
    | inl same ↦
        let at_t : lookup t.node_id m ≡ some entry =
          rw ((eq_iff node_id t.node_id).0 same) at at_node in
        rw (lookup-insert node_id t.node_id (update b a entry) m, same, at_t)
          (holder_in-update b t.stealth a entry t.addr)
    | inr other ↦ rw (lookup-insert node_id t.node_id (update b a entry) m, other)
  ]

  pub holder-at :
      (t : Slot)
      → node_id ≡ t.node_id
      → b ≡ t.stealth
      → holder t m ≡ lookup t.addr (choose b entry).held
  unfolding holder
  holder-at t n c = rw (← n, ← c, at_node, holder) refl

  -- Leasing one address of an allocator.
  pub holder-lease :
      (x : Addr) (user_id : String) (t : Slot)
      → a.held ≡ insert x user_id (choose b entry).held
      → holder t (insert node_id (update b a entry) m) ≡ (
          if record { node_id = node_id; stealth = b; addr = x } == t
          then some user_id
          else holder t m)
  holder-lease x user_id t held = ground (
    arith,
    holder-insert t,
    holder-at t,
    ap (λ (d : Dict Addr String). lookup t.addr d) held,
    lookup-insert x t.addr user_id (choose b entry).held,
    eq_iff node_id t.node_id,
    bool_beq_iff b t.stealth,
  )

  -- Releasing one.
  pub holder-release :
      (x : Addr) (t : Slot)
      → a.held ≡ delete x (choose b entry).held
      → holder t (insert node_id (update b a entry) m)
        ≡ (if record { node_id = node_id; stealth = b; addr = x } == t then none else holder t m)
  holder-release x t held = ground (
    arith,
    holder-insert t,
    holder-at t,
    ap (λ (d : Dict Addr String). lookup t.addr d) held,
    lookup-delete x t.addr (choose b entry).held,
    eq_iff node_id t.node_id,
    bool_beq_iff b t.stealth,
  )

  pub AllGood-insert :
      IsValid a
      → prefix a ≡ prefix (choose b entry)
      → AllGood m
      → AllGood (insert node_id (update b a entry) m)
  AllGood-insert v p all n e c h = elim (Bool-cases (node_id == n)) [
    | inl same ↦
        let is : update b a entry ≡ e =
          ground (arith, lookup-insert node_id n (update b a entry) m) in
        let (o, new_o, pool) = (all node_id entry b at_node).pool in
        subst (λ x. IsGood x c (choose c e)) ((eq_iff node_id n).0 same)
          (subst (λ x. IsGood node_id c (choose c x)) is
            (IsGood-update node_id b c a entry (record { valid = v; pool = (o, new_o, p ∙ pool) })
              (all node_id entry c at_node)))
    | inr other ↦ all n e c (rw (lookup-insert node_id n (update b a entry) m, other) at h)
  ]

-- A held slot lies in an allocator of its node.
pub holder-some :
    (t : Slot) (user_id : String) (m : Dict String Entry)
    → holder t m ≡ some user_id
    → (entry : Entry) × (lookup t.node_id m ≡ some entry)
      × (lookup t.addr (choose t.stealth entry).held ≡ some user_id)
unfolding holder
holder-some t user_id m h = elim (Option-cases (lookup t.node_id m)) [
  | inl e ↦ cc (rw (e, holder) at h)
  | inr (entry, e) ↦ (entry, e, rw (e, holder) at h)
]

-- The address of a held slot is one of its node and protocol.
pub InPool-holder :
    (t : Slot) (user_id : String) (m : Dict String Entry)
    → AllGood m
    → holder t m ≡ some user_id
    → (o : Allocator) × (new t.node_id t.stealth ≡ ok o) × InPool o t.addr
InPool-holder t user_id m all h =
    let (entry, at_node, held) = holder-some t user_id m h in
    let good = all t.node_id entry t.stealth at_node in
    let (o, new_o, pool) = good.pool in
    let (k, is_host, e) =
      good.valid.held_pool t.addr (In-keys t.addr (choose t.stealth entry).held (λ f. cc)) in
    (o, new_o, (k, is_host, e ∙ ap (λ p. host p k) pool))
