-- ===== src/Common/Dict.antt =====
-- Go maps as association lists. A write replaces the entry of its key in place or adds one at the end,
-- so the keys of a map built by these operations are distinct. Iteration (`range`) goes
-- through the entries in the list's order.
use Prim.Native.Nat.{◌+◌}
use mathlib.Core.Path.{◌≡◌, refl}
use mathlib.Core.Logic.{◌≢◌, ◌⊎◌, inl, inr}
use mathlib.Core.Option
use mathlib.Core.Option.{Option, none, some}
use mathlib.Core.List.{List, [], ◌∷◌, ◌++◌}
use native.Mathlib.Omega.{arith}
use snow_radar.Common.Tests.{Eq, ◌==◌, if◌then◌else◌, Bool-cases}
use snow_radar.Common.Lists.{length, In, Distinct}

abbrev pub Dict {ℓ κ} : Type ℓ → Type κ → Type (ℓ ⊔ κ)
Dict K V = List (K × V)

module _ {ℓ κ} {K : Type ℓ} {V : Type κ} where
  abbrev pub keys : Dict K V → List K
  keys [] = []
  keys ((k, v) ∷ m) = k ∷ keys m

  abbrev pub values : Dict K V → List V
  values [] = []
  values ((k, v) ∷ m) = v ∷ values m

  unfoldable pub map_values : (V → V) → Dict K V → Dict K V
  map_values f [] = []
  map_values f ((k, v) ∷ m) = (k, f v) ∷ map_values f m

module _ {ℓ κ} {K : Type ℓ} {V : Type κ} ⦃e : Eq K⦄ where
  unfoldable pub lookup : K → Dict K V → Option V
  lookup key [] = none
  lookup key ((other, value) ∷ rest) = if other == key then some value else lookup key rest

  unfoldable pub delete : K → Dict K V → Dict K V
  delete k [] = []
  delete k ((j, v) ∷ m) = let rest = delete k m in if j == k then rest else (j, v) ∷ rest

  unfoldable pub insert : K → V → Dict K V → Dict K V
  insert key value [] = (key, value) ∷ []
  insert key value ((other, old) ∷ m) =
      let rest = insert key value m in
      if other == key then (key, value) ∷ m else (other, old) ∷ rest

  pub lookup-delete :
      (k j : K) (m : Dict K V) → lookup j (delete k m) ≡ (if k == j then none else lookup j m)
  unfolding lookup delete
  lookup-delete k j [] = ground arith
  lookup-delete k j ((i, v) ∷ m) =
      ground (arith, lookup-delete k j m, e.equal_iff i k, e.equal_iff i j, e.equal_iff k j)

  pub lookup-insert :
      (key read : K) (value : V) (m : Dict K V)
      → lookup read (insert key value m) ≡ (if key == read then some value else lookup read m)
  unfolding insert lookup
  lookup-insert key read value [] = ground arith
  lookup-insert key read value ((other, old) ∷ m) = ground (
    arith,
    e.equal_iff other key,
    e.equal_iff other read,
    e.equal_iff key read,
    lookup-insert key read value m,
  )

  -- Writing what is there changes nothing.
  pub insert-lookup : (k : K) (v : V) (m : Dict K V) → lookup k m ≡ some v → insert k v m ≡ m
  unfolding lookup insert
  insert-lookup k v [] h = cc
  insert-lookup k v ((i, w) ∷ m) h = ground (arith, insert-lookup k v m, e.equal_iff i k)

  pub lookup-insert_self : (k : K) (v : V) (m : Dict K V) → lookup k (insert k v m) ≡ some v
  lookup-insert_self k v m = rw (lookup-insert k k v m, (e.equal_iff k k).1 refl)

  pub lookup-insert_other :
      (k j : K) (v : V) (m : Dict K V) → k ≢ j → lookup j (insert k v m) ≡ lookup j m
  lookup-insert_other k j v m n = ground (arith, lookup-insert k j v m, e.equal_iff k j)

  pub lookup-map_values :
      (f : V → V) (k : K) (m : Dict K V) → lookup k (map_values f m) ≡ Option.map f (lookup k m)
  unfolding lookup map_values
  lookup-map_values f k [] = refl
  lookup-map_values f k ((j, v) ∷ m) = ground (arith, lookup-map_values f k m)

module _ {κ} {K : Type 0} {V : Type κ} ⦃e : Eq K⦄ where
  pub lookup-none : (k : K) (m : Dict K V) → ¬ In k (keys m) → lookup k m ≡ none
  unfolding lookup
  lookup-none k [] h = refl
  lookup-none k ((j, v) ∷ m) h = ground (arith, e.equal_iff j k, lookup-none k m)

  pub In-keys : (k : K) (m : Dict K V) → lookup k m ≢ none → In k (keys m)
  unfolding lookup
  In-keys k [] h = absurd (h refl)
  In-keys k ((j, v) ∷ m) h = elim (Bool-cases (j == k)) [
    | inl same ↦ inl ((e.equal_iff j k).0 same)
    | inr other ↦ inr (In-keys k m (rw other at h))
  ]

  pub lookup-ne-none : (k : K) (m : Dict K V) → In k (keys m) → lookup k m ≢ none
  unfolding lookup
  lookup-ne-none k [] h = absurd h
  lookup-ne-none k ((j, v) ∷ m) h = ground (arith, e.equal_iff j k, lookup-ne-none k m)

  pub In-keys-delete : (k j : K) (m : Dict K V) → In j (keys (delete k m)) → In j (keys m)
  unfolding delete
  In-keys-delete k j [] h = h
  In-keys-delete k j ((i, v) ∷ m) h = ground (arith, In-keys-delete k j m)

  pub not-In-keys-delete : (k : K) (m : Dict K V) → ¬ In k (keys (delete k m))
  unfolding delete
  not-In-keys-delete k [] h = h
  not-In-keys-delete k ((i, v) ∷ m) h = ground (arith, e.equal_iff i k, not-In-keys-delete k m)

  pub Distinct-delete : (k : K) (m : Dict K V) → Distinct (keys m) → Distinct (keys (delete k m))
  unfolding delete
  Distinct-delete k [] h = h
  Distinct-delete k ((i, v) ∷ m) h = elim (Bool-cases (i == k)) [
    | inl same ↦ rw same (Distinct-delete k m h.1)
    | inr other ↦ rw other ((λ x. h.0 (In-keys-delete k i m x)), Distinct-delete k m h.1)
  ]

  pub In-keys-insert :
      (k j : K) (v : V) (m : Dict K V) → In j (keys (insert k v m)) → (k ≡ j) ⊎ In j (keys m)
  unfolding insert
  In-keys-insert k j v [] (inl e) = inl e
  In-keys-insert k j v [] (inr none') = absurd none'
  In-keys-insert k j v ((i, w) ∷ m) h = ground (arith, In-keys-insert k j v m)

  -- A write keeps the keys distinct.
  pub Distinct-insert :
      (k : K) (v : V) (m : Dict K V) → Distinct (keys m) → Distinct (keys (insert k v m))
  unfolding insert
  Distinct-insert k v [] h = (λ m. m, tt)
  Distinct-insert k v ((i, w) ∷ m) h = elim (Bool-cases (i == k)) [
    | inl same ↦ rw same (rw (← (e.equal_iff i k).0 same) h)
    | inr other ↦ rw other (
      λ x. elim (In-keys-insert k i v m x) [
        | inl eq ↦ ground (arith, e.equal_iff i k)
        | inr old ↦ h.0 old
      ],
      Distinct-insert k v m h.1,
    )
  ]

  delete_absent : (k : K) (m : Dict K V) → ¬ In k (keys m) → delete k m ≡ m
  unfolding delete
  delete_absent k [] h = refl
  delete_absent k ((i, v) ∷ m) h = ground (arith, e.equal_iff i k, delete_absent k m)

  pub length-insert :
      (k : K) (v : V) (m : Dict K V) → lookup k m ≡ none → length (insert k v m) ≡ length m + 1
  unfolding insert lookup
  length-insert k v [] h = omega arith
  length-insert k v ((i, w) ∷ m) h = ground (arith, length-insert k v m)

  -- Deleting a key that is held makes a map smaller by one.
  pub length-delete :
      (k : K) (m : Dict K V)
      → Distinct (keys m)
      → lookup k m ≢ none
      → length (delete k m) + 1 ≡ length m
  unfolding delete lookup
  length-delete k [] d h = absurd (h refl)
  length-delete k ((i, v) ∷ m) d h = elim (Bool-cases (i == k)) [
    | inl same ↦ rw (same, delete_absent k m (rw ((e.equal_iff i k).0 same) at d.0)) (omega arith)
    | inr other ↦ rw other (omega (arith, length-delete k m d.1 (rw other at h)))
  ]

module _ {K V : Type 0} ⦃e : Eq K⦄ where
  pub In-values : (k : K) (v : V) (m : Dict K V) → lookup k m ≡ some v → In v (values m)
  unfolding lookup
  In-values k v [] h = cc
  In-values k v ((j, w) ∷ m) h = elim (Bool-cases (j == k)) [
    | inl same ↦ inl (ground arith)
    | inr other ↦ inr (In-values k v m (rw other at h))
  ]

  -- Each value of a map with distinct keys is found under a key.
  pub key_of_value :
      (v : V) (m : Dict K V) → Distinct (keys m) → In v (values m) → (k : K) × (lookup k m ≡ some v)
  unfolding lookup
  key_of_value v [] d h = absurd h
  key_of_value v ((j, w) ∷ m) d (inl same) = (j, rw ((e.equal_iff j j).1 refl) (ground arith))
  key_of_value v ((j, w) ∷ m) d (inr later) =
      let (k, at_k) = key_of_value v m d.1 later in
      (
        k,
        elim (Bool-cases (j == k)) [
          | inl same ↦ absurd (d.0 (rw ((e.equal_iff j k).0 same) (In-keys k m (λ f. cc))))
          | inr other ↦ rw other at_k
        ],
      )

  -- A new key's value comes last.
  pub values-insert_new :
      (k : K) (v : V) (m : Dict K V)
      → lookup k m ≡ none
      → values (insert k v m) ≡ values m ++ v ∷ []
  unfolding lookup insert
  values-insert_new k v [] h = refl
  values-insert_new k v ((i, w) ∷ m) h = ground (arith, values-insert_new k v m)
