-- ===== src/Common/Lists.antt =====
-- Lists over the native numbers, and predicates on lists by recursion.
use Prim.Native.Nat.{ℕ, suc, ◌+◌, ◌≤◌}
use mathlib.Core.Path.{◌≡◌, refl, sym, ◌∙◌}
use mathlib.Core.Logic.{◌⊎◌, inl, inr}
use mathlib.Core.List.{List, [], ◌∷◌, ◌++◌}
use native.Mathlib.Omega.{arith}

module _ {ℓ} {A : Type ℓ} where
  abbrev pub length : List A → ℕ
  length [] = 0
  length (x ∷ xs) = suc (length xs)

  pub length-append : (xs ys : List A) → length (xs ++ ys) ≡ length xs + length ys
  length-append [] ys = omega arith
  length-append (x ∷ xs) ys = omega (arith, length-append xs ys)

  abbrev pub All {κ} : (A → Type κ) → List A → Type κ
  All P [] = Unit
  All P (x ∷ xs) = P x × All P xs

-- Membership without truncation, for the keys and records of the program.
module _ {A : Type 0} where
  -- `a` stands in the list.
  abbrev pub In : A → List A → Type 0
  In a [] = ⊥
  In a (x ∷ xs) = (x ≡ a) ⊎ In a xs

  pub All-In {κ} : (P : A → Type κ) (xs : List A) (a : A) → All P xs → In a xs → P a
  All-In P [] a h m = absurd m
  All-In P (x ∷ xs) a h (inl e) = rw (← e) h.0
  All-In P (x ∷ xs) a h (inr m) = All-In P xs a h.1 m

  pub In-All_lem {κ} : (P : A → Type κ) (xs : List A) → ((a : A) → In a xs → P a) → All P xs
  In-All_lem P [] h = tt
  In-All_lem P (x ∷ xs) h = (h x (inl refl), In-All_lem P xs (λ a m. h a (inr m)))

  -- No two entries are equal.
  abbrev pub Distinct : List A → Type 0
  Distinct [] = Unit
  Distinct (x ∷ xs) = ¬ In x xs × Distinct xs

  remove : (xs : List A) (a : A) → In a xs → List A
  remove [] a m = []
  remove (x ∷ xs) a (inl e) = xs
  remove (x ∷ xs) a (inr m) = x ∷ remove xs a m

  length-remove : (xs : List A) (a : A) (m : In a xs) → length (remove xs a m) + 1 ≡ length xs
  unfolding remove
  length-remove [] a m = absurd m
  length-remove (x ∷ xs) a (inl e) = omega arith
  length-remove (x ∷ xs) a (inr m) = omega (arith, length-remove xs a m)

  In-remove : (xs : List A) (a b : A) (m : In a xs) → In b xs → ¬ (a ≡ b) → In b (remove xs a m)
  unfolding remove
  In-remove [] a b m n h = absurd m
  In-remove (x ∷ xs) a b (inl e) (inl f) h = absurd (h (sym e ∙ f))
  In-remove (x ∷ xs) a b (inl e) (inr n) h = n
  In-remove (x ∷ xs) a b (inr m) (inl f) h = inl f
  In-remove (x ∷ xs) a b (inr m) (inr n) h = inr (In-remove xs a b m n h)

  In-not-eq : (xs : List A) (a b : A) → ¬ In a xs → In b xs → ¬ (a ≡ b)
  In-not-eq xs a b h m e = h (rw e m)

  -- A list without repetition is no longer than a list that has all its entries.
  pub length-le_of_In :
      (xs ys : List A) → Distinct xs → ((a : A) → In a xs → In a ys) → length xs ≤ length ys
  length-le_of_In [] ys d h = omega arith
  length-le_of_In (x ∷ xs) ys d h =
      let m = h x (inl refl) in
      omega (
        arith,
        length-remove ys x m,
        length-le_of_In xs (remove ys x m) d.1
            (λ a n. In-remove ys x a m (h a (inr n)) (In-not-eq xs x a d.0 n)),
      )
