-- ===== src/Common/Finite.antt =====
-- Proofs by a test of finitely many numbers.
use Prim.Native.Nat.{ℕ, zero, suc, ◌<◌}
use mathlib.Core.Path.{◌≡◌}
use mathlib.Core.Bool.{Bool, true, ◌&&◌}
use native.Mathlib.Omega.{arith}

-- A test of the numbers below a bound, one by one.
unfoldable pub up_to : ℕ → (ℕ → Bool) → Bool
up_to zero test = true
up_to (suc bound) test = let rest = up_to bound test in rest && test bound

pub up_to_sound :
    (bound : ℕ) (test : ℕ → Bool) (n : ℕ) → n < bound → up_to bound test ≡ true → test n ≡ true
unfolding up_to
up_to_sound zero test n below all = absurd (omega arith)
up_to_sound (suc bound) test n below all = ground (arith, up_to_sound bound test n)
