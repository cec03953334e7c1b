-- ===== src/Auth/Passwords/Samples.antt =====
-- A small key derivation in the place of the library, for the tests.
use snow_radar.Common.{
  ℕ, zero, suc, ◌+◌, ◌%◌, ◌<◌, ◌≤◌, ◌≡◌, refl, Option, none, some, List, [], ◌∷◌, arith, All,
  length, leb, ◌&&◌, if◌then◌else◌,
}
use snow_radar.Codec.RoundTrip.{IsByte}
use snow_radar.Auth.Passwords.{Argon2}

unfoldable pub copies : ℕ → ℕ → List ℕ
copies zero b = []
copies (suc n) b = b ∷ copies n b

length-copies : (n b : ℕ) → length (copies n b) ≡ n
unfolding copies
length-copies zero b = refl
length-copies (suc n) b = omega (arith, length-copies n b)

copies-IsByte : (n b : ℕ) → b < 256 → All IsByte (copies n b)
unfolding copies
copies-IsByte zero b h = tt
copies-IsByte (suc n) b h = (h, copies-IsByte n b h)

abbrev pub mark_of : List ℕ → List ℕ → ℕ → ℕ → ℕ → ℕ → Option (List ℕ)
mark_of password salt time memory threads size =
    if leb 1 time && (leb 1 threads && leb 1 size)
    then some (copies size ((length password + length salt + time + memory + threads) % 256))
    else none

pub mark_of-some :
    (password salt : List ℕ) (time memory threads size : ℕ)
    → 1 ≤ time
    → 1 ≤ threads
    → 1 ≤ size
    → (key : List ℕ) × (mark_of password salt time memory threads size ≡ some key)
      × (length key ≡ size)
      × All IsByte key
mark_of-some password salt time memory threads size a b c =
    let mark = (length password + length salt + time + memory + threads) % 256 in
    (copies size mark, ground arith, length-copies size mark, copies-IsByte size mark (omega arith))

-- A key of one byte repeated, which depends on the lengths and on the costs.
abbrev pub marks : Argon2
marks = record {
  version = 19;
  id_key = mark_of;
  version-lt = omega arith;
  id_key-some = mark_of-some;
}
