-- ===== src/Codec/Letters.antt =====
-- The characters of an encoded text.
use Prim.Native.Char.{code}
use text.Mathlib.TextLemmas.{cons-ne-nil}
use snow_radar.Common.{
  ℕ, ◌+◌, ◌*◌, ◌/◌, ◌%◌, ◌<◌, ◌≡◌, ◌≢◌, refl, Bool, true, false, List, [], ◌∷◌, String, arith, All,
  ◌==◌, nat_eq, not,
}
use snow_radar.Common.Texts.{codes}
use snow_radar.Codec.{Encoding, raw_std_encoding, raw_url_encoding, letter, encode_to_string, pad}
use snow_radar.Codec.RoundTrip.{IsByte}
use snow_radar.Common.Finite.{up_to, up_to_sound}

-- The encoding has no character of that code.
abbrev pub IsFree : Encoding → ℕ → Type 0
IsFree e sep = (n : ℕ) → n < 64 → code (letter e n) ≢ sep

free_letter : Encoding → ℕ → ℕ → Bool
free_letter e sep n = not (code (letter e n) == sep)

IsFree-table : (e : Encoding) (sep : ℕ) → up_to 64 (free_letter e sep) ≡ true → IsFree e sep
unfolding free_letter
IsFree-table e sep h n l f =
    let t : free_letter e sep n ≡ true = up_to_sound 64 (free_letter e sep) n l h in ground arith

pub raw_url-IsFree_dot : IsFree raw_url_encoding b'.'
unfolding up_to free_letter letter
raw_url-IsFree_dot = IsFree-table raw_url_encoding b'.' refl

pub raw_std-IsFree_dollar : IsFree raw_std_encoding b'$'
unfolding up_to free_letter letter
raw_std-IsFree_dollar = IsFree-table raw_std_encoding b'$' refl

pad-free :
    (e : Encoding) (sep : ℕ) (s : String) → e.padded ≡ false → All (λ c. c ≢ sep) (codes (pad e s))
unfolding pad
pad-free e sep s p = simp p tt

-- Without padding, encoded bytes are letters of the alphabet alone.
pub encode-free :
    (e : Encoding) (sep : ℕ) (bs : List ℕ)
    → e.padded ≡ false
    → IsFree e sep
    → All IsByte bs
    → All (λ c. c ≢ sep) (codes (encode_to_string e bs))
unfolding encode_to_string
encode-free e sep [] p f h = tt
encode-free e sep (x ∷ []) p f h =
    (f (x / 4) (omega arith), (f (x % 4 * 16) (omega arith), pad-free e sep "==" p))
encode-free e sep (x ∷ y ∷ []) p f h = (
  f (x / 4) (omega arith),
  (f (x % 4 * 16 + y / 16) (omega arith), (f (y % 16 * 4) (omega arith), pad-free e sep "=" p)),
)
encode-free e sep (x ∷ y ∷ z ∷ rest) p f h = (
  f (x / 4) (omega arith),
  (
    f (x % 4 * 16 + y / 16) (omega arith),
    (
      f (y % 16 * 4 + z / 64) (omega arith),
      (f (z % 64) (omega arith), encode-free e sep rest p f h.1.1.1),
    ),
  ),
)

-- The text of some bytes is not empty.
pub encode-ne-nil : (e : Encoding) (x : ℕ) (bs : List ℕ) → encode_to_string e (x ∷ bs) ≢ ""
unfolding encode_to_string
encode-ne-nil e x [] = cons-ne-nil _ _
encode-ne-nil e x (y ∷ []) = cons-ne-nil _ _
encode-ne-nil e x (y ∷ z ∷ bs) = cons-ne-nil _ _
