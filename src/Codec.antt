-- ===== src/Codec.antt =====
-- encoding/hex and encoding/base64 of Go's library, as far as the program uses them: lower case
-- hexadecimal, and base64 with the standard or the URL alphabet, padded or raw. A text is read by
-- its characters; one outside ASCII stands in no alphabet, so it is refused as its bytes would be.
pub mod RoundTrip
pub mod Letters
use Prim.Native.Char.{Char, code}
use Prim.Native.String.{char_at}
use snow_radar.Common.Texts.{codes}
use snow_radar.Common.{
  ℕ, suc, ◌+◌, ◌*◌, ◌/◌, ◌%◌, String, ◌≡◌, refl, Bool, true, false, ◌||◌, ◌&&◌, ◌++◌, Option, none,
  some, List, [], ◌∷◌, ◌==◌, nat_eq, if◌then◌else◌, leb,
}

unfoldable pub hex_encode : List ℕ → String
hex_encode [] = ""
hex_encode (b ∷ bs) =
    String.◌∷◌ (char_at "0123456789abcdef" (b / 16))
      (String.◌∷◌ (char_at "0123456789abcdef" (b % 16)) (hex_encode bs))

pub record Encoding : Type 0 where
  pub alphabet : String
  pub padded : Bool

abbrev pub std_encoding : Encoding
std_encoding = record {
  alphabet = "ABCDEFGHIJKLMNOPQRSTUVWXYZabcdefghijklmnopqrstuvwxyz0123456789+/";
  padded = true;
}

abbrev pub raw_std_encoding : Encoding
raw_std_encoding = record std_encoding { padded = false }

abbrev pub raw_url_encoding : Encoding
raw_url_encoding = record {
  alphabet = "ABCDEFGHIJKLMNOPQRSTUVWXYZabcdefghijklmnopqrstuvwxyz0123456789-_";
  padded = false;
}

unfoldable pub letter : Encoding → ℕ → Char
letter e n = char_at e.alphabet n

pad : Encoding → String → String
pad e s = if e.padded then s else ""

unfoldable pub encode_to_string : Encoding → List ℕ → String
unfolding letter pad
encode_to_string e [] = ""
encode_to_string e (x ∷ []) =
    String.◌∷◌ (letter e (x / 4)) (String.◌∷◌ (letter e (x % 4 * 16)) (pad e "=="))
encode_to_string e (x ∷ y ∷ []) =
    String.◌∷◌ (letter e (x / 4))
      (String.◌∷◌ (letter e (x % 4 * 16 + y / 16)) (String.◌∷◌ (letter e (y % 16 * 4)) (pad e "=")))
encode_to_string e (x ∷ y ∷ z ∷ rest) = String.◌∷◌ (letter e (x / 4)) (
    String.◌∷◌ (letter e (x % 4 * 16 + y / 16)) (
      String.◌∷◌ (letter e (y % 16 * 4 + z / 64))
        (String.◌∷◌ (letter e (z % 64)) (encode_to_string e rest))))

-- The place of a character in an alphabet: the table that the decoder looks up.
position : ℕ → List ℕ → ℕ → Option ℕ
position c [] i = none
position c (a ∷ as') i = if a == c then some i else position c as' (i + 1)

unfoldable pub sextet : Encoding → ℕ → Option ℕ
unfolding position
sextet e c = position c (codes e.alphabet) 0

infixl 5 ◌>>=◌
abbrev pub ◌>>=◌ {ℓ κ} : {A : Type ℓ} {B : Type κ} → Option A → (A → Option B) → Option B
none >>= f = none
some a >>= f = f a

one_byte : Encoding → ℕ → ℕ → Option (List ℕ)
one_byte e a b = do x ← sextet e a; y ← sextet e b; some ((x * 4 + y / 16) ∷ [])

two_bytes : Encoding → ℕ → ℕ → ℕ → Option (List ℕ)
two_bytes e a b c = do
  x ← sextet e a
  y ← sextet e b
  z ← sextet e c
  some ((x * 4 + y / 16) ∷ (y % 16 * 16 + z / 4) ∷ [])

-- The last quantum of a padded text, which ends in `=` or `==`.
padded_end : Encoding → ℕ → ℕ → ℕ → ℕ → Option (List ℕ)
unfolding one_byte two_bytes
padded_end e a b c d =
    if e.padded && d == b'=' then if c == b'=' then one_byte e a b else two_bytes e a b c else none

full_quantum : Encoding → ℕ → ℕ → ℕ → ℕ → Option (List ℕ)
full_quantum e a b c d = do
  x ← sextet e a
  y ← sextet e b
  z ← sextet e c
  w ← sextet e d
  some ((x * 4 + y / 16) ∷ (y % 16 * 16 + z / 4) ∷ (z % 4 * 64 + w) ∷ [])

-- The quanta of a text without line breaks. Unused bits of the last letter are not looked at.
quanta : Encoding → List ℕ → Option (List ℕ)
unfolding one_byte two_bytes padded_end full_quantum
quanta e [] = some []
quanta e (a ∷ []) = none
quanta e (a ∷ b ∷ []) = if e.padded then none else one_byte e a b
quanta e (a ∷ b ∷ c ∷ []) = if e.padded then none else two_bytes e a b c
quanta e (a ∷ b ∷ c ∷ d ∷ []) = elim (full_quantum e a b c d) [
  | some bytes ↦ some bytes
  | none ↦ padded_end e a b c d
]
quanta e (a ∷ b ∷ c ∷ d ∷ x ∷ rest) = do
  bytes ← full_quantum e a b c d
  more ← quanta e (x ∷ rest)
  some (bytes ++ more)

is_break : ℕ → Bool
is_break c = c == 10 || c == 13

strip_breaks : List ℕ → List ℕ
unfolding is_break
strip_breaks [] = []
strip_breaks (c ∷ cs) = let rest = strip_breaks cs in if is_break c then rest else c ∷ rest

unfoldable pub decode_string : Encoding → String → Option (List ℕ)
unfolding quanta strip_breaks
decode_string e s = quanta e (strip_breaks (codes s))
