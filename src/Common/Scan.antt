-- ===== src/Common/Scan.antt =====
-- Go's `fmt.Sscanf` for the verb %d, and the splitting of texts, as far as the program uses them.
-- A text is read by its characters.
pub mod Decimals
use Prim.Native.Char.{Char, code}
use Prim.Native.String
use Prim.Native.String.{String, char_at}
use Prim.Native.Nat.{ℕ, zero, suc, ◌+◌, ◌-◌, ◌*◌, ◌/◌, ◌%◌, ◌^◌, ◌<◌, ◌≤◌}
use mathlib.Core.Path.{◌≡◌, refl, ap, ◌∙◌}
use mathlib.Core.Bool.{Bool, true, false, ◌&&◌, ◌||◌}
use mathlib.Core.List.{List, [], ◌∷◌}
use mathlib.Core.Option.{Option, none, some}
use mathlib.Core.Logic.{inl, inr}
use native.Mathlib.Omega.{arith}
use text.Mathlib.TextLemmas.{cons-append, nil-append}
use snow_radar.Common.Tests.{ltb, leb, nat_beq, if◌then◌else◌, Bool-cases}
use snow_radar.Common.Finite.{up_to, up_to_sound}
use snow_radar.Common.Texts.{digits, decimal}

-- The integers.
pub data ℤ : Type 0 where
  pos : ℕ → ℤ
  negsuc : ℕ → ℤ

-- `strings.TrimPrefix` where `strings.HasPrefix` holds, and none where it does not.
unfoldable pub trim_prefix : String → String → Option String
trim_prefix String.[] s = some s
trim_prefix (String.◌∷◌ p ps) String.[] = none
trim_prefix (String.◌∷◌ p ps) (String.◌∷◌ c s) =
    let rest = trim_prefix ps s in if nat_beq (code p) (code c) then rest else none

-- A character that belongs to the first piece.
abbrev pub push : Char → List String → List String
push c [] = String.◌∷◌ c "" ∷ []
push c (piece ∷ pieces) = String.◌∷◌ c piece ∷ pieces

-- `strings.Split` at a separator of one byte.
unfoldable pub split : ℕ → String → List String
split sep String.[] = "" ∷ []
split sep (String.◌∷◌ c s) =
    let rest = split sep s in if nat_beq (code c) sep then "" ∷ rest else push c rest

unfoldable pub is_digit : ℕ → Bool
is_digit c = leb 48 c && leb c 57

-- The white space of `fmt`, which is that of Unicode.
unfoldable pub is_space : ℕ → Bool
is_space c =
    (leb 9 c && leb c 13)
    || (nat_beq c 32
        || (nat_beq c 0x85
            || (nat_beq c 0xA0
                || (nat_beq c 0x1680
                    || ((leb 0x2000 c && leb c 0x200A)
                        || (nat_beq c 0x2028
                            || (nat_beq c 0x2029
                                || (nat_beq c 0x202F
                                    || (nat_beq c 0x205F || nat_beq c 0x3000)))))))))

-- `strings.TrimSpace`
unfoldable pub trim_left : String → String
trim_left String.[] = ""
trim_left (String.◌∷◌ c s) =
    let rest = trim_left s in if is_space (code c) then rest else String.◌∷◌ c s

put_front : Char → String → String
put_front c String.[] = if is_space (code c) then "" else String.◌∷◌ c ""
put_front c (String.◌∷◌ d s) = String.◌∷◌ c (String.◌∷◌ d s)

unfoldable pub trim_right : String → String
unfolding put_front
trim_right String.[] = ""
trim_right (String.◌∷◌ c s) = put_front c (trim_right s)

unfoldable pub trim_space : String → String
trim_space s = trim_right (trim_left s)

-- `SkipSpace`, which a line break ends with an error.
unfoldable pub skip_space : String → Option String
skip_space String.[] = some ""
skip_space (String.◌∷◌ c s) =
    let rest = skip_space s in
    if nat_beq (code c) 10 then none else if is_space (code c) then rest else some (String.◌∷◌ c s)

-- The value of the digits at the front, after a value read so far, and what stands behind them.
unfoldable pub scan_digits : ℕ → String → ℕ × String
scan_digits acc String.[] = (acc, "")
scan_digits acc (String.◌∷◌ c s) =
    let rest = scan_digits (acc * 10 + (code c - 48)) s in
    if is_digit (code c) then rest else (acc, String.◌∷◌ c s)

-- `scanNumber`: at least one digit.
unfoldable pub scan_number : String → Option (ℕ × String)
unfolding scan_digits
scan_number String.[] = none
scan_number (String.◌∷◌ c s) =
    if is_digit (code c) then some (scan_digits 0 (String.◌∷◌ c s)) else none

-- An unsigned number below a bound.
pub bounded : ℕ → Option (ℕ × String) → Option (ℕ × String)
bounded bound none = none
bounded bound (some (n, rest)) = if ltb n bound then some (n, rest) else none

-- %d into an unsigned integer of a width.
unfoldable pub scan_uint : ℕ → String → Option (ℕ × String)
unfolding bounded
scan_uint width s = elim (skip_space s) [
  | none ↦ none
  | some t ↦ bounded (2 ^ width) (scan_number t)
]

-- A number of 64 bits, with its sign.
pub signed : Bool → Option (ℕ × String) → Option (ℤ × String)
signed minus none = none
signed false (some (n, rest)) = if ltb n (2 ^ 63) then some (pos n, rest) else none
signed true (some (zero, rest)) = some (pos 0, rest)
signed true (some (suc n, rest)) = if ltb n (2 ^ 63) then some (negsuc n, rest) else none

-- The sign, if there is one.
unfoldable pub scan_signed : String → Option (ℤ × String)
unfolding signed
scan_signed String.[] = none
scan_signed (String.◌∷◌ c s) =
    if nat_beq (code c) b'-'
    then signed true (scan_number s)
    else if nat_beq (code c) b'+'
    then signed false (scan_number s)
    else signed false (scan_number (String.◌∷◌ c s))

-- %d into an integer of 64 bits.
unfoldable pub scan_int : String → Option (ℤ × String)
scan_int s = elim (skip_space s) [ none ↦ none | some t ↦ scan_signed t ]
