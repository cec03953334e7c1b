-- ===== src/Common/Texts.antt =====
-- Go's `+` on texts and the decimal verb of `fmt`.
use Prim.Native.String
use Prim.Native.String.{String, char_at}
use Prim.Native.Nat.{ℕ, zero, suc, ◌+◌, ◌/◌, ◌%◌}
use Prim.Native.Char.{Char, code}
use mathlib.Core.Bool.{Bool, true, false}
use mathlib.Core.List.{List, [], ◌∷◌, ◌++◌}
use mathlib.Core.Option.{Option, none, some}
use snow_radar.Common.Tests.{ltb, nat_beq, if◌then◌else◌}

unfoldable pub concat : List String → String
concat [] = ""
concat (s ∷ ss) = String.◌++◌ s (concat ss)

-- The digits of a number in front of a text. A number `n` has at most `n + 1` of them.
unfoldable pub digits : ℕ → ℕ → String → String
digits zero n rest = rest
digits (suc fuel) n rest =
    let s = String.◌∷◌ (char_at "0123456789" (n % 10)) rest in
    let more = digits fuel (n / 10) s in if ltb n 10 then s else more

unfoldable pub decimal : ℕ → String
unfolding digits
decimal n = digits (n + 1) n ""

-- The code points of a text.
abbrev pub codes : String → List ℕ
codes String.[] = []
codes (String.◌∷◌ first rest) = code first ∷ codes rest

-- `[]byte(s)`: the UTF-8 of a text.
utf8 : ℕ → List ℕ
utf8 c =
    if ltb c 0x80
    then c ∷ []
    else if ltb c 0x800
    then (0xC0 + c / 64) ∷ (0x80 + c % 64) ∷ []
    else if ltb c 0x10000
    then (0xE0 + c / 4096) ∷ (0x80 + c / 64 % 64) ∷ (0x80 + c % 64) ∷ []
    else (0xF0 + c / 262144) ∷ (0x80 + c / 4096 % 64) ∷ (0x80 + c / 64 % 64) ∷ (0x80 + c % 64) ∷ []

unfoldable pub bytes : String → List ℕ
unfolding utf8
bytes String.[] = []
bytes (String.◌∷◌ c s) = utf8 (code c) ++ bytes s

-- A separator at a character, or the character in front of what the rest gives.
cut_here : Bool → Char → String → Option (String × String) → Option (String × String)
cut_here true c s rest = some ("", s)
cut_here false c s none = none
cut_here false c s (some (before, after)) = some (String.◌∷◌ c before, after)

-- `strings.Cut(s, sep)` at a separator of one byte: what stands before and after the first one.
unfoldable pub cut : ℕ → String → Option (String × String)
unfolding cut_here
cut sep String.[] = none
cut sep (String.◌∷◌ c s) = cut_here (nat_beq (code c) sep) c s (cut sep s)
