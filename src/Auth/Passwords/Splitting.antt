-- ===== src/Auth/Passwords/Splitting.antt =====
-- Texts that are put together with dollar signs, taken apart again.
use Prim.Native.String
use Prim.Native.String.{String, char_at}
use text.Mathlib.TextLemmas.{cons-append, nil-append}
use snow_radar.Common.{◌≡◌, ◌≢◌, refl, List, [], ◌∷◌, arith, All}
use snow_radar.Common.Texts.{concat, codes}
use snow_radar.Common.Scan.{split}

abbrev pub IsWhole : String → Type 0
IsWhole s = All (λ c. c ≢ b'$') (codes s)

split-past :
    (a s p : String) (ps : List String)
    → IsWhole a
    → split b'$' s ≡ p ∷ ps
    → split b'$' (String.◌++◌ a s) ≡ String.◌++◌ a p ∷ ps
unfolding split
split-past String.[] s p ps h e = rw (nil-append s, nil-append p) e
split-past (String.◌∷◌ c a) s p ps h e =
    rw (cons-append c a s, cons-append c a p, split, split-past a s p ps h.1 e)
      (ground (arith, h.0))

pub split-dollar : (s : String) → split b'$' (String.◌++◌ "$" s) ≡ "" ∷ split b'$' s
unfolding split
split-dollar s = rw (cons-append (char_at "$" 0) "" s, nil-append s) refl

-- Texts in front of a text.
unfoldable pub over : List String → String → String
over [] s = s
over (a ∷ as') s = String.◌++◌ a (over as' s)

pub split-over :
    (parts : List String) (s : String) (ps : List String)
    → All IsWhole parts
    → split b'$' s ≡ "" ∷ ps
    → split b'$' (over parts s) ≡ concat parts ∷ ps
unfolding over concat
split-over [] s ps h e = e
split-over (a ∷ as') s ps h e =
    split-past a (over as' s) (concat as') ps h.0 (split-over as' s ps h.1 e)
