-- ===== src/Billing/Webhooks/Headers.antt =====
-- The header Paddle-Signature as Paddle writes it, taken apart by `VerifyPaddle` of
-- api/internal/billing/billing.go.
use Prim.Native.Char.{Char, code}
use Prim.Native.String
use Prim.Native.String.{String, char_at}
use text.Mathlib.TextLemmas.{cons-append, nil-append, append-nil, append_assoc, cons-ne-nil}
use snow_radar.Common.{
  ℕ, ◌+◌, ◌/◌, ◌%◌, ◌<◌, ◌≡◌, ◌≢◌, ◌∙◌, refl, sym, ap, Bool, not, List, [], ◌∷◌, string_eq, nat_beq,
  arith, eq_iff, All, length,
}
use snow_radar.Common.Finite.{up_to, up_to_sound}
use snow_radar.Common.Texts.{concat, codes, decimal}
use snow_radar.Common.Scan.{is_digit, trim_prefix}
use snow_radar.Common.Scan.Decimals.{digits-free, digits-ne-nil, trim_prefix-append}
use snow_radar.Codec.{hex_encode}
use snow_radar.Codec.RoundTrip.{IsByte}
use snow_radar.Billing.Webhooks.{split_semi, value_of, read_pieces}

abbrev pub IsWhole : String → Type 0
IsWhole s = All (λ c. c ≢ b';') (codes s)

split-append :
    (a b : String)
    → IsWhole a
    → split_semi (String.◌++◌ a (String.◌∷◌ (char_at ";" 0) b)) ≡ a ∷ split_semi b
unfolding split_semi
split-append String.[] b h = rw (nil-append (String.◌∷◌ (char_at ";" 0) b)) refl
split-append (String.◌∷◌ c a) b h =
    rw (cons-append c a (String.◌∷◌ (char_at ";" 0) b), split_semi)
      (rw (split-append a b h.1) (ground (arith, h.0)))

split-one :
    (c : Char) (s : String)
    → IsWhole (String.◌∷◌ c s)
    → split_semi (String.◌∷◌ c s) ≡ String.◌∷◌ c s ∷ []
unfolding split_semi
split-one c String.[] h = ground (arith, h.0)
split-one c (String.◌∷◌ d s) h = rw (split_semi, split-one d s h.1) (ground (arith, h.0))

hex_char : ℕ → Char
hex_char d = char_at "0123456789abcdef" d

is_good_hex : ℕ → Bool
unfolding hex_char
is_good_hex d = not (nat_beq (code (hex_char d)) b';')

hex_char-free : (d : ℕ) → d < 16 → code (hex_char d) ≢ b';'
unfolding up_to is_good_hex hex_char
hex_char-free d h e = (let g = up_to_sound 16 is_good_hex d h refl in ground (arith, g, e))

pub hex-IsWhole : (bs : List ℕ) → All IsByte bs → IsWhole (hex_encode bs)
unfolding hex_encode hex_char
hex-IsWhole [] h = tt
hex-IsWhole (b ∷ bs) h = (
  hex_char-free (b / 16) (omega (arith, h.0)),
  (hex_char-free (b % 16) (omega arith), hex-IsWhole bs h.1),
)

pub hex-ne-nil : (bs : List ℕ) → 0 < length bs → hex_encode bs ≢ ""
unfolding hex_encode
hex-ne-nil [] h = absurd (omega arith)
hex-ne-nil (b ∷ bs) h = cons-ne-nil _ _

-- `ts=<time>;h1=<code>`
abbrev pub header_of : ℕ → String → String
header_of t h1 = concat ("ts=" ∷ decimal t ∷ ";h1=" ∷ h1 ∷ [])

ts-append :
    (s : String)
    → String.◌++◌ "ts=" s
      ≡ String.◌∷◌ (char_at "t" 0) (String.◌∷◌ (char_at "s" 0) (String.◌∷◌ (char_at "=" 0) s))
ts-append s =
    rw
      (
        cons-append (char_at "t" 0) "s=" s,
        cons-append (char_at "s" 0) "=" s,
        cons-append (char_at "=" 0) "" s,
        nil-append s,
      )
      refl

h1-append :
    (s : String)
    → String.◌++◌ "h1=" s
      ≡ String.◌∷◌ (char_at "h" 0) (String.◌∷◌ (char_at "1" 0) (String.◌∷◌ (char_at "=" 0) s))
h1-append s =
    rw
      (
        cons-append (char_at "h" 0) "1=" s,
        cons-append (char_at "1" 0) "=" s,
        cons-append (char_at "=" 0) "" s,
        nil-append s,
      )
      refl

header-split :
    (t : ℕ) (h1 : String)
    → IsWhole h1
    → split_semi (header_of t h1) ≡ String.◌++◌ "ts=" (decimal t) ∷ String.◌++◌ "h1=" h1 ∷ []
unfolding concat decimal is_digit
header-split t h1 w =
    let semi = char_at ";" 0 in
    let tail : String.◌++◌ ";h1=" (String.◌++◌ h1 "") ≡ String.◌∷◌ semi (String.◌++◌ "h1=" h1) =
      rw (append-nil h1) (cons-append semi "h1=" h1) in
    let own : IsWhole (String.◌++◌ "ts=" (decimal t)) =
      rw (ts-append (decimal t))
        (omega arith, (omega arith, (omega arith, digits-free b';' (t + 1) t "" refl tt))) in
    ap (λ (x : String). split_semi (String.◌++◌ "ts=" (String.◌++◌ (decimal t) x))) tail
    ∙ ap split_semi (sym (append_assoc "ts=" (decimal t) (String.◌∷◌ semi (String.◌++◌ "h1=" h1))))
    ∙ split-append (String.◌++◌ "ts=" (decimal t)) (String.◌++◌ "h1=" h1) own
    ∙ ap (λ (l : List String). String.◌++◌ "ts=" (decimal t) ∷ l)
        (rw (h1-append h1) (
          split-one (char_at "h" 0) (String.◌∷◌ (char_at "1" 0) (String.◌∷◌ (char_at "=" 0) h1))
            (omega arith, (omega arith, (omega arith, w)))))

value-own : (key value old : String) → value ≢ "" → value_of key (String.◌++◌ key value) old ≡ value
unfolding value_of
value-own key value old n =
    rw (value_of, trim_prefix-append key value) (ground (arith, eq_iff value "", n))

value-ts : (s old : String) → value_of "ts=" (String.◌++◌ "h1=" s) old ≡ old
unfolding value_of trim_prefix
value-ts s old = rw (h1-append s) refl

value-h1 : (s old : String) → value_of "h1=" (String.◌++◌ "ts=" s) old ≡ old
unfolding value_of trim_prefix
value-h1 s old = rw (ts-append s) refl

pub header-read :
    (t : ℕ) (h1 : String)
    → IsWhole h1
    → h1 ≢ ""
    → read_pieces (split_semi (header_of t h1)) "" "" ≡ (decimal t, h1)
unfolding read_pieces decimal
header-read t h1 w n =
    rw (header-split t h1 w, read_pieces)
      (rw
        (
          value-own "ts=" (decimal t) "" (digits-ne-nil t ""),
          value-h1 (decimal t) "",
          value-ts h1 (decimal t),
          value-own "h1=" h1 "" n,
        )
        refl)
