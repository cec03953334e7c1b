-- ===== src/Common/Scan/Decimals.antt =====
-- What Go's `fmt` writes by %d, it reads by %d.
use Prim.Native.Char.{Char, code}
use Prim.Native.String
use Prim.Native.String.{String, char_at}
use Prim.Native.Nat.{ℕ, zero, suc, ◌+◌, ◌-◌, ◌*◌, ◌/◌, ◌%◌, ◌^◌, ◌<◌}
use mathlib.Core.Path.{◌≡◌, refl, ap, ◌∙◌}
use mathlib.Core.Bool.{Bool, true, false, ◌&&◌}
use mathlib.Core.Option.{some}
use mathlib.Core.Logic.{inl, inr, ◌≢◌}
use native.Mathlib.Omega.{arith}
use text.Mathlib.TextLemmas.{cons-append, nil-append}
use snow_radar.Common.Tests.{ltb, nat_beq, Bool-cases}
use snow_radar.Common.Finite.{up_to, up_to_sound}
use snow_radar.Common.Texts.{codes, digits}
use snow_radar.Common.Lists.{All}
use snow_radar.Common.Scan.{
  pos, trim_prefix, is_digit, is_space, skip_space, scan_digits, scan_number, bounded, scan_uint,
  signed, scan_signed, scan_int,
}

pub trim_prefix-append : (p s : String) → trim_prefix p (String.◌++◌ p s) ≡ some s
unfolding trim_prefix
trim_prefix-append String.[] s = rw (nil-append s) refl
trim_prefix-append (String.◌∷◌ c p) s =
    rw (cons-append c p s) (ground (arith, trim_prefix-append p s))

-- What `decimal` writes, the verb reads.
digit_char : ℕ → Char
digit_char d = char_at "0123456789" d

is_good : ℕ → Bool
unfolding digit_char is_digit
is_good d = is_digit (code (digit_char d)) && nat_beq (code (digit_char d) - 48) d

all_good : (d : ℕ) → d < 10 → is_good d ≡ true
unfolding up_to is_good
all_good d h = up_to_sound 10 is_good d h refl

is_number : String → Bool
is_number String.[] = false
is_number (String.◌∷◌ c s) = is_digit (code c)

scan_number-scan_digits : (s : String) → is_number s ≡ true → scan_number s ≡ some (scan_digits 0 s)
unfolding scan_number is_number
scan_number-scan_digits String.[] h = cc
scan_number-scan_digits (String.◌∷◌ c s) h = rw h refl

digit-scan :
    (acc d : ℕ) (s : String)
    → d < 10
    → scan_digits acc (String.◌∷◌ (digit_char d) s) ≡ scan_digits (acc * 10 + d) s
unfolding scan_digits is_good
digit-scan acc d s h = ground (arith, all_good d h)

digits-is_number : (fuel n : ℕ) (s : String) → n < fuel → is_number (digits fuel n s) ≡ true
unfolding digits is_number is_good digit_char
digits-is_number zero n s h = absurd (omega arith)
digits-is_number (suc fuel) n s h = elim (Bool-cases (ltb n 10)) [
  | inl small ↦ rw small (ground (arith, all_good (n % 10) (omega arith)))
  | inr large ↦
      rw large (digits-is_number fuel (n / 10) (String.◌∷◌ (digit_char (n % 10)) s) (ground arith))
]

digits-scan :
    (fuel n : ℕ) (s : String) → n < fuel → scan_digits 0 (digits fuel n s) ≡ scan_digits n s
unfolding digits digit_char
digits-scan zero n s h = absurd (omega arith)
digits-scan (suc fuel) n s h = elim (Bool-cases (ltb n 10)) [
  | inl small ↦
      rw small
        (digit-scan 0 (n % 10) s (omega arith) ∙ ap (λ (m : ℕ). scan_digits m s) (ground arith))
  | inr large ↦ rw large (
      digits-scan fuel (n / 10) (String.◌∷◌ (digit_char (n % 10)) s) (ground arith)
      ∙ digit-scan (n / 10) (n % 10) s (omega arith)
      ∙ ap (λ (m : ℕ). scan_digits m s) (omega arith))
]

-- No digit stands at the front.
abbrev pub EndsNumber : String → Type 0
EndsNumber s = (acc : ℕ) → scan_digits acc s ≡ (acc, s)

-- The digits of a number are read as that number.
pub scan_number-digits :
    (n : ℕ) (s : String) → EndsNumber s → scan_number (digits (n + 1) n s) ≡ some (n, s)
scan_number-digits n s e =
    scan_number-scan_digits (digits (n + 1) n s) (digits-is_number (n + 1) n s (omega arith))
    ∙ ap (λ (r : ℕ × String). some r) (digits-scan (n + 1) n s (omega arith) ∙ e n)

is_number-skip_space : (s : String) → is_number s ≡ true → skip_space s ≡ some s
unfolding is_number is_digit is_space skip_space
is_number-skip_space String.[] h = cc
is_number-skip_space (String.◌∷◌ c s) h = ground arith

is_number-scan_signed :
    (s : String) → is_number s ≡ true → scan_signed s ≡ signed false (scan_number s)
unfolding is_number is_digit scan_signed
is_number-scan_signed String.[] h = cc
is_number-scan_signed (String.◌∷◌ c s) h = ground arith

-- %d reads what it has written, and leaves what stands behind the number.
pub scan_int-digits :
    (n : ℕ) (s : String)
    → EndsNumber s
    → n < 2 ^ 63
    → scan_int (digits (n + 1) n s) ≡ some (pos n, s)
unfolding scan_int signed
scan_int-digits n s e l =
    let d = digits-is_number (n + 1) n s (omega arith) in
    rw
      (
        scan_int,
        is_number-skip_space (digits (n + 1) n s) d,
        is_number-scan_signed (digits (n + 1) n s) d,
        scan_number-digits n s e,
      )
      (ground arith)

pub scan_uint-digits :
    (width n : ℕ) (s : String)
    → EndsNumber s
    → n < 2 ^ width
    → scan_uint width (digits (n + 1) n s) ≡ some (n, s)
unfolding scan_uint bounded
scan_uint-digits width n s e l =
    let d = digits-is_number (n + 1) n s (omega arith) in
    rw (scan_uint, is_number-skip_space (digits (n + 1) n s) d, scan_number-digits n s e)
      (ground arith)

-- The digits are none of the characters that separate.
pub digits-free :
    (sep fuel n : ℕ) (s : String)
    → is_digit sep ≡ false
    → All (λ c. c ≢ sep) (codes s)
    → All (λ c. c ≢ sep) (codes (digits fuel n s))
unfolding digits is_good digit_char
digits-free sep zero n s d h = h
digits-free sep (suc fuel) n s d h =
    let first : code (digit_char (n % 10)) ≢ sep =
      λ e. (let g = all_good (n % 10) (omega arith) in ground (arith, e, g)) in
    elim (Bool-cases (ltb n 10)) [
      | inl small ↦ rw small (first, h)
      | inr large ↦
          rw large (digits-free sep fuel (n / 10) (String.◌∷◌ (digit_char (n % 10)) s) d (first, h))
    ]

pub digits-ne-nil : (n : ℕ) (s : String) → digits (n + 1) n s ≢ ""
unfolding is_number
digits-ne-nil n s e = cc (rw e at (digits-is_number (n + 1) n s (omega arith)))
