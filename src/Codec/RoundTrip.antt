-- ===== src/Codec/RoundTrip.antt =====
-- Decoding what was encoded, for each of the three encodings that the program uses.
use Prim.Native.Char.{code}
use snow_radar.Common.{
  ℕ, ◌+◌, ◌*◌, ◌/◌, ◌%◌, ◌<◌, ◌≡◌, ◌∙◌, refl, Bool, true, false, ◌&&◌, Option, none, some, List, [],
  ◌∷◌, arith, All, ◌==◌, nat_eq, not, String, Bool-cases, inl, inr,
}
use snow_radar.Common.Finite.{up_to, up_to_sound}
use snow_radar.Common.Texts.{codes}
use snow_radar.Codec.{
  Encoding, std_encoding, raw_std_encoding, raw_url_encoding, letter, pad, encode_to_string, sextet,
  ◌>>=◌, one_byte, two_bytes, full_quantum, quanta, is_break, strip_breaks, decode_string,
}

is_some_of : Option ℕ → ℕ → Bool
is_some_of none n = false
is_some_of (some m) n = m == n

good_letter : Encoding → ℕ → Bool
unfolding is_some_of is_break letter sextet
good_letter e n = is_some_of (sextet e (code (letter e n))) n && not (is_break (code (letter e n)))

-- What the round trip needs of an alphabet.
record IsAlphabet (e : Encoding) : Type 0 where
  finds : (n : ℕ) → n < 64 → sextet e (code (letter e n)) ≡ some n
  no_break : (n : ℕ) → n < 64 → is_break (code (letter e n)) ≡ false
  no_pad : sextet e b'=' ≡ none

good_finds :
    (o : Option ℕ) (c n : ℕ)
    → (is_some_of o n && not (is_break c)) ≡ true
    → (o ≡ some n) × (is_break c ≡ false)
unfolding is_some_of
good_finds none c n h = cc
good_finds (some m) c n h = ground arith

table-IsAlphabet :
    (e : Encoding) → up_to 64 (good_letter e) ≡ true → sextet e b'=' ≡ none → IsAlphabet e
unfolding good_letter
table-IsAlphabet e h p = record {
  finds = λ n l.
      (good_finds (sextet e (code (letter e n))) (code (letter e n)) n
        (up_to_sound 64 (good_letter e) n l h)).0;
  no_break = λ n l.
      (good_finds (sextet e (code (letter e n))) (code (letter e n)) n
        (up_to_sound 64 (good_letter e) n l h)).1;
  no_pad = p;
}

std-IsAlphabet : IsAlphabet std_encoding
unfolding up_to good_letter
std-IsAlphabet = table-IsAlphabet std_encoding refl refl

raw_std-IsAlphabet : IsAlphabet raw_std_encoding
unfolding up_to good_letter
raw_std-IsAlphabet = table-IsAlphabet raw_std_encoding refl refl

raw_url-IsAlphabet : IsAlphabet raw_url_encoding
unfolding up_to good_letter
raw_url-IsAlphabet = table-IsAlphabet raw_url_encoding refl refl

abbrev pub IsByte : ℕ → Type 0
IsByte b = b < 256

module _ (e : Encoding) (v : IsAlphabet e) where
  quanta_full :
      (a b c d x y z : ℕ) (rest : List ℕ)
      → full_quantum e a b c d ≡ some (x ∷ y ∷ z ∷ [])
      → quanta e (a ∷ b ∷ c ∷ d ∷ rest) ≡ (quanta e rest >>= λ more. some (x ∷ y ∷ z ∷ more))
  unfolding quanta
  quanta_full a b c d x y z [] h = rw (h, quanta)
  quanta_full a b c d x y z (r ∷ rest) h = rw h

  full_letters :
      (x y z : ℕ)
      → IsByte x
      → IsByte y
      → IsByte z
      → full_quantum e
          (code (letter e (x / 4)))
          (code (letter e (x % 4 * 16 + y / 16)))
          (code (letter e (y % 16 * 4 + z / 64)))
          (code (letter e (z % 64)))
        ≡ some (x ∷ y ∷ z ∷ [])
  unfolding full_quantum
  full_letters x y z a b c =
      rw
        (
          v.finds (x / 4) (omega arith),
          v.finds (x % 4 * 16 + y / 16) (omega arith),
          v.finds (y % 16 * 4 + z / 64) (omega arith),
          v.finds (z % 64) (omega arith),
        )
        (ground arith)

  strip-letter :
      (n : ℕ) (cs : List ℕ)
      → n < 64
      → strip_breaks (code (letter e n) ∷ cs) ≡ code (letter e n) ∷ strip_breaks cs
  strip-letter n cs l = unfold strip_breaks in rw (v.no_break n l, strip_breaks)

  strip-pad :
      (s : String)
      → strip_breaks (codes s) ≡ codes s
      → strip_breaks (codes (pad e s)) ≡ codes (pad e s)
  unfolding pad
  strip-pad s h = elim (Bool-cases e.padded) [
    | inl p ↦ rw p h
    | inr r ↦ rw r (unfold strip_breaks in refl)
  ]

  strip-encode :
      (bs : List ℕ)
      → All IsByte bs
      → strip_breaks (codes (encode_to_string e bs)) ≡ codes (encode_to_string e bs)
  unfolding encode_to_string
  strip-encode [] h = unfold strip_breaks in refl
  strip-encode (x ∷ []) h = rw (
    strip-letter (x / 4) _ (omega arith),
    strip-letter (x % 4 * 16) _ (omega arith),
    strip-pad "==" (unfold strip_breaks in refl),
  )
  strip-encode (x ∷ y ∷ []) h = rw (
    strip-letter (x / 4) _ (omega arith),
    strip-letter (x % 4 * 16 + y / 16) _ (omega arith),
    strip-letter (y % 16 * 4) _ (omega arith),
    strip-pad "=" (unfold strip_breaks in refl),
  )
  strip-encode (x ∷ y ∷ z ∷ rest) h = rw (
    strip-letter (x / 4) _ (omega arith),
    strip-letter (x % 4 * 16 + y / 16) _ (omega arith),
    strip-letter (y % 16 * 4 + z / 64) _ (omega arith),
    strip-letter (z % 64) _ (omega arith),
    strip-encode rest h.1.1.1,
  )

  one_byte-letters :
      (x : ℕ)
      → IsByte x
      → one_byte e (code (letter e (x / 4))) (code (letter e (x % 4 * 16))) ≡ some (x ∷ [])
  unfolding one_byte
  one_byte-letters x a =
      rw (v.finds (x / 4) (omega arith), v.finds (x % 4 * 16) (omega arith)) (ground arith)

  two_bytes-letters :
      (x y : ℕ)
      → IsByte x
      → IsByte y
      → two_bytes e
          (code (letter e (x / 4)))
          (code (letter e (x % 4 * 16 + y / 16)))
          (code (letter e (y % 16 * 4)))
        ≡ some (x ∷ y ∷ [])
  unfolding two_bytes
  two_bytes-letters x y a b =
      rw
        (
          v.finds (x / 4) (omega arith),
          v.finds (x % 4 * 16 + y / 16) (omega arith),
          v.finds (y % 16 * 4) (omega arith),
        )
        (ground arith)

  -- A quantum that ends in `=` is no full one.
  full-pad : (a b c : ℕ) → full_quantum e a b c b'=' ≡ none
  unfolding full_quantum
  full-pad a b c = ground (arith, v.no_pad)

  not-pad : (n : ℕ) → n < 64 → (code (letter e n) == b'=') ≡ false
  not-pad n l = elim (Bool-cases (code (letter e n) == b'=')) [
    | inl same ↦
        let is : code (letter e n) ≡ b'=' = ground arith in
        let found : sextet e b'=' ≡ some n = rw is at (v.finds n l) in cc (v.no_pad)
    | inr other ↦ other
  ]

  quanta_one :
      (a b x : ℕ)
      → one_byte e a b ≡ some (x ∷ [])
      → quanta e (a ∷ b ∷ codes (pad e "==")) ≡ some (x ∷ [])
  unfolding pad quanta
  quanta_one a b x h = elim (Bool-cases e.padded) [
    | inl p ↦ simp p (rw (full-pad a b b'=', quanta) (ground arith))
    | inr r ↦ simp r h
  ]

  quanta_two :
      (a b c x y : ℕ)
      → (c == b'=') ≡ false
      → two_bytes e a b c ≡ some (x ∷ y ∷ [])
      → quanta e (a ∷ b ∷ c ∷ codes (pad e "=")) ≡ some (x ∷ y ∷ [])
  unfolding pad quanta
  quanta_two a b c x y n h = elim (Bool-cases e.padded) [
    | inl p ↦ simp p (rw (full-pad a b c, quanta) (ground arith))
    | inr r ↦ simp r h
  ]

  quanta-encode : (bs : List ℕ) → All IsByte bs → quanta e (codes (encode_to_string e bs)) ≡ some bs
  unfolding encode_to_string
  quanta-encode [] h = unfold quanta in refl
  quanta-encode (x ∷ []) h = quanta_one _ _ x (one_byte-letters x h.0)
  quanta-encode (x ∷ y ∷ []) h =
      quanta_two _ _ _ x y (not-pad (y % 16 * 4) (omega arith)) (two_bytes-letters x y h.0 h.1.0)
  quanta-encode (x ∷ y ∷ z ∷ rest) h =
      quanta_full _ _ _ _ x y z (codes (encode_to_string e rest))
        (full_letters x y z h.0 h.1.0 h.1.1.0)
      ∙ rw (quanta-encode rest h.1.1.1) refl

  decode-encode : (bs : List ℕ) → All IsByte bs → decode_string e (encode_to_string e bs) ≡ some bs
  unfolding decode_string
  decode-encode bs h = rw (strip-encode bs h) (quanta-encode bs h)

-- An encoding that the program uses.
pub data IsUsed : Encoding → Type 0 where
  std : IsUsed std_encoding
  raw_std : IsUsed raw_std_encoding
  raw_url : IsUsed raw_url_encoding

-- Decoding gives back the bytes that were encoded, for padded and raw base64 alike.
pub decode_string-encode :
    (e : Encoding) (bs : List ℕ)
    → IsUsed e
    → All IsByte bs
    → decode_string e (encode_to_string e bs) ≡ some bs
decode_string-encode e bs std h = decode-encode std_encoding std-IsAlphabet bs h
decode_string-encode e bs raw_std h = decode-encode raw_std_encoding raw_std-IsAlphabet bs h
decode_string-encode e bs raw_url h = decode-encode raw_url_encoding raw_url-IsAlphabet bs h
