-- ===== src/Auth/Passwords/Reading.antt =====
-- `parsePHC` of api/internal/auth/auth.go on what `HashPassword` prints.
use Prim.Native.String
use Prim.Native.String.{String, char_at}
use text.Mathlib.TextLemmas.{cons-append, nil-append, append-nil}
use snow_radar.Common.{
  ℕ, zero, suc, ◌+◌, ◌/◌, ◌%◌, ◌^◌, ◌<◌, ◌≡◌, ◌∙◌, refl, ap, some, List, [], ◌∷◌, string_eq, ltb,
  arith, All, Bool-cases, inl, inr,
}
use snow_radar.Common.Texts.{concat, digits, decimal}
use snow_radar.Common.Scan.{pos, split, is_digit, scan_digits}
use snow_radar.Common.Scan.Decimals.{
  trim_prefix-append, EndsNumber, scan_int-digits, scan_uint-digits, digits-free,
}
use snow_radar.Codec.{raw_std_encoding, encode_to_string}
use snow_radar.Codec.RoundTrip.{IsByte, raw_std, decode_string-encode}
use snow_radar.Codec.Letters.{raw_std-IsFree_dollar, encode-free}
use snow_radar.Auth.Passwords.{
  argon_memory, argon_time, argon_threads, phc_of, without_prefix, scan_version, scan_costs,
  params_of, parse_phc,
}
use snow_radar.Auth.Passwords.Splitting.{IsWhole, split-dollar, over, split-over}

digits-append :
    (fuel n : ℕ) (s t : String) → String.◌++◌ (digits fuel n s) t ≡ digits fuel n (String.◌++◌ s t)
unfolding digits
digits-append zero n s t = refl
digits-append (suc fuel) n s t = elim (Bool-cases (ltb n 10)) [
  | inl small ↦ rw small (cons-append (char_at "0123456789" (n % 10)) s t)
  | inr large ↦ rw large (
      digits-append fuel (n / 10) (String.◌∷◌ (char_at "0123456789" (n % 10)) s) t
      ∙ ap (digits fuel (n / 10)) (cons-append (char_at "0123456789" (n % 10)) s t))
]

decimal-append : (n : ℕ) (t : String) → String.◌++◌ (decimal n) t ≡ digits (n + 1) n t
unfolding decimal
decimal-append n t = digits-append (n + 1) n "" t ∙ ap (digits (n + 1) n) (nil-append t)

decimal-IsWhole : (n : ℕ) → IsWhole (decimal n)
unfolding decimal is_digit
decimal-IsWhole n = digits-free b'$' (n + 1) n "" refl tt

comma-EndsNumber : (s t : String) → EndsNumber (String.◌++◌ (String.◌∷◌ (char_at "," 0) s) t)
unfolding scan_digits is_digit
comma-EndsNumber s t acc = rw (cons-append (char_at "," 0) s t) refl

version-read :
    (version : ℕ)
    → version < 2 ^ 63
    → scan_version (concat ("v=" ∷ decimal version ∷ [])) ≡ some (pos version)
unfolding scan_version concat scan_digits
version-read v small =
    rw
      (
        trim_prefix-append "v=" (String.◌++◌ (decimal v) ""),
        decimal-append v "",
        scan_int-digits v "" (λ acc. refl) small,
      )
      refl

abbrev cost_parts : ℕ → ℕ → ℕ → List String
cost_parts m t p = "m=" ∷ decimal m ∷ ",t=" ∷ decimal t ∷ ",p=" ∷ decimal p ∷ []

costs-read :
    (m t p : ℕ)
    → m < 2 ^ 32
    → t < 2 ^ 32
    → p < 2 ^ 8
    → scan_costs (concat (cost_parts m t p)) ≡ some (m, t, p)
unfolding scan_costs concat scan_digits
costs-read m t p a b c =
    let threads = String.◌++◌ (decimal p) "" in
    let time = String.◌++◌ (decimal t) (String.◌++◌ ",p=" threads) in
    let memory = String.◌++◌ (decimal m) (String.◌++◌ ",t=" time) in
    rw
      (
        trim_prefix-append "m=" memory,
        decimal-append m (String.◌++◌ ",t=" time),
        scan_uint-digits 32 m (String.◌++◌ ",t=" time) (comma-EndsNumber "t=" time) a,
      )
      (rw
        (
          trim_prefix-append ",t=" time,
          decimal-append t (String.◌++◌ ",p=" threads),
          scan_uint-digits 32 t (String.◌++◌ ",p=" threads) (comma-EndsNumber "p=" threads) b,
        )
        (rw
          (
            trim_prefix-append ",p=" threads,
            decimal-append p "",
            scan_uint-digits 8 p "" (λ acc. refl) c,
          )
          refl))

encoded-IsWhole : (bs : List ℕ) → All IsByte bs → IsWhole (encode_to_string raw_std_encoding bs)
encoded-IsWhole bs h = encode-free raw_std_encoding b'$' bs refl raw_std-IsFree_dollar h

cost_parts-IsWhole : (m t p : ℕ) → All IsWhole (cost_parts m t p)
cost_parts-IsWhole m t p = (
  (omega arith, (omega arith, tt)),
  (
    decimal-IsWhole m,
    (
      (omega arith, (omega arith, (omega arith, tt))),
      (
        decimal-IsWhole t,
        ((omega arith, (omega arith, (omega arith, tt))), (decimal-IsWhole p, tt)),
      ),
    ),
  ),
)

name-IsWhole : IsWhole "argon2id"
name-IsWhole = omega arith

after_dollar :
    (s : String) (ps : List String) → split b'$' s ≡ ps → split b'$' (String.◌++◌ "$" s) ≡ "" ∷ ps
after_dollar s ps e = split-dollar s ∙ ap (λ (l : List String). "" ∷ l) e

concat-one : (s : String) → concat (s ∷ []) ≡ s
unfolding concat
concat-one s = append-nil s

abbrev parts_of : ℕ → List ℕ → List ℕ → List String
parts_of version salt key =
    concat ("argon2id" ∷ [])
    ∷ concat ("v=" ∷ decimal version ∷ [])
    ∷ concat (cost_parts argon_memory argon_time argon_threads)
    ∷ concat (encode_to_string raw_std_encoding salt ∷ [])
    ∷ concat (encode_to_string raw_std_encoding key ∷ [])
    ∷ []

without-dollar : (s : String) → without_prefix "$" (String.◌++◌ "$" s) ≡ s
without-dollar s = rw (without_prefix, trim_prefix-append "$" s) refl

phc-split :
    (version : ℕ) (salt key : List ℕ)
    → All IsByte salt
    → All IsByte key
    → split b'$' (without_prefix "$" (phc_of version salt key)) ≡ parts_of version salt key
unfolding concat over split
phc-split version salt key hs hk =
    let k = encode_to_string raw_std_encoding key in
    let t = encode_to_string raw_std_encoding salt in
    let s5 = over (k ∷ []) "" in
    let e5 = split-over (k ∷ []) "" [] (encoded-IsWhole key hk, tt) refl in
    let s4 = over (t ∷ []) (String.◌++◌ "$" s5) in
    let e4 =
      split-over (t ∷ []) (String.◌++◌ "$" s5) _ (encoded-IsWhole salt hs, tt)
        (after_dollar s5 _ e5) in
    let s3 = over (cost_parts argon_memory argon_time argon_threads) (String.◌++◌ "$" s4) in
    let e3 =
      split-over (cost_parts argon_memory argon_time argon_threads) (String.◌++◌ "$" s4) _
        (cost_parts-IsWhole argon_memory argon_time argon_threads) (after_dollar s4 _ e4) in
    let s2 = over ("v=" ∷ decimal version ∷ []) (String.◌++◌ "$" s3) in
    let e2 =
      split-over ("v=" ∷ decimal version ∷ []) (String.◌++◌ "$" s3) _
        ((omega arith, (omega arith, tt)), (decimal-IsWhole version, tt)) (after_dollar s3 _ e3) in
    let e1 =
      split-over ("argon2id" ∷ []) (String.◌++◌ "$" s2) _ (name-IsWhole, tt)
        (after_dollar s2 _ e2) in
    ap (split b'$') (without-dollar (over ("argon2id" ∷ []) (String.◌++◌ "$" s2))) ∙ e1

parts-read :
    (version : ℕ) (salt key : List ℕ)
    → version < 2 ^ 63
    → All IsByte salt
    → All IsByte key
    → params_of (parts_of version salt key)
      ≡ some (record {
        version = pos version;
        memory = argon_memory;
        time = argon_time;
        threads = argon_threads;
        salt = salt;
        key = key;
      })
unfolding params_of
parts-read version salt key small hs hk =
    rw
      (
        concat-one "argon2id",
        version-read version small,
        costs-read argon_memory argon_time argon_threads (omega arith) (omega arith) (omega arith),
        concat-one (encode_to_string raw_std_encoding salt),
        decode_string-encode raw_std_encoding salt raw_std hs,
        concat-one (encode_to_string raw_std_encoding key),
        decode_string-encode raw_std_encoding key raw_std hk,
      )
      refl

-- What `HashPassword` prints is read as the parameters that went into it.
pub phc-read :
    (version : ℕ) (salt key : List ℕ)
    → version < 2 ^ 63
    → All IsByte salt
    → All IsByte key
    → parse_phc (phc_of version salt key)
      ≡ some (record {
        version = pos version;
        memory = argon_memory;
        time = argon_time;
        threads = argon_threads;
        salt = salt;
        key = key;
      })
unfolding parse_phc
phc-read version salt key small hs hk =
    ap params_of (phc-split version salt key hs hk) ∙ parts-read version salt key small hs hk
