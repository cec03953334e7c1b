-- ===== src/Auth/Passwords.antt =====
-- api/internal/auth/auth.go: Argon2id password hashes in the PHC format. The library
-- golang.org/x/crypto/argon2 is a parameter.
pub mod Splitting
pub mod Reading
pub mod Checking
pub mod Samples
mod Tests
use snow_radar.Common.{
  ℕ, ◌+◌, ◌*◌, ◌%◌, ◌^◌, ◌<◌, ◌≤◌, ◌≡◌, String, Bool, true, false, not, ◌&&◌, Option, none, some,
  List, [], ◌∷◌, ◌==◌, nat_eq, string_eq, if◌then◌else◌, All, length,
}
use snow_radar.Common.Texts.{concat, bytes, decimal}
use snow_radar.Common.Scan.{ℤ, trim_prefix, split, scan_int, scan_uint}
use snow_radar.Codec.{◌>>=◌, raw_std_encoding, encode_to_string, decode_string}
use snow_radar.Codec.RoundTrip.{IsByte}

-- `argon2.IDKey` of a password, a salt, the time, the memory, the threads and the length of the key; it
-- panics, which is none, where the time, the threads or the length are 0.
pub record Argon2 : Type 0 where
  pub version : ℕ
  pub id_key : List ℕ → List ℕ → ℕ → ℕ → ℕ → ℕ → Option (List ℕ)
  pub version-lt : version < 2 ^ 63
  pub id_key-some :
      (password salt : List ℕ) (time memory threads size : ℕ)
      → 1 ≤ time
      → 1 ≤ threads
      → 1 ≤ size
      → (key : List ℕ) × (id_key password salt time memory threads size ≡ some key)
        × (length key ≡ size)
        × All IsByte key

abbrev pub argon_time : ℕ
argon_time = 1

abbrev pub argon_memory : ℕ
argon_memory = 64 * 1024

abbrev pub argon_threads : ℕ
argon_threads = 2

abbrev pub argon_key_len : ℕ
argon_key_len = 32

pub record ArgonParams : Type 0 where
  pub version : ℤ
  pub memory : ℕ
  pub time : ℕ
  pub threads : ℕ
  pub salt : List ℕ
  pub key : List ℕ

-- The text that `HashPassword` prints.
abbrev pub phc_of : ℕ → List ℕ → List ℕ → String
phc_of version salt key = concat (
    "$"
    ∷ "argon2id"
    ∷ "$"
    ∷ "v="
    ∷ decimal version
    ∷ "$"
    ∷ "m="
    ∷ decimal argon_memory
    ∷ ",t="
    ∷ decimal argon_time
    ∷ ",p="
    ∷ decimal argon_threads
    ∷ "$"
    ∷ encode_to_string raw_std_encoding salt
    ∷ "$"
    ∷ encode_to_string raw_std_encoding key
    ∷ [])

-- `strings.TrimPrefix`
abbrev pub without_prefix : String → String → String
without_prefix prefix s = elim (trim_prefix prefix s) [ none ↦ s | some rest ↦ rest ]

-- `Sscanf` with "v=%d" and with "m=%d,t=%d,p=%d"
unfoldable pub scan_version : String → Option ℤ
scan_version part = do s ← trim_prefix "v=" part; v ← scan_int s; some v.0

unfoldable pub scan_costs : String → Option (ℕ × ℕ × ℕ)
scan_costs part = do
  s ← trim_prefix "m=" part
  memory ← scan_uint 32 s
  t ← trim_prefix ",t=" memory.1
  time ← scan_uint 32 t
  p ← trim_prefix ",p=" time.1
  threads ← scan_uint 8 p
  some (memory.0, time.0, threads.0)

-- The five parts of the text.
pub params_of : List String → Option ArgonParams
params_of (name ∷ version ∷ costs ∷ salt ∷ key ∷ []) = if not (name == "argon2id") then none else do
  v ← scan_version version
  c ← scan_costs costs
  salt_bytes ← decode_string raw_std_encoding salt
  key_bytes ← decode_string raw_std_encoding key
  some (record {
    version = v;
    memory = c.0;
    time = c.1;
    threads = c.2;
    salt = salt_bytes;
    key = key_bytes;
  })
params_of parts = none

-- `parsePHC`; none stands for its errors.
unfoldable pub parse_phc : String → Option ArgonParams
unfolding params_of
parse_phc phc = params_of (split b'$' (without_prefix "$" phc))

-- `subtle.ConstantTimeCompare(x, y) == 1`
unfoldable pub bytes_beq : List ℕ → List ℕ → Bool
bytes_beq [] [] = true
bytes_beq [] (y ∷ ys) = false
bytes_beq (x ∷ xs) [] = false
bytes_beq (x ∷ xs) (y ∷ ys) = let rest = bytes_beq xs ys in x == y && rest

module _ (a : Argon2) where
  -- `HashPassword` with the salt that is drawn, or none where that fails.
  unfoldable pub hash_password : String → Option (List ℕ) → Option String
  hash_password password salt = do
    bytes_of_salt ← salt
    key ←
        a.id_key (bytes password) bytes_of_salt argon_time argon_memory argon_threads argon_key_len
    some (phc_of a.version bytes_of_salt key)

  -- `VerifyPassword`; none where it panics.
  unfoldable pub verify_password : String → String → Option Bool
  verify_password password phc = elim (parse_phc phc) [
    | none ↦ some false
    | some p ↦ do
      got ← a.id_key (bytes password) p.salt p.time p.memory p.threads (length p.key % 2 ^ 32)
      some (bytes_beq got p.key)
  ]
