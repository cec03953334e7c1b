-- ===== src/Auth/Passwords/Tests.antt =====
-- Runs of the password hashes, and each theorem at an input that meets its conditions.
use snow_radar.Common.{
  String, ◌≡◌, ◌↔◌, refl, Bool, true, false, none, some, [], ◌∷◌, nat_eq, string_eq, arith,
}
use snow_radar.Common.Texts.{concat, bytes, digits, decimal}
use snow_radar.Common.Scan.{
  trim_prefix, split, is_digit, is_space, skip_space, scan_digits, scan_number, scan_signed,
  scan_int, scan_uint, pos,
}
use snow_radar.Codec.{encode_to_string, decode_string, letter, sextet}
use snow_radar.Auth.Passwords.{
  scan_version, scan_costs, parse_phc, bytes_beq, hash_password, verify_password,
}
use snow_radar.Auth.Passwords.Checking.{key_of, verify_password-hash_password}
use snow_radar.Auth.Passwords.Samples.{marks, copies}

tests : Unit {0}
unfolding concat bytes digits decimal trim_prefix split is_digit is_space skip_space scan_digits
    scan_number scan_signed scan_int scan_uint encode_to_string decode_string letter sextet
    scan_version scan_costs parse_phc bytes_beq hash_password verify_password copies
tests = tt

read_tests :
    (parse_phc "$argon2id$v=19$m=65536,t=1,p=2$AQI$AwQ"
      ≡ some (record {
        version = pos 19;
        memory = 65536;
        time = 1;
        threads = 2;
        salt = 1 ∷ 2 ∷ [];
        key = 3 ∷ 4 ∷ [];
      }))
    × (parse_phc "$argon2i$v=19$m=65536,t=1,p=2$AQI$AwQ" ≡ none)
    × (parse_phc "$argon2id$v=19$m=65536,t=1,p=256$AQI$AwQ" ≡ none)
    × (parse_phc "$argon2id$v=19$m=65536,t=1,p=2$AQI" ≡ none)
    × (parse_phc "$argon2id$v=19$m=65536;t=1,p=2$AQI$AwQ" ≡ none)
unfolding tests
read_tests = (refl, refl, refl, refl, refl)

-- A stored hash with no rounds makes the check panic; a text that is no hash is refused.
verify_tests :
    (verify_password marks "x" "$argon2id$v=19$m=65536,t=0,p=2$AQI$AwQ" ≡ none)
    × (verify_password marks "x" "x" ≡ some false)
    × (hash_password marks "x" none ≡ none)
unfolding tests
verify_tests = (refl, refl, refl)

verify_password-hash_password_example :
    (hash : String) × (accepts : Bool) × (hash_password marks "password" (some (1 ∷ 2 ∷ []))
      ≡ some hash)
    × (verify_password marks "other" hash ≡ some accepts)
    × ((accepts ≡ true)
        ↔ (key_of marks "other" (1 ∷ 2 ∷ []) ≡ key_of marks "password" (1 ∷ 2 ∷ [])))
verify_password-hash_password_example =
    verify_password-hash_password marks "password" "other" (1 ∷ 2 ∷ []) (omega arith)
