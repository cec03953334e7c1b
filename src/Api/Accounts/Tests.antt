-- ===== src/Api/Accounts/Tests.antt =====
-- Runs of signup and login, and each theorem at an input that meets its conditions.
use snow_radar.Common.{
  String, ◌≡◌, ◌≢◌, ◌⊎◌, refl, Bool, true, none, some, [], ◌∷◌, string_eq, arith,
}
use snow_radar.Common.Dict.{lookup, insert}
use snow_radar.Common.Texts.{concat, bytes, digits, decimal}
use snow_radar.Common.Scan.{
  trim_prefix, split, is_digit, is_space, skip_space, scan_digits, scan_number, scan_signed,
  scan_int, scan_uint, trim_left, trim_right, trim_space,
}
use snow_radar.Codec.{hex_encode, encode_to_string, decode_string, letter, sextet}
use snow_radar.Auth.{second, issue}
use snow_radar.Auth.Table.{table, times, table_sign}
use snow_radar.Auth.Passwords.{
  scan_version, scan_costs, parse_phc, bytes_beq, hash_password, verify_password,
}
use snow_radar.Auth.Passwords.Checking.{key_of}
use snow_radar.Auth.Passwords.Samples.{marks, copies}
use snow_radar.Store.Memory.{
  Memory, memory, new_memory, with_id, create_user, get_user_by_email, save_refresh_token,
}
use snow_radar.Store.Postgres.{Postgres, postgres}
use snow_radar.Api.Sessions.{new_jti, issue_token_pair}
use snow_radar.Api.Accounts.{Credentials, refused, created, is_bound, signup, login_answer, login}
use snow_radar.Api.Accounts.Entering.{login-signup}
use snow_radar.Api.Accounts.Databases.{signup-postgres}

tests : Unit {0}
unfolding lookup insert concat bytes digits decimal trim_prefix split is_digit is_space skip_space
    scan_digits scan_number scan_signed scan_int scan_uint trim_left trim_right trim_space
    hex_encode encode_to_string decode_string letter sextet issue table_sign scan_version scan_costs
    parse_phc bytes_beq hash_password verify_password copies with_id create_user get_user_by_email
    save_refresh_token new_jti issue_token_pair is_bound signup login
tests = tt

abbrev same : String → String
same = λ s. s

abbrev any : String → Bool
any = λ s. true

abbrev ana : Credentials
ana = record { email = " a@b.c"; password = "twelve chars" }

abbrev spaced : Credentials
spaced = record { email = "a@b.c "; password = "twelve chars" }

abbrev wrong : Credentials
wrong = record { email = "a@b.c"; password = "other twelve chars" }

abbrev joined : Memory
joined = (signup same marks any memory (some ana) (some (1 ∷ 2 ∷ [])) (10 ∷ []) new_memory).0

signup_tests :
    ((signup same marks any memory (some ana) (some (1 ∷ 2 ∷ [])) (10 ∷ []) new_memory).1
      ≡ created "0a")
    × ((signup same marks any memory none none [] new_memory).1
        ≡ refused 400 "email and a password of at least 12 characters are required")
    × ((signup same marks any memory
          (some (record ana { password = "short" }))
          none
          []
          new_memory).1
        ≡ refused 400 "email and a password of at least 12 characters are required")
    × ((signup same marks any memory (some ana) none [] new_memory).1 ≡ refused 500 "internal")
    × ((signup same marks any memory (some spaced) (some (3 ∷ [])) (11 ∷ []) joined).1
        ≡ refused 409 "email already registered")
unfolding tests
signup_tests = (refl, refl, refl, refl, refl)

login_tests :
    ((login same marks any memory table times (some wrong) (15 ∷ []) second joined).1
      ≡ refused 401 "invalid credentials")
    × ((login same marks any memory table times (some ana) (15 ∷ []) second new_memory).1
        ≡ refused 401 "invalid credentials")
unfolding tests
login_tests = (refl, refl)

made :
    (signup same marks any memory (some ana) (some (1 ∷ 2 ∷ [])) (10 ∷ []) new_memory).1
    ≡ created "0a"
unfolding tests
made = refl

bound : is_bound any spaced ≡ true
unfolding tests
bound = refl

one_email : trim_space spaced.email ≡ trim_space ana.email
unfolding tests
one_email = refl

login-signup_example :
    ((key_of marks spaced.password (1 ∷ 2 ∷ []) ≡ key_of marks ana.password (1 ∷ 2 ∷ []))
      × (login same marks any memory table times (some spaced) (15 ∷ []) second joined
          ≡ login_answer same marks any memory
              (issue_token_pair table times memory "0a" (15 ∷ []) second joined)))
    ⊎ ((key_of marks spaced.password (1 ∷ 2 ∷ []) ≢ key_of marks ana.password (1 ∷ 2 ∷ []))
        × (login same marks any memory table times (some spaced) (15 ∷ []) second joined
            ≡ (joined, refused 401 "invalid credentials")))
login-signup_example =
    login-signup same marks any table times ana spaced (1 ∷ 2 ∷ []) (10 ∷ []) (15 ∷ []) second "0a"
      new_memory made (omega arith) bound one_email

abbrev database : Postgres
database = record {
  tables = record { users = []; subscriptions = []; peers = []; refresh_tokens = [] };
  clock = 0;
  turns = [];
}

signup-postgres_example :
    ((signup same marks any postgres (some ana) (some (1 ∷ [])) (10 ∷ []) database).1
      ≢ created "0a")
    × ((signup same marks any postgres (some ana) (some (1 ∷ [])) (10 ∷ []) database).0.tables
        ≡ database.tables)
signup-postgres_example =
    signup-postgres same marks any (some ana) (some (1 ∷ [])) (10 ∷ []) "0a" database
