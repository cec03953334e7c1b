-- ===== src/Api/Sessions/Tests.antt =====
-- Runs of the session handlers over the memory store, and each theorem at an input that meets its
-- conditions.
use Prim.Native.String
use snow_radar.Common.{
  ◌+◌, ◌*◌, ◌/◌, String, ◌≡◌, ◌≢◌, refl, false, none, some, List, [], ◌∷◌, ok, err, ◌==◌, string_eq,
  ltb, if◌then◌else◌, arith, eq_iff,
}
use snow_radar.Common.Dict.{lookup, insert, map_values}
use snow_radar.Codec.{hex_encode}
use snow_radar.Auth.{token_access, second, issue, verify}
use snow_radar.Auth.Table.{table, times, old_claims, table_sign, table_parse, claims_beq, check}
use snow_radar.Store.Memory.{
  Memory, memory, new_memory, save_refresh_token, burn, consume_refresh_token,
  revoke_all_refresh_tokens,
}
use snow_radar.Store.Memory.Tokens.{Call, NoneIssues, run, saves_refresh_token}
use snow_radar.Common.Scan.{trim_prefix}
use snow_radar.Api.Sessions.{
  failed, tokens, logged_out, status, new_jti, require_auth, issue_token_pair, rotate, refresh,
  logout,
}
use snow_radar.Api.Sessions.Rotation.{refresh-once, logout-refresh}
use snow_radar.Api.Sessions.Bearer.{require_auth-issue}
use mathlib.Core.Path.{fun_ext}
use snow_radar.Store.Schema.{exists}
use snow_radar.Store.Memory.Ledger.{memory_view}
use snow_radar.Store.Postgres.{Postgres, postgres}
use snow_radar.Store.Postgres.Rows.{find}
use snow_radar.Store.Postgres.Quiet.{IsQuiet, tables_view}
use snow_radar.Api.Sessions.Ledger.{Request, refreshes, logs_out, answers}
use snow_radar.Api.Sessions.Stores.{answers-postgres-memory}

tests : Unit {0}
unfolding lookup insert map_values hex_encode issue verify table_sign table_parse claims_beq check
    save_refresh_token burn consume_refresh_token revoke_all_refresh_tokens new_jti trim_prefix
    require_auth issue_token_pair rotate refresh logout
tests = tt

abbrev signed_in : Memory
signed_in = record new_memory { refresh = ("j1", record { user_id = "a"; consumed = false }) ∷ [] }

first_refresh :
    (refresh table times memory (some "t0") (15 ∷ []) (2 * second) signed_in).1 ≡ tokens "t1" "t2"
unfolding tests
first_refresh = refl

refresh_tests :
    ((refresh table times memory none [] 0 signed_in).1 ≡ failed 400 "invalid request")
    × ((refresh table times memory (some "t1") [] second signed_in).1 ≡ failed 401 "invalid token")
    × ((refresh table times memory (some "t2") [] second signed_in).1
        ≡ failed 401 "token revoked or replayed")
    × ((logout memory "a" signed_in).1 ≡ logged_out)
unfolding tests
refresh_tests = (refl, refl, refl, refl)

bearer_tests :
    (require_auth table times "Bearer t1" (3 * second) ≡ ok "a")
    × (require_auth table times "Bearer t2" (3 * second) ≡ err (failed 401 "invalid token"))
    × (require_auth table times "Basic t1" (3 * second) ≡ err (failed 401 "missing bearer token"))
unfolding tests
bearer_tests = (refl, refl, refl)

apart : (s t : String) → (s == t) ≡ false → s ≢ t
apart s t h e = ground (arith, eq_iff s t)

old_read : verify table times "t0" (2 * second) ≡ some old_claims
unfolding tests
old_read = refl

jti_apart : new_jti (15 ∷ []) ≢ "j1"
unfolding tests
jti_apart = apart "0f" "j1" refl

abbrev later_calls : List Call
later_calls = saves_refresh_token "0e" "a" ∷ []

later_j1 : NoneIssues "j1" later_calls
later_j1 = (apart "0e" "j1" refl, tt)

refresh-once_example :
    status
      (refresh table times memory (some "t0") (16 ∷ []) (3 * second) (
        run
          (refresh table times memory (some "t0") (15 ∷ []) (2 * second) signed_in).0
          later_calls)).1
    ≡ 401
refresh-once_example =
    refresh-once table times "t0" old_claims (15 ∷ []) (16 ∷ []) (2 * second) (3 * second) signed_in
      "t1" "t2" later_calls old_read first_refresh jti_apart later_j1

known_row : lookup "j1" signed_in.refresh ≡ some (record { user_id = "a"; consumed = false })
unfolding tests
known_row = refl

logout-refresh_example :
    status
      (refresh table times memory
        (some "t0")
        (16 ∷ [])
        (3 * second)
        (run (logout memory "a" signed_in).0 later_calls)).1
    ≡ 401
logout-refresh_example =
    logout-refresh table times "a" "t0" old_claims (2 * second) (3 * second) (16 ∷ []) signed_in
      false later_calls old_read known_row later_j1

access_made : issue table times "a" token_access "" (2 * second) ≡ some "t1"
unfolding tests
access_made = refl

require_auth-issue_example : require_auth table times (String.◌++◌ "Bearer " "t1") (3 * second) ≡ (
    if token_access == token_access
    then if ltb (3 * second) ((2 * second + 900 * second) / second * second)
      then ok "a"
      else err (failed 401 "invalid token")
    else err (failed 401 "invalid token"))
require_auth-issue_example =
    require_auth-issue table times "a" token_access "" (2 * second) (3 * second) "t1" access_made

-- The same token in a database.
abbrev in_database : Postgres
in_database = record {
  tables = record {
    users = record { id = "a"; email = "a@b.c"; password_hash = "h" } ∷ [];
    subscriptions = [];
    peers = [];
    refresh_tokens = record { jti = "j1"; user_id = "a"; consumed = false } ∷ [];
  };
  clock = 7;
  turns = [];
}

quiet : IsQuiet in_database
unfolding find exists
quiet = record { working = refl; key = (refl, tt); owners = (refl, tt) }

same_tokens : tables_view in_database ≡ memory_view signed_in
unfolding find lookup
same_tokens = fun_ext λ j. ground (arith, eq_iff "j1" j, eq_iff j "j1")

abbrev requests : List Request
requests =
    refreshes (some "t0") (15 ∷ []) (2 * second)
    ∷ refreshes (some "t0") (16 ∷ []) (3 * second)
    ∷ logs_out "a"
    ∷ []

answers-postgres-memory_example :
    answers table times postgres in_database requests
    ≡ answers table times memory signed_in requests
answers-postgres-memory_example =
    answers-postgres-memory table times in_database signed_in requests quiet same_tokens
