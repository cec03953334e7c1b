-- ===== src/Auth/Tests.antt =====
-- Each theorem on session tokens at an input that meets its conditions.
use snow_radar.Common.{◌*◌, ◌≡◌, refl, none, some}
use snow_radar.Auth.{token_access, token_refresh, second, issue}
use snow_radar.Auth.Table.{table, times, table_sign, claims_beq}

issue_tests :
    (issue table times "a" token_access "" (2 * second) ≡ some "t1")
    × (issue table times "a" token_refresh "" (2 * second) ≡ none)
    × (issue table times "a" "other" "j" (2 * second) ≡ none)
unfolding issue table_sign claims_beq
issue_tests = (refl, refl, refl)
