-- ===== src/Store/Postgres/Concurrent/Alone.antt =====
-- ConsumeRefreshToken of api/internal/store/postgres.go, statement by statement and as one call.
use snow_radar.Common.{
  ℕ, zero, suc, String, ◌≡◌, refl, Option, none, some, Result, ok, err, string_eq,
}
use snow_radar.Store.{StoreError}
use snow_radar.Store.Schema.{TokenRow, spend_rows, select_token}
use snow_radar.Store.Postgres.{Postgres, exec, consume_refresh_token, spend_or_confirm, confirm}
use snow_radar.Store.Postgres.Spent.{is_live}
use snow_radar.Store.Postgres.Concurrent.{
  Consuming, starting, finished, after_spend, after_select, proceed,
}

-- Three statements one after another are the call as a whole.
pub alone : ℕ → String → Consuming → Postgres → Postgres × Consuming
alone zero jti c p = (p, c)
alone (suc n) jti c p = let r = proceed jti c p in alone n jti r.1 r.0

abbrev pub ended : Postgres × String × Option StoreError → Postgres × Consuming
ended (p, user_id, e) = (p, finished user_id e)

alone-confirm :
    (jti : String) (r : Postgres × Result String (Option TokenRow))
    → alone 1 jti (after_select r.1) r.0 ≡ ended (confirm r)
unfolding alone proceed after_select confirm
alone-confirm jti (p, err m) = refl
alone-confirm jti (p, ok none) = refl
alone-confirm jti (p, ok (some row)) = refl

alone-spend :
    (jti : String) (r : Postgres × Result String (Option TokenRow))
    → alone 2 jti (after_spend r.1) r.0 ≡ ended (spend_or_confirm jti r)
unfolding alone proceed after_spend spend_or_confirm
alone-spend jti (p, err m) = refl
alone-spend jti (p, ok (some row)) = refl
alone-spend jti (p, ok none) = alone-confirm jti (exec (λ now. select_token jti) p)

pub alone-consume_refresh_token :
    (jti : String) (p : Postgres) → alone 3 jti starting p ≡ ended (consume_refresh_token jti p)
unfolding alone proceed consume_refresh_token
alone-consume_refresh_token jti p = alone-spend jti (exec (λ now. spend_rows (is_live jti)) p)
