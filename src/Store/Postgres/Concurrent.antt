-- ===== src/Store/Postgres/Concurrent.antt =====
-- ConsumeRefreshToken of api/internal/store/postgres.go when several calls are under way at the same time: each
-- statement of a call is atomic, and others may run between two of them.
pub mod Winning
pub mod Alone
mod Tests
use snow_radar.Common.{
  ℕ, zero, suc, ◌+◌, ◌≤◌, String, ◌≡◌, ◌≢◌, ◌⊎◌, ◌∙◌, refl, ap, sym, Bool, true, false, not, ◌&&◌,
  Option, none, some, List, [], ◌∷◌, Result, ok, err, ◌==◌, string_eq, arith, Option-cases,
  Result-cases, inl, inr, All,
}
use snow_radar.Store.{StoreError, not_found, token_replayed, other}
use snow_radar.Store.Schema.{TokenRow, Tables, spend_rows, select_token}
use snow_radar.Store.Memory.Tokens.{Call, Issues}
use snow_radar.Store.Postgres.{
  Postgres, exec, burn, consume_refresh_token, spend_or_confirm, confirm,
}
use snow_radar.Store.Postgres.Spent.{is_live, IsSpent}
use snow_radar.Store.Postgres.SingleUse.{
  step, step-Keeps, spend-exec, select-exec, exec-spends, exec-none,
}

-- Where a call is: before the UPDATE, before the SELECT, before the UPDATE of the family, or at its end.
pub data Consuming : Type 0 where
  starting confirming : Consuming
  burning : String → Consuming
  finished : String → Option StoreError → Consuming

-- The three statements, by what the database answers.
pub after_spend : Result String (Option TokenRow) → Consuming
after_spend (err message) = finished "" (some (other message))
after_spend (ok (some row)) = finished row.user_id none
after_spend (ok none) = confirming

pub after_select : Result String (Option TokenRow) → Consuming
after_select (err message) = finished "" (some (other message))
after_select (ok none) = finished "" (some not_found)
after_select (ok (some row)) = burning row.user_id

-- The next statement of a call that consumes a token.
unfoldable pub proceed : String → Consuming → Postgres → Postgres × Consuming
unfolding after_spend after_select
proceed jti starting p = let r = exec (λ now. spend_rows (is_live jti)) p in (r.0, after_spend r.1)
proceed jti confirming p = let r = exec (λ now. select_token jti) p in (r.0, after_select r.1)
proceed jti (burning user_id) p = ((burn user_id p).0, finished user_id (some token_replayed))
proceed jti (finished user_id e) p = (p, finished user_id e)

-- What comes next: a statement of one of the calls, or another call of the store.
pub data Event : Type 0 where
  proceeds : ℕ → Event
  calls : Call → Event

unfoldable pub proceed_at : String → ℕ → List Consuming → Postgres → Postgres × List Consuming
proceed_at jti n [] p = (p, [])
proceed_at jti zero (c ∷ cs) p = let r = proceed jti c p in (r.0, r.1 ∷ cs)
proceed_at jti (suc n) (c ∷ cs) p = let r = proceed_at jti n cs p in (r.0, c ∷ r.1)

unfoldable pub happen : String → List Event → List Consuming → Postgres → Postgres × List Consuming
happen jti [] cs p = (p, cs)
happen jti (proceeds n ∷ es) cs p = let r = proceed_at jti n cs p in happen jti es r.1 r.0
happen jti (calls c ∷ es) cs p = happen jti es cs (step p c)

-- The calls that have ended with success.
abbrev pub has_won : Consuming → ℕ
has_won starting = 0
has_won confirming = 0
has_won (burning user_id) = 0
has_won (finished user_id none) = 1
has_won (finished user_id (some e)) = 0

abbrev pub winners : List Consuming → ℕ
winners [] = 0
winners (c ∷ cs) = has_won c + winners cs
