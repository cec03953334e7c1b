-- ===== src/Store/Postgres/Ledger.antt =====
-- The refresh tokens of api/internal/store/postgres.go as a ledger, while the database works.
use snow_radar.Common.{
  String, ◌≡◌, refl, Bool, true, none, some, string_eq, arith, Option-cases, inl, inr,
}
use snow_radar.Store.Schema.{known_user}
use snow_radar.Store.Ledger.{put, KeepsLedger}
use snow_radar.Store.Postgres.{Postgres, postgres, save_refresh_token}
use snow_radar.Store.Postgres.Rows.{find, All-find}
use snow_radar.Store.Postgres.Quiet.{view-revoke_all, IsQuiet, tables_view, HasOwner}
use snow_radar.Store.Postgres.Consuming.{view-consume}
use snow_radar.Store.Postgres.Saving.{upsert-quiet, with_row-IsQuiet, view-with_row}

-- A row of `users`, which the foreign key of `refresh_tokens` asks for.
abbrev pub HasAccount : String → Postgres → Type 0
HasAccount user_id p = known_user user_id p.tables ≡ true

belongs :
    (jti user_id : String) (used : Bool) (p : Postgres)
    → IsQuiet p
    → tables_view p jti ≡ some (user_id, used)
    → HasAccount user_id p
belongs jti user_id used p q h = elim (Option-cases (find jti p.tables.refresh_tokens)) [
  | inl e ↦ cc
  | inr (row, e) ↦
      let own : row.user_id ≡ user_id = ground arith in
      rw own at (All-find (HasOwner p.tables) jti p.tables.refresh_tokens row q.owners e)
]

saves :
    (jti user_id : String) (p : Postgres)
    → IsQuiet p
    → HasAccount user_id p
    → IsQuiet (save_refresh_token jti user_id p).0
      × ((save_refresh_token jti user_id p).1 ≡ none)
      × (tables_view (save_refresh_token jti user_id p).0 ≡ put jti user_id (tables_view p))
saves jti user_id p q k =
    rw (upsert-quiet jti user_id p k q)
      (with_row-IsQuiet jti user_id p k q, refl, view-with_row jti user_id p)

-- While the database works, the Postgres store keeps the ledger of the tokens in its table: each token
-- belongs to a user with an account, and each call that saves a token for such a user, consumes one
-- or revokes all of a user leaves the database in order and gives the answer and the ledger of the
-- abstract operation.
pub postgres-KeepsLedger : KeepsLedger postgres IsQuiet HasAccount tables_view
postgres-KeepsLedger = record {
  belongs = belongs;
  saves = saves;
  consumes = λ jti p q. view-consume jti p q;
  revokes = view-revoke_all;
}
