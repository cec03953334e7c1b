-- ===== src/Store/Postgres/Quiet.antt =====
-- The tokens of api/internal/store/postgres.go while every statement works: what one statement leaves
-- of the view of the table.
use mathlib.Core.Path.{fun_ext}
use snow_radar.Common.{
  String, ◌≡◌, refl, ap, ◌∙◌, Bool, true, false, not, ◌&&◌, Option, none, some, List, [], ◌==◌,
  string_eq, arith, eq_iff, All, Option-cases, inl, inr, ℕ,
}
use snow_radar.Store.Schema.{TokenRow, Tables, Statement, update, known_user, spend_rows}
use snow_radar.Store.Ledger
use snow_radar.Store.Ledger.{put, use_up, use_up_all, mark, viewed, settle, consume, KeepsLedger}
use snow_radar.Store.Postgres.{Postgres, run, exec, done, revoke_all_refresh_tokens}
use snow_radar.Store.Postgres.Rows.{
  find, change_if, changed, find_jti, find-update, HasKey, HasKey-update, All-update,
}

abbrev pub entry_of : Option TokenRow → Option (String × Bool)
entry_of none = none
entry_of (some row) = some (row.user_id, row.consumed)

abbrev pub tables_view : Postgres → Ledger.Ledger
tables_view p j = entry_of (find j p.tables.refresh_tokens)

abbrev pub HasOwner : Tables → TokenRow → Type 0
HasOwner t r = known_user r.user_id t ≡ true

-- Every statement to come works, and the table of tokens has its two constraints.
pub record IsQuiet (p : Postgres) : Type 0 where
  pub working : p.turns ≡ []
  pub key : HasKey p.tables.refresh_tokens
  pub owners : All (HasOwner p.tables) p.tables.refresh_tokens

-- A database whose statements work.
pub exec-quiet :
    {A : Type 0} (stmt : ℕ → Statement A) (p : Postgres)
    → p.turns ≡ []
    → exec stmt p ≡ (record p { tables = (stmt p.clock p.tables).0 }, (stmt p.clock p.tables).1)
unfolding exec run
exec-quiet stmt p h = rw (exec, h)

abbrev pub with_tokens : List TokenRow → Postgres → Postgres
with_tokens rows p = record p { tables = record p.tables { refresh_tokens = rows } }

pub with_tokens-IsQuiet :
    (rows : List TokenRow) (p : Postgres)
    → IsQuiet p
    → HasKey rows
    → All (HasOwner p.tables) rows
    → IsQuiet (with_tokens rows p)
with_tokens-IsQuiet rows p q k o = record { working = q.working; key = k; owners = o }

abbrev pub spend : TokenRow → TokenRow
spend r = record r { consumed = true }

-- Spending the rows that pass a test.
pub spend-IsQuiet :
    (test : TokenRow → Bool) (p : Postgres)
    → IsQuiet p
    → IsQuiet (with_tokens (update test spend p.tables.refresh_tokens) p)
spend-IsQuiet test p q =
    with_tokens-IsQuiet (update test spend p.tables.refresh_tokens) p q
      (HasKey-update test spend p.tables.refresh_tokens (λ r h. refl) q.key)
      (All-update (HasOwner p.tables) test spend p.tables.refresh_tokens (λ r h. ground arith)
        q.owners)

pub view-spend :
    (test : TokenRow → Bool) (p : Postgres) (j : String)
    → tables_view (with_tokens (update test spend p.tables.refresh_tokens) p) j
      ≡ entry_of (changed (change_if test spend) (find j p.tables.refresh_tokens))
view-spend test p j = ap entry_of (find-update test spend j p.tables.refresh_tokens (λ r h. refl))

pub view-spend_all :
    (user_id : String) (p : Postgres)
    → tables_view (
        with_tokens
          (update (λ (r : TokenRow). r.user_id == user_id) spend p.tables.refresh_tokens)
          p)
      ≡ use_up_all user_id (tables_view p)
view-spend_all user_id p = fun_ext λ j.
    view-spend (λ (r : TokenRow). r.user_id == user_id) p j
    ∙ (elim (Option-cases (find j p.tables.refresh_tokens)) [
      | inl e ↦ rw e refl
      | inr (row, e) ↦ rw e (ground arith)
    ])

abbrev pub is_fresh : String → TokenRow → Bool
is_fresh jti r = r.jti == jti && not r.consumed

-- No row is fresh, so nothing changes.
pub view-spend_none :
    (jti : String) (p : Postgres)
    → ((row : TokenRow) → find jti p.tables.refresh_tokens ≡ some row → row.consumed ≡ true)
    → tables_view (with_tokens (update (is_fresh jti) spend p.tables.refresh_tokens) p)
      ≡ tables_view p
view-spend_none jti p h = fun_ext λ j.
    view-spend (is_fresh jti) p j ∙ (elim (Option-cases (find j p.tables.refresh_tokens)) [
      | inl e ↦ rw e refl
      | inr (row, e) ↦
          rw e (ground (arith, find_jti j p.tables.refresh_tokens row e, eq_iff row.jti jti, h row))
    ])

pub view-spend_fresh :
    (jti : String) (p : Postgres) (row : TokenRow)
    → find jti p.tables.refresh_tokens ≡ some row
    → row.consumed ≡ false
    → tables_view (with_tokens (update (is_fresh jti) spend p.tables.refresh_tokens) p)
      ≡ use_up jti row.user_id (tables_view p)
view-spend_fresh jti p row f live = fun_ext λ j.
    view-spend (is_fresh jti) p j ∙ (elim (Option-cases (find j p.tables.refresh_tokens)) [
      | inl e ↦ rw e (ground (arith, eq_iff jti j, e, f))
      | inr (q, e) ↦ rw e (
          ground
            (arith, eq_iff jti j, eq_iff q.jti jti, find_jti j p.tables.refresh_tokens q e, e, f))
    ])

pub view-revoke_all :
    (user_id : String) (p : Postgres)
    → IsQuiet p
    → IsQuiet (revoke_all_refresh_tokens user_id p).0
      × ((revoke_all_refresh_tokens user_id p).1 ≡ none)
      × (tables_view (revoke_all_refresh_tokens user_id p).0 ≡ use_up_all user_id (tables_view p))
unfolding revoke_all_refresh_tokens done spend_rows
view-revoke_all user_id p q =
    rw (exec-quiet (λ now. spend_rows (λ (r : TokenRow). r.user_id == user_id)) p q.working)
      (spend-IsQuiet (λ (r : TokenRow). r.user_id == user_id) p q, refl, view-spend_all user_id p)
