-- ===== src/Store/Postgres/Saving.antt =====
-- `SaveRefreshToken` of api/internal/store/postgres.go while every statement works.
use mathlib.Core.Path.{fun_ext}
use snow_radar.Common.{
  String, ◌≡◌, refl, ap, sym, ◌∙◌, true, false, none, [], ◌∷◌, ◌++◌, ◌==◌, string_eq, if◌then◌else◌,
  arith, eq_iff, Bool-cases, Option-cases, inl, inr,
}
use snow_radar.Store.Schema.{TokenRow, update, known_user, upsert_token}
use snow_radar.Store.Ledger.{put}
use snow_radar.Store.Postgres.{Postgres, done, save_refresh_token}
use snow_radar.Store.Postgres.Rows.{
  find, is_found, exists-find, find_jti, KeepsJti, find-update, find-append, HasKey-update,
  HasKey-append, All-update, All-append_one,
}
use snow_radar.Store.Postgres.Quiet.{
  with_tokens, with_tokens-IsQuiet, exec-quiet, IsQuiet, tables_view, entry_of, HasOwner,
}

abbrev new_row : String → String → TokenRow
new_row jti user_id = record { jti = jti; user_id = user_id; consumed = false }

abbrev pub with_row : String → String → Postgres → Postgres
with_row jti user_id p =
    with_tokens
      (if is_found (find jti p.tables.refresh_tokens)
        then update (λ (r : TokenRow). r.jti == jti) (λ r. new_row jti user_id)
            p.tables.refresh_tokens
        else p.tables.refresh_tokens ++ (new_row jti user_id ∷ []))
      p

pub upsert-quiet :
    (jti user_id : String) (p : Postgres)
    → known_user user_id p.tables ≡ true
    → IsQuiet p
    → save_refresh_token jti user_id p ≡ (with_row jti user_id p, none)
unfolding save_refresh_token upsert_token done
upsert-quiet jti user_id p k q =
    rw
      (
        exec-quiet (λ now. upsert_token jti user_id) p q.working,
        k,
        exists-find jti p.tables.refresh_tokens,
      )
      (elim (Bool-cases (is_found (find jti p.tables.refresh_tokens))) [
        | inl there ↦ rw there refl
        | inr new ↦ rw new refl
      ])

stays_jti :
    (jti user_id : String) → KeepsJti (λ (r : TokenRow). r.jti == jti) (λ r. new_row jti user_id)
stays_jti jti user_id r h = sym ((eq_iff r.jti jti).0 h)

pub with_row-IsQuiet :
    (jti user_id : String) (p : Postgres)
    → known_user user_id p.tables ≡ true
    → IsQuiet p
    → IsQuiet (with_row jti user_id p)
with_row-IsQuiet jti user_id p k q =
    elim (Bool-cases (is_found (find jti p.tables.refresh_tokens))) [
      | inl there ↦ rw there (
          with_tokens-IsQuiet _ p q
            (HasKey-update (λ (r : TokenRow). r.jti == jti) (λ r. new_row jti user_id)
              p.tables.refresh_tokens (stays_jti jti user_id) q.key)
            (All-update (HasOwner p.tables) (λ (r : TokenRow). r.jti == jti)
              (λ r. new_row jti user_id) p.tables.refresh_tokens (λ r h. ground (arith, k))
              q.owners))
      | inr new ↦ rw new (
          with_tokens-IsQuiet _ p q
            (HasKey-append p.tables.refresh_tokens (new_row jti user_id) q.key (ground arith))
            (All-append_one (HasOwner p.tables) p.tables.refresh_tokens (new_row jti user_id)
              q.owners k))
    ]

pub view-with_row :
    (jti user_id : String) (p : Postgres)
    → tables_view (with_row jti user_id p) ≡ put jti user_id (tables_view p)
view-with_row jti user_id p = fun_ext λ j.
    elim (Bool-cases (is_found (find jti p.tables.refresh_tokens))) [
      | inl there ↦ rw there (
          ap entry_of (
            find-update (λ (r : TokenRow). r.jti == jti) (λ r. new_row jti user_id) j
              p.tables.refresh_tokens (stays_jti jti user_id))
          ∙ (elim (Option-cases (find j p.tables.refresh_tokens)) [
            | inl e ↦ rw e (ground (arith, eq_iff jti j, e))
            | inr (q, e) ↦ rw e (
                ground
                  (arith, eq_iff jti j, eq_iff q.jti jti, find_jti j p.tables.refresh_tokens q e))
          ]))
      | inr new ↦ rw new (
          ap entry_of (find-append j p.tables.refresh_tokens (new_row jti user_id))
          ∙ (elim (Option-cases (find j p.tables.refresh_tokens)) [
            | inl e ↦ rw e (ground arith)
            | inr (q, e) ↦ rw e (ground (arith, eq_iff jti j, e))
          ]))
    ]
