-- ===== src/Store/Postgres/Consuming.antt =====
-- `ConsumeRefreshToken` of api/internal/store/postgres.go while every statement works.
use snow_radar.Common.{
  String, ◌≡◌, refl, ap, ◌∙◌, true, false, Option, none, some, ◌==◌, string_eq, if◌then◌else◌,
  arith, Bool-cases, Option-cases, inl, inr, ok,
}
use snow_radar.Store.{StoreError, not_found, token_replayed}
use snow_radar.Store.Schema.{TokenRow, update, spend_rows, select_token}
use snow_radar.Store.Ledger
use snow_radar.Store.Ledger.{put, use_up, use_up_all, mark, viewed, settle, consume, KeepsLedger}
use snow_radar.Store.Postgres.{
  Postgres, exec, burn, confirm, spend_or_confirm, consume_refresh_token,
}
use snow_radar.Store.Postgres.Rows.{
  find, change_if, changed, first-select, find-update, first-select_fresh,
}
use snow_radar.Store.Postgres.Quiet.{
  with_tokens, spend-IsQuiet, view-spend_all, is_fresh, spend, view-spend_none, view-spend_fresh,
  exec-quiet, IsQuiet, tables_view,
}

-- The state after the first statement.
abbrev after_first : String → Postgres → Postgres
after_first jti p = with_tokens (update (is_fresh jti) spend p.tables.refresh_tokens) p

first_statement :
    (jti : String) (p : Postgres)
    → IsQuiet p
    → exec (λ now. spend_rows (is_fresh jti)) p ≡ (
      after_first jti p,
      ok (elim (find jti p.tables.refresh_tokens) [
        | none ↦ none
        | some r ↦ if r.consumed then none else some r
      ]),
    )
unfolding spend_rows
first_statement jti p q =
    exec-quiet (λ now. spend_rows (is_fresh jti)) p q.working
    ∙ rw (first-select_fresh jti p.tables.refresh_tokens q.key)

second_statement :
    (jti : String) (p : Postgres)
    → IsQuiet p
    → exec (λ now. select_token jti) p ≡ (p, ok (find jti p.tables.refresh_tokens))
unfolding select_token
second_statement jti p q =
    exec-quiet (λ now. select_token jti) p q.working ∙ rw (first-select jti p.tables.refresh_tokens)

third_statement :
    (user_id : String) (p : Postgres)
    → IsQuiet p
    → IsQuiet (burn user_id p).0
      × (tables_view (burn user_id p).0 ≡ use_up_all user_id (tables_view p))
unfolding spend_rows
third_statement user_id p q =
    rw (exec-quiet (λ now. spend_rows (λ (r : TokenRow). r.user_id == user_id)) p q.working)
      (spend-IsQuiet (λ (r : TokenRow). r.user_id == user_id) p q, view-spend_all user_id p)

find-after_first :
    (jti : String) (p : Postgres)
    → find jti (after_first jti p).tables.refresh_tokens
      ≡ changed (change_if (is_fresh jti) spend) (find jti p.tables.refresh_tokens)
find-after_first jti p = find-update (is_fresh jti) spend jti p.tables.refresh_tokens (λ r h. refl)

-- What a use gives, in each of the three cases.
abbrev pub Consumed : String → Postgres → Postgres × String × Option StoreError → Type 0
Consumed jti p r = IsQuiet r.0 × (viewed tables_view r ≡ consume jti (tables_view p))

consume-unknown :
    (jti : String) (p : Postgres)
    → IsQuiet p
    → find jti p.tables.refresh_tokens ≡ none
    → Consumed jti p (consume_refresh_token jti p)
unfolding consume_refresh_token spend_or_confirm confirm consume
consume-unknown jti p q e =
    let q' = spend-IsQuiet (is_fresh jti) p q in
    rw
      (
        first_statement jti p q,
        e,
        second_statement jti (after_first jti p) q',
        find-after_first jti p,
        e,
      )
      (
        q',
        ap (λ (l : Ledger.Ledger). (l, "", some not_found)) (view-spend_none jti p (λ row f. cc)),
      )

consume-first_use :
    (jti : String) (p : Postgres) (row : TokenRow)
    → IsQuiet p
    → find jti p.tables.refresh_tokens ≡ some row
    → row.consumed ≡ false
    → Consumed jti p (consume_refresh_token jti p)
unfolding consume_refresh_token spend_or_confirm consume
consume-first_use jti p row q e live =
    rw (first_statement jti p q, e, live)
      (
        spend-IsQuiet (is_fresh jti) p q,
        ap (λ (l : Ledger.Ledger). (l, row.user_id, none)) (view-spend_fresh jti p row e live),
      )

consume-replay :
    (jti : String) (p : Postgres) (row : TokenRow)
    → IsQuiet p
    → find jti p.tables.refresh_tokens ≡ some row
    → row.consumed ≡ true
    → Consumed jti p (consume_refresh_token jti p)
unfolding consume_refresh_token spend_or_confirm confirm consume
consume-replay jti p row q e used =
    let q' = spend-IsQuiet (is_fresh jti) p q in
    let (q'', all) = third_statement row.user_id (after_first jti p) q' in
    let same = view-spend_none jti p (λ other f. ground arith) in
    let kept : find jti (after_first jti p).tables.refresh_tokens ≡ some row =
      find-after_first jti p ∙ rw e (ground arith) in
    rw (first_statement jti p q, e, used, second_statement jti (after_first jti p) q', kept)
      (
        q'',
        ap (λ (l : Ledger.Ledger). (l, row.user_id, some token_replayed))
            (all ∙ ap (use_up_all row.user_id) same),
      )

pub view-consume :
    (jti : String) (p : Postgres) → IsQuiet p → Consumed jti p (consume_refresh_token jti p)
view-consume jti p q = elim (Option-cases (find jti p.tables.refresh_tokens)) [
  | inl e ↦ consume-unknown jti p q e
  | inr (row, e) ↦ elim (Bool-cases row.consumed) [
    | inl used ↦ consume-replay jti p row q e used
    | inr live ↦ consume-first_use jti p row q e live
  ]
]
