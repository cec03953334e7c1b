-- ===== src/Store/Memory/Ledger.antt =====
-- The refresh tokens of api/internal/store/memory.go as a ledger.
use mathlib.Core.Path.{fun_ext}
use snow_radar.Common.{
  String, ◌≡◌, refl, ap, Bool, true, false, Option, none, some, string_eq, arith, Option-cases, inl,
  inr,
}
use snow_radar.Common.Dict.{lookup, insert, lookup-insert, lookup-map_values}
use snow_radar.Store.{StoreError, token_replayed}
use snow_radar.Store.Ledger
use snow_radar.Store.Ledger.{put, use_up, use_up_all, mark, viewed, consume, KeepsLedger}
use snow_radar.Store.Memory.{
  RefreshRow, Memory, memory, burn, save_refresh_token, consume_refresh_token,
  revoke_all_refresh_tokens,
}
use snow_radar.Store.Memory.Tokens.{unknown, first_use, replay, consume-Consumes}

abbrev pub entry_of : Option RefreshRow → Option (String × Bool)
entry_of none = none
entry_of (some row) = some (row.user_id, row.consumed)

abbrev pub memory_view : Memory → Ledger.Ledger
memory_view m j = entry_of (lookup j m.refresh)

view-save :
    (jti user_id : String) (m : Memory)
    → memory_view (save_refresh_token jti user_id m).0 ≡ put jti user_id (memory_view m)
unfolding save_refresh_token
view-save jti user_id m = fun_ext λ j.
    ground (arith, lookup-insert jti j (record { user_id = user_id; consumed = false }) m.refresh)

view-use_up :
    (jti user_id : String) (m : Memory)
    → memory_view (record m {
      refresh = insert jti (record { user_id = user_id; consumed = true }) m.refresh;
    })
      ≡ use_up jti user_id (memory_view m)
view-use_up jti user_id m = fun_ext λ j.
    ground (arith, lookup-insert jti j (record { user_id = user_id; consumed = true }) m.refresh)

view-revoke_all :
    (user_id : String) (m : Memory)
    → memory_view (revoke_all_refresh_tokens user_id m).0 ≡ use_up_all user_id (memory_view m)
unfolding revoke_all_refresh_tokens burn
view-revoke_all user_id m = fun_ext λ j.
    rw (lookup-map_values (burn user_id) j m.refresh) (elim (Option-cases (lookup j m.refresh)) [
      | inl e ↦ rw e refl
      | inr (row, e) ↦ rw e (ground arith)
    ])

view-consume :
    (jti : String) (m : Memory)
    → viewed memory_view (consume_refresh_token jti m) ≡ consume jti (memory_view m)
unfolding consume
view-consume jti m = elim (consume-Consumes jti m) [
  | unknown e r ↦ rw (r, e) refl
  | first_use u e r ↦
      let answer : Ledger.Ledger → Ledger.Ledger × String × Option StoreError = λ l. (l, u, none) in
      rw (r, e) (ap answer (view-use_up jti u m))
  | replay u e r ↦ rw (r, e) (ap (λ l. (l, u, some token_replayed)) (view-revoke_all u m))
]

-- In every state the memory store keeps the ledger of the tokens in its map, whether a user has an
-- account or not: each call that saves a token, consumes one or revokes all of a user gives the answer
-- and the ledger of the abstract operation.
pub memory-KeepsLedger : KeepsLedger memory (λ m. Unit) (λ user_id m. Unit) memory_view
memory-KeepsLedger = record {
  belongs = λ jti user_id used m h e. tt;
  saves = λ jti user_id m h k. (tt, unfold save_refresh_token in refl, view-save jti user_id m);
  consumes = λ jti m h. (tt, view-consume jti m);
  revokes =
      λ user_id m h. (tt, unfold revoke_all_refresh_tokens in refl, view-revoke_all user_id m);
}
