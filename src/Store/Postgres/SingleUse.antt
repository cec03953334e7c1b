-- ===== src/Store/Postgres/SingleUse.antt =====
-- `ConsumeRefreshToken` of api/internal/store/postgres.go whatever becomes of the statements: some are
-- refused, and of some the answer is lost.
use snow_radar.Common.{
  String, ◌≡◌, ◌≢◌, refl, Bool, true, false, ◌&&◌, Option, none, some, List, [], ◌∷◌, Result, ok,
  err, ◌==◌, string_eq,
}
use snow_radar.Store.{User, Peer}
use snow_radar.Store.Schema.{
  TokenRow, Tables, first, insert_user, upsert_peer, deactivate, upsert_subscription_row,
  upsert_token, spend_rows, select_token,
}
use snow_radar.Store.Memory.Tokens.{
  Call, creates_user, saves_peer, revokes_peer, upserts_subscription, saves_refresh_token,
  consumes_refresh_token, revokes_all, Issues, NoneIssues,
}
use snow_radar.Store.Postgres.{
  Outcome, works, refused, lost, Turn, Postgres, run, exec, done, with_returned_id, affected, burn,
  confirm, spend_or_confirm, create_user, save_peer, revoke_peer, upsert_subscription,
  save_refresh_token, consume_refresh_token, revoke_all_refresh_tokens,
}
use snow_radar.Store.Postgres.Spent.{
  spend_rows-Keeps, spend_live, select-spent, exec-Keeps, upsert_token-Keeps, insert_user-tokens,
  upsert_peer-tokens, upsert_subscription_row-tokens, is_live, IsSpent,
}

-- The helpers that read an answer of the database keep the state.
done_state : {A : Type 0} (r : Postgres × Result String A) → (done r).0 ≡ r.0
unfolding done
done_state (p, ok a) = refl
done_state (p, err m) = refl

affected_state : (r : Postgres × Result String Bool) → (affected r).0 ≡ r.0
unfolding affected
affected_state (p, ok true) = refl
affected_state (p, ok false) = refl
affected_state (p, err m) = refl

with_returned_id_state :
    (u : User) (r : Postgres × Result String String) → (with_returned_id u r).0 ≡ r.0
unfolding with_returned_id
with_returned_id_state u (p, ok id) = refl
with_returned_id_state u (p, err m) = refl

pub spend-exec :
    (jti : String) (test : TokenRow → Bool) (p : Postgres)
    → IsSpent jti p.tables
    → IsSpent jti (exec (λ now. spend_rows test) p).0.tables
unfolding spend_rows
spend-exec jti test p h =
    exec-Keeps jti (λ now. spend_rows test) p h
      (λ now. spend_rows-Keeps jti test p.tables.refresh_tokens h)

pub select-exec :
    (jti j : String) (p : Postgres)
    → IsSpent jti p.tables
    → IsSpent jti (exec (λ now. select_token j) p).0.tables
unfolding select_token
select-exec jti j p h = exec-Keeps jti (λ now. select_token j) p h (λ now. h)

confirm-Keeps :
    (jti : String) (r : Postgres × Result String (Option TokenRow))
    → IsSpent jti r.0.tables
    → IsSpent jti (confirm r).0.tables
unfolding confirm
confirm-Keeps jti (p, err m) h = h
confirm-Keeps jti (p, ok none) h = h
confirm-Keeps jti (p, ok (some row)) h =
    spend-exec jti (λ (r : TokenRow). r.user_id == row.user_id) p h

spend_or_confirm-Keeps :
    (jti j : String) (r : Postgres × Result String (Option TokenRow))
    → IsSpent jti r.0.tables
    → IsSpent jti (spend_or_confirm j r).0.tables
unfolding spend_or_confirm
spend_or_confirm-Keeps jti j (p, err m) h = h
spend_or_confirm-Keeps jti j (p, ok (some row)) h = h
spend_or_confirm-Keeps jti j (p, ok none) h =
    confirm-Keeps jti (exec (λ now. select_token j) p) (select-exec jti j p h)

consume-Keeps :
    (jti j : String) (p : Postgres)
    → IsSpent jti p.tables
    → IsSpent jti (consume_refresh_token j p).0.tables
unfolding consume_refresh_token
consume-Keeps jti j p h =
    spend_or_confirm-Keeps jti j (exec (λ now. spend_rows (is_live j)) p)
      (spend-exec jti (is_live j) p h)

unfoldable pub step : Postgres → Call → Postgres
step p (creates_user random u) = (create_user random u p).0
step p (saves_peer q) = (save_peer q p).0
step p (revokes_peer peer_id user_id) = (revoke_peer peer_id user_id p).0
step p (upserts_subscription s) = (upsert_subscription s p).0
step p (saves_refresh_token jti user_id) = (save_refresh_token jti user_id p).0
step p (consumes_refresh_token jti) = (consume_refresh_token jti p).0
step p (revokes_all user_id) = (revoke_all_refresh_tokens user_id p).0

unfoldable pub steps : Postgres → List Call → Postgres
steps p [] = p
steps p (c ∷ cs) = steps (step p c) cs

pub step-Keeps :
    (jti : String) (p : Postgres) (c : Call)
    → ¬ Issues jti c
    → IsSpent jti p.tables
    → IsSpent jti (step p c).tables
unfolding step create_user save_peer revoke_peer upsert_subscription save_refresh_token deactivate
    revoke_all_refresh_tokens
step-Keeps jti p (creates_user random u) n h =
    rw (with_returned_id_state u (exec (λ now. insert_user none u.email u.password_hash) p)) (
      exec-Keeps jti (λ now. insert_user none u.email u.password_hash) p h
        (λ now. rw (insert_user-tokens none u.email u.password_hash p.tables) h))
step-Keeps jti p (saves_peer q) n h =
    rw (done_state (exec (λ now. upsert_peer q) p))
      (exec-Keeps jti (λ now. upsert_peer q) p h (λ now. rw (upsert_peer-tokens q p.tables) h))
step-Keeps jti p (revokes_peer peer_id user_id) n h =
    let test = λ (q : Peer). q.id == peer_id && (q.user_id == user_id && q.active) in
    rw (affected_state (exec (λ now. deactivate test) p))
      (exec-Keeps jti (λ now. deactivate test) p h (λ now. h))
step-Keeps jti p (upserts_subscription s) n h =
    rw (done_state (exec (λ now. upsert_subscription_row s now) p)) (
      exec-Keeps jti (λ now. upsert_subscription_row s now) p h
        (λ now. rw (upsert_subscription_row-tokens s now p.tables) h))
step-Keeps jti p (saves_refresh_token j user_id) n h =
    rw (done_state (exec (λ now. upsert_token j user_id) p)) (
      exec-Keeps jti (λ now. upsert_token j user_id) p h
        (λ now. upsert_token-Keeps jti j user_id p.tables n h))
step-Keeps jti p (consumes_refresh_token j) n h = consume-Keeps jti j p h
step-Keeps jti p (revokes_all user_id) n h =
    rw (done_state (burn user_id p)) (spend-exec jti (λ (r : TokenRow). r.user_id == user_id) p h)

steps-Keeps :
    (jti : String) (p : Postgres) (cs : List Call)
    → NoneIssues jti cs
    → IsSpent jti p.tables
    → IsSpent jti (steps p cs).tables
unfolding steps
steps-Keeps jti p [] n h = h
steps-Keeps jti p (c ∷ cs) n h = steps-Keeps jti (step p c) cs n.1 (step-Keeps jti p c n.0 h)

-- The first statement of `ConsumeRefreshToken`, once its answer arrives.
run-spends :
    (jti : String) (o : Outcome) (t : Tables) (a : Option TokenRow)
    → (run o (spend_rows (is_live jti)) t).1 ≡ ok a
    → IsSpent jti (run o (spend_rows (is_live jti)) t).0
unfolding run spend_rows
run-spends jti works t a e = spend_live jti t.refresh_tokens
run-spends jti (refused m) t a e = cc
run-spends jti (lost m) t a e = spend_live jti t.refresh_tokens

run-none :
    (jti : String) (o : Outcome) (t : Tables)
    → IsSpent jti t
    → (row : TokenRow) → (run o (spend_rows (is_live jti)) t).1 ≢ ok (some row)
unfolding run spend_rows first
run-none jti works t h row = rw (select-spent jti t.refresh_tokens h) (λ e. cc)
run-none jti (refused m) t h row = λ e. cc
run-none jti (lost m) t h row = λ e. cc

pub exec-spends :
    (jti : String) (p : Postgres) (a : Option TokenRow)
    → (exec (λ now. spend_rows (is_live jti)) p).1 ≡ ok a
    → IsSpent jti (exec (λ now. spend_rows (is_live jti)) p).0.tables
unfolding exec
exec-spends jti p a h = go p.turns refl
  where
    go :
        (turns : List Turn)
        → p.turns ≡ turns
        → IsSpent jti (exec (λ now. spend_rows (is_live jti)) p).0.tables
    go [] e = rw (exec, e) (run-spends jti works p.tables a (rw (exec, e) at h))
    go (t ∷ ts) e = rw (exec, e) (run-spends jti t.outcome p.tables a (rw (exec, e) at h))

pub exec-none :
    (jti : String) (p : Postgres)
    → IsSpent jti p.tables
    → (row : TokenRow) → (exec (λ now. spend_rows (is_live jti)) p).1 ≢ ok (some row)
unfolding exec
exec-none jti p h row = go p.turns refl
  where
    go :
        (turns : List Turn)
        → p.turns ≡ turns
        → (exec (λ now. spend_rows (is_live jti)) p).1 ≢ ok (some row)
    go [] e = rw (exec, e) (run-none jti works p.tables h row)
    go (t ∷ ts) e = rw (exec, e) (run-none jti t.outcome p.tables h row)

confirm-fails : (r : Postgres × Result String (Option TokenRow)) → (confirm r).2 ≢ none
unfolding confirm
confirm-fails (p, err m) = λ e. cc
confirm-fails (p, ok none) = λ e. cc
confirm-fails (p, ok (some row)) = λ e. cc

-- A use succeeds only where the first statement gives a row.
spend_or_confirm-none :
    (jti : String) (r : Postgres × Result String (Option TokenRow))
    → (spend_or_confirm jti r).2 ≡ none
    → (row : TokenRow) × (r.1 ≡ ok (some row)) × ((spend_or_confirm jti r).0 ≡ r.0)
unfolding spend_or_confirm
spend_or_confirm-none jti (p, err m) h = cc
spend_or_confirm-none jti (p, ok (some row)) h = (row, refl, refl)
spend_or_confirm-none jti (p, ok none) h =
    absurd (confirm-fails (exec (λ now. select_token jti) p) h)

-- Whatever becomes of the statements, now and later, a refresh token that was consumed once with
-- success is not consumed with success again, after any calls that do not issue it anew.
pub consume-once_outages :
    (jti : String) (p : Postgres) (cs : List Call)
    → (consume_refresh_token jti p).2 ≡ none
    → NoneIssues jti cs
    → (consume_refresh_token jti (steps (consume_refresh_token jti p).0 cs)).2 ≢ none
unfolding consume_refresh_token
consume-once_outages jti p cs h n again =
    let (row, f, same) = spend_or_confirm-none jti (exec (λ now. spend_rows (is_live jti)) p) h in
    let spent : IsSpent jti (consume_refresh_token jti p).0.tables =
      rw (consume_refresh_token, same) (exec-spends jti p (some row) f) in
    let q = steps (consume_refresh_token jti p).0 cs in
    let (row', f', same') =
      spend_or_confirm-none jti (exec (λ now. spend_rows (is_live jti)) q) again in
    exec-none jti q (steps-Keeps jti (consume_refresh_token jti p).0 cs n spent) row' f'
