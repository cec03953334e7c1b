-- ===== src/Store/Postgres.antt =====
-- api/internal/store/postgres.go: the store over a database. Each statement runs at some time and may
-- fail: the database may refuse it, or carry it out while its answer is lost. `turns` says what
-- becomes of the statements to come; where it ends, they work. An answer of the database that a
-- method does not expect is passed on as an error with its message.
pub mod Rows
pub mod Quiet
pub mod Consuming
pub mod Saving
pub mod Ledger
pub mod Gaps
pub mod Spent
pub mod SingleUse
pub mod Concurrent
mod Tests
use snow_radar.Common.{
  ℕ, ◌+◌, String, Bool, true, false, not, ◌&&◌, Option, none, some, List, [], ◌∷◌, Result, ok, err,
  ◌==◌, string_eq, if◌then◌else◌,
}
use snow_radar.Store.{StoreError, not_found, token_replayed, other, User, Peer, Subscription, Store}
use snow_radar.Store.Schema.{
  TokenRow, Tables, Statement, insert_user, select_user, upsert_peer, select_peers, deactivate,
  upsert_subscription_row, select_subscription, upsert_token, spend_rows, select_token,
}

pub data Outcome : Type 0 where
  works : Outcome
  refused lost : String → Outcome

-- The methods that only read.
pub data Read : Type 0 where
  by_email by_id peers_of subscription_of : Read

-- A statement comes some time after the one before it; each read that comes before it has an outcome
-- of its own.
pub record Turn : Type 0 where
  pub wait : ℕ
  pub outcome : Outcome
  pub reads : Read → Outcome

pub record Postgres : Type 0 where
  pub tables : Tables
  pub clock : ℕ
  pub turns : List Turn

module _ {A : Type 0} where
  -- One statement whose outcome is given.
  unfoldable pub run : Outcome → Statement A → Tables → Tables × Result String A
  run works stmt t = stmt t
  run (refused message) stmt t = (t, err message)
  run (lost message) stmt t = ((stmt t).0, err message)

  -- A call of the database, by Exec, Query or QueryRow.
  unfoldable pub exec : (ℕ → Statement A) → Postgres → Postgres × Result String A
  unfolding run
  exec stmt p = elim p.turns [
    | [] ↦
        let r = run works (stmt p.clock) p.tables in
        (record { tables = r.0; clock = p.clock; turns = [] }, r.1)
    | turn ∷ turns ↦
        let now = p.clock + turn.wait in
        let r = run turn.outcome (stmt now) p.tables in
        (record { tables = r.0; clock = now; turns = turns }, r.1)
  ]

  -- A call of the database in a method that only reads.
  unfoldable pub read : Read → Statement A → Postgres → Result String A
  unfolding run
  read kind stmt p = elim p.turns [
    | [] ↦ (run works stmt p.tables).1
    | turn ∷ turns ↦ (run (turn.reads kind) stmt p.tables).1
  ]

  -- A statement whose answer is whether it went well.
  pub done : Postgres × Result String A → Postgres × Option StoreError
  done (p, ok a) = (p, none)
  done (p, err message) = (p, some (other message))

  -- `scanUser`, and the same for a subscription: no row is ErrNotFound.
  pub scanned : Result String (Option A) → Result StoreError A
  scanned (ok none) = err not_found
  scanned (ok (some a)) = ok a
  scanned (err message) = err (other message)

-- `QueryRow(...).Scan(&u.ID)`: the id goes into the user that was given.
pub with_returned_id : User → Postgres × Result String String → Postgres × Result StoreError User
with_returned_id u (p, ok id) = (p, ok (record u { id = id }))
with_returned_id u (p, err message) = (p, err (other message))

unfoldable pub create_user : List ℕ → User → Postgres → Postgres × Result StoreError User
unfolding with_returned_id
create_user random u p =
    with_returned_id u (exec (λ now. insert_user none u.email u.password_hash) p)

unfoldable pub get_user_by_email : String → Postgres → Result StoreError User
unfolding scanned
get_user_by_email email p = scanned (read by_email (select_user (λ (u : User). u.email == email)) p)

unfoldable pub get_user : String → Postgres → Result StoreError User
unfolding scanned
get_user id p = scanned (read by_id (select_user (λ (u : User). u.id == id)) p)

unfoldable pub save_peer : Peer → Postgres → Postgres × Option StoreError
unfolding done
save_peer peer p = done (exec (λ now. upsert_peer peer) p)

abbrev pub listed : Result String (List Peer) → List Peer × Option StoreError
listed (ok peers) = (peers, none)
listed (err message) = ([], some (other message))

unfoldable pub peers_by_user : String → Postgres → List Peer × Option StoreError
peers_by_user user_id p =
    listed (read peers_of (select_peers (λ (q : Peer). q.user_id == user_id && q.active)) p)

-- `tag.RowsAffected() == 0`
pub affected : Postgres × Result String Bool → Postgres × Option StoreError
affected (p, ok true) = (p, none)
affected (p, ok false) = (p, some not_found)
affected (p, err message) = (p, some (other message))

unfoldable pub revoke_peer : String → String → Postgres → Postgres × Option StoreError
unfolding affected
revoke_peer peer_id user_id p = affected (
    exec (λ now. deactivate (λ (q : Peer). q.id == peer_id && (q.user_id == user_id && q.active)))
      p)

unfoldable pub upsert_subscription : Subscription → Postgres → Postgres × Option StoreError
unfolding done
upsert_subscription s p = done (exec (λ now. upsert_subscription_row s now) p)

unfoldable pub get_subscription : String → Postgres → Result StoreError Subscription
unfolding scanned
get_subscription user_id p = scanned (read subscription_of (select_subscription user_id) p)

unfoldable pub save_refresh_token : String → String → Postgres → Postgres × Option StoreError
unfolding done
save_refresh_token jti user_id p = done (exec (λ now. upsert_token jti user_id) p)

-- UPDATE refresh_tokens SET consumed = TRUE WHERE user_id = $1
abbrev pub burn : String → Postgres → Postgres × Result String (Option TokenRow)
burn user_id p = exec (λ now. spend_rows (λ (r : TokenRow). r.user_id == user_id)) p

-- `ConsumeRefreshToken` after the second statement; the answer to the third one is not looked at.
pub confirm : Postgres × Result String (Option TokenRow) → Postgres × String × Option StoreError
confirm (p, err message) = (p, "", some (other message))
confirm (p, ok none) = (p, "", some not_found)
confirm (p, ok (some row)) = ((burn row.user_id p).0, row.user_id, some token_replayed)

-- `ConsumeRefreshToken` after the first statement.
pub spend_or_confirm :
    String → Postgres × Result String (Option TokenRow) → Postgres × String × Option StoreError
unfolding confirm
spend_or_confirm jti (p, err message) = (p, "", some (other message))
spend_or_confirm jti (p, ok (some row)) = (p, row.user_id, none)
spend_or_confirm jti (p, ok none) = confirm (exec (λ now. select_token jti) p)

unfoldable pub consume_refresh_token : String → Postgres → Postgres × String × Option StoreError
unfolding spend_or_confirm
consume_refresh_token jti p =
    spend_or_confirm jti
      (exec (λ now. spend_rows (λ (r : TokenRow). r.jti == jti && not r.consumed)) p)

unfoldable pub revoke_all_refresh_tokens : String → Postgres → Postgres × Option StoreError
unfolding done
revoke_all_refresh_tokens user_id p = done (burn user_id p)

-- A read gives no state after it, so it uses up no turn: `reads` of the turn to come has its outcome.
abbrev pub postgres : Store Postgres
postgres = record {
  create_user = create_user;
  get_user_by_email = get_user_by_email;
  get_user = get_user;
  save_peer = save_peer;
  peers_by_user = peers_by_user;
  revoke_peer = revoke_peer;
  upsert_subscription = upsert_subscription;
  get_subscription = get_subscription;
  save_refresh_token = save_refresh_token;
  consume_refresh_token = consume_refresh_token;
  revoke_all_refresh_tokens = revoke_all_refresh_tokens;
}
