-- ===== src/Store/Postgres/Concurrent/Tests.antt =====
-- Two calls that consume the same token at the same time, and the theorem about them.
use snow_radar.Common.{◌≤◌, ◌≡◌, refl, false, none, some, List, [], ◌∷◌, string_eq, All}
use snow_radar.Store.{token_replayed}
use snow_radar.Store.Schema.{select, first, update, spend_rows, select_token}
use snow_radar.Store.Memory.Tokens.{revokes_all}
use snow_radar.Store.Postgres.{Postgres, run, exec, done, revoke_all_refresh_tokens}
use snow_radar.Store.Postgres.SingleUse.{step}
use snow_radar.Store.Postgres.Concurrent.{
  starting, finished, proceed, Event, proceeds, calls, proceed_at, happen, winners,
}
use snow_radar.Store.Postgres.Concurrent.Winning.{LeavesToken, consume-at_most_once}

tests : Unit {0}
unfolding select first update spend_rows select_token run exec done revoke_all_refresh_tokens step
    proceed proceed_at happen
tests = tt

abbrev database : Postgres
database = record {
  tables = record {
    users = record { id = "a"; email = "a@b.c"; password_hash = "h" } ∷ [];
    subscriptions = [];
    peers = [];
    refresh_tokens = record { jti = "j1"; user_id = "a"; consumed = false } ∷ [];
  };
  clock = 5;
  turns = [];
}

abbrev events : List Event
events = proceeds 0 ∷ proceeds 1 ∷ proceeds 1 ∷ calls (revokes_all "a") ∷ proceeds 1 ∷ []

-- The first call wins, and the second one is a replay.
one_wins :
    (happen "j1" events (starting ∷ starting ∷ []) database).1
    ≡ finished "a" none ∷ finished "a" (some token_replayed) ∷ []
unfolding tests
one_wins = refl

left_alone : All (LeavesToken "j1") events
left_alone = (tt, (tt, (tt, (λ e. e, (tt, tt)))))

consume-at_most_once_example :
    winners (happen "j1" events (starting ∷ starting ∷ []) database).1 ≤ 1
consume-at_most_once_example =
    consume-at_most_once "j1" events (starting ∷ starting ∷ []) database refl left_alone
