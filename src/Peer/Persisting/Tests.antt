-- ===== src/Peer/Persisting/Tests.antt =====
-- A run of `Connect` over the Postgres store, and the theorem about it at that input.
use snow_radar.Common.{String, ◌≡◌, refl, true, false, none, some, [], ◌∷◌, err, string_eq}
use snow_radar.Common.Dict.{lookup}
use snow_radar.Netalloc.{find_node, new, sgp}
use snow_radar.Netalloc.Invariant.{IsValid, initial, new-IsValid}
use snow_radar.Store.Schema.{Tables, select}
use snow_radar.Store.Postgres.{
  Postgres, postgres, Read, by_email, by_id, peers_of, subscription_of, Outcome, works, refused,
  exec, read, run, peers_by_user,
}
use snow_radar.Store.Schema.{select_peers}
use snow_radar.Peer.{PeerError, Service, Entry, choose, find_same, connect}
use snow_radar.Peer.Persisting.{connect-postgres}

tests : Unit {0}
unfolding lookup find_node new select select_peers exec read run peers_by_user find_same
tests = tt

-- User u has paid.
abbrev tables : Tables
tables = record {
  users = record { id = "u"; email = "u@b.c"; password_hash = "h" } ∷ [];
  subscriptions =
      record {
        subscription = record {
          user_id = "u";
          provider = "paddle";
          external = "s1";
          state = "active";
        };
        updated_at = 5;
      }
      ∷ [];
  peers = [];
  refresh_tokens = [];
}

abbrev entry : Entry
entry = record { wg = initial sgp false; awg = initial sgp true }

-- The list of peers cannot be read.
abbrev reads : Read → Outcome
reads by_email = works
reads by_id = works
reads peers_of = refused "down"
reads subscription_of = works

abbrev ready : Service Postgres
ready = record {
  store = record {
    tables = tables;
    clock = 9;
    turns = record { wait = 1; outcome = works; reads = reads } ∷ [];
  };
  allocators = ("sgp", entry) ∷ [];
  server_pub_keys = ("sgp", "S") ∷ [];
  endpoints = [];
}

abbrev key : String
key = "AAAAAAAAAAAAAAAAAAAAAAAAAAAAAAAAAAAAAAAAAAA="

entry-IsValid : IsValid (choose false entry)
unfolding tests
entry-IsValid = new-IsValid "sgp" false (initial sgp false) refl

at_node : lookup "sgp" ready.allocators ≡ some entry
unfolding tests
at_node = refl

new_device : find_same "sgp" false key (postgres.peers_by_user "u" ready.store).0 ≡ none
unfolding tests
new_device = refl

connect-postgres_example :
    ((e : PeerError) × ((connect postgres "u" "sgp" key false (7 ∷ []) 9 ready).1 ≡ err e))
    × ((connect postgres "u" "sgp" key false (7 ∷ []) 9 ready).0.store.tables ≡ tables)
connect-postgres_example =
    connect-postgres "u" "sgp" key false (7 ∷ []) 9 entry ready entry-IsValid refl at_node
      new_device
