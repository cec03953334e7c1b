-- ===== src/Api/Router/Tests.antt =====
-- A history of requests to a server over the memory store, and each theorem at it.
use snow_radar.Common.{
  ◌*◌, ◌≤◌, String, ◌≡◌, ◌⊎◌, refl, true, false, none, some, List, [], ◌∷◌, ok, string_eq, length,
}
use snow_radar.Common.Dict.{lookup, insert, delete}
use snow_radar.Common.Texts.{concat, digits, decimal}
use snow_radar.Common.Scan.{trim_prefix}
use snow_radar.Codec.{sextet, letter, encode_to_string, decode_string}
use snow_radar.Netalloc.{
  must_prefix, find_node, new, advance, host, search, allocate, allocate_from, sgp, fsn,
}
use snow_radar.Netalloc.Invariant.{initial}
use snow_radar.Store.{Peer}
use snow_radar.Store.Memory.{
  Memory, memory, new_memory, save_peer, active_of, peers_by_user, get_subscription,
}
use snow_radar.Auth.{second, verify}
use snow_radar.Auth.Table.{table, table_parse, claims_beq, check}
use snow_radar.Auth.Passwords.Samples.{marks}
use snow_radar.Billing.Checkout.Samples.{sums, counted}
use snow_radar.Peer.{
  prefix_string, endpoint, new_id, find_same, is_public_key, may_connect, render_client_config,
  add_nodes, new_service, connect,
}
use snow_radar.Peer.Invariant.{IsActive}
use snow_radar.Api.RateLimit.{new_rate_limiter, rate_limit, restart, collect}
use snow_radar.Api.Sessions.{require_auth}
use snow_radar.Api.Devices.{new_server, binds, is_provisioned, connect_device}
use snow_radar.Api.Router.{
  Libraries, Config, Server, Request, connects, authed, signs_up, recovered, hangs, limited,
  authed_handler, serve_route, serve, serve_all, new_router,
}
use snow_radar.Api.Router.Shut.{limited-stopped}
use snow_radar.Api.Router.Safety.{AllFresh, served_addresses, served_limit}

tests : Unit {0}
unfolding lookup insert delete concat digits decimal trim_prefix sextet letter encode_to_string
    decode_string find_node new advance host search allocate allocate_from save_peer active_of
    peers_by_user get_subscription verify table_parse claims_beq check prefix_string endpoint new_id
    find_same is_public_key may_connect render_client_config add_nodes new_service connect
    rate_limit restart collect require_auth new_server binds is_provisioned connect_device limited
    authed_handler serve_route serve serve_all new_router
tests = tt

abbrev libs : Libraries
libs = record {
  hmac = sums;
  claims_json = counted;
  payloads = λ raw. none;
  jwt = table;
  argon = marks;
  md5 = λ bytes. bytes;
  to_upper = λ s. s;
  to_lower = λ s. s;
  is_email = λ s. true;
}

abbrev cfg : Config
cfg = record {
  paddle_secret = "p";
  pay_here_secret = "q";
  checkout_secret = "c";
  keys = record {
    sgp_wg_public_key = "S";
    sgp_awg_public_key = "SA";
    fsn_wg_public_key = "F";
    fsn_awg_public_key = "FA";
  };
}

-- User a has an account and has paid.
abbrev paid : Memory
paid = record new_memory {
  users = ("a", record { id = "a"; email = "a@b.c"; password_hash = "h" }) ∷ [];
  subs =
      ("a", record { user_id = "a"; provider = "paddle"; external = "s1"; state = "active" }) ∷ [];
}

abbrev server : Server Memory
server = record {
  service = record {
    store = paid;
    allocators =
        ("sgp", record { wg = initial sgp false; awg = initial sgp true })
        ∷ ("fsn", record { wg = initial fsn false; awg = initial fsn true })
        ∷ [];
    server_pub_keys = ("sgp", "S") ∷ ("fsn", "F") ∷ [];
    endpoints =
        ("sgp", (false, "sgp.snowradar.app:51820") ∷ (true, "sgp.snowradar.app:51821") ∷ [])
        ∷ ("fsn", (false, "fsn.snowradar.app:51820") ∷ (true, "fsn.snowradar.app:51821") ∷ [])
        ∷ [];
  };
  limiter = new_rate_limiter;
}

abbrev key : String
key = "AAAAAAAAAAAAAAAAAAAAAAAAAAAAAAAAAAAAAAAAAAA="

abbrev signup_request : Request
signup_request = record {
  remote_addr = "1.2.3.4:5";
  now = 3 * second;
  route = signs_up none none [];
}

abbrev connect_request : Request
connect_request = record {
  remote_addr = "1.2.3.4:6";
  now = 3 * second;
  route = authed "Bearer t1" (
      connects (some (record { node_id = "sgp"; public_key = key; stealth_mode = false }))
        (7 ∷ []));
}

abbrev history : List Request
history = signup_request ∷ connect_request ∷ signup_request ∷ []

abbrev phone : Peer
phone = record {
  id = "Bw";
  user_id = "a";
  node_id = "sgp";
  stealth = false;
  address = must_prefix 10 20 0 2 24;
  public_key = key;
  created_at = 3;
  active = true;
}

made : new_router cfg paid ≡ ok server
unfolding tests
made = refl

all_fresh : AllFresh libs cfg history server
unfolding tests
all_fresh = (tt, (refl, (tt, tt)))

phone-IsActive : IsActive phone (serve_all libs cfg memory history server).service
unfolding tests
phone-IsActive = (refl, refl)

-- The first request to sign up panics, and the second one hangs.
reply_tests :
    ((serve libs cfg memory signup_request server).1 ≡ recovered 500)
    × ((serve libs cfg memory signup_request (serve_all libs cfg memory history server)).1 ≡ hangs)
unfolding tests
reply_tests = (refl, refl)

limited-stopped_example :
    ((serve libs cfg memory signup_request (serve_all libs cfg memory history server)).0.service
      ≡ (serve_all libs cfg memory history server).service)
    × (((serve libs cfg memory signup_request (serve_all libs cfg memory history server)).1
          ≡ recovered 500)
        ⊎ ((serve libs cfg memory signup_request (serve_all libs cfg memory history server)).1
            ≡ hangs))
limited-stopped_example = limited-stopped libs cfg memory paid server history signup_request made tt

served_addresses_example : phone ≡ phone
served_addresses_example =
    served_addresses libs cfg paid server history phone phone refl made all_fresh phone-IsActive
      phone-IsActive refl

served_limit_example :
    length (peers_by_user "a" (serve_all libs cfg memory history server).service.store).0 ≤ 3
served_limit_example = served_limit libs cfg paid server history "a" refl made all_fresh
