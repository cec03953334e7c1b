-- ===== src/Cmd/Tests.antt =====
-- A process with a key, one without, and the theorem about them.
use snow_radar.Common.{◌*◌, ◌%◌, String}
use snow_radar.Billing.Checkout.{second}
use snow_radar.Store.Memory.{Memory, memory, get_user, upsert_subscription}
use snow_radar.Common.{
  ℕ, String, ◌≡◌, refl, true, false, Option, none, some, List, [], ◌∷◌, Result, ok, err, ◌==◌,
  string_eq, if◌then◌else◌,
}
use snow_radar.Common.Texts.{concat, bytes, cut}
use snow_radar.Api.Devices.{new_server}
use snow_radar.Api.Router.{new_router}
use snow_radar.Store.Memory.{new_memory}
use snow_radar.Netalloc.{new, find_node, sgp, fsn}
use snow_radar.Netalloc.Invariant.{initial}
use snow_radar.Peer.{new_service, add_nodes}
use snow_radar.Api.RateLimit.{new_rate_limiter}
use snow_radar.Common.Dict.{lookup, insert}
use snow_radar.Cmd.{rsa_key, System, Listening, getenv, load_rsa_private_key, configuration, start}
use snow_radar.Cmd.Starting.{HoldsKey, IsBuilt, start_iff}
use snow_radar.Auth.Table.{table}
use snow_radar.Auth.Passwords.Samples.{marks}
use snow_radar.Cmd.Webhooks.{start-webhooks}
use snow_radar.Api.Router.{Libraries, Server, Request, pay_here, of_payment, serve, serve_route}
use snow_radar.Api.Payments.{Form, accepted, state_of, md5_upper, verify_pay_here, pay_here_webhook}
use snow_radar.Api.Payments.Binding.{Settled}
use snow_radar.Billing.Checkout.{sign, body_of, mint, read_claims, verify}
use snow_radar.Billing.Checkout.Samples.{sums, counted, total, zeros, ones, read_expiry}
use snow_radar.Codec.{hex_encode, encode_to_string, decode_string, letter, sextet}

tests : Unit {0}
unfolding concat getenv load_rsa_private_key configuration start
tests = tt

-- The file "key.pem" holds the bytes 1 and 2, of which the 2 is the block of the key number 7.
abbrev read : String → Result String (List ℕ)
read path = if path == "key.pem" then ok (1 ∷ 2 ∷ []) else err "no such file"

abbrev block : List ℕ → Option (List ℕ)
block (b ∷ bs) = some bs
block [] = none

abbrev system : (String → String) → System ℕ
system environ = record {
  environ = environ;
  read_file = read;
  pem_decode = block;
  parse_pkcs8 = λ bs. ok (rsa_key 7);
  show_error = λ e. "bad pool";
}

abbrev with_key : String → String
with_key k =
    if k == "JWT_PRIVATE_KEY_PATH"
    then "key.pem"
    else if k == "PAYHERE_MERCHANT_SECRET"
    then "p"
    else if k == "PADDLE_WEBHOOK_SECRET"
    then "q"
    else ""

loopback : (configuration (system with_key) 7).addr ≡ "127.0.0.1:8080"
unfolding tests
loopback = refl

no_path : start (system (λ k. "")) ≡ err "read private key : no such file"
unfolding tests
no_path = refl

abbrev listening : Listening ℕ
listening = record {
  config = configuration (system with_key) 7;
  server = record {
    service = record {
      store = new_memory;
      allocators =
          ("sgp", record { wg = initial sgp false; awg = initial sgp true })
          ∷ ("fsn", record { wg = initial fsn false; awg = initial fsn true })
          ∷ [];
      server_pub_keys = ("sgp", "") ∷ ("fsn", "") ∷ [];
      endpoints =
          ("sgp", (false, "sgp.snowradar.app:51820") ∷ (true, "sgp.snowradar.app:51821") ∷ [])
          ∷ ("fsn", (false, "fsn.snowradar.app:51820") ∷ (true, "fsn.snowradar.app:51821") ∷ [])
          ∷ [];
    };
    limiter = new_rate_limiter;
  };
  read_header_timeout = 5000000000;
}

-- The server is built, without any key for the nodes.
is_built : IsBuilt (system with_key) 7 listening
unfolding IsBuilt tests new_router new_server new_service lookup insert new add_nodes find_node
is_built = (refl, refl, refl)

holds_key : HoldsKey (system with_key) (getenv (system with_key) "JWT_PRIVATE_KEY_PATH" "") 7
unfolding tests
holds_key = (1 ∷ 2 ∷ [], 2 ∷ [], refl, refl, refl)

started : start (system with_key) ≡ ok listening
started = (start_iff (system with_key) listening).1 (7, holds_key, is_built)

abbrev sum : List ℕ → List ℕ
sum = λ ns. (total ns % 256) ∷ []

abbrev same : String → String
same = λ s. s

abbrev libs : Libraries
libs = record {
  hmac = sums;
  claims_json = counted;
  payloads = λ raw. none;
  jwt = table;
  argon = marks;
  md5 = sum;
  to_upper = same;
  to_lower = same;
  is_email = λ s. true;
}

abbrev store : Memory
store = record new_memory {
  users = ("u1", record { id = "u1"; email = "a@example.com"; password_hash = "h" }) ∷ [];
}

-- User u1 pays: the notification has a checkout token under "p", the secret of PayHere.
abbrev token : String
token =
    let body = body_of sums counted "u1" (1800 * second) (1 ∷ 2 ∷ 3 ∷ []) 0 in
    concat (body ∷ "." ∷ sign sums counted (bytes "p") body ∷ [])

abbrev payment : Form
payment = record {
  merchant_id = "1";
  order_id = "2";
  payhere_amount = "3";
  payhere_currency = "LKR";
  status_code = "2";
  md5sig =
      md5_upper sum same (concat ("1" ∷ "2" ∷ "3" ∷ "LKR" ∷ md5_upper sum same "p" ∷ "2" ∷ []));
  custom_1 = token;
  subscription_id = "s1";
}

abbrev request : Request
request = record { remote_addr = "r"; now = second; route = pay_here (some payment) }

abbrev with_store : Memory → Server Memory
with_store m = record listening.server { service = record listening.server.service { store = m } }

abbrev after : Memory
after = record store {
  subs =
      ("u1", record { user_id = "u1"; provider = "payhere"; external = "s1"; state = "active" })
      ∷ [];
}

served :
    serve libs listening.config.router memory request (with_store store)
    ≡ (with_store after, of_payment accepted)
unfolding tests serve serve_route insert lookup cut hex_encode encode_to_string decode_string letter
    sextet get_user upsert_subscription sign mint read_claims verify total zeros ones read_expiry
    state_of md5_upper verify_pay_here pay_here_webhook bytes
served = refl

start-webhooks_example : Settled sums counted sum same memory "p" (some payment) second store after
start-webhooks_example =
    start-webhooks (system with_key) libs listening request (with_store store) (with_store after)
      started served
