-- ===== src/Cmd.antt =====
-- api/cmd/api/main.go: the configuration from the environment, the private key from its file, and what the
-- process has built when it begins to listen. A process ends early with the text it logs.
pub mod Starting
pub mod Webhooks
mod Tests
use snow_radar.Common.{
  ℕ, ◌*◌, String, true, false, Option, none, some, List, [], ◌∷◌, Result, ok, err, ◌==◌, string_eq,
  if◌then◌else◌,
}
use snow_radar.Common.Texts.{concat}
use snow_radar.Netalloc.{AllocError}
use snow_radar.Auth.{second}
use snow_radar.Store.Memory.{Memory, new_memory}
use snow_radar.Api.Router
use snow_radar.Api.Router.{Server, new_router}

-- A key of crypto/x509, of which the program uses RSA keys only.
pub data AnyKey (Rsa : Type 0) : Type 0 where
  rsa_key : Rsa → AnyKey Rsa
  other_key : AnyKey Rsa

-- The operating system and the libraries that read a key; an error is its text.
pub record System (Rsa : Type 0) : Type 0 where
  pub environ : String → String
  pub read_file : String → Result String (List ℕ)
  -- the bytes of the first block
  pub pem_decode : List ℕ → Option (List ℕ)
  pub parse_pkcs8 : List ℕ → Result String (AnyKey Rsa)
  -- how an error of `NewRouter` is printed
  pub show_error : AllocError → String

-- `api.Config`
pub record Config (Rsa : Type 0) : Type 0 where
  pub addr : String
  pub jwt_private_key : Rsa
  pub router : Router.Config

-- The http.Server that listens, before its first request.
pub record Listening (Rsa : Type 0) : Type 0 where
  pub config : Config Rsa
  pub server : Server Memory
  pub read_header_timeout : ℕ

module _ {Rsa : Type 0} (sys : System Rsa) where
  unfoldable pub getenv : String → String → String
  getenv k default = let v = sys.environ k in if v == "" then default else v

  -- `key.(*rsa.PrivateKey)`
  pub as_rsa : AnyKey Rsa → Result String Rsa
  as_rsa (rsa_key k) = ok k
  as_rsa other_key = err "key is not RSA"

  unfoldable pub load_rsa_private_key : String → Result String Rsa
  unfolding as_rsa
  load_rsa_private_key path = elim (sys.read_file path) [
    | err e ↦ err (concat ("read private key " ∷ path ∷ ": " ∷ e ∷ []))
    | ok raw ↦ elim (sys.pem_decode raw) [
      | none ↦ err (concat ("no PEM block in " ∷ path ∷ []))
      | some block ↦ elim (sys.parse_pkcs8 block) [
        | err e ↦ err (concat ("parse private key: " ∷ e ∷ []))
        | ok key ↦ as_rsa key
      ]
    ]
  ]

  unfoldable pub configuration : Rsa → Config Rsa
  configuration key = record {
    addr = getenv "LISTEN_ADDR" "127.0.0.1:8080";
    jwt_private_key = key;
    router = record {
      paddle_secret = sys.environ "PADDLE_WEBHOOK_SECRET";
      pay_here_secret = sys.environ "PAYHERE_MERCHANT_SECRET";
      checkout_secret = sys.environ "CHECKOUT_SIGNING_SECRET";
      keys = record {
        sgp_wg_public_key = sys.environ "SGP_WG_PUBLIC_KEY";
        sgp_awg_public_key = sys.environ "SGP_AWG_PUBLIC_KEY";
        fsn_wg_public_key = sys.environ "FSN_WG_PUBLIC_KEY";
        fsn_awg_public_key = sys.environ "FSN_AWG_PUBLIC_KEY";
      };
    };
  }

  -- `main` up to `ListenAndServe`. The test for a nil key is never met: `loadRSAPrivateKey` gives none.
  unfoldable pub start : Result String (Listening Rsa)
  start = elim (load_rsa_private_key (getenv "JWT_PRIVATE_KEY_PATH" "")) [
    | err message ↦ err message
    | ok key ↦
        let cfg = configuration key in
        elim (new_router cfg.router new_memory) [
          | err e ↦ err (concat ("router init: " ∷ sys.show_error e ∷ []))
          | ok server ↦
              ok (record { config = cfg; server = server; read_header_timeout = 5 * second })
        ]
  ]
