-- ===== src/Cmd/Starting.antt =====
-- When the process of api/cmd/api/main.go begins to listen, and with what.
use snow_radar.Common.{
  ℕ, ◌*◌, String, ◌≡◌, ◌↔◌, refl, ◌∙◌, sym, ap, some, List, Result, ok, Result-cases, Option-cases,
  inl, inr, subst, string_eq,
}
use snow_radar.Common.Dict.{lookup}
use snow_radar.Netalloc.{new}
use snow_radar.Peer.{new_service}
use snow_radar.Auth.{second}
use snow_radar.Store.Memory.{Memory, new_memory}
use snow_radar.Api.Devices.{new_server}
use snow_radar.Api.Router
use snow_radar.Api.Router.{Server, new_router}
use snow_radar.Cmd.{
  AnyKey, rsa_key, other_key, System, Listening, as_rsa, getenv, load_rsa_private_key,
  configuration, start,
}

-- The server is built from any configuration.
new_router-ok : (cfg : Router.Config) → (srv : Server Memory) × (new_router cfg new_memory ≡ ok srv)
unfolding new_router new_server new_service lookup new
new_router-ok cfg = (_, refl)

module _ {Rsa : Type 0} (sys : System Rsa) where
  -- The file holds a PEM block with an RSA key.
  abbrev pub HoldsKey : String → Rsa → Type 0
  HoldsKey path key =
      (raw : List ℕ) × (block : List ℕ) × (sys.read_file path ≡ ok raw)
      × (sys.pem_decode raw ≡ some block)
      × (sys.parse_pkcs8 block ≡ ok (rsa_key key))

  as_rsa-cases : (k : AnyKey Rsa) (key : Rsa) → as_rsa sys k ≡ ok key → k ≡ rsa_key key
  unfolding as_rsa
  as_rsa-cases (rsa_key k) key e = cc
  as_rsa-cases other_key key e = cc

  load-HoldsKey :
      (path : String) (key : Rsa) → load_rsa_private_key sys path ≡ ok key → HoldsKey path key
  unfolding load_rsa_private_key
  load-HoldsKey path key e = elim (Result-cases (sys.read_file path)) [
    | inr (x, f) ↦ cc (rw (load_rsa_private_key, f) at e)
    | inl (raw, f) ↦ elim (Option-cases (sys.pem_decode raw)) [
      | inl g ↦ cc (rw (load_rsa_private_key, f, g) at e)
      | inr (block, g) ↦ elim (Result-cases (sys.parse_pkcs8 block)) [
        | inr (x, h) ↦ cc (rw (load_rsa_private_key, f, g, h) at e)
        | inl (k, h) ↦ (
          raw,
          block,
          f,
          g,
          h ∙ ap ok (as_rsa-cases k key (rw (load_rsa_private_key, f, g, h) at e)),
        )
      ]
    ]
  ]

  HoldsKey-load :
      (path : String) (key : Rsa) → HoldsKey path key → load_rsa_private_key sys path ≡ ok key
  unfolding load_rsa_private_key
  HoldsKey-load path key (raw, block, f, g, h) =
      rw (load_rsa_private_key, f, g, h) (unfold as_rsa in refl)

  -- The server that listens with a key.
  unfoldable pub IsBuilt : Rsa → Listening Rsa → Type 0
  IsBuilt key l =
      (l.config ≡ configuration sys key)
      × (new_router l.config.router new_memory ≡ ok l.server)
      × (l.read_header_timeout ≡ 5 * second)

  start-IsBuilt :
      (key : Rsa) (l : Listening Rsa)
      → load_rsa_private_key sys (getenv sys "JWT_PRIVATE_KEY_PATH" "") ≡ ok key
      → start sys ≡ ok l
      → IsBuilt key l
  unfolding IsBuilt start
  start-IsBuilt key l k e =
      let (srv, r) = new_router-ok (configuration sys key).router in
      let built : Listening Rsa = record {
        config = configuration sys key;
        server = srv;
        read_header_timeout = 5 * second;
      } in
      let is : ◌≡◌ {A = Result String (Listening Rsa)} (ok built) (ok l) = rw (start, k, r) at e in
      let same : built ≡ l = cc in subst (λ (x : Listening Rsa). IsBuilt key x) same (refl, r, refl)

  pub start-HoldsKey :
      (l : Listening Rsa)
      → start sys ≡ ok l
      → (key : Rsa) × HoldsKey (getenv sys "JWT_PRIVATE_KEY_PATH" "") key × IsBuilt key l
  unfolding start
  start-HoldsKey l e =
      elim (Result-cases (load_rsa_private_key sys (getenv sys "JWT_PRIVATE_KEY_PATH" ""))) [
        | inr (x, f) ↦ cc (rw (start, f) at e)
        | inl (key, f) ↦ (key, load-HoldsKey _ key f, start-IsBuilt key l f e)
      ]

  HoldsKey-start :
      (l : Listening Rsa) (key : Rsa)
      → HoldsKey (getenv sys "JWT_PRIVATE_KEY_PATH" "") key
      → IsBuilt key l
      → start sys ≡ ok l
  unfolding IsBuilt start
  HoldsKey-start l key k (c, r, t) =
      let built : new_router (configuration sys key).router new_memory ≡ ok l.server = rw c at r in
      rw (start, HoldsKey-load _ key k, built)
        (ap ok (sym (λ i. record { config = c i; server = l.server; read_header_timeout = t i })))

  -- The process begins to listen exactly if the file that JWT_PRIVATE_KEY_PATH names can be read and has
  -- a PEM block with an RSA key. It then has the configuration of its environment, that key, the server
  -- that NewRouter builds over an empty memory store, and five seconds for the headers of a request.
  pub start_iff :
      (l : Listening Rsa)
      → (start sys ≡ ok l)
        ↔ ((key : Rsa) × HoldsKey (getenv sys "JWT_PRIVATE_KEY_PATH" "") key × IsBuilt key l)
  start_iff l = (start-HoldsKey l, λ (key, k, b). HoldsKey-start l key k b)
