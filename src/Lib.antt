-- ===== src/Lib.antt =====
-- Snow Radar: the control plane of a VPN service (api/, in Go). Users sign up, pay at a provider
-- that answers by webhook, and connect devices: the control plane leases each device an address in
-- the pool of an exit node and gives it a WireGuard configuration.
--
-- The parts and their files:
--   Netalloc models api/internal/netalloc/allocator.go: Allocator with New, Allocate, Release,
--     HeldBy and InUse as `new`, `allocate`, `release`, `held_by` and `in_use`. The loop of
--     Allocate is `search`, on the number of rounds that are left; the source's 253 rounds are
--     one turn through the hosts from .2 to .254. The free list has its head where the source's
--     slice has its end.
--   Store models api/internal/store/store.go: the records, and the interface Store as a record
--     of operations on a type of states.
--   Store/Memory models api/internal/store/memory.go, one function for each method, and `memory`
--     is its Store.
--   Store/Schema models the tables of api/migrations/001_init.sql with their constraints, and
--     the SQL of api/internal/store/postgres.go as steps on them; Store/Postgres models the
--     methods of that file, each as its statements in order, and `postgres` is its Store. A
--     statement works, is refused, or is carried out while its answer is lost: `turns` lists
--     what becomes of the statements to come, and how long each waits. Store/Postgres/Concurrent
--     has ConsumeRefreshToken as calls under way at the same time, of which any may take its
--     next statement: `proceed` is one statement, and `happen` a sequence of them with other
--     calls between.
--   Store/Ledger is what the two stores promise of refresh tokens: a ledger of jti, user and
--     use, with the record KeepsLedger of the laws that Store/Memory/Ledger and
--     Store/Postgres/Ledger fill.
--   Peer models api/internal/peer/service.go: NewService, Connect, Revoke and renderClientConfig
--     as `new_service`, `connect`, `revoke` and `render_client_config`, over any Store; the part
--     of Connect from Allocate on is `provision`. Its theorems on states are over the memory
--     store, those of Peer/Persisting over the Postgres store. Peer/Interleaving has Connect and
--     Revoke as calls under way at the same time: a call is at one of its points, between its
--     calls of the store and of the allocators, and a schedule says whose step is next.
--   Billing/Checkout models api/internal/billing/checkout.go: Mint and Verify as `mint` and
--     `verify`.
--   Billing/Webhooks models VerifyPaddle, splitSemi, ParsePaddle and ReadBody of
--     api/internal/billing/billing.go as `verify_paddle`, `split_semi`, `parse_paddle` and
--     `read_body`.
--   Api/RateLimit models the limiter of api/internal/api/middleware.go: the handler as
--     `rate_limit`.
--   Auth models the session tokens of api/internal/auth/auth.go: Issue and Verify as `issue` and
--     `verify`.
--   Auth/Passwords models HashPassword, parsePHC and VerifyPassword of the same file as
--     `hash_password`, `parse_phc` and `verify_password`.
--   Api/Accounts models signup and login of api/internal/api/router.go as `signup` and `login`.
--   Api/Sessions models the handlers of api/internal/api/router.go on session tokens:
--     issueTokenPair, refresh, requireAuth and logout as `issue_token_pair`, `refresh`,
--     `require_auth` and `logout`; Api/Sessions/Ledger has refresh and logout on the ledger of
--     tokens alone.
--   Api/Payments models checkoutSession and payHereWebhook of the same file, and VerifyPayHere
--     of api/internal/billing/billing.go, as `checkout_session`, `pay_here_webhook` and
--     `verify_pay_here`; Api/Payments/Paddle models paddleWebhook as `paddle_webhook`.
--   Api/Devices models connect, listPeers and revokePeer of the same file as `connect_device`,
--     `list_peers` and `revoke_device`, and NewServer as far as it makes the peer service as
--     `new_server`.
--   Api/Router models NewRouter of the same file: the server as one state, `serve` as its answer
--     to one request, with the limiter and requireAuth in front of the handlers as the source
--     puts them.
--   Codec models the parts of Go's encoding/base64 and encoding/hex that the program uses, and
--     Common the maps, texts and errors that the parts share, with fmt.Sscanf for the verb %d,
--     strings.Split and strings.TrimSpace in Common/Scan.
--   Cmd models api/cmd/api/main.go: `getenv`, `load_rsa_private_key`, the `configuration` from
--     the environment, and `start`, which is main up to ListenAndServe. Cmd/Webhooks is about
--     the webhooks of the process that it starts.
--
-- How the parts interact: the service of Peer owns two allocators for each node and calls the
-- store; the session handlers call the issuer of Auth and the refresh tokens of the store; the
-- payment handlers call Billing/Checkout and the subscriptions of the store, which Peer reads; the
-- device handlers call the peer service; signup and login call the password hashes and the users
-- of the store, and login goes on to issue tokens. Api/Router holds one peer service, whose store
-- is the store of all handlers, and one limiter, which signup, login and refresh share.
--
-- How Go is modelled: a method that changes its receiver takes the state and gives the state after
-- the call with the results. A method that holds a mutex throughout is one step. A Go map is an
-- association list whose keys stay distinct, and `range` goes through it in the list's order,
-- which Go does not promise (`ranged` in Store/Memory is the store with any order in PeersByUser).
-- Texts are well-formed UTF-8. Random bytes and the clock are arguments, and the clock does not
-- run backwards. Integers that only count are natural numbers; an octet is taken modulo 256 where
-- the source converts to a byte.
--
-- Parameters: the message authentication code of crypto/hmac (Hmac: codes of 32 bytes), and
-- encoding/json on the claims of a checkout session (ClaimsJson). The JWT library with its key is
-- Jwt in Auth: a signed token parses to its claims until they expire, and what a token says does
-- not depend on when it is read. MD5, strings.ToUpper, strings.ToLower, the test of an email by
-- the validator and the JSON of a Paddle webhook are functions without laws. The key derivation of
-- golang.org/x/crypto/argon2 is Argon2 in Auth/Passwords: it gives a key of the length that is
-- asked for, unless the time, the threads or the length are 0. A theorem that needs the claims of
-- a checkout session back from their JSON has that as a hypothesis. The environment, the files and
-- the readers of PEM and PKCS 8 are System in Cmd, without laws.
--
-- Bounds: a number that fmt reads is refused from 2 ^ 63 on (64 bits signed) or from 2 ^ 32 or 2 ^
-- 8 on (the costs of a hash), as the source's types have it. The digits of a number n are printed
-- with n + 1 rounds, which is more than it has digits. The skew of a webhook is computed on
-- integers of any size: where the source's clock arithmetic wraps around or saturates, both are
-- out of the window.
--
-- Limits: outside Peer/Interleaving, requests and the calls of the peer service are taken one
-- after another, while the source's Connect and Revoke hold no lock from their reads of the store
-- to their writes, so that what is said of histories holds for calls that do not overlap;
-- Peer/Interleaving/Tests has runs that break it. New ids are taken to be unused where a theorem
-- says so. A read of the Postgres store gives no state after it, so it uses up no turn: each kind
-- of read has an outcome of its own until the next statement that writes, so that the reads and
-- the write of one call fail or work apart; outside Store/Postgres/Concurrent the statements of
-- one call follow each other without those of another call between them.
--
-- Not modelled: NewPostgres and Close (the pool of connections), bodyLimit (one call of net/http,
-- by which a longer body reads as malformed), the client (Dart) and infra.
pub mod Common
pub mod Netalloc
pub mod Codec
pub mod Store
pub mod Peer
pub mod Billing
pub mod Api
pub mod Auth
pub mod Cmd
