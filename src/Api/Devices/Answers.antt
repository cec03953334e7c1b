-- ===== src/Api/Devices/Answers.antt =====
-- The answers of connect and revokePeer (api/internal/api/router.go) over the memory store.
use snow_radar.Common.{
  subst, string_eq, ℕ, String, ◌≡◌, ◌≢◌, refl, true, Option, none, some, List, Bool-cases, inl, inr,
}
use snow_radar.Common.Dict.{lookup}
use snow_radar.Store.{Peer, Store}
use snow_radar.Store.Memory.{Memory, memory}
use snow_radar.Peer.{Service, is_public_key, may_connect}
use snow_radar.Peer.Connecting.{
  bad_key, unpaid, no_node, reuses, full, provisions, connect-Connects,
}
use snow_radar.Peer.Invariant.{IsSound}
use snow_radar.Peer.Revoking.Courses.{Revokes, revoke-Revokes}
use snow_radar.Api.Devices.{
  Config, ConnectRequest, connected, binds, is_provisioned, connect_device, connect_answer, refusal,
  Answer, revoke_answer, revoke_device,
}

-- In a sound service, a request to revoke a peer of another user is answered with status 404, as one
-- for a peer that does not exist, and changes nothing.
pub revoke_device-foreign :
    (user_id peer_id : String) (s : Service Memory)
    → IsSound s
    → ((p : Peer) → lookup peer_id s.store.peers ≡ some p → p.user_id ≢ user_id)
    → revoke_device memory user_id peer_id s ≡ (s, Answer.refused 404 "no such peer for this user")
unfolding revoke_device revoke_answer
revoke_device-foreign user_id peer_id s v h = elim (revoke-Revokes user_id peer_id s v) [
  | Revokes.refused all r ↦ rw r refl
  | Revokes.revoked p entry a o at_node rel held r ↦
      absurd (h p (subst (λ id. lookup id s.store.peers ≡ some p) o.2 o.0.0) o.1)
]

-- A device is connected only for a user with an active or trialing subscription and with a public key
-- of 32 bytes, on a node that the service has, once all keys are configured.
pub connect_device-allowed :
    {S : Type 0} (st : Store S) (cfg : Config) (r : Option ConnectRequest) (user_id : String)
    (random : List ℕ) (now : ℕ) (s : Service S) (peer_id address config : String)
    → (connect_device st cfg r user_id random now s).1 ≡ connected peer_id address config
    → (q : ConnectRequest) × (r ≡ some q)
      × (binds q ≡ true)
      × (is_provisioned cfg ≡ true)
      × (is_public_key q.public_key ≡ true)
      × (may_connect (st.get_subscription user_id s.store) ≡ true)
      × (lookup q.node_id s.allocators ≢ none)
unfolding connect_device connect_answer refusal
connect_device-allowed st cfg none user_id random now s peer_id address config e = cc
connect_device-allowed st cfg (some q) user_id random now s peer_id address config e =
    elim (Bool-cases (binds q)) [
      | inr b ↦ cc (rw (connect_device, b) at e)
      | inl b ↦ elim (Bool-cases (is_provisioned cfg)) [
        | inr k ↦ cc (rw (connect_device, b, k) at e)
        | inl k ↦
            elim (connect-Connects st user_id q.node_id q.public_key q.stealth_mode random now s) [
              | bad_key _ x ↦ cc (rw (connect_device, b, k, x) at e)
              | unpaid _ _ x ↦ cc (rw (connect_device, b, k, x) at e)
              | no_node _ _ _ x ↦ cc (rw (connect_device, b, k, x) at e)
              | full _ _ _ _ _ _ x ↦ cc (rw (connect_device, b, k, x) at e)
              | reuses g m entry n _ _ _ ↦ (q, refl, b, k, g, m, λ i. cc)
              | provisions g m entry n _ _ _ ↦ (q, refl, b, k, g, m, λ i. cc)
            ]
      ]
    ]
