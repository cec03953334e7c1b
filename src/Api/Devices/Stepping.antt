-- ===== src/Api/Devices/Stepping.antt =====
-- The device routes of api/internal/api/router.go as steps of the peer service over the memory store.
use snow_radar.Common.{
  ℕ, String, ◌≡◌, refl, sym, subst, Option, none, some, List, Result, ok, err, Bool-cases, inl, inr,
  string_eq,
}
use snow_radar.Common.Dict.{lookup}
use snow_radar.Store.{StoreError, not_found, token_replayed, other, Peer}
use snow_radar.Store.Memory.{Memory, memory}
use snow_radar.Peer.{PeerError, Service, new_id, connect, revoke}
use snow_radar.Peer.Histories.{Reach, here, next, connects, revokes}
use snow_radar.Api.Devices.{
  Config, ConnectRequest, binds, is_provisioned, connect_answer, connect_device, revoke_answer,
  revoke_device,
}

connect_answer_state :
    {S : Type 0} (r : Service S × Result PeerError (Peer × String)) → (connect_answer r).0 ≡ r.0
unfolding connect_answer
connect_answer_state (s, ok (p, config)) = refl
connect_answer_state (s, err e) = refl

revoke_answer_state : {S : Type 0} (r : Service S × Option StoreError) → (revoke_answer r).0 ≡ r.0
unfolding revoke_answer
revoke_answer_state (s, none) = refl
revoke_answer_state (s, some not_found) = refl
revoke_answer_state (s, some token_replayed) = refl
revoke_answer_state (s, some (other message)) = refl

pub connect_device-Reach :
    (cfg : Config) (request : Option ConnectRequest) (user_id : String) (random : List ℕ) (now : ℕ)
    (s : Service Memory)
    → lookup (new_id random) s.store.peers ≡ none
    → Reach s (connect_device memory cfg request user_id random now s).0
unfolding connect_device
connect_device-Reach cfg none user_id random now s fresh = here
connect_device-Reach cfg (some r) user_id random now s fresh = elim (Bool-cases (binds r)) [
  | inr b ↦ rw (connect_device, b) here
  | inl b ↦ elim (Bool-cases (is_provisioned cfg)) [
    | inr p ↦ rw (connect_device, b, p) here
    | inl p ↦
        rw (connect_device, b, p)
          (subst (λ (x : Service Memory). Reach s x)
            (sym (
              connect_answer_state
                (connect memory user_id r.node_id r.public_key r.stealth_mode random now s)))
            (next here (connects user_id r.node_id r.public_key r.stealth_mode random now fresh)))
  ]
]

pub revoke_device-Reach :
    (user_id peer_id : String) (s : Service Memory)
    → Reach s (revoke_device memory user_id peer_id s).0
unfolding revoke_device
revoke_device-Reach user_id peer_id s =
    subst (λ (x : Service Memory). Reach s x)
      (sym (revoke_answer_state (revoke memory user_id peer_id s)))
      (next here (revokes user_id peer_id))
