-- ===== src/Api/Devices/Keys.antt =====
-- Which of the configured keys reach a device (api/internal/api/router.go, NewServer and connect).
use snow_radar.Common.{ℕ, String, ◌≡◌, refl, true, Option, none, some, List}
use snow_radar.Store.{Store}
use snow_radar.Peer.{Service}
use snow_radar.Api.Devices.{Config, ConnectRequest, is_provisioned, new_server, connect_device}

-- The keys of the stealth protocol reach no device: with other ones, as long as none is missing, the
-- server starts with the same service and answers every request to connect alike, with the same
-- configuration text.
pub connect_device-awg :
    {S : Type 0} (st : Store S) (cfg : Config) (sgp_awg fsn_awg : String)
    → is_provisioned cfg ≡ true
    → is_provisioned (record cfg { sgp_awg_public_key = sgp_awg; fsn_awg_public_key = fsn_awg })
      ≡ true
    → ((s : S)
        → new_server (record cfg { sgp_awg_public_key = sgp_awg; fsn_awg_public_key = fsn_awg }) s
          ≡ new_server cfg s)
      × ((r : Option ConnectRequest) (user_id : String) (random : List ℕ) (now : ℕ) (s : Service S)
          → connect_device st
              (record cfg { sgp_awg_public_key = sgp_awg; fsn_awg_public_key = fsn_awg })
              r
              user_id
              random
              now
              s
            ≡ connect_device st cfg r user_id random now s)
unfolding new_server connect_device
connect_device-awg st cfg sgp_awg fsn_awg p q = (λ s. refl, same)
  where
    same :
        (r : Option ConnectRequest) (user_id : String) (random : List ℕ) (now : ℕ) (s : Service _)
        → connect_device st
            (record cfg { sgp_awg_public_key = sgp_awg; fsn_awg_public_key = fsn_awg })
            r
            user_id
            random
            now
            s
          ≡ connect_device st cfg r user_id random now s
    same none user_id random now s = refl
    same (some r) user_id random now s = rw (p, q)
