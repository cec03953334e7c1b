-- ===== src/Store/Memory/Keeping.antt =====
-- The calls of api/internal/store/memory.go that leave the peers alone.
use snow_radar.Common.{ℕ, String, ◌≡◌, List, string_eq, arith}
use snow_radar.Store.{User}
use snow_radar.Store.Memory.{Memory, create_user, consume_refresh_token}

-- The peers after a call are those before it.
abbrev pub Keeps : {A : Type 0} → Memory → Memory × A → Type 0
Keeps m r = r.0.peers ≡ m.peers

pub create_user-Keeps : (random : List ℕ) (u : User) (m : Memory) → Keeps m (create_user random u m)
unfolding create_user
create_user-Keeps random u m = ground arith

pub consume-Keeps : (jti : String) (m : Memory) → (consume_refresh_token jti m).0.peers ≡ m.peers
unfolding consume_refresh_token
consume-Keeps jti m = ground arith
