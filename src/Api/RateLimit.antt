-- ===== src/Api/RateLimit.antt =====
-- api/internal/api/middleware.go: the fixed-window limiter of requests by client address. The clock
-- counts nanoseconds and does not run backwards, so `now.Sub(start)` is `now - start`. A panic inside
-- the handler leaves it with the mutex held, since the unlock is not deferred; what then waits for
-- the mutex waits for good.
pub mod Deadlock
use snow_radar.Common.{
  ℕ, ◌+◌, ◌-◌, String, Bool, true, false, Option, none, some, List, [], ◌∷◌, ltb, if◌then◌else◌,
  string_eq, length,
}
use snow_radar.Common.Dict.{Dict, lookup, insert}

pub record Window : Type 0 where
  pub count : ℕ
  pub start : ℕ

pub record RateLimiter : Type 0 where
  pub locked : Bool
  pub visitors : Dict String Window

abbrev pub new_rate_limiter : RateLimiter
new_rate_limiter = record { locked = false; visitors = [] }

-- What becomes of a request.
pub data Outcome : Type 0 where
  -- 429, and the chain of handlers is left
  too_many : Outcome
  -- the next handler runs
  passes : Outcome
  -- a nil pointer is read
  panics : Outcome
  -- the request waits for the mutex
  blocks : Outcome

-- The garbage collection of windows that are over.
unfoldable pub collect : ℕ → ℕ → Dict String Window → Dict String Window
collect per now [] = []
collect per now ((k, w) ∷ m) =
    let rest = collect per now m in if ltb per (now - w.start) then rest else (k, w) ∷ rest

unfoldable pub restart : ℕ → ℕ → String → Dict String Window → Dict String Window
unfolding collect
restart per now key m =
    insert key (record { count = 1; start = now })
      (if ltb 10000 (length m) then collect per now m else m)

-- The handler. `w` is nil where the key is new, and `w.count` is read in every case.
unfoldable pub rate_limit : ℕ → ℕ → String → ℕ → RateLimiter → RateLimiter × Outcome
unfolding restart
rate_limit max per key now rl = if rl.locked then (rl, blocks) else elim (lookup key rl.visitors) [
  | none ↦ (record { locked = true; visitors = restart per now key rl.visitors }, panics)
  | some w ↦
      if ltb per (now - w.start)
      then (record rl { visitors = restart per now key rl.visitors }, passes)
      else (
        record rl { visitors = insert key (record w { count = w.count + 1 }) rl.visitors },
        if ltb max (w.count + 1) then too_many else passes,
      )
]

-- Requests one after another.
pub record Request : Type 0 where
  pub key : String
  pub at : ℕ

unfoldable pub serve : ℕ → ℕ → RateLimiter → List Request → List Outcome
unfolding rate_limit
serve max per rl [] = []
serve max per rl (r ∷ rs) =
    let (rl', o) = rate_limit max per r.key r.at rl in o ∷ serve max per rl' rs
