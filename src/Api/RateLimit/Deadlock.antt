-- ===== src/Api/RateLimit/Deadlock.antt =====
-- The limiter of api/internal/api/middleware.go: the first request of an address that has no window.
use snow_radar.Common.{
  ℕ, String, ◌≡◌, ◌≢◌, refl, ap, true, false, none, List, [], ◌∷◌, string_eq, map, All,
}
use snow_radar.Common.Dict.{lookup}
use snow_radar.Api.RateLimit.{
  RateLimiter, new_rate_limiter, Outcome, panics, blocks, passes, Request, rate_limit, serve,
}

pub step_locked :
    (max per now : ℕ) (key : String) (rl : RateLimiter)
    → rl.locked ≡ true
    → rate_limit max per key now rl ≡ (rl, blocks)
unfolding rate_limit
step_locked max per now key rl h = simp h

serve-locked :
    (max per : ℕ) (rl : RateLimiter) (rs : List Request)
    → rl.locked ≡ true
    → serve max per rl rs ≡ map (λ r. blocks) rs
unfolding serve
serve-locked max per rl [] h = refl
serve-locked max per rl (r ∷ rs) h =
    rw (step_locked max per r.at r.key rl h)
      (ap (λ (os : List Outcome). blocks ∷ os) (serve-locked max per rl rs h))

-- While the mutex is free, the first request of an address without a window panics, whatever the limit, and every request
-- after it, of any address, waits for the mutex for good.
pub serve_unknown :
    (max per : ℕ) (rl : RateLimiter) (r : Request) (rs : List Request)
    → rl.locked ≡ false
    → lookup r.key rl.visitors ≡ none
    → serve max per rl (r ∷ rs) ≡ panics ∷ map (λ q. blocks) rs
unfolding serve
serve_unknown max per rl r rs h k =
    rw (h, k, rate_limit) (ap (λ (os : List Outcome). panics ∷ os) (serve-locked max per _ rs refl))

locked_lem : (rs : List Request) → All (λ o. o ≢ passes) (map {A = Request} (λ r. blocks) rs)
locked_lem [] = tt
locked_lem (r ∷ rs) = (λ e. cc, locked_lem rs)

-- No request to a new limiter is ever let through.
pub serve_new :
    (max per : ℕ) (rs : List Request) → All (λ o. o ≢ passes) (serve max per new_rate_limiter rs)
serve_new max per [] = unfold serve in tt
serve_new max per (r ∷ rs) =
    rw (serve_unknown max per new_rate_limiter r rs refl (unfold lookup in refl))
      (λ e. cc, locked_lem rs)
