-- ===== src/RateLimit/Refill.antt =====
-- The `Retry-After` header: internal/ratelimit/limiter.go.
use cadish.RateLimit.{retry_after_seconds}
use cadish.Prelude.{ℕ, ◌-◌, ◌*◌, ◌≤◌, ◌<◌, ◌≡◌, ◌⊎◌, arith}

-- The header's whole seconds are the least number, above 0, that covers the wait.
pub retry_after_seconds_least :
    (d : ℕ)
    → (1 ≤ retry_after_seconds d)
      × (d ≤ retry_after_seconds d * 1_000_000_000)
      × ((retry_after_seconds d ≡ 1) ⊎ ((retry_after_seconds d - 1) * 1_000_000_000 < d))
unfolding retry_after_seconds
retry_after_seconds_least d = grind arith
