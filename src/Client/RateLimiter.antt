-- ===== src/Client/RateLimiter.antt =====
-- packages/core/src/client/rate-limiter.ts. `Date.now()` is an argument of the calls that read it;
-- once normalised, all quantities are natural numbers; they stay below 2 ^ 53, where the source's
-- arithmetic is exact.
pub mod Window
pub mod Tests
use weisley_rpc_framework.Prelude.{
  Option, some, ℕ, ◌+◌, ◌-◌, ◌*◌, ◌/◌, min, Bool, true, false, leb, if◌then◌else◌,
}
use weisley_rpc_framework.Prelude.Number.{Number, limit_at_least}
use weisley_rpc_framework.Prelude.Optional.{◌>>=◌}

pub record RateLimiterOptions : Type 0 where
  pub capacity : ℕ
  pub refill_tokens : ℕ
  pub refill_interval_ms : ℕ

pub record TokenBucketRateLimiter : Type 0 where
  pub tokens : ℕ
  pub last_refill_at : ℕ
  pub options : RateLimiterOptions

-- The constructor, at the time `now`; `none` where an option is NaN or Infinity, which the code
-- calculates with and no limiter here has.
unfoldable pub new_rate_limiter : ℕ → Number → Number → Number → Option TokenBucketRateLimiter
new_rate_limiter now capacity refill_tokens refill_interval_ms = do
  tokens ← limit_at_least 1 capacity
  gain ← limit_at_least 1 refill_tokens
  interval_ms ← limit_at_least 1 refill_interval_ms
  some (record {
    tokens = tokens;
    last_refill_at = now;
    options = record { capacity = tokens; refill_tokens = gain; refill_interval_ms = interval_ms };
  })

-- Whole intervals since the last refill. Where the clock has gone back the source's quotient is
-- negative, and this is 0: both end the refill early.
abbrev pub intervals_at : ℕ → TokenBucketRateLimiter → ℕ
intervals_at now r = (now - r.last_refill_at) / r.options.refill_interval_ms

unfoldable pub refill : ℕ → TokenBucketRateLimiter → TokenBucketRateLimiter
refill now r =
    let intervals = intervals_at now r in
    if leb intervals 0 then r else record r {
      tokens = min r.options.capacity (r.tokens + intervals * r.options.refill_tokens);
      last_refill_at = r.last_refill_at + intervals * r.options.refill_interval_ms;
    }

unfoldable pub allow : ℕ → TokenBucketRateLimiter → TokenBucketRateLimiter × Bool
unfolding refill
allow now r =
    let r' = refill now r in
    if leb r'.tokens 0 then (r', false) else (record r' { tokens = r'.tokens - 1 }, true)

unfoldable pub get_available_tokens : ℕ → TokenBucketRateLimiter → TokenBucketRateLimiter × ℕ
unfolding refill
get_available_tokens now r = let r' = refill now r in (r', r'.tokens)
