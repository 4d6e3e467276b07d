-- ===== src/Client/RateLimiter/Tests.antt =====
-- The theorems of the rate limiter at concrete inputs, and a run of it.
use weisley_rpc_framework.Prelude.{◌≡◌, refl, ◌↔◌, ◌<◌, ◌≤◌, ◌+◌, ◌*◌, some, false, [], ◌∷◌, arith}
use weisley_rpc_framework.Prelude.Number.{integer}
use weisley_rpc_framework.Client.RateLimiter.{
  TokenBucketRateLimiter, new_rate_limiter, intervals_at, allow,
}
use weisley_rpc_framework.Client.RateLimiter.Window.{
  IsValid, allow_all, admitted, admitted-le, admitted-le-capacity, allow_iff,
}

-- Two tokens, and one more every 100 ms.
abbrev limiter : TokenBucketRateLimiter
limiter = record {
  tokens = 2;
  last_refill_at = 0;
  options = record { capacity = 2; refill_tokens = 1; refill_interval_ms = 100 };
}

limiter_new : new_rate_limiter 0 (integer 2) (integer 1) (integer 100) ≡ some limiter
unfolding new_rate_limiter
limiter_new = refl

three_of_five : admitted (1 ∷ 2 ∷ 3 ∷ 150 ∷ 151 ∷ []) limiter ≡ 3
unfolding admitted allow
three_of_five = refl

limiter-IsValid : IsValid limiter
limiter-IsValid = omega arith

admitted-le_example : admitted (1 ∷ 2 ∷ 3 ∷ 150 ∷ []) limiter ≤ 2 + intervals_at 150 limiter * 1
admitted-le_example = admitted-le (1 ∷ 2 ∷ 3 ∷ 150 ∷ []) 150 limiter limiter-IsValid (omega arith)

admitted-le-capacity_example :
    admitted (150 ∷ 151 ∷ []) (allow_all (1 ∷ 2 ∷ []) limiter)
    ≤ 2 + intervals_at 151 (allow_all (1 ∷ 2 ∷ []) limiter) * 1
admitted-le-capacity_example =
    admitted-le-capacity (1 ∷ 2 ∷ []) (150 ∷ 151 ∷ []) 151 limiter limiter-IsValid (omega arith)

allow_iff_example : ((allow 5 limiter).1 ≡ false) ↔ ((limiter.tokens ≡ 0) × (5 < 0 + 100))
allow_iff_example = allow_iff 5 limiter limiter-IsValid
