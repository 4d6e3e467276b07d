-- ===== src/Client/RateLimiter/Window.antt =====
-- How many calls the rate limiter admits over a span of time.
use native.Mathlib.Nat.{le-div_iff_mul-le, div-eq_of_lt, mul-le-mul_right, div-mul-le_self}
use weisley_rpc_framework.Prelude.{
  ℕ, ◌+◌, ◌-◌, ◌*◌, ◌/◌, ◌≤◌, ◌<◌, ◌≡◌, ◌↔◌, ◌∙◌, ap, refl, Bool, true, false, List, [], ◌∷◌, arith,
}
use weisley_rpc_framework.Client.RateLimiter.{
  RateLimiterOptions, TokenBucketRateLimiter, intervals_at, refill, allow,
}

pub record IsValid (r : TokenBucketRateLimiter) : Type 0 where
  pub within : r.tokens ≤ r.options.capacity
  pub room : 0 < r.options.capacity
  pub gain : 0 < r.options.refill_tokens
  pub pace : 0 < r.options.refill_interval_ms

refill-IsValid : (now : ℕ) (r : TokenBucketRateLimiter) → IsValid r → IsValid (refill now r)
unfolding refill
refill-IsValid now r v = ground arith

-- A refill adds a whole number of intervals, and never moves its mark past the present.
refill_lem :
    (now : ℕ) (r : TokenBucketRateLimiter)
    → let n = intervals_at now r in
      ((refill now r).tokens ≤ r.tokens + n * r.options.refill_tokens)
      × ((refill now r).last_refill_at ≡ r.last_refill_at + n * r.options.refill_interval_ms)
      × ((refill now r).options ≡ r.options)
unfolding refill
refill_lem now r = (grind arith, grind arith, ground arith)

options-allow : (now : ℕ) (r : TokenBucketRateLimiter) → (allow now r).0.options ≡ r.options
unfolding allow
options-allow now r = ground arith

last-allow :
    (now : ℕ) (r : TokenBucketRateLimiter)
    → (allow now r).0.last_refill_at
      ≡ r.last_refill_at + intervals_at now r * r.options.refill_interval_ms
unfolding allow
last-allow now r = grind arith

unfoldable pub count : Bool → ℕ
count true = 1
count false = 0

-- A call that is admitted takes one token out of the refilled bucket.
tokens-allow :
    (now : ℕ) (r : TokenBucketRateLimiter)
    → (allow now r).0.tokens + count (allow now r).1
      ≤ r.tokens + intervals_at now r * r.options.refill_tokens
unfolding allow count
tokens-allow now r = grind arith

allow-IsValid : (now : ℕ) (r : TokenBucketRateLimiter) → IsValid r → IsValid (allow now r).0
unfolding allow
allow-IsValid now r v = ground arith

-- Calls of `allow` at the given times: the limiter after them, and how many were admitted.
unfoldable pub admitted : List ℕ → TokenBucketRateLimiter → ℕ
unfolding count
admitted [] r = 0
admitted (t ∷ ts) r = let (r', b) = allow t r in count b + admitted ts r'

abbrev pub AllBefore : ℕ → List ℕ → Type 0
AllBefore end [] = Unit {0}
AllBefore end (t ∷ ts) = (t ≤ end) × AllBefore end ts

-- Splitting the whole intervals of a span at the last refill within it.
intervals_split :
    (end t last i m : ℕ)
    → 0 < i
    → t ≤ end
    → m ≡ last + (t - last) / i * i
    → (t - last) / i + (end - m) / i ≤ (end - last) / i
intervals_split end t last i m pos h e =
    (le-div_iff_mul-le pos).1
      (omega (arith, e, div-mul-le_self (t - last) i, div-mul-le_self (end - m) i))

intervals-allow :
    (end t : ℕ) (r : TokenBucketRateLimiter)
    → IsValid r
    → t ≤ end
    → intervals_at t r + intervals_at end (allow t r).0 ≤ intervals_at end r
intervals-allow end t r v h = rw (options-allow t r) (
    intervals_split end t r.last_refill_at r.options.refill_interval_ms _ v.pace h (last-allow t r))

gains_le : (a c n g : ℕ) → a + c ≤ n → a * g + c * g ≤ n * g
gains_le a c n g h = omega (arith, mul-le-mul_right g h)

-- The limiter after calls at the given times.
unfoldable pub allow_all : List ℕ → TokenBucketRateLimiter → TokenBucketRateLimiter
allow_all [] r = r
allow_all (t ∷ ts) r = allow_all ts (allow t r).0

allow_all-IsValid :
    (ts : List ℕ) (r : TokenBucketRateLimiter) → IsValid r → IsValid (allow_all ts r)
unfolding allow_all
allow_all-IsValid [] r v = v
allow_all-IsValid (t ∷ ts) r v = allow_all-IsValid ts _ (allow-IsValid t r v)

options-allow_all :
    (ts : List ℕ) (r : TokenBucketRateLimiter) → (allow_all ts r).options ≡ r.options
unfolding allow_all
options-allow_all [] r = refl
options-allow_all (t ∷ ts) r = options-allow_all ts _ ∙ options-allow t r

-- Up to a moment `end`, a valid limiter admits no more calls than its tokens, and the tokens of the
-- whole intervals that have passed since its last refill.
pub admitted-le :
    (ts : List ℕ) (end : ℕ) (r : TokenBucketRateLimiter)
    → IsValid r
    → AllBefore end ts
    → admitted ts r ≤ r.tokens + intervals_at end r * r.options.refill_tokens
unfolding admitted
admitted-le [] end r v h = omega arith
admitted-le (t ∷ ts) end r v h =
    let rest = admitted-le ts end (allow t r).0 (allow-IsValid t r v) h.1 in
    let more = rw (options-allow t r) at rest in
    let split = intervals-allow end t r v h.0 in
    let whole = rw (options-allow t r) at split in
    omega (arith, tokens-allow t r, gains_le _ _ _ r.options.refill_tokens whole)

-- Whatever the calls before it, a window of time admits at most the capacity and the refills of the
-- whole intervals since the last refill: the bucket never holds more than its capacity.
pub admitted-le-capacity :
    (before ts : List ℕ) (end : ℕ) (r : TokenBucketRateLimiter)
    → IsValid r
    → let s = allow_all before r in
      AllBefore end ts
      → admitted ts s ≤ r.options.capacity + intervals_at end s * r.options.refill_tokens
admitted-le-capacity before ts end r v h =
    let s = allow_all before r in
    let w = allow_all-IsValid before r v in
    let same = options-allow_all before r in
    omega (
      arith,
      w.within,
      admitted-le ts end s w h,
      ap (λ (o : RateLimiterOptions). intervals_at end s * o.refill_tokens) same,
      ap (λ (o : RateLimiterOptions). o.capacity) same,
    )

idle_iff : (d i : ℕ) → 0 < i → (d / i ≡ 0) ↔ (d < i)
idle_iff d i pos = (λ e. omega (arith, ap (λ (t : ℕ). i * t) e), div-eq_of_lt)

gain_pos : (n g : ℕ) → 0 < n → 0 < g → 0 < n * g
gain_pos n g h k = grind arith

-- A whole interval after the last refill there is a token, and a call is refused only at an empty bucket.
pub allow_iff :
    (now : ℕ) (r : TokenBucketRateLimiter)
    → IsValid r
    → ((allow now r).1 ≡ false)
      ↔ ((r.tokens ≡ 0) × (now < r.last_refill_at + r.options.refill_interval_ms))
unfolding allow
allow_iff now r v = (
  λ h. ground (
    arith,
    idle_iff (now - r.last_refill_at) r.options.refill_interval_ms v.pace,
    gain_pos (intervals_at now r) r.options.refill_tokens,
  ),
  λ h. ground (arith, idle_iff (now - r.last_refill_at) r.options.refill_interval_ms v.pace),
)
