-- ===== src/Client/RpcClient/Retries.antt =====
-- client/rpc-client.ts: getRetryRule, getMaxAttempts and getRetryBackoffMs.
use weisley_rpc_framework.Prelude.{
  ◌==◌, leb, ltb, ltb→lt, ltb→le, Bool-cases, ℕ, suc, ◌-◌, ◌*◌, ◌^◌, ◌≤◌, ◌<◌, min, max, ◌≡◌, refl,
  ap, ◌∙◌, false, not, Option, none, some, String, if◌then◌else◌, ◌or_else◌, arith, inl, inr,
}
use weisley_rpc_framework.Prelude.Dict
use weisley_rpc_framework.Prelude.Dict.{Dict}
use weisley_rpc_framework.Prelude.Number.{
  Number, integer, is_finite, floor_at_least, is_nonpositive, scale, min_number,
}
use weisley_rpc_framework.Prelude.Text.{◌<>◌}

pub record RetryRule : Type 0 where
  pub max_attempts : Option Number
  pub initial_backoff_ms : Option Number
  pub max_backoff_ms : Option Number

-- The client's options that say how often it tries; no `retryRules` are no rules.
pub record RetryOptions : Type 0 where
  pub retry_max_attempts : Option Number
  pub retry_initial_backoff_ms : Option Number
  pub retry_max_backoff_ms : Option Number
  pub retry_rules : Dict RetryRule

abbrev pub get_method_key : String → String → String
get_method_key service method = service <> "." <> method

unfoldable pub get_retry_rule : RetryOptions → String → String → Option RetryRule
get_retry_rule o service_name method = Dict.get o.retry_rules (get_method_key service_name method)

-- `rule?.field ?? option`
unfoldable pub from_rule :
    Option RetryRule → (RetryRule → Option Number) → Option Number → Option Number
from_rule none field option = option
from_rule (some rule) field option = elim (field rule) [ none ↦ option | some n ↦ some n ]

-- The least of the configured attempts and the endpoints, and at least one.
unfoldable pub limit_attempts : Option Number → ℕ → ℕ
limit_attempts none endpoint_count = endpoint_count
limit_attempts (some configured) endpoint_count =
    if not (is_finite configured)
    then endpoint_count
    else max 1 (min (floor_at_least 0 configured) endpoint_count)

unfoldable pub get_max_attempts : RetryOptions → String → String → ℕ → ℕ
unfolding limit_attempts
get_max_attempts o service_name method endpoint_count =
    let rule = get_retry_rule o service_name method in
    limit_attempts (from_rule rule (λ r. r.max_attempts) o.retry_max_attempts) endpoint_count

unfoldable pub initial_delay : RetryOptions → String → String → Number
initial_delay o service_name method =
    let rule = get_retry_rule o service_name method in
    from_rule rule (λ r. r.initial_backoff_ms) o.retry_initial_backoff_ms or_else integer 0

unfoldable pub max_delay : RetryOptions → String → String → Number
max_delay o service_name method =
    let rule = get_retry_rule o service_name method in
    from_rule rule (λ r. r.max_backoff_ms) o.retry_max_backoff_ms
    or_else initial_delay o service_name method

unfoldable pub get_retry_backoff_ms : RetryOptions → String → String → ℕ → Number
get_retry_backoff_ms o service_name method attempt =
    let initial = initial_delay o service_name method in
    if is_nonpositive initial
    then integer 0
    else min_number (scale (2 ^ (attempt - 1)) initial) (max_delay o service_name method)

limit_attempts_le :
    (c : Option Number) (n : ℕ) → 0 < n → (1 ≤ limit_attempts c n) × (limit_attempts c n ≤ n)
unfolding limit_attempts
limit_attempts_le none n h = (h, ground arith)
limit_attempts_le (some c) n h = ground arith

-- A service with endpoints is tried at least once, and at most as often as it has endpoints,
-- whatever the options say.
pub get_max_attempts_bounds :
    (o : RetryOptions) (service_name method : String) (endpoint_count : ℕ)
    → 0 < endpoint_count
    → (1 ≤ get_max_attempts o service_name method endpoint_count)
      × (get_max_attempts o service_name method endpoint_count ≤ endpoint_count)
unfolding get_max_attempts
get_max_attempts_bounds o service_name method endpoint_count h =
    limit_attempts_le
      (from_rule (get_retry_rule o service_name method) (λ r. r.max_attempts) o.retry_max_attempts)
      endpoint_count h

min_whole : (n m : ℕ) → min_number (integer n) (integer m) ≡ integer (min n m)
min_whole n m = elim (Bool-cases (ltb (m * 1) (n * 1))) [
  | inl h ↦ rw h (ap integer (omega (arith, ltb→lt (m * 1) (n * 1) h)))
  | inr h ↦ rw h (ap integer (omega (arith, ltb→le (m * 1) (n * 1) h)))
]

-- A delay in whole milliseconds, with p for the power of two.
whole_delay : ℕ → ℕ → ℕ → ℕ
whole_delay i top p = if i == 0 then 0 else min (i * p) top

whole_delay_lem :
    (i top p : ℕ)
    → (if is_nonpositive (integer i)
        then integer 0
        else min_number (scale p (integer i)) (integer top))
      ≡ integer (whole_delay i top p)
unfolding whole_delay
whole_delay_lem i top p = elim (Bool-cases (i == 0)) [
  | inl h ↦ (let z : i ≡ 0 = ground arith in rw z refl)
  | inr h ↦ (let z : leb i 0 ≡ false = ground arith in rw (h, z) (min_whole (i * p) top))
]

get_retry_backoff_ms_whole :
    (o : RetryOptions) (s m : String) (i top a : ℕ)
    → initial_delay o s m ≡ integer i
    → max_delay o s m ≡ integer top
    → get_retry_backoff_ms o s m a ≡ integer (whole_delay i top (2 ^ (a - 1)))
unfolding get_retry_backoff_ms
get_retry_backoff_ms_whole o s m i top a hi ht = rw (hi, ht) (whole_delay_lem i top (2 ^ (a - 1)))

whole_delay_twice :
    (i top p : ℕ)
    → (whole_delay i top p ≤ i * p)
      × (whole_delay i top p ≤ top)
      × (whole_delay i top (2 * p) ≡ min (2 * whole_delay i top p) top)
unfolding whole_delay
whole_delay_twice i top p = ground arith

whole_delay_one : (i top : ℕ) → whole_delay i top 1 ≡ min i top
unfolding whole_delay
whole_delay_one i top = ground arith

suc-minus : (a : ℕ) → suc a - 1 ≡ a
suc-minus a = omega arith

double : (a : ℕ) → 2 ^ suc a ≡ 2 * 2 ^ a
double a = omega arith

-- Delays in whole milliseconds double from one attempt to the next up to the longest delay, which
-- they never pass, and start at the initial one.
pub get_retry_backoff_ms_doubles :
    (o : RetryOptions) (service_name method : String) (i top a : ℕ)
    → initial_delay o service_name method ≡ integer i
    → max_delay o service_name method ≡ integer top
    → (get_retry_backoff_ms o service_name method 1 ≡ integer (min i top))
      × (t : ℕ) × (t ≤ top)
      × (get_retry_backoff_ms o service_name method (suc a) ≡ integer t)
      × (get_retry_backoff_ms o service_name method (suc (suc a)) ≡ integer (min (2 * t) top))
get_retry_backoff_ms_doubles o s m i top a hi ht =
    let (_, below, twice) = whole_delay_twice i top (2 ^ a) in
    (
      get_retry_backoff_ms_whole o s m i top 1 hi ht ∙ ap integer (whole_delay_one i top),
      whole_delay i top (2 ^ a),
      below,
      get_retry_backoff_ms_whole o s m i top (suc a) hi ht
          ∙ ap (λ k. integer (whole_delay i top (2 ^ k))) (suc-minus a),
      get_retry_backoff_ms_whole o s m i top (suc (suc a)) hi ht
          ∙ ap (λ k. integer (whole_delay i top (2 ^ k))) (suc-minus (suc a))
          ∙ ap (λ p. integer (whole_delay i top p)) (double a)
          ∙ ap integer twice,
    )
