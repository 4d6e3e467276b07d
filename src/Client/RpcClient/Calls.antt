-- ===== src/Client/RpcClient/Calls.antt =====
-- client/rpc-client.ts: what `call` does to the client before its attempts and after them, and
-- recordMetrics. Between the two other calls of the client may run.
use weisley_rpc_framework.Prelude.{
  ℕ, ◌+◌, ◌-◌, ◌≡◌, refl, ap, subst, Bool, true, false, Option, none, some, String, List, [], ◌∷◌,
  if◌then◌else◌, ◌or_else◌, Outcome, ok, throws, arith, str_eq, eq_iff, not, ◌&&◌, length,
  Bool-cases, inl, inr,
}
use weisley_rpc_framework.Prelude.Dict
use weisley_rpc_framework.Prelude.Dict.{Dict, dict_laws}
use weisley_rpc_framework.Prelude.Number.{Number, integer, fraction}
use weisley_rpc_framework.Errors.{Thrown, rpc_error, get_error_code}
use weisley_rpc_framework.Client.CircuitBreaker.{
  CircuitBreaker, can_request, record_success, record_failure,
}
use weisley_rpc_framework.Client.RateLimiter.{TokenBucketRateLimiter, allow}
use weisley_rpc_framework.Client.RpcClient.Retries.{get_method_key}

unfoldable pub sum : List ℕ → ℕ
sum [] = 0
sum (n ∷ ns) = n + sum ns

abbrev pub same : Bool → Bool → Bool
same true b = b
same false b = not b

pub record RpcMethodMetrics : Type 0 where
  pub total_calls : ℕ
  pub success_calls : ℕ
  pub failed_calls : ℕ
  pub total_duration_ms : ℕ
  pub average_duration_ms : Number
  pub last_error_code : Option String

-- The fields that a call changes.
pub record RpcClient : Type 0 where
  pub metrics : Dict RpcMethodMetrics
  pub circuit_breaker : Option CircuitBreaker
  pub rate_limiter : Option TokenBucketRateLimiter

abbrev pub no_calls : RpcMethodMetrics
no_calls = record {
  total_calls = 0;
  success_calls = 0;
  failed_calls = 0;
  total_duration_ms = 0;
  average_duration_ms = integer 0;
  last_error_code = none;
}

-- The metrics of a method after one more call.
unfoldable pub count_call : RpcMethodMetrics → ℕ → Bool → Option String → RpcMethodMetrics
count_call current duration_ms success error_code =
    let total_calls = current.total_calls + 1 in
    let total_duration_ms = current.total_duration_ms + duration_ms in
    let average_duration_ms = fraction total_duration_ms (total_calls - 1) in
    if success
    then record {
      total_calls = total_calls;
      success_calls = current.success_calls + 1;
      failed_calls = current.failed_calls;
      total_duration_ms = total_duration_ms;
      average_duration_ms = average_duration_ms;
      last_error_code = current.last_error_code;
    }
    else record {
      total_calls = total_calls;
      success_calls = current.success_calls;
      failed_calls = current.failed_calls + 1;
      total_duration_ms = total_duration_ms;
      average_duration_ms = average_duration_ms;
      last_error_code = error_code;
    }

abbrev pub metrics_of : RpcClient → String → RpcMethodMetrics
metrics_of client key = Dict.get client.metrics key or_else no_calls

unfoldable pub record_metrics : RpcClient → String → String → ℕ → Bool → Option String → RpcClient
unfolding count_call
record_metrics client service method duration_ms success error_code =
    let key = get_method_key service method in
    record client {
      metrics =
          Dict.set client.metrics key
            (count_call (metrics_of client key) duration_ms success error_code);
    }

abbrev pub reset_metrics : RpcClient → RpcClient
reset_metrics client = record client { metrics = [] }

abbrev pub rate_limited : Thrown
rate_limited = rpc_error "Rate limit exceeded" "RATE_LIMITED"

abbrev pub circuit_open : Thrown
circuit_open = rpc_error "Circuit breaker is open" "CIRCUIT_BREAKER_OPEN"

-- `this.rateLimiter && !this.rateLimiter.allow()`: the limiter after it, and whether to go on.
unfoldable pub ask_limiter :
    ℕ → Option TokenBucketRateLimiter → Option TokenBucketRateLimiter × Bool
ask_limiter now none = (none, true)
ask_limiter now (some limiter) =
    let (limiter', allowed) = allow now limiter in (some limiter', allowed)

-- `this.circuitBreaker && !this.circuitBreaker.canRequest(methodKey)`
unfoldable pub ask_breaker : ℕ → Option CircuitBreaker → String → Option CircuitBreaker × Bool
ask_breaker now none key = (none, true)
ask_breaker now (some breaker) key =
    let (breaker', allowed) = can_request now breaker key in (some breaker', allowed)

-- `call` up to its `try` block.
unfoldable pub admit : ℕ → RpcClient → String → String → RpcClient × Outcome Thrown (Unit {0})
unfolding ask_limiter ask_breaker
admit now client service method =
    let (limiter, within_rate) = ask_limiter now client.rate_limiter in
    let client1 = record client { rate_limiter = limiter } in
    elim within_rate [
      | false ↦ (client1, throws rate_limited)
      | true ↦
          let (breaker, closed) =
            ask_breaker now client1.circuit_breaker (get_method_key service method) in
          let client2 = record client1 { circuit_breaker = breaker } in
          elim closed [ false ↦ (client2, throws circuit_open) | true ↦ (client2, ok tt) ]
    ]

unfoldable pub tell_breaker :
    {Value : Type 0}
    → ℕ
    → Option CircuitBreaker
    → String
    → Outcome Thrown Value
    → Option CircuitBreaker
tell_breaker now none key outcome = none
tell_breaker now (some breaker) key (ok result) = some (record_success breaker key)
tell_breaker now (some breaker) key (throws e) = some (record_failure now breaker key)

abbrev pub succeeded : {Value : Type 0} → Outcome Thrown Value → Bool
succeeded (ok result) = true
succeeded (throws e) = false

abbrev pub code_thrown : {Value : Type 0} → Outcome Thrown Value → Option String
code_thrown (ok result) = none
code_thrown (throws e) = get_error_code e

-- What `call` does after its attempts, in its `try` block or its `catch` block; it then returns
-- or throws the same outcome.
unfoldable pub settle :
    {Value : Type 0}
    → (started_at now : ℕ) → RpcClient
    → String
    → String
    → Outcome Thrown Value
    → RpcClient
unfolding record_metrics tell_breaker
settle started_at now client service method outcome =
    let key = get_method_key service method in
    let client1 = record client {
      circuit_breaker = tell_breaker now client.circuit_breaker key outcome;
    } in
    record_metrics client1 service method (now - started_at) (succeeded outcome)
      (code_thrown outcome)

-- A step of a client: a call that asks to start, or one that has ended with a result or an error.
pub data Step : Type 0 where
  asks : (now : ℕ) → Step
  ends : (started_at now : ℕ) → Outcome Thrown (Unit {0}) → Step

unfoldable pub step : RpcClient → String × String × Step → RpcClient
unfolding admit settle
step client (service, method, asks now) = (admit now client service method).0
step client (service, method, ends started_at now outcome) =
    settle started_at now client service method outcome

unfoldable pub run : RpcClient → List (String × String × Step) → RpcClient
unfolding step
run client [] = client
run client (s ∷ ss) = run (step client s) ss

-- The durations of the calls under a key that ended one way or the other, by the steps alone.
unfoldable pub durations : Bool → String → List (String × String × Step) → List ℕ
durations success key [] = []
durations success key ((service, method, asks now) ∷ ss) = durations success key ss
durations success key ((service, method, ends started_at now outcome) ∷ ss) =
    let rest = durations success key ss in
    if str_eq (get_method_key service method) key && same (succeeded outcome) success
    then (now - started_at) ∷ rest
    else rest

admit-metrics :
    (now : ℕ) (client : RpcClient) (service method : String)
    → (admit now client service method).0.metrics ≡ client.metrics
unfolding admit
admit-metrics now client service method =
    elim (Bool-cases (ask_limiter now client.rate_limiter).1) [
      | inr f ↦ rw (f, admit) refl
      | inl t ↦
          elim (Bool-cases
            (ask_breaker now client.circuit_breaker (get_method_key service method)).1) [
              | inr f ↦ rw (t, admit) (rw f refl)
              | inl u ↦ rw (t, admit) (rw u refl)
            ]
    ]

-- The metrics `after` are those `before` with calls of these durations, good and bad ones.
abbrev pub Counted : RpcMethodMetrics → RpcMethodMetrics → List ℕ → List ℕ → Type 0
Counted before after good bad =
    (after.success_calls ≡ before.success_calls + length good)
    × (after.failed_calls ≡ before.failed_calls + length bad)
    × (after.total_calls ≡ before.total_calls + length good + length bad)
    × (after.total_duration_ms ≡ before.total_duration_ms + sum good + sum bad)

Counted-count_call :
    (before after : RpcMethodMetrics) (hit success : Bool) (d : ℕ) (code : Option String)
    (good bad : List ℕ)
    → Counted (if hit then count_call before d success code else before) after good bad
    → Counted before after
        (if hit && same success true then d ∷ good else good)
        (if hit && same success false then d ∷ bad else bad)
unfolding count_call sum
Counted-count_call before after true true d code good bad h = ground arith
Counted-count_call before after true false d code good bad h = ground arith
Counted-count_call before after false success d code good bad h = h

-- Setting a key to a new value of what it has.
metrics_of_set :
    (m : Dict RpcMethodMetrics) (k key : String) (change : RpcMethodMetrics → RpcMethodMetrics)
    → (Dict.get (Dict.set m k (change (Dict.get m k or_else no_calls))) key or_else no_calls) ≡ (
        if str_eq k key
        then change (Dict.get m key or_else no_calls)
        else (Dict.get m key or_else no_calls))
metrics_of_set m k key change =
    rw (Dict.get-set m k key (change (Dict.get m k or_else no_calls)))
      (elim (Bool-cases (str_eq k key)) [
        | inl t ↦ rw t (ap (λ j. change (Dict.get m j or_else no_calls)) ((eq_iff k key).0 t))
        | inr f ↦ rw f refl
      ])

metrics_of-settle :
    {Value : Type 0} (started_at now : ℕ) (client : RpcClient) (service method key : String)
    (outcome : Outcome Thrown Value)
    → metrics_of (settle started_at now client service method outcome) key ≡ (
        if str_eq (get_method_key service method) key
        then count_call
            (metrics_of client key)
            (now - started_at)
            (succeeded outcome)
            (code_thrown outcome)
        else metrics_of client key)
unfolding settle record_metrics
metrics_of-settle started_at now client service method key outcome =
    metrics_of_set client.metrics (get_method_key service method) key
      (λ current. count_call current (now - started_at) (succeeded outcome) (code_thrown outcome))

-- After any steps the metrics of every method count the calls that ended, apart by how they
-- ended, and add up their durations.
pub run-metrics :
    (client : RpcClient) (steps : List (String × String × Step)) (key : String)
    → Counted
        (metrics_of client key)
        (metrics_of (run client steps) key)
        (durations true key steps)
        (durations false key steps)
unfolding run durations sum
run-metrics client [] key = ground arith
run-metrics client ((service, method, asks now) ∷ ss) key =
    let start : String × String × Step = (service, method, asks now) in
    let unchanged : metrics_of (step client start) key ≡ metrics_of client key =
      ap (λ m. Dict.get m key or_else no_calls) (admit-metrics now client service method) in
    subst
      (λ m.
        Counted m (metrics_of (run (step client start) ss) key) (durations true key ss)
          (durations false key ss))
      unchanged (run-metrics (step client start) ss key)
run-metrics client ((service, method, ends started_at now outcome) ∷ ss) key =
    let end : String × String × Step = (service, method, ends started_at now outcome) in
    let after = metrics_of (run (step client end) ss) key in
    Counted-count_call (metrics_of client key) after (str_eq (get_method_key service method) key)
      (succeeded outcome) (now - started_at) (code_thrown outcome) (durations true key ss)
      (durations false key ss)
      (subst (λ m. Counted m after (durations true key ss) (durations false key ss))
        (metrics_of-settle started_at now client service method key outcome)
        (run-metrics (step client end) ss key))
