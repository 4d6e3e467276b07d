-- ===== src/Client/RpcClient/Breaking.antt =====
-- client/rpc-client.ts with circuit-breaker.ts: which calls a failed one keeps from starting.
use weisley_rpc_framework.Prelude.{
  ℕ, ◌+◌, ◌<◌, ◌≡◌, ◌≢◌, ◌⊎◌, refl, ap, ◌∙◌, false, Option, some, String, List, [], ◌∷◌, Outcome,
  ok, throws, Bool-cases, inl, inr, arith, ◌or_else◌,
}
use weisley_rpc_framework.Errors.{Thrown}
use weisley_rpc_framework.Client.CircuitBreaker.{
  CircuitBreaker, CircuitBreakerEntry, entry_of, record_failure,
}
use weisley_rpc_framework.Client.CircuitBreaker.Transitions
use weisley_rpc_framework.Client.CircuitBreaker.Trips.{
  IsLastFailure, fail-IsLastFailure, entry_of-record_failure, reset_timeout-record_failure,
  can_request_iff,
}
use weisley_rpc_framework.Client.RpcClient.Retries.{get_method_key}
use weisley_rpc_framework.Client.RpcClient.Calls.{
  RpcClient, Step, asks, ends, admit, settle, ask_limiter, ask_breaker, tell_breaker,
  record_metrics, step, run,
}
use weisley_rpc_framework.Client.CircuitBreaker.StaysOpen.{IsOpen, step-IsOpen}

refused-admit :
    (now : ℕ) (client : RpcClient) (service method : String)
    → (ask_breaker now client.circuit_breaker (get_method_key service method)).1 ≡ false
    → (admit now client service method).1 ≢ ok tt
unfolding admit
refused-admit now client service method refused =
    elim (Bool-cases (ask_limiter now client.rate_limiter).1) [
      | inr f ↦ rw (f, admit) (λ e. cc)
      | inl t ↦ rw (t, admit) (rw refused (λ e. cc))
    ]

module _ (t reset : ℕ) where
  -- The client's breaker is such a breaker.
  abbrev HasOpen : String → Option CircuitBreaker → Type 0
  HasOpen key breaker = (b : CircuitBreaker) × (breaker ≡ some b) × IsOpen t reset key b

  ask_breaker-HasOpen :
      (now : ℕ) (breaker : Option CircuitBreaker) (k key : String)
      → HasOpen key breaker
      → (k ≢ key) ⊎ (now < t + reset)
      → HasOpen key (ask_breaker now breaker k).0
  unfolding ask_breaker Transitions.step
  ask_breaker-HasOpen now breaker k key (b, there, v) h = (
    Transitions.step b (k, Transitions.asks now),
    rw there refl,
    step-IsOpen t reset b k key (Transitions.asks now) v h,
  )

  admit-HasOpen :
      (now : ℕ) (client : RpcClient) (service method key : String)
      → HasOpen key client.circuit_breaker
      → (get_method_key service method ≢ key) ⊎ (now < t + reset)
      → HasOpen key (admit now client service method).0.circuit_breaker
  unfolding admit
  admit-HasOpen now client service method key v h =
      let k = get_method_key service method in
      elim (Bool-cases (ask_limiter now client.rate_limiter).1) [
        | inr f ↦ rw (f, admit) v
        | inl a ↦ elim (Bool-cases (ask_breaker now client.circuit_breaker k).1) [
          | inr f ↦ rw (a, admit) (rw f (ask_breaker-HasOpen now client.circuit_breaker k key v h))
          | inl u ↦ rw (a, admit) (rw u (ask_breaker-HasOpen now client.circuit_breaker k key v h))
        ]
      ]

  tell_breaker-HasOpen :
      {Value : Type 0} (now : ℕ) (breaker : Option CircuitBreaker) (k key : String)
      (outcome : Outcome Thrown Value)
      → HasOpen key breaker
      → (k ≢ key) ⊎ ((e : Thrown) × (outcome ≡ throws e))
      → HasOpen key (tell_breaker now breaker k outcome)
  unfolding tell_breaker Transitions.step
  tell_breaker-HasOpen now breaker k key (throws e) (b, there, v) h = (
    Transitions.step b (k, Transitions.fails now),
    rw there refl,
    step-IsOpen t reset b k key (Transitions.fails now) v (inr tt),
  )
  tell_breaker-HasOpen now breaker k key (ok result) (b, there, v) (inl other) = (
    Transitions.step b (k, Transitions.succeeds),
    rw there refl,
    step-IsOpen t reset b k key Transitions.succeeds v (inl other),
  )
  tell_breaker-HasOpen now breaker k key (ok result) (b, there, v) (inr (e, h)) = cc

-- No call of the key ends well in these steps, and the calls of the key that ask to start do so
-- before a time; calls of other keys are free.
abbrev pub NoneCloses : ℕ → String → List (String × String × Step) → Type 0
NoneCloses until key [] = Unit {0}
NoneCloses until key ((service, method, asks now) ∷ ss) =
    ((get_method_key service method ≢ key) ⊎ (now < until)) × NoneCloses until key ss
NoneCloses until key ((service, method, ends started_at now outcome) ∷ ss) =
    ((get_method_key service method ≢ key) ⊎ ((e : Thrown) × (outcome ≡ throws e)))
    × NoneCloses until key ss

run-HasOpen :
    (t reset : ℕ) (key : String) (client : RpcClient) (ss : List (String × String × Step))
    → HasOpen t reset key client.circuit_breaker
    → NoneCloses (t + reset) key ss
    → HasOpen t reset key (run client ss).circuit_breaker
unfolding run step settle record_metrics
run-HasOpen t reset key client [] v h = v
run-HasOpen t reset key client ((service, method, asks now) ∷ ss) v (h, hs) =
    run-HasOpen t reset key (admit now client service method).0 ss
      (admit-HasOpen t reset now client service method key v h) hs
run-HasOpen t reset key client ((service, method, ends started_at now outcome) ∷ ss) v (h, hs) =
    run-HasOpen t reset key (settle started_at now client service method outcome) ss
      (tell_breaker-HasOpen t reset now client.circuit_breaker (get_method_key service method) key
        outcome v h)
      hs

opened-HasOpen :
    {Value : Type 0} (t : ℕ) (breaker : Option CircuitBreaker) (b : CircuitBreaker) (key : String)
    (outcome : Outcome Thrown Value) (e : Thrown)
    → breaker ≡ some b
    → outcome ≡ throws e
    → IsLastFailure b.options (entry_of b key)
    → HasOpen t b.options.reset_timeout_ms key (tell_breaker t breaker key outcome)
unfolding tell_breaker
opened-HasOpen t breaker b key outcome e there failed last =
    let same = entry_of-record_failure t b key in
    let (open_now, since) = fail-IsLastFailure t b.options (entry_of b key) last in
    (
      record_failure t b key,
      rw (there, failed) refl,
      record {
        open_now = ap (λ (x : CircuitBreakerEntry). x.state) same ∙ open_now;
        since = ap (λ (x : CircuitBreakerEntry). x.opened_at) same ∙ since;
        same_reset = reset_timeout-record_failure t b key;
      },
    )

HasOpen-refuses :
    (t reset now : ℕ) (key : String) (breaker : Option CircuitBreaker)
    → HasOpen t reset key breaker
    → now < t + reset
    → (ask_breaker now breaker key).1 ≡ false
unfolding ask_breaker
HasOpen-refuses t reset now key breaker (b, there, v) early =
    let since : ((entry_of b key).opened_at or_else 0) ≡ t = ap (λ o. o or_else 0) v.since in
    let same = v.same_reset in
    let (refused, _) = can_request_iff now b key in rw there (refused.1 (v.open_now, omega arith))

-- A call that fails with the breaker half-open, or as the failure that reaches the threshold,
-- keeps the calls of its method from starting until the breaker's reset time has passed, whatever
-- other calls start and end in between, if none of the method's calls ends well.
pub settle_refuses :
    {Value : Type 0} (started_at t now : ℕ) (client : RpcClient) (b : CircuitBreaker)
    (service method : String) (outcome : Outcome Thrown Value) (e : Thrown)
    (between : List (String × String × Step))
    → client.circuit_breaker ≡ some b
    → outcome ≡ throws e
    → IsLastFailure b.options (entry_of b (get_method_key service method))
    → NoneCloses (t + b.options.reset_timeout_ms) (get_method_key service method) between
    → now < t + b.options.reset_timeout_ms
    → (admit now (run (settle started_at t client service method outcome) between) service method).1
      ≢ ok tt
unfolding settle record_metrics
settle_refuses started_at t now client b service method outcome e between there failed last others
      early =
    let key = get_method_key service method in
    let reset = b.options.reset_timeout_ms in
    let after = settle started_at t client service method outcome in
    let still =
      run-HasOpen t reset key after between
        (opened-HasOpen t client.circuit_breaker b key outcome e there failed last) others in
    refused-admit now (run after between) service method
      (HasOpen-refuses t reset now key (run after between).circuit_breaker still early)
