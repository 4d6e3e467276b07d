-- ===== src/Client/CircuitBreaker/StaysOpen.antt =====
-- client/circuit-breaker.ts: the calls of the breaker that leave an open key as it is.
use weisley_rpc_framework.Prelude.{
  ℕ, ◌+◌, ◌<◌, ◌≡◌, ◌≢◌, ◌⊎◌, refl, ap, ◌∙◌, some, String, Bool-cases, inl, inr, str_eq, eq_iff,
  arith,
}
use weisley_rpc_framework.Client.CircuitBreaker.{
  CircuitBreaker, CircuitBreakerEntry, CircuitBreakerOptions, opened, entry_of, probe, fail,
  has_elapsed,
}
use weisley_rpc_framework.Client.CircuitBreaker.Transitions
use weisley_rpc_framework.Client.CircuitBreaker.Transitions.{
  Call, change, entry_of-step, options-step,
}

-- The key is open since t, on a breaker with this reset time.
pub record IsOpen (t reset : ℕ) (key : String) (b : CircuitBreaker) : Type 0 where
  pub open_now : (entry_of b key).state ≡ opened
  pub since : (entry_of b key).opened_at ≡ some t
  pub same_reset : b.options.reset_timeout_ms ≡ reset

-- A call of the breaker about the key that an open key outlasts.
abbrev pub Outlasted : ℕ → Call → Type 0
Outlasted until (Transitions.asks now) = now < until
Outlasted until Transitions.succeeds = ⊥
Outlasted until (Transitions.fails now) = Unit {0}
Outlasted until Transitions.inspects = Unit {0}

module _ (t reset : ℕ) where
  change-Outlasted :
      (o : CircuitBreakerOptions) (e : CircuitBreakerEntry) (c : Call)
      → e.state ≡ opened
      → e.opened_at ≡ some t
      → o.reset_timeout_ms ≡ reset
      → Outlasted (t + reset) c
      → change o c e ≡ e
  unfolding change probe fail has_elapsed
  change-Outlasted o e (Transitions.asks now) open_now since same early = ground arith
  change-Outlasted o e Transitions.succeeds open_now since same early = elim early [ ]
  change-Outlasted o e (Transitions.fails now) open_now since same early = ground arith
  change-Outlasted o e Transitions.inspects open_now since same early = refl

  entry_of-Outlasted :
      (b : CircuitBreaker) (k key : String) (c : Call)
      → IsOpen t reset key b
      → (k ≢ key) ⊎ Outlasted (t + reset) c
      → entry_of (Transitions.step b (k, c)) key ≡ entry_of b key
  entry_of-Outlasted b k key c v h = entry_of-step b k key c ∙ (elim (Bool-cases (str_eq k key)) [
    | inr f ↦ rw f refl
    | inl e ↦
        let same : k ≡ key = (eq_iff k key).0 e in
        rw e (elim h [
          | inl other ↦ absurd (other same)
          | inr early ↦
              ap (λ j. change b.options c (entry_of b j)) same
              ∙ change-Outlasted b.options (entry_of b key) c v.open_now v.since v.same_reset early
        ])
  ])

  pub step-IsOpen :
      (b : CircuitBreaker) (k key : String) (c : Call)
      → IsOpen t reset key b
      → (k ≢ key) ⊎ Outlasted (t + reset) c
      → IsOpen t reset key (Transitions.step b (k, c))
  step-IsOpen b k key c v h =
      let same = entry_of-Outlasted b k key c v h in
      record {
        open_now = ap (λ (e : CircuitBreakerEntry). e.state) same ∙ v.open_now;
        since = ap (λ (e : CircuitBreakerEntry). e.opened_at) same ∙ v.since;
        same_reset =
            ap (λ (o : CircuitBreakerOptions). o.reset_timeout_ms) (options-step b (k, c))
            ∙ v.same_reset;
      }
