-- ===== src/Client/CircuitBreaker/Trips.antt =====
-- When the circuit breaker opens, and what an open or half-open key answers.
use weisley_rpc_framework.Prelude.{
  ℕ, ◌+◌, ◌-◌, ◌≤◌, ◌<◌, ◌≡◌, ◌∙◌, ap, refl, sym, suc, ◌≢◌, ◌⊎◌, inl, inr, true, false, some, List,
  [], ◌∷◌, String, arith, leb, ltb, if◌then◌else◌, ◌or_else◌, eq_refl, Bool-cases, length,
  get_elem?, ◌↔◌,
}
use weisley_rpc_framework.Client.CircuitBreaker.{
  CircuitBreaker, CircuitBreakerEntry, CircuitBreakerOptions, closed, opened, half_open, entry_of,
  put_entry, can_request, record_failure, probe, fail, open_entry, has_elapsed,
}
use weisley_rpc_framework.Client.CircuitBreaker.Transitions.{entry_of-put_entry}

-- Failures of one key in a row, at the given times.
unfoldable pub record_failures : List ℕ → CircuitBreaker → String → CircuitBreaker
record_failures [] b key = b
record_failures (t ∷ ts) b key = record_failures ts (record_failure t b key) key

-- The same on the entry.
fail_all : List ℕ → CircuitBreakerOptions → CircuitBreakerEntry → CircuitBreakerEntry
fail_all [] o e = e
fail_all (t ∷ ts) o e = fail_all ts o (fail e.state t o e)

entry_of-record_failures :
    (ts : List ℕ) (b : CircuitBreaker) (key : String)
    → entry_of (record_failures ts b key) key ≡ fail_all ts b.options (entry_of b key)
unfolding record_failures fail_all
entry_of-record_failures [] b key = refl
entry_of-record_failures (t ∷ ts) b key =
    entry_of-record_failures ts (record_failure t b key) key
    ∙ unfold record_failure put_entry in
      ap (fail_all ts b.options)
        (unfold record_failure in entry_of-put_entry b key key _ ∙ simp eq_refl)

-- Once open, further failures change nothing.
fail_all_opened :
    (ts : List ℕ) (o : CircuitBreakerOptions) (e : CircuitBreakerEntry)
    → e.state ≡ opened
    → fail_all ts o e ≡ e
unfolding fail_all fail
fail_all_opened [] o e h = refl
fail_all_opened (t ∷ ts) o e h = fail_all_opened ts o _ (ground arith) ∙ ground arith

-- The entry of a closed key after failures, by how many more the threshold wants.
unfoldable pub after_failures : List ℕ → ℕ → CircuitBreakerEntry → CircuitBreakerEntry
after_failures ts threshold e =
    let missing = threshold - e.failure_count in
    if ltb (length ts) missing
    then record e { failure_count = e.failure_count + length ts }
    else record e {
      state = opened;
      failure_count = threshold;
      opened_at = get_elem? ts (missing - 1);
    }

fail_trips :
    (t : ℕ) (o : CircuitBreakerOptions) (e : CircuitBreakerEntry)
    → e.state ≡ closed
    → o.failure_threshold ≤ e.failure_count + 1
    → fail e.state t o e
      ≡ record e { state = opened; failure_count = e.failure_count + 1; opened_at = some t }
unfolding fail open_entry
fail_trips t o e h over = ground arith

fail_counts :
    (t : ℕ) (o : CircuitBreakerOptions) (e : CircuitBreakerEntry)
    → e.state ≡ closed
    → e.failure_count + 1 < o.failure_threshold
    → fail e.state t o e ≡ record e { failure_count = e.failure_count + 1 }
unfolding fail open_entry
fail_counts t o e h under = ground arith

after_failures_trips :
    (t : ℕ) (ts : List ℕ) (threshold : ℕ) (e : CircuitBreakerEntry)
    → e.failure_count < threshold
    → threshold ≤ e.failure_count + 1
    → after_failures (t ∷ ts) threshold e
      ≡ record e { state = opened; failure_count = e.failure_count + 1; opened_at = some t }
unfolding after_failures
after_failures_trips t ts threshold e low over =
    let last : threshold - e.failure_count ≡ 1 = omega arith in
    rw (last, after_failures) (ground arith)

after_failures_counts :
    (t : ℕ) (ts : List ℕ) (threshold : ℕ) (e : CircuitBreakerEntry)
    → e.failure_count + 1 < threshold
    → after_failures ts threshold (record e { failure_count = e.failure_count + 1 })
      ≡ after_failures (t ∷ ts) threshold e
unfolding after_failures
after_failures_counts t ts threshold e under =
    let more : threshold - e.failure_count ≡ suc (suc (threshold - e.failure_count - 2)) =
      omega arith in
    let rest : threshold - (e.failure_count + 1) ≡ suc (threshold - e.failure_count - 2) =
      omega arith in
    rw (more, rest, after_failures) (ground arith)

fail_all_closed :
    (ts : List ℕ) (o : CircuitBreakerOptions) (e : CircuitBreakerEntry)
    → e.state ≡ closed
    → e.failure_count < o.failure_threshold
    → fail_all ts o e ≡ after_failures ts o.failure_threshold e
unfolding fail_all
fail_all_closed [] o e h low = unfold after_failures in ground arith
fail_all_closed (t ∷ ts) o e h low =
    elim (Bool-cases (leb o.failure_threshold (e.failure_count + 1))) [
      | inl over ↦
          ap (fail_all ts o) (fail_trips t o e h (ground arith))
          ∙ fail_all_opened ts o _ refl
          ∙ sym (after_failures_trips t ts o.failure_threshold e low (ground arith))
      | inr under ↦
          ap (fail_all ts o) (fail_counts t o e h (ground arith))
          ∙ fail_all_closed ts o (record e { failure_count = e.failure_count + 1 }) h (ground arith)
          ∙ after_failures_counts t ts o.failure_threshold e (ground arith)
    ]

-- A closed key with fewer failures than the threshold opens at the failure that reaches it, with
-- that failure's time, and not before; failures after it change nothing.
pub record_failures-after_failures :
    (ts : List ℕ) (b : CircuitBreaker) (key : String)
    → (entry_of b key).state ≡ closed
    → (entry_of b key).failure_count < b.options.failure_threshold
    → entry_of (record_failures ts b key) key
      ≡ after_failures ts b.options.failure_threshold (entry_of b key)
record_failures-after_failures ts b key h low =
    entry_of-record_failures ts b key ∙ fail_all_closed ts b.options (entry_of b key) h low

probe_iff :
    (now : ℕ) (o : CircuitBreakerOptions) (e : CircuitBreakerEntry)
    → (((probe e.state now o e).1 ≡ false)
        ↔ ((e.state ≡ opened) × (now < (e.opened_at or_else 0) + o.reset_timeout_ms)))
      × ((probe e.state now o e).1 ≡ true → (probe e.state now o e).0.state ≢ opened)
unfolding probe has_elapsed
probe_iff now o e = (((λ h. ground arith), λ h. ground arith), λ h. ground arith)

-- `canRequest` answers true unless the key is open and its reset time has not passed, and the answer
-- true leaves a key that is not open.
pub can_request_iff :
    (now : ℕ) (b : CircuitBreaker) (key : String)
    → let e = entry_of b key in
      let (b', allowed) = can_request now b key in
      ((allowed ≡ false)
        ↔ ((e.state ≡ opened) × (now < (e.opened_at or_else 0) + b.options.reset_timeout_ms)))
      × (allowed ≡ true → (entry_of b' key).state ≢ opened)
unfolding can_request
can_request_iff now b key =
    let (refused, admitted) = probe_iff now b.options (entry_of b key) in
    (refused, λ a. simp (entry_of-put_entry, eq_refl) (admitted a))

-- A failure that opens a key: that of a half-open one, or one that reaches the threshold.
abbrev pub IsLastFailure : CircuitBreakerOptions → CircuitBreakerEntry → Type 0
IsLastFailure o e =
    (e.state ≡ half_open) ⊎ ((e.state ≡ closed) × (o.failure_threshold ≤ e.failure_count + 1))

pub fail-IsLastFailure :
    (t : ℕ) (o : CircuitBreakerOptions) (e : CircuitBreakerEntry)
    → IsLastFailure o e
    → (fail e.state t o e).state ≡ opened × (fail e.state t o e).opened_at ≡ some t
unfolding fail open_entry
fail-IsLastFailure t o e (inl h) = rw h (refl, refl)
fail-IsLastFailure t o e (inr (h, reached)) =
    let over : leb o.failure_threshold (e.failure_count + 1) ≡ true = ground arith in
    rw h (rw over (refl, refl))

pub entry_of-record_failure :
    (t : ℕ) (b : CircuitBreaker) (key : String)
    → entry_of (record_failure t b key) key
      ≡ fail (entry_of b key).state t b.options (entry_of b key)
unfolding record_failure
entry_of-record_failure t b key = simp (entry_of-put_entry, eq_refl) refl

pub reset_timeout-record_failure :
    (t : ℕ) (b : CircuitBreaker) (key : String)
    → (record_failure t b key).options.reset_timeout_ms ≡ b.options.reset_timeout_ms
unfolding record_failure put_entry
reset_timeout-record_failure t b key = refl
