-- ===== src/Client/CircuitBreaker/Transitions.antt =====
-- The state machine of one key of the circuit breaker, and what holds after any calls.
use weisley_rpc_framework.Prelude.{
  some, suc, max, ◌/◌, Option, subst, ℕ, ◌+◌, ◌≤◌, ◌<◌, ◌≡◌, refl, ◌≢◌, inl, inr, Bool, true, false,
  none, List, [], ◌∷◌, String, arith, leb, if◌then◌else◌, ◌or_else◌, str_eq, eq_iff, eq_refl,
  Bool-cases,
}
use weisley_rpc_framework.Prelude.Dict
use weisley_rpc_framework.Prelude.Dict.{Dict, dict_laws}
use weisley_rpc_framework.Prelude.Number.{
  Number, nan, infinity, neg_infinity, fraction, negative, limit_at_least,
}
use weisley_rpc_framework.Prelude.Optional.{◌>>=◌}
use weisley_rpc_framework.Client.CircuitBreaker.{
  CircuitBreaker, CircuitBreakerState, CircuitBreakerEntry, CircuitBreakerOptions, closed, opened,
  half_open, new_circuit_breaker, entry_of, put_entry, can_request, record_success, record_failure,
  get_state, probe, fail, close, open_entry, has_elapsed,
}

-- One use of the breaker by a client, with the time at which it happens.
pub data Call : Type 0 where
  asks : ℕ → Call
  succeeds : Call
  fails : ℕ → Call
  inspects : Call

-- The breaker after a call about a key.
unfoldable pub step : CircuitBreaker → String × Call → CircuitBreaker
step b (key, asks now) = (can_request now b key).0
step b (key, succeeds) = record_success b key
step b (key, fails now) = record_failure now b key
step b (key, inspects) = (get_state b key).0

pub run : CircuitBreaker → List (String × Call) → CircuitBreaker
run b [] = b
run b (c ∷ cs) = run (step b c) cs

pub entry_of-put_entry :
    (b : CircuitBreaker) (k j : String) (e : CircuitBreakerEntry)
    → entry_of (put_entry b k e) j ≡ (if str_eq k j then e else entry_of b j)
unfolding entry_of put_entry
entry_of-put_entry b k j e = simp dict_laws (ground arith)

-- The change of an entry that a call makes.
unfoldable pub change : CircuitBreakerOptions → Call → CircuitBreakerEntry → CircuitBreakerEntry
change o (asks now) e = (probe e.state now o e).0
change o succeeds e = close e
change o (fails now) e = fail e.state now o e
change o inspects e = e

pub entry_of-step :
    (b : CircuitBreaker) (k j : String) (c : Call)
    → entry_of (step b (k, c)) j
      ≡ (if str_eq k j then change b.options c (entry_of b k) else entry_of b j)
unfolding step change can_request record_success record_failure get_state
entry_of-step b k j (asks now) = entry_of-put_entry b k j _
entry_of-step b k j succeeds = entry_of-put_entry b k j _
entry_of-step b k j (fails now) = entry_of-put_entry b k j _
entry_of-step b k j inspects = entry_of-put_entry b k j _

pub options-step : (b : CircuitBreaker) (c : String × Call) → (step b c).options ≡ b.options
unfolding step can_request record_success record_failure get_state put_entry
options-step b (k, asks now) = refl
options-step b (k, succeeds) = refl
options-step b (k, fails now) = refl
options-step b (k, inspects) = refl

-- What an entry's state says of its other fields.
pub record IsSound (o : CircuitBreakerOptions) (e : CircuitBreakerEntry) : Type 0 where
  pub below : e.state ≡ closed → e.failure_count < o.failure_threshold
  pub unset : e.state ≡ closed → e.opened_at ≡ none
  pub stamped : e.state ≢ closed → e.opened_at ≢ none

change-IsSound :
    (o : CircuitBreakerOptions) (c : Call) (e : CircuitBreakerEntry)
    → 0 < o.failure_threshold
    → IsSound o e
    → IsSound o (change o c e)
unfolding change probe fail close open_entry has_elapsed
change-IsSound o (asks now) e h s = record {
  below = ground (arith, s.below);
  unset = ground (arith, s.unset);
  stamped = ground (arith, s.stamped);
}
change-IsSound o succeeds e h s = ground arith
change-IsSound o (fails now) e h s = record {
  below = ground (arith, s.below);
  unset = ground (arith, s.unset);
  stamped = ground (arith, s.stamped);
}
change-IsSound o inspects e h s = s

-- Every entry of the map, a key that is not there counting as a new entry, is sound.
pub record IsValid (b : CircuitBreaker) : Type 0 where
  pub positive : 0 < b.options.failure_threshold
  pub sound : (key : String) → IsSound b.options (entry_of b key)

step-IsValid : (b : CircuitBreaker) (c : String × Call) → IsValid b → IsValid (step b c)
step-IsValid b (k, c) v = record {
  positive = rw (options-step b (k, c)) v.positive;
  sound = λ j.
      rw (entry_of-step b k j c, options-step b (k, c))
        (branch (str_eq k j) (change-IsSound b.options c (entry_of b k) v.positive (v.sound k))
          (v.sound j));
}
  where
    branch :
        (t : Bool) {e f : CircuitBreakerEntry}
        → IsSound b.options e
        → IsSound b.options f
        → IsSound b.options (if t then e else f)
    branch true x y = x
    branch false x y = y

run-IsValid : (b : CircuitBreaker) (cs : List (String × Call)) → IsValid b → IsValid (run b cs)
unfolding run
run-IsValid b [] v = v
run-IsValid b (c ∷ cs) v = run-IsValid (step b c) cs (step-IsValid b c v)

limit_at_least_le : (lo n : ℕ) (x : Number) → limit_at_least lo x ≡ some n → lo ≤ n
limit_at_least_le lo n nan e = cc
limit_at_least_le lo n infinity e = cc
limit_at_least_le lo n neg_infinity e = let q : lo ≡ n = cc in omega arith
limit_at_least_le lo n (negative m d) e = let q : lo ≡ n = cc in omega arith
limit_at_least_le lo n (fraction m d) e = let q : max lo (m / suc d) ≡ n = cc in ground arith

made-IsValid :
    (threshold reset : ℕ)
    → 1 ≤ threshold
    → IsValid (record {
      entries = [];
      options = record { failure_threshold = threshold; reset_timeout_ms = reset };
    })
unfolding entry_of Dict.get
made-IsValid threshold reset h = record {
  positive = h;
  sound = λ key. record { below = λ _. h; unset = λ _. refl; stamped = ground arith };
}

made_of :
    (threshold reset : Option ℕ) {b : CircuitBreaker}
    → (do
      t ← threshold
      r ← reset
      some (record {
        entries = [];
        options = record { failure_threshold = t; reset_timeout_ms = r };
      }))
      ≡ some b
    → ((n : ℕ) → threshold ≡ some n → 1 ≤ n)
    → IsValid b
made_of none reset made h = cc
made_of (some t) none made h = cc
made_of (some t) (some r) {b} made h =
    let same : record {
      entries = [];
      options = record { failure_threshold = t; reset_timeout_ms = r };
    }
        ≡ b =
      cc in
    subst IsValid same (made-IsValid t r (h t refl))

new_circuit_breaker-IsValid :
    (threshold reset : Number) (b : CircuitBreaker)
    → new_circuit_breaker threshold reset ≡ some b
    → IsValid b
unfolding new_circuit_breaker
new_circuit_breaker-IsValid threshold reset b made =
    made_of (limit_at_least 1 threshold) (limit_at_least 0 reset) made
      (λ n. limit_at_least_le 1 n threshold)

-- After any calls on a new breaker, whatever its options but NaN and Infinity: a closed key has
-- fewer failures than the threshold and no opening time, and an open or half-open key has an
-- opening time.
pub run-new_circuit_breaker-IsValid :
    (threshold reset : Number) (b : CircuitBreaker) (cs : List (String × Call))
    → new_circuit_breaker threshold reset ≡ some b
    → IsValid (run b cs)
run-new_circuit_breaker-IsValid threshold reset b cs made =
    run-IsValid b cs (new_circuit_breaker-IsValid threshold reset b made)

-- The moves of one key between the three states, from the entry's state to another.
pub data Moves (o : CircuitBreakerOptions) (e : CircuitBreakerEntry)
    : Call → CircuitBreakerState → CircuitBreakerState → Type 0 where
  admits_closed : (now : ℕ) → Moves o e (asks now) closed closed
  admits_half_open : (now : ℕ) → Moves o e (asks now) half_open half_open
  refuses :
      (now : ℕ)
      → now < (e.opened_at or_else 0) + o.reset_timeout_ms
      → Moves o e (asks now) opened opened
  probes :
      (now : ℕ)
      → (e.opened_at or_else 0) + o.reset_timeout_ms ≤ now
      → Moves o e (asks now) opened half_open
  recovers : (s : CircuitBreakerState) → Moves o e succeeds s closed
  counts :
      (now : ℕ) → e.failure_count + 1 < o.failure_threshold → Moves o e (fails now) closed closed
  trips :
      (now : ℕ) → o.failure_threshold ≤ e.failure_count + 1 → Moves o e (fails now) closed opened
  reopens : (now : ℕ) → Moves o e (fails now) half_open opened
  remains : (now : ℕ) → Moves o e (fails now) opened opened
  inspected : (s : CircuitBreakerState) → Moves o e inspects s s

change-Moves :
    (o : CircuitBreakerOptions) (e : CircuitBreakerEntry) (c : Call) (s : CircuitBreakerState)
    → e.state ≡ s
    → Moves o e c s (change o c e).state
unfolding change probe fail close open_entry has_elapsed
change-Moves o e (asks now) closed h = rw (h, probe) (admits_closed now)
change-Moves o e (asks now) half_open h = rw (h, probe) (admits_half_open now)
change-Moves o e (asks now) opened h =
    elim (Bool-cases (leb ((e.opened_at or_else 0) + o.reset_timeout_ms) now)) [
      | inl due ↦ rw (h, change, probe) (rw (due, change, probe) (probes now (ground arith)))
      | inr early ↦ rw (h, change, probe) (rw (early, change, probe) (refuses now (ground arith)))
    ]
change-Moves o e succeeds s h = recovers s
change-Moves o e (fails now) closed h =
    elim (Bool-cases (leb o.failure_threshold (e.failure_count + 1))) [
      | inl over ↦ rw (h, change, fail) (rw (over, change, fail) (trips now (ground arith)))
      | inr under ↦ rw (h, change, fail) (rw (under, change, fail) (counts now (ground arith)))
    ]
change-Moves o e (fails now) half_open h = rw (h, fail) (reopens now)
change-Moves o e (fails now) opened h = rw (h, fail) (remains now)
change-Moves o e inspects s h = rw h (inspected s)

-- Every call moves the state of its own key along `Moves`, and leaves the entry of any other key.
pub step-Moves :
    (b : CircuitBreaker) (key : String) (c : Call)
    → Moves b.options
        (entry_of b key)
        c
        (entry_of b key).state
        (entry_of (step b (key, c)) key).state
      × ((j : String) → key ≢ j → entry_of (step b (key, c)) j ≡ entry_of b j)
step-Moves b key c = (
  simp (entry_of-step, eq_refl) (change-Moves b.options (entry_of b key) c _ refl),
  λ j h. rw (entry_of-step b key j c) (ground (arith, eq_iff key j)),
)
