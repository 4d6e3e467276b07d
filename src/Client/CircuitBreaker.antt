-- ===== src/Client/CircuitBreaker.antt =====
-- packages/core/src/client/circuit-breaker.ts. `Date.now()` is an argument of the calls that read
-- it.
pub mod Transitions
pub mod Trips
pub mod StaysOpen
pub mod Tests
use weisley_rpc_framework.Prelude.{
  ℕ, ◌+◌, Bool, true, false, Option, none, some, String, [], leb, if◌then◌else◌, ◌or_else◌,
}
use weisley_rpc_framework.Prelude.Dict
use weisley_rpc_framework.Prelude.Dict.{Dict}
use weisley_rpc_framework.Prelude.Number.{Number, limit_at_least}
use weisley_rpc_framework.Prelude.Optional.{◌>>=◌}

pub data CircuitBreakerState : Type 0 where
  closed opened half_open : CircuitBreakerState

pub record CircuitBreakerOptions : Type 0 where
  pub failure_threshold : ℕ
  pub reset_timeout_ms : ℕ

pub record CircuitBreakerEntry : Type 0 where
  pub state : CircuitBreakerState
  pub failure_count : ℕ
  pub opened_at : Option ℕ

pub record CircuitBreaker : Type 0 where
  pub entries : Dict CircuitBreakerEntry
  pub options : CircuitBreakerOptions

-- The constructor; `none` where an option is NaN or Infinity, which the code takes as a limit that
-- is never reached, and which no breaker here has.
unfoldable pub new_circuit_breaker : Number → Number → Option CircuitBreaker
new_circuit_breaker failure_threshold reset_timeout_ms = do
  threshold ← limit_at_least 1 failure_threshold
  reset_timeout ← limit_at_least 0 reset_timeout_ms
  some (record {
    entries = [];
    options = record { failure_threshold = threshold; reset_timeout_ms = reset_timeout };
  })

abbrev pub new_entry : CircuitBreakerEntry
new_entry = record { state = closed; failure_count = 0; opened_at = none }

-- The entry that `getOrCreateEntry` returns.
unfoldable pub entry_of : CircuitBreaker → String → CircuitBreakerEntry
entry_of b key = Dict.get b.entries key or_else new_entry

-- The entries after a change of that entry, which the map holds.
unfoldable pub put_entry : CircuitBreaker → String → CircuitBreakerEntry → CircuitBreaker
put_entry b key e = record b { entries = Dict.set b.entries key e }

unfoldable pub close : CircuitBreakerEntry → CircuitBreakerEntry
close e = record e { state = closed; failure_count = 0; opened_at = none }

unfoldable pub open_entry : ℕ → CircuitBreakerEntry → CircuitBreakerEntry
open_entry now e = record e { state = opened; opened_at = some now }

-- `elapsedMs >= resetTimeoutMs`, also where the clock has gone back.
unfoldable pub has_elapsed : ℕ → CircuitBreakerOptions → CircuitBreakerEntry → Bool
has_elapsed now o e = leb ((e.opened_at or_else 0) + o.reset_timeout_ms) now

-- What `canRequest` does to an entry, by its state.
unfoldable pub probe :
    CircuitBreakerState
    → ℕ
    → CircuitBreakerOptions
    → CircuitBreakerEntry
    → CircuitBreakerEntry × Bool
unfolding has_elapsed
probe closed now o e = (e, true)
probe half_open now o e = (e, true)
probe opened now o e =
    if has_elapsed now o e then (record e { state = half_open }, true) else (e, false)

unfoldable pub can_request : ℕ → CircuitBreaker → String → CircuitBreaker × Bool
unfolding entry_of put_entry probe
can_request now b key =
    let e = entry_of b key in
    let (e', allowed) = probe e.state now b.options e in (put_entry b key e', allowed)

unfoldable pub record_success : CircuitBreaker → String → CircuitBreaker
unfolding entry_of put_entry close
record_success b key = put_entry b key (close (entry_of b key))

-- What `recordFailure` does to an entry, by its state.
unfoldable pub fail :
    CircuitBreakerState → ℕ → CircuitBreakerOptions → CircuitBreakerEntry → CircuitBreakerEntry
unfolding open_entry
fail half_open now o e = open_entry now e
fail opened now o e = e
fail closed now o e =
    let e' : CircuitBreakerEntry = record e { failure_count = e.failure_count + 1 } in
    if leb o.failure_threshold e'.failure_count then open_entry now e' else e'

unfoldable pub record_failure : ℕ → CircuitBreaker → String → CircuitBreaker
unfolding entry_of put_entry fail
record_failure now b key = let e = entry_of b key in put_entry b key (fail e.state now b.options e)

unfoldable pub get_state : CircuitBreaker → String → CircuitBreaker × CircuitBreakerState
unfolding entry_of put_entry
get_state b key = let e = entry_of b key in (put_entry b key e, e.state)
