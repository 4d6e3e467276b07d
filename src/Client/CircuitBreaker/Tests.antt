-- ===== src/Client/CircuitBreaker/Tests.antt =====
-- The theorems of the circuit breaker at concrete inputs, and runs of its operations.
use weisley_rpc_framework.Prelude.{
  ◌≡◌, refl, ◌≢◌, ◌↔◌, ◌<◌, ◌+◌, true, false, some, [], ◌∷◌, String, arith, ◌or_else◌,
}
use weisley_rpc_framework.Prelude.Number.{integer}
use weisley_rpc_framework.Prelude.Dict
use weisley_rpc_framework.Client.CircuitBreaker.{
  CircuitBreaker, opened, half_open, new_circuit_breaker, entry_of, can_request, record_failure,
}
use weisley_rpc_framework.Client.CircuitBreaker.Transitions.{
  asks, fails, step, run, Moves, step-Moves, IsValid, run-new_circuit_breaker-IsValid,
}
use weisley_rpc_framework.Client.CircuitBreaker.Trips.{
  record_failures, after_failures, record_failures-after_failures, can_request_iff,
}

abbrev fresh : CircuitBreaker
fresh = record { entries = []; options = record { failure_threshold = 2; reset_timeout_ms = 100 } }

fresh_made : new_circuit_breaker (integer 2) (integer 100) ≡ some fresh
unfolding new_circuit_breaker
fresh_made = refl

abbrev get_user : String
get_user = "UserService.getUser"

abbrev probing : CircuitBreaker
probing = record {
  entries = (get_user, record { state = half_open; failure_count = 2; opened_at = some 5 }) ∷ [];
  options = record { failure_threshold = 2; reset_timeout_ms = 100 };
}

opens_at_the_second :
    (entry_of (record_failures (5 ∷ 7 ∷ 9 ∷ []) fresh get_user) get_user).state ≡ opened
unfolding entry_of record_failures record_failure Dict.get Dict.set
opens_at_the_second = refl

record_failures-after_failures_example :
    entry_of (record_failures (5 ∷ 7 ∷ 9 ∷ []) fresh get_user) get_user
    ≡ after_failures (5 ∷ 7 ∷ 9 ∷ []) fresh.options.failure_threshold (entry_of fresh get_user)
unfolding entry_of Dict.get
record_failures-after_failures_example =
    record_failures-after_failures (5 ∷ 7 ∷ 9 ∷ []) fresh get_user refl (omega arith)

step-Moves_example :
    Moves fresh.options
      (entry_of fresh get_user)
      (fails 5)
      (entry_of fresh get_user).state
      (entry_of (step fresh (get_user, fails 5)) get_user).state
    × ((j : String) → get_user ≢ j → entry_of (step fresh (get_user, fails 5)) j ≡ entry_of fresh j)
step-Moves_example = step-Moves fresh get_user (fails 5)

run-new_circuit_breaker-IsValid_example :
    IsValid (run fresh ((get_user, fails 3) ∷ (get_user, asks 20) ∷ []))
run-new_circuit_breaker-IsValid_example =
    run-new_circuit_breaker-IsValid (integer 2) (integer 100) fresh
      ((get_user, fails 3) ∷ (get_user, asks 20) ∷ []) fresh_made

can_request_iff_example :
    (((can_request 50 probing get_user).1 ≡ false) ↔ (
      ((entry_of probing get_user).state ≡ opened)
      × (50 < ((entry_of probing get_user).opened_at or_else 0) + 100)))
    × ((can_request 50 probing get_user).1 ≡ true
        → (entry_of (can_request 50 probing get_user).0 get_user).state ≢ opened)
can_request_iff_example = can_request_iff 50 probing get_user
