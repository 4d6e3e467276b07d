-- ===== src/Client/RetryPolicy.antt =====
-- client/retry-policy.ts: which failures are tried again.
use weisley_rpc_framework.Prelude.{
  ℕ, Bool, false, ◌||◌, Option, none, some, String, List, [], ◌∷◌, str_eq,
}
use weisley_rpc_framework.Errors.{Thrown, rpc_error, error, other}
use weisley_rpc_framework.Discovery.Types.{Endpoint}

pub record RetryContext : Type 0 where
  pub service_name : String
  pub method : String
  pub attempt : ℕ
  pub max_attempts : ℕ
  pub endpoint : Endpoint
  pub error_code : Option String

abbrev pub RetryPolicy : Type 0
RetryPolicy = Thrown → RetryContext → Bool

abbrev pub retryable_rpc_codes : List String
retryable_rpc_codes =
    "CONNECTION_CLOSED" ∷ "CONNECTION_NOT_OPEN" ∷ "CONNECTION_NOT_CONNECTED" ∷ "RPC_TIMEOUT"
    ∷ "HEARTBEAT_TIMEOUT" ∷ "SERVER_DRAINING" ∷ []

abbrev pub retryable_node_codes : List String
retryable_node_codes = "ECONNREFUSED" ∷ "ECONNRESET" ∷ "ETIMEDOUT" ∷ "EPIPE" ∷ []

-- `Set.has`
unfoldable pub has : List String → String → Bool
has [] code = false
has (c ∷ cs) code = str_eq c code || has cs code

-- `has` of a code that may not be there.
unfoldable pub has_some : List String → Option String → Bool
unfolding has
has_some codes none = false
has_some codes (some code) = has codes code

unfoldable pub should_retry : RetryPolicy
unfolding has has_some
should_retry (rpc_error message code) context = has retryable_rpc_codes code
should_retry (error message code stack) context = has_some retryable_node_codes code
should_retry (other text code) context = has_some retryable_node_codes code
