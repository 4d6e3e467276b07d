-- ===== src/Client/RpcClient/Tests.antt =====
-- The theorems of the client at concrete inputs, and runs of its operations.
use weisley_rpc_framework.Prelude.{
  ◌≢◌, inl, inr, eq_iff, ℕ, zero, suc, ◌+◌, ◌*◌, ◌≤◌, ◌≡◌, refl, true, none, some, [], ◌∷◌, List,
  String, ok, throws, Outcome, min, length, arith,
}
use weisley_rpc_framework.Prelude.Dict
use weisley_rpc_framework.Prelude.Number.{integer}
use weisley_rpc_framework.Errors.{Thrown, rpc_error}
use weisley_rpc_framework.Discovery.Types.{Endpoint}
use weisley_rpc_framework.Protocol.Types.{RpcRequest}
use weisley_rpc_framework.Client.RetryPolicy.{should_retry, has}
use weisley_rpc_framework.Client.RpcClient.Retries.{
  RetryOptions, get_method_key, get_retry_rule, from_rule, initial_delay, max_delay,
  get_max_attempts, get_retry_backoff_ms, get_max_attempts_bounds, get_retry_backoff_ms_doubles,
}
use weisley_rpc_framework.Client.RpcClient.Attempts.{Network, sleep, try_connection}
use weisley_rpc_framework.Client.RpcClient.Failover.{
  back_off, failover_loop, call_with_discovery_failover,
}
use weisley_rpc_framework.Client.RpcClient.History.{Tried, call_with_discovery_failover_lem}
use weisley_rpc_framework.Client.CircuitBreaker.{CircuitBreaker, half_open, entry_of}
use weisley_rpc_framework.Client.RpcClient.Breaking.{settle_refuses}
use weisley_rpc_framework.Client.RpcClient.Calls.{
  admit, settle, RpcClient, metrics_of, Step, asks, ends, run, durations, Counted, run-metrics,
}

abbrev options : RetryOptions
options = record {
  retry_max_attempts = some (integer 5);
  retry_initial_backoff_ms = some (integer 100);
  retry_max_backoff_ms = none;
  retry_rules =
      (
        "Users.get",
        record {
          max_attempts = none;
          initial_backoff_ms = none;
          max_backoff_ms = some (integer 300);
        },
      )
      ∷ [];
}

get_max_attempts_bounds_example :
    (1 ≤ get_max_attempts options "Users" "get" 3) × (get_max_attempts options "Users" "get" 3 ≤ 3)
get_max_attempts_bounds_example = get_max_attempts_bounds options "Users" "get" 3 (omega arith)

first_delay : initial_delay options "Users" "get" ≡ integer 100
unfolding initial_delay get_retry_rule from_rule Dict.get
first_delay = refl

longest_delay : max_delay options "Users" "get" ≡ integer 300
unfolding max_delay get_retry_rule from_rule Dict.get
longest_delay = refl

get_retry_backoff_ms_doubles_example :
    (get_retry_backoff_ms options "Users" "get" 1 ≡ integer (min 100 300))
    × (t : ℕ) × (t ≤ 300)
    × (get_retry_backoff_ms options "Users" "get" 2 ≡ integer t)
    × (get_retry_backoff_ms options "Users" "get" 3 ≡ integer (min (2 * t) 300))
get_retry_backoff_ms_doubles_example =
    get_retry_backoff_ms_doubles options "Users" "get" 100 300 1 first_delay longest_delay

abbrev first : Endpoint
first = record { host = "a"; port = 4000; weight = none }

abbrev second : Endpoint
second = record { host = "b"; port = 4001; weight = none }

-- A network whose first connection times out, by the number of sends so far.
abbrev answer : ℕ → Outcome Thrown ℕ
answer zero = throws (rpc_error "timed out" "RPC_TIMEOUT")
answer (suc n) = ok 7

abbrev choose : ℕ → Endpoint
choose zero = first
choose (suc n) = second

abbrev network : Network ℕ ℕ ℕ
network = record {
  lookup = λ _. first ∷ second ∷ [];
  select = λ s _ _. (s, ok (choose s));
  get_connection = λ s e. (s, ok 0);
  is_connected = λ s c. true;
  connect = λ s c. (s, ok tt);
  encode = λ r. ok [];
  send = λ s c id data_sent. (s + 1, answer s);
  timer = λ s ms. s;
}

abbrev request : RpcRequest ℕ
request = record { id = "1"; service = "Users"; method = "get"; params = []; metadata = none }

second_answers :
    (call_with_discovery_failover network should_retry options "Users" request 0).outcome ≡ ok 7
unfolding call_with_discovery_failover get_max_attempts failover_loop try_connection should_retry
    get_retry_rule from_rule Dict.get sleep has back_off get_retry_backoff_ms initial_delay
    max_delay
second_answers = refl

call_with_discovery_failover_lem_example :
    (length (call_with_discovery_failover network should_retry options "Users" request 0).attempts
      ≤ 2)
    × Tried network should_retry options "Users" request
        (first ∷ second ∷ [])
        (get_max_attempts options "Users" "get" 2)
        (get_max_attempts options "Users" "get" 2)
        0
        none
        0
        (call_with_discovery_failover network should_retry options "Users" request 0).attempts
        (call_with_discovery_failover network should_retry options "Users" request 0).state
        (call_with_discovery_failover network should_retry options "Users" request 0).outcome
call_with_discovery_failover_lem_example =
    call_with_discovery_failover_lem network should_retry options "Users" request 0 (omega arith)

abbrev client : RpcClient
client = record { metrics = []; circuit_breaker = none; rate_limiter = none }

abbrev steps : List (String × String × Step)
steps =
    ("Users", "get", asks 0)
    ∷ ("Users", "get", ends 0 5 (ok tt))
    ∷ ("Users", "list", ends 1 9 (ok tt))
    ∷ ("Users", "get", ends 2 8 (throws (rpc_error "timed out" "RPC_TIMEOUT")))
    ∷ []

run-metrics_example :
    Counted
      (metrics_of client "Users.get")
      (metrics_of (run client steps) "Users.get")
      (5 ∷ [])
      (6 ∷ [])
unfolding durations
run-metrics_example = run-metrics client steps "Users.get"

abbrev timed_out : Outcome Thrown ℕ
timed_out = throws (rpc_error "timed out" "RPC_TIMEOUT")

abbrev half_open_breaker : CircuitBreaker
half_open_breaker = record {
  entries = ("Users.get", record { state = half_open; failure_count = 2; opened_at = some 5 }) ∷ [];
  options = record { failure_threshold = 2; reset_timeout_ms = 100 };
}

abbrev half_open_client : RpcClient
half_open_client = record {
  metrics = [];
  circuit_breaker = some half_open_breaker;
  rate_limiter = none;
}

-- What goes on while the breaker is open: another call of the method asks and is refused, one that
-- started before fails, and a call of another method ends well.
abbrev meanwhile : List (String × String × Step)
meanwhile =
    ("Users", "get", asks 55)
    ∷ ("Users", "get", ends 45 56 (throws (rpc_error "timed out" "RPC_TIMEOUT")))
    ∷ ("Users", "list", ends 1 58 (ok tt))
    ∷ []

list_ne_get : get_method_key "Users" "list" ≢ get_method_key "Users" "get"
list_ne_get = ground (arith, eq_iff "Users.list" "Users.get")

settle_refuses_example :
    (admit 60
      (run (settle 40 50 half_open_client "Users" "get" timed_out) meanwhile)
      "Users"
      "get").1
    ≢ ok tt
unfolding entry_of Dict.get
settle_refuses_example =
    settle_refuses 40 50 60 half_open_client half_open_breaker "Users" "get" timed_out
      (rpc_error "timed out" "RPC_TIMEOUT") meanwhile refl refl (inl refl)
      (inr (omega arith), (inr (rpc_error "timed out" "RPC_TIMEOUT", refl), (inl list_ne_get, tt)))
      (omega arith)
