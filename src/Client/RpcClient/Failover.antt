-- ===== src/Client/RpcClient/Failover.antt =====
-- client/rpc-client.ts: callWithDiscoveryFailover.
use weisley_rpc_framework.Prelude.{
  ℕ, zero, suc, ◌+◌, true, false, Option, none, some, String, List, [], ◌∷◌, if◌then◌else◌, Outcome,
  ok, throws, ltb, length,
}
use weisley_rpc_framework.Prelude.Text.{◌<>◌}
use weisley_rpc_framework.Errors.{Thrown, error, is_error, get_error_code}
use weisley_rpc_framework.Discovery.Types.{Endpoint}
use weisley_rpc_framework.Protocol.Types.{RpcRequest}
use weisley_rpc_framework.Client.RpcClient.Attempts.{Network, sleep, try_connection}
use weisley_rpc_framework.Client.RetryPolicy.{RetryContext, RetryPolicy}
use weisley_rpc_framework.Client.RpcClient.Retries.{
  RetryOptions, get_max_attempts, get_retry_backoff_ms,
}

-- One attempt on an endpoint, with what it returned or threw.
pub data Attempted (Value : Type 0) : Type 0 where
  attempted : Endpoint → Outcome Thrown Value → Attempted Value

-- The end of a call: the state, the attempts in order, and what the call returns or throws.
pub record Ended (S Value : Type 0) : Type 0 where
  pub state : S
  pub attempts : List (Attempted Value)
  pub outcome : Outcome Thrown Value

-- An attempt that failed, before the rest of the call.
unfoldable pub retried : {S Value : Type 0} → Endpoint → Thrown → Ended S Value → Ended S Value
retried endpoint e ended = record ended {
  attempts = attempted endpoint (throws e) ∷ ended.attempts;
}

-- What is thrown when the attempts are used up.
unfoldable pub exhausted_error : String → Option Thrown → Thrown
exhausted_error service_name none =
    error ("No available endpoint for service: " <> service_name) none none
exhausted_error service_name (some last_error) =
    if is_error last_error
    then last_error
    else error ("No available endpoint for service: " <> service_name) none none

module _ {S C Value : Type 0} (network : Network S C Value) (policy : RetryPolicy)
    (options : RetryOptions) (service_name : String) (request : RpcRequest Value)
    (endpoints : List Endpoint) (max_attempts : ℕ) where
  abbrev pub retry_context : ℕ → Endpoint → Thrown → RetryContext
  retry_context attempt endpoint e = record {
    service_name = service_name;
    method = request.method;
    attempt = attempt + 1;
    max_attempts = max_attempts;
    endpoint = endpoint;
    error_code = get_error_code e;
  }

  -- The pause before the next attempt, if there is one.
  unfoldable pub back_off : ℕ → S → S
  back_off attempt s =
      if ltb (attempt + 1) max_attempts
      then sleep network s (get_retry_backoff_ms options service_name request.method (attempt + 1))
      else s

  -- A round from its `try` on, with the rounds after it.
  unfoldable pub round_end :
      (Option Thrown → S → Ended S Value) → ℕ → S → Endpoint → C → Ended S Value
  unfolding retried
  round_end next_rounds attempt s endpoint c =
      let (s3, answer) = try_connection network s c request in
      elim answer [
        | ok result ↦ record {
          state = s3;
          attempts = attempted endpoint (ok result) ∷ [];
          outcome = ok result;
        }
        | throws e ↦ elim (policy e (retry_context attempt endpoint e)) [
          | false ↦ record {
            state = s3;
            attempts = attempted endpoint (throws e) ∷ [];
            outcome = throws e;
          }
          | true ↦ retried endpoint e (next_rounds (some e) (back_off attempt s3))
        ]
      ]

  -- The `for` loop from an attempt on, with as many rounds as there are attempts left.
  unfoldable pub failover_loop : ℕ → ℕ → Option Thrown → S → Ended S Value
  unfolding round_end
  failover_loop zero attempt last_error s = record {
    state = s;
    attempts = [];
    outcome = throws (exhausted_error service_name last_error);
  }
  failover_loop (suc remaining) attempt last_error s =
      let (s1, selected) = network.select s service_name endpoints in
      elim selected [
        | throws e ↦ record { state = s1; attempts = []; outcome = throws e }
        | ok endpoint ↦
            let (s2, connection) = network.get_connection s1 endpoint in
            elim connection [
              | throws e ↦ record { state = s2; attempts = []; outcome = throws e }
              | ok c ↦ round_end (failover_loop remaining (attempt + 1)) attempt s2 endpoint c
            ]
      ]

-- The whole call: the endpoints are looked up once, before the attempts are counted.
unfoldable pub call_with_discovery_failover :
    {S C Value : Type 0}
    → Network S C Value
    → RetryPolicy
    → RetryOptions
    → String
    → RpcRequest Value
    → S
    → Ended S Value
call_with_discovery_failover network policy options service_name request s =
    let endpoints = network.lookup service_name in
    let max_attempts = get_max_attempts options service_name request.method (length endpoints) in
    failover_loop network policy options service_name request endpoints max_attempts max_attempts 0
      none s
