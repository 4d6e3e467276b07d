-- ===== src/Client/RpcClient/History.antt =====
-- client/rpc-client.ts: the history of attempts that callWithDiscoveryFailover leaves, said without
-- its loop.
use weisley_rpc_framework.Prelude.{
  ℕ, Bool, zero, suc, ◌+◌, ◌≤◌, ◌<◌, ◌≡◌, true, false, Option, none, some, String, List, [], ◌∷◌,
  Outcome, ok, throws, length, arith, ap, subst, Outcome-cases, Bool-cases, inl, inr,
}
use weisley_rpc_framework.Errors.{Thrown, get_error_code}
use weisley_rpc_framework.Discovery.Types.{Endpoint}
use weisley_rpc_framework.Protocol.Types.{RpcRequest}
use weisley_rpc_framework.Client.RpcClient.Attempts.{
  Network, Tries, try_connection, try_connection-Tries,
}
use weisley_rpc_framework.Client.RetryPolicy.{RetryPolicy}
use weisley_rpc_framework.Client.RpcClient.Retries.{
  RetryOptions, get_max_attempts, get_max_attempts_bounds,
}
use weisley_rpc_framework.Client.RpcClient.Failover.{
  Attempted, attempted, Ended, retried, retry_context, back_off, round_end, failover_loop,
  call_with_discovery_failover,
}
use weisley_rpc_framework.Client.RpcClient.AfterFailure.{
  Exhausts, exhausted_error-Exhausts, Pauses, back_off-Pauses,
}

module _ {S C Value : Type 0} (network : Network S C Value) (policy : RetryPolicy)
    (options : RetryOptions) (service_name : String) (request : RpcRequest Value)
    (endpoints : List Endpoint) (max_attempts : ℕ) where
  -- What the policy says of an error of attempt number k, counted from 0, when it is told which of
  -- how many attempts it was and on which endpoint.
  abbrev Answers : ℕ → Endpoint → Thrown → Bool → Type 0
  Answers k endpoint e goes_on =
      policy e (record {
        service_name = service_name;
        method = request.method;
        attempt = k + 1;
        max_attempts = max_attempts;
        endpoint = endpoint;
        error_code = get_error_code e;
      })
      ≡ goes_on

  -- The history of a call: the attempts from number k on, with those left, the last error and the
  -- state, then the attempts made, the state after them and what the call returns or throws. An
  -- endpoint that is selected and gives a connection is tried. A result ends the call, and so does
  -- an error that the policy does not retry; one that it retries is followed by the next attempt.
  -- Else only a refused selection or connection ends it, or that no attempts are left.
  pub data Tried
      : ℕ → ℕ → Option Thrown → S → List (Attempted Value) → S → Outcome Thrown Value → Type 0 where
    exhausted :
        (k : ℕ) (last_error : Option Thrown) (s : S) (e : Thrown)
        → Exhausts service_name last_error e
        → Tried zero k last_error s [] s (throws e)
    no_endpoint :
        (n k : ℕ) (last_error : Option Thrown) (s s1 : S) (e : Thrown)
        → network.select s service_name endpoints ≡ (s1, throws e)
        → Tried (suc n) k last_error s [] s1 (throws e)
    no_connection :
        (n k : ℕ) (last_error : Option Thrown) (s s1 s2 : S) (endpoint : Endpoint) (e : Thrown)
        → network.select s service_name endpoints ≡ (s1, ok endpoint)
        → network.get_connection s1 endpoint ≡ (s2, throws e)
        → Tried (suc n) k last_error s [] s2 (throws e)
    answered :
        (n k : ℕ) (last_error : Option Thrown) (s s1 s2 s3 : S) (endpoint : Endpoint) (c : C)
        (result : Value)
        → network.select s service_name endpoints ≡ (s1, ok endpoint)
        → network.get_connection s1 endpoint ≡ (s2, ok c)
        → Tries network c request s2 s3 (ok result)
        → Tried (suc n) k last_error s (attempted endpoint (ok result) ∷ []) s3 (ok result)
    final :
        (n k : ℕ) (last_error : Option Thrown) (s s1 s2 s3 : S) (endpoint : Endpoint) (c : C)
        (e : Thrown)
        → network.select s service_name endpoints ≡ (s1, ok endpoint)
        → network.get_connection s1 endpoint ≡ (s2, ok c)
        → Tries network c request s2 s3 (throws e)
        → Answers k endpoint e false
        → Tried (suc n) k last_error s (attempted endpoint (throws e) ∷ []) s3 (throws e)
    again :
        (n k : ℕ) (last_error : Option Thrown) (s s1 s2 s3 s4 s5 : S) (endpoint : Endpoint) (c : C)
        (e : Thrown) (rest : List (Attempted Value)) (outcome : Outcome Thrown Value)
        → network.select s service_name endpoints ≡ (s1, ok endpoint)
        → network.get_connection s1 endpoint ≡ (s2, ok c)
        → Tries network c request s2 s3 (throws e)
        → Answers k endpoint e true
        → Pauses network policy options service_name request endpoints max_attempts k s3 s4
        → Tried n (k + 1) (some e) s4 rest s5 outcome
        → Tried (suc n) k last_error s (attempted endpoint (throws e) ∷ rest) s5 outcome

  -- The loop's end from a state is the end of such a history.
  abbrev TriedTo : ℕ → ℕ → Option Thrown → S → Ended S Value → Type 0
  TriedTo n k last_error s ended = Tried n k last_error s ended.attempts ended.state ended.outcome

  -- A round from the attempt on, where the rounds after it leave such a history.
  round_end-Tried :
      (next_rounds : Option Thrown → S → Ended S Value) (n k : ℕ) (last_error : Option Thrown)
      (s s1 s2 : S) (endpoint : Endpoint) (c : C)
      → network.select s service_name endpoints ≡ (s1, ok endpoint)
      → network.get_connection s1 endpoint ≡ (s2, ok c)
      → ((e : Thrown) (s4 : S) → TriedTo n (k + 1) (some e) s4 (next_rounds (some e) s4))
      → TriedTo (suc n) k last_error s (
          round_end network policy options service_name request endpoints max_attempts next_rounds k
            s2 endpoint c)
  unfolding round_end retried
  round_end-Tried next_rounds n k last_error s s1 s2 endpoint c chosen lent rest =
      let (s3, answer) = try_connection network s2 c request in
      let tries = try_connection-Tries network s2 c request in
      elim (Outcome-cases answer) [
        | inl (result, returns) ↦
            rw (returns, round_end)
              (answered n k last_error s s1 s2 s3 endpoint c result chosen lent
                (subst (Tries network c request s2 s3) returns tries))
        | inr (e, fails) ↦
            let failing = subst (Tries network c request s2 s3) fails tries in
            rw (fails, round_end)
              (elim (Bool-cases (
                policy e (
                  retry_context network policy options service_name request endpoints max_attempts k
                    endpoint e))) [
                      | inl t ↦ rw t (
                          again n k last_error s s1 s2 s3
                            (back_off network policy options service_name request endpoints
                              max_attempts k s3)
                            _ endpoint c e _ _ chosen lent failing t
                            (back_off-Pauses network policy options service_name request endpoints
                              max_attempts k s3)
                            (rest e (
                              back_off network policy options service_name request endpoints
                                max_attempts k s3)))
                      | inr f ↦
                          rw f (final n k last_error s s1 s2 s3 endpoint c e chosen lent failing f)
                    ])
      ]

  -- The loop leaves such a history.
  pub failover_loop-Tried :
      (n k : ℕ) (last_error : Option Thrown) (s : S)
      → TriedTo n k last_error s (
          failover_loop network policy options service_name request endpoints max_attempts n k
            last_error s)
  unfolding failover_loop
  failover_loop-Tried zero k last_error s =
      exhausted k last_error s _ (exhausted_error-Exhausts service_name last_error)
  failover_loop-Tried (suc n) k last_error s =
      let (s1, selected) = network.select s service_name endpoints in
      elim (Outcome-cases selected) [
        | inr (e, refused) ↦
            rw (refused, failover_loop)
              (no_endpoint n k last_error s s1 e (ap (λ o. (s1, o)) refused))
        | inl (endpoint, found) ↦
            let chosen : network.select s service_name endpoints ≡ (s1, ok endpoint) =
              ap (λ o. (s1, o)) found in
            let (s2, connection) = network.get_connection s1 endpoint in
            rw (found, failover_loop)
              (elim (Outcome-cases connection) [
                | inr (e, refused) ↦ rw refused (
                    no_connection n k last_error s s1 s2 endpoint e chosen
                      (ap (λ o. (s2, o)) refused))
                | inl (c, there) ↦ rw there (
                    round_end-Tried
                      (failover_loop network policy options service_name request endpoints
                        max_attempts n (k + 1))
                      n k last_error s s1 s2 endpoint c chosen (ap (λ o. (s2, o)) there)
                      (λ e s4. failover_loop-Tried n (k + 1) (some e) s4))
              ])
      ]

  length-Tried :
      {n k : ℕ} {last_error : Option Thrown} {s s' : S} {tries : List (Attempted Value)}
      {outcome : Outcome Thrown Value}
      → Tried n k last_error s tries s' outcome
      → length tries ≤ n
  length-Tried (exhausted k last_error s e ends) = ground arith
  length-Tried (no_endpoint n k last_error s s1 e refused) = ground arith
  length-Tried (no_connection n k last_error s s1 s2 endpoint e chosen refused) = ground arith
  length-Tried (answered n k last_error s s1 s2 s3 endpoint c result chosen lent t) = ground arith
  length-Tried (final n k last_error s s1 s2 s3 endpoint c e chosen lent t stops) = ground arith
  length-Tried
        (again n k last_error s s1 s2 s3 s4 s5 endpoint c e rest outcome chosen lent t goes p
          after) =
      let h = length-Tried after in ground arith

-- A call of a service is a history of attempts: each is made on the endpoint that the load balancer
-- selects and the connection that is got for it, and comes to what connecting, encoding and sending
-- come to. An error that the policy retries is followed, after the pause, by the next attempt until
-- none is left; the call returns the first result, and else throws what ended it. Where the service
-- has endpoints it makes no more attempts than it has endpoints.
pub call_with_discovery_failover_lem :
    {S C Value : Type 0} (network : Network S C Value) (policy : RetryPolicy)
    (options : RetryOptions) (service_name : String) (request : RpcRequest Value) (s : S)
    → 0 < length (network.lookup service_name)
    → (length (call_with_discovery_failover network policy options service_name request s).attempts
        ≤ length (network.lookup service_name))
      × Tried network policy options service_name request
          (network.lookup service_name)
          (get_max_attempts options service_name request.method
            (length (network.lookup service_name)))
          (get_max_attempts options service_name request.method
            (length (network.lookup service_name)))
          0
          none
          s
          (call_with_discovery_failover network policy options service_name request s).attempts
          (call_with_discovery_failover network policy options service_name request s).state
          (call_with_discovery_failover network policy options service_name request s).outcome
unfolding call_with_discovery_failover
call_with_discovery_failover_lem network policy options service_name request s some_there =
    let endpoints = network.lookup service_name in
    let n = get_max_attempts options service_name request.method (length endpoints) in
    let (_, below) =
      get_max_attempts_bounds options service_name request.method (length endpoints) some_there in
    let history =
      failover_loop-Tried network policy options service_name request endpoints n n 0 none s in
    let short = length-Tried network policy options service_name request endpoints n history in
    (omega arith, history)
