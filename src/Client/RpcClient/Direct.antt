-- ===== src/Client/RpcClient/Direct.antt =====
-- client/rpc-client.ts: callDirect and connect, and that a direct call does what the failover does
-- for a service of one endpoint.
use weisley_rpc_framework.Prelude.{
  ℕ, ◌≡◌, refl, sym, ap, ◌∙◌, false, none, some, String, [], ◌∷◌, Outcome, ok, throws, arith,
  Outcome-cases, Bool-cases, inl, inr,
}
use weisley_rpc_framework.Errors.{Thrown, error, is_error}
use weisley_rpc_framework.Discovery.Types.{Endpoint}
use weisley_rpc_framework.Protocol.Types.{RpcRequest}
use weisley_rpc_framework.Client.RetryPolicy.{RetryPolicy}
use weisley_rpc_framework.Client.RpcClient.Retries.{
  RetryOptions, get_max_attempts, get_max_attempts_bounds,
}
use weisley_rpc_framework.Client.RpcClient.Attempts.{Network, try_connection}
use weisley_rpc_framework.Client.RpcClient.Failover.{
  retry_context, back_off, retried, round_end, exhausted_error, failover_loop,
  call_with_discovery_failover,
}
use weisley_rpc_framework.Client.RpcClient.Pools.{Mode, direct, discovery}

abbrev pub endpoint_at : String → ℕ → Endpoint
endpoint_at host port = record { host = host; port = port; weight = none }

module _ {S C Value : Type 0} (network : Network S C Value) where
  unfoldable pub call_direct : Mode → RpcRequest Value → S → S × Outcome Thrown Value
  unfolding try_connection
  call_direct discovery request s = (s, throws (error "RpcClient is not in direct mode" none none))
  call_direct (direct host port) request s =
      let (s1, connection) = network.get_connection s (endpoint_at host port) in
      elim connection [ throws e ↦ (s1, throws e) | ok c ↦ try_connection network s1 c request ]

  -- `connect` of the client, which in discovery mode does nothing.
  unfoldable pub connect : Mode → S → S × Outcome Thrown (Unit {0})
  connect discovery s = (s, ok tt)
  connect (direct host port) s =
      let (s1, connection) = network.get_connection s (endpoint_at host port) in
      elim connection [ throws e ↦ (s1, throws e) | ok c ↦ network.connect s1 c ]

-- The outcomes of a direct call and of the failover agree: they are the same, or the direct call
-- throws what is no Error and the failover an Error of its own in its place.
pub data Agrees {Value : Type 0} (service_name : String)
    : Outcome Thrown Value → Outcome Thrown Value → Type 0 where
  same : (outcome : Outcome Thrown Value) → Agrees service_name outcome outcome
  replaced :
      (e : Thrown)
      → is_error e ≡ false
      → Agrees service_name (throws e) (throws (exhausted_error service_name (some e)))

module _ {S C Value : Type 0} (network : Network S C Value) (policy : RetryPolicy)
    (options : RetryOptions) (service_name : String) (request : RpcRequest Value) (s : S)
    (host : String) (port : ℕ) where
  one_attempt : get_max_attempts options service_name request.method 1 ≡ 1
  one_attempt =
      let (low, high) =
        get_max_attempts_bounds options service_name request.method 1 (omega arith) in
      omega arith

  exhausted-Agrees :
      (e : Thrown)
      → Agrees {Value = Value} service_name
          (throws e)
          (throws (exhausted_error service_name (some e)))
  unfolding exhausted_error
  exhausted-Agrees e = elim (Bool-cases (is_error e)) [
    | inl t ↦ rw t (same (throws e))
    | inr f ↦ replaced e f
  ]

  -- The only round of the loop, and the attempt.
  last_round :
      (s2 : S) (c : C)
      → let r =
          round_end network policy options service_name request
            (endpoint_at host port ∷ [])
            1
            (failover_loop network policy options service_name request
              (endpoint_at host port ∷ [])
              1
              0
              1)
            0
            s2
            (endpoint_at host port)
            c in
        (r.state ≡ (try_connection network s2 c request).0)
        × Agrees service_name (try_connection network s2 c request).1 r.outcome
  unfolding round_end failover_loop back_off retried
  last_round s2 c = elim (Outcome-cases (try_connection network s2 c request).1) [
    | inl (result, e) ↦ rw (e, round_end) (refl, same (ok result))
    | inr (err, e) ↦
        rw (e, round_end)
          (elim (Bool-cases (
            policy err (
              retry_context network policy options service_name request (endpoint_at host port ∷ [])
                1 0 (endpoint_at host port) err))) [
                  | inl t ↦ rw t (refl, exhausted-Agrees err)
                  | inr f ↦ rw f (refl, same (throws err))
                ])
  ]

  -- A call by discovery, of a service whose only endpoint is that host and port without a weight,
  -- does what a call in direct mode does from the state that the load balancer leaves when it has
  -- selected that endpoint (it may have moved its cursor on): they leave the same state and have outcomes
  -- that agree, which are the same but where what is thrown is no Error.
  pub call_direct-call_with_discovery_failover :
      (selected : S)
      → network.lookup service_name ≡ endpoint_at host port ∷ []
      → network.select s service_name (endpoint_at host port ∷ [])
        ≡ (selected, ok (endpoint_at host port))
      → let d = call_direct network (direct host port) request selected in
        let f = call_with_discovery_failover network policy options service_name request s in
        (f.state ≡ d.0) × Agrees service_name d.1 f.outcome
  unfolding call_with_discovery_failover call_direct failover_loop
  call_direct-call_with_discovery_failover selected only selects =
      let at = endpoint_at host port in
      let chosen : (network.select s service_name (at ∷ [])).1 ≡ ok at = ap (λ p. p.1) selects in
      let s1 = (network.select s service_name (at ∷ [])).0 in
      let stays : s1 ≡ selected = ap (λ p. p.0) selects in
      elim (Outcome-cases (network.get_connection s1 at).1) [
        | inl (c, e) ↦
            let e' : (network.get_connection selected at).1 ≡ ok c =
              ap (λ t. (network.get_connection t at).1) (sym stays) ∙ e in
            rw (only, one_attempt)
              (rw (chosen, failover_loop)
                (rw (e, e', call_direct)
                  (rw stays (last_round (network.get_connection selected at).0 c))))
        | inr (err, e) ↦
            let e' : (network.get_connection selected at).1 ≡ throws err =
              ap (λ t. (network.get_connection t at).1) (sym stays) ∙ e in
            rw (only, one_attempt)
              (rw (chosen, failover_loop)
                (rw (e, e', call_direct) (rw stays (refl, same (throws err)))))
      ]
