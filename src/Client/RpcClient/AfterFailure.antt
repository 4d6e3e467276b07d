-- ===== src/Client/RpcClient/AfterFailure.antt =====
-- client/rpc-client.ts, callWithDiscoveryFailover: what comes after an attempt that failed, a pause
-- or the end of the attempts, said without its loop.
use weisley_rpc_framework.Prelude.{
  ℕ, ◌+◌, ◌≤◌, ◌<◌, ◌≡◌, true, false, Option, none, some, String, List, ltb, arith, Bool-cases, inl,
  inr,
}
use weisley_rpc_framework.Prelude.Number.{is_nonpositive}
use weisley_rpc_framework.Prelude.Text.{◌<>◌}
use weisley_rpc_framework.Errors.{Thrown, error, is_error}
use weisley_rpc_framework.Discovery.Types.{Endpoint}
use weisley_rpc_framework.Protocol.Types.{RpcRequest}
use weisley_rpc_framework.Client.RpcClient.Attempts.{Network, sleep}
use weisley_rpc_framework.Client.RetryPolicy.{RetryPolicy}
use weisley_rpc_framework.Client.RpcClient.Retries.{RetryOptions, get_retry_backoff_ms}
use weisley_rpc_framework.Client.RpcClient.Failover.{exhausted_error, back_off}

module _ (service_name : String) where
  -- What is thrown when no attempts are left: the last error, if it is an Error.
  pub data Exhausts : Option Thrown → Thrown → Type 0 where
    last_again : (e : Thrown) → is_error e ≡ true → Exhausts (some e) e
    no_error :
        (e : Thrown)
        → is_error e ≡ false
        → Exhausts
            (some e)
            (error ("No available endpoint for service: " <> service_name) none none)
    never_tried :
        Exhausts none (error ("No available endpoint for service: " <> service_name) none none)

  pub exhausted_error-Exhausts :
      (last_error : Option Thrown) → Exhausts last_error (exhausted_error service_name last_error)
  unfolding exhausted_error
  exhausted_error-Exhausts none = never_tried
  exhausted_error-Exhausts (some e) = elim (Bool-cases (is_error e)) [
    | inl t ↦ rw (t, exhausted_error) (last_again e t)
    | inr f ↦ rw (f, exhausted_error) (no_error e f)
  ]

module _ {S C Value : Type 0} (network : Network S C Value) (policy : RetryPolicy)
    (options : RetryOptions) (service_name : String) (request : RpcRequest Value)
    (endpoints : List Endpoint) (max_attempts : ℕ) where
  -- The pause after attempt number k, if another follows; no timer is set for a delay of 0 or less.
  pub data Pauses (k : ℕ) : S → S → Type 0 where
    last_attempt : (s : S) → max_attempts ≤ k + 1 → Pauses k s s
    at_once :
        (s : S)
        → k + 1 < max_attempts
        → is_nonpositive (get_retry_backoff_ms options service_name request.method (k + 1)) ≡ true
        → Pauses k s s
    waits :
        (s : S)
        → k + 1 < max_attempts
        → is_nonpositive (get_retry_backoff_ms options service_name request.method (k + 1)) ≡ false
        → Pauses k s
            (network.timer s (get_retry_backoff_ms options service_name request.method (k + 1)))

  pub back_off-Pauses :
      (k : ℕ) (s : S)
      → Pauses k s (back_off network policy options service_name request endpoints max_attempts k s)
  unfolding back_off sleep
  back_off-Pauses k s =
      let delay = get_retry_backoff_ms options service_name request.method (k + 1) in
      elim (Bool-cases (ltb (k + 1) max_attempts)) [
        | inr f ↦ rw (f, back_off) (last_attempt s (ground arith))
        | inl t ↦ elim (Bool-cases (is_nonpositive delay)) [
          | inl now ↦ rw (t, back_off) (rw (now, sleep) (at_once s (ground arith) now))
          | inr later ↦ rw (t, back_off) (rw (later, sleep) (waits s (ground arith) later))
        ]
      ]
