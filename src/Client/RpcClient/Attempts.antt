-- ===== src/Client/RpcClient/Attempts.antt =====
-- client/rpc-client.ts: what callWithDiscoveryFailover calls, and its `try` block. The state of the
-- load balancer, the pools and the connections is a type S, which the operations change.
use weisley_rpc_framework.Prelude.{
  ◌≡◌, Bool, true, false, String, List, if◌then◌else◌, Outcome, ok, throws, Outcome-cases,
  Bool-cases, inl, inr, ap, refl,
}
use weisley_rpc_framework.Prelude.Number.{Number, is_nonpositive}
use weisley_rpc_framework.Errors.{Thrown}
use weisley_rpc_framework.Discovery.Types.{Endpoint}
use weisley_rpc_framework.Protocol.Types.{Buffer, RpcRequest}

-- What the loop calls; C is a connection. Each operation gives the state after it, also where it
-- throws. `sleep` is the timer, for a delay above 0.
pub record Network (S C Value : Type 0) : Type 0 where
  pub lookup : String → List Endpoint
  pub select : S → String → List Endpoint → S × Outcome Thrown Endpoint
  pub get_connection : S → Endpoint → S × Outcome Thrown C
  pub is_connected : S → C → Bool
  pub connect : S → C → S × Outcome Thrown (Unit {0})
  pub encode : RpcRequest Value → Outcome Thrown Buffer
  pub send : S → C → String → Buffer → S × Outcome Thrown Value
  pub timer : S → Number → S

module _ {S C Value : Type 0} (network : Network S C Value) where
  unfoldable pub sleep : S → Number → S
  sleep s ms = if is_nonpositive ms then s else network.timer s ms

  -- `connection.send(request.id, this.codec.encode(request))`
  encode_and_send : S → C → RpcRequest Value → S × Outcome Thrown Value
  encode_and_send s c request = elim (network.encode request) [
    | throws e ↦ (s, throws e)
    | ok data_sent ↦ network.send s c request.id data_sent
  ]

  connected_then_send :
      S × Outcome Thrown (Unit {0}) → C → RpcRequest Value → S × Outcome Thrown Value
  unfolding encode_and_send
  connected_then_send (s, throws e) c request = (s, throws e)
  connected_then_send (s, ok _) c request = encode_and_send s c request

  -- The `try` block.
  unfoldable pub try_connection : S → C → RpcRequest Value → S × Outcome Thrown Value
  unfolding connected_then_send encode_and_send
  try_connection s c request =
      if network.is_connected s c
      then encode_and_send s c request
      else connected_then_send (network.connect s c) c request

  -- What encoding the request and sending it on a connection may come to.
  pub data Sends (c : C) (request : RpcRequest Value) : S → S → Outcome Thrown Value → Type 0 where
    unencoded :
        (s : S) (e : Thrown) → network.encode request ≡ throws e → Sends c request s s (throws e)
    sent :
        (s s' : S) (data_sent : Buffer) (answer : Outcome Thrown Value)
        → network.encode request ≡ ok data_sent
        → network.send s c request.id data_sent ≡ (s', answer)
        → Sends c request s s' answer

  -- What an attempt on a connection may come to: only one that is not connected is connected first,
  -- and only one that is connected then is sent on.
  pub data Tries (c : C) (request : RpcRequest Value) : S → S → Outcome Thrown Value → Type 0 where
    there :
        (s s' : S) (answer : Outcome Thrown Value)
        → network.is_connected s c ≡ true
        → Sends c request s s' answer
        → Tries c request s s' answer
    unconnected :
        (s s' : S) (e : Thrown)
        → network.is_connected s c ≡ false
        → network.connect s c ≡ (s', throws e)
        → Tries c request s s' (throws e)
    connected :
        (s s1 s' : S) (answer : Outcome Thrown Value)
        → network.is_connected s c ≡ false
        → network.connect s c ≡ (s1, ok tt)
        → Sends c request s1 s' answer
        → Tries c request s s' answer

  encode_and_send-Sends :
      (s : S) (c : C) (request : RpcRequest Value)
      → Sends c request s (encode_and_send s c request).0 (encode_and_send s c request).1
  unfolding encode_and_send
  encode_and_send-Sends s c request = elim (Outcome-cases (network.encode request)) [
    | inl (data_sent, fits) ↦
        let r = network.send s c request.id data_sent in
        rw (fits, encode_and_send) (sent s r.0 data_sent r.1 fits refl)
    | inr (e, fails) ↦ rw (fails, encode_and_send) (unencoded s e fails)
  ]

  pub try_connection-Tries :
      (s : S) (c : C) (request : RpcRequest Value)
      → Tries c request s (try_connection s c request).0 (try_connection s c request).1
  unfolding try_connection connected_then_send
  try_connection-Tries s c request = elim (Bool-cases (network.is_connected s c)) [
    | inl t ↦ rw (t, try_connection) (there s _ _ t (encode_and_send-Sends s c request))
    | inr f ↦
        let s1 = (network.connect s c).0 in
        elim (Outcome-cases (network.connect s c).1) [
          | inr (e, fails) ↦
              let result : network.connect s c ≡ (s1, throws e) = ap (λ o. (s1, o)) fails in
              rw (f, try_connection) (rw result (unconnected s s1 e f result))
          | inl (tt, works) ↦
              let result : network.connect s c ≡ (s1, ok tt) = ap (λ o. (s1, o)) works in
              rw (f, try_connection)
                (rw result (connected s s1 _ _ f result (encode_and_send-Sends s1 c request)))
        ]
  ]
