-- ===== src/Client/Connection/Trying.antt =====
-- client/connection.ts: what keeps a connection that was lost trying to connect.
use weisley_rpc_framework.Prelude.{
  ℕ, zero, suc, ◌≡◌, refl, Bool, true, false, not, ◌&&◌, ◌||◌, Option, none, some, String, List, [],
  ◌∷◌, ltb, throws, arith, if_both,
}
use weisley_rpc_framework.Prelude.Dict
use weisley_rpc_framework.Errors.{Thrown}
use weisley_rpc_framework.Protocol.Types.{Buffer, RpcMessage, request, response, ping, pong}
use weisley_rpc_framework.Client.ConnectionPool.{ConnectionState, reconnecting}
use weisley_rpc_framework.Client.Connection.State.{PendingRequest, RpcConnection}
use weisley_rpc_framework.Client.Connection.Requests.{
  settle, start_request, send_on, request_times_out, reject_each, reject_all, handle_response,
  handle_message, handle_messages,
}
use weisley_rpc_framework.Client.Connection.Lifecycle.{
  is_false, schedule_reconnect, stop_heartbeat, handle_unexpected_disconnect,
  reconnect_unless_closed, retry_each, send_ping,
}

abbrev pub is_reconnecting : ConnectionState → Bool
is_reconnecting reconnecting = true
is_reconnecting _ = false

abbrev pub is_there : {A : Type 0} → Option A → Bool
is_there none = false
is_there (some a) = true

module _ {Value : Type 0} where
  -- Lost, with nothing that keeps it from connecting again.
  unfoldable pub is_lost : RpcConnection Value → Bool
  is_lost c = is_reconnecting c.state && not (is_false c.options.reconnect) && not c.manually_closed

  -- The reconnect timer runs, or an attempt to connect that a reconnect callback waits for.
  unfoldable pub tries : RpcConnection Value → Bool
  tries c =
      is_there c.reconnect_timer || (is_there c.connection_promise && ltb 0 c.reconnects_waiting)

  abbrev pub Tries : RpcConnection Value → Type 0
  Tries c = (not (is_lost c) || tries c) ≡ true

  -- The two connections are at the same point of their reconnecting.
  abbrev pub SameTry : RpcConnection Value → RpcConnection Value → Type 0
  SameTry c d = (is_lost c ≡ is_lost d) × (tries c ≡ tries d)

  pub Tries-SameTry : (c d : RpcConnection Value) → SameTry c d → Tries d → Tries c
  Tries-SameTry c d (e, f) t = ground arith

  pub reject_each-SameTry :
      (e : Thrown) (entries : Dict.Dict PendingRequest) (c : RpcConnection Value)
      → SameTry (reject_each e entries c) c
  unfolding reject_each settle is_lost tries
  reject_each-SameTry e [] c = (refl, refl)
  reject_each-SameTry e ((id, p) ∷ m) c = reject_each-SameTry e m (settle id p (throws e) c)

  pub stop_heartbeat-SameTry : (c : RpcConnection Value) → SameTry (stop_heartbeat c) c
  unfolding stop_heartbeat is_lost tries
  stop_heartbeat-SameTry c = ground arith

  pub schedule_reconnect-Tries : (c : RpcConnection Value) → Tries (schedule_reconnect c)
  unfolding schedule_reconnect is_lost tries
  schedule_reconnect-Tries c = ground arith

  reconnect_unless_closed-Tries :
      (c : RpcConnection Value) → Tries c → Tries (reconnect_unless_closed c)
  unfolding reconnect_unless_closed
  reconnect_unless_closed-Tries c t =
      if_both Tries c.manually_closed c _ t
        (schedule_reconnect-Tries (record c { state = reconnecting }))

  pub handle_unexpected_disconnect-Tries :
      (e : Thrown) (c : RpcConnection Value) → Tries c → Tries (handle_unexpected_disconnect e c)
  unfolding handle_unexpected_disconnect reject_all
  handle_unexpected_disconnect-Tries e c t =
      let c1 = stop_heartbeat c in
      let c2 = reject_each e c1.pending c1 in
      reconnect_unless_closed-Tries c2 (
        Tries-SameTry c2 c1 (reject_each-SameTry e c1.pending c1)
          (Tries-SameTry c1 c (stop_heartbeat-SameTry c) t))

  handle_message-SameTry :
      (now : ℕ) (m : RpcMessage Value) (c : RpcConnection Value)
      → SameTry (handle_message now m c) c
  unfolding handle_message handle_response settle is_lost tries
  handle_message-SameTry now (request m) c = (refl, refl)
  handle_message-SameTry now (ping m) c = (refl, refl)
  handle_message-SameTry now (pong m) c = (refl, refl)
  handle_message-SameTry now (response r) c = ground arith

  pub handle_messages-Tries :
      (now : ℕ) (ms : List (RpcMessage Value)) (c : RpcConnection Value)
      → Tries c
      → Tries (handle_messages now ms c)
  unfolding handle_messages
  handle_messages-Tries now [] c t = t
  handle_messages-Tries now (m ∷ ms) c t =
      handle_messages-Tries now ms (handle_message now m c)
        (Tries-SameTry (handle_message now m c) c (handle_message-SameTry now m c) t)

  pub send_on-SameTry :
      (socket : Option ℕ) (is_destroyed : ℕ → Bool) (id : String) (payload : Buffer)
      (c : RpcConnection Value)
      → SameTry (send_on socket is_destroyed id payload c).0 c
  unfolding send_on start_request is_lost tries
  send_on-SameTry none is_destroyed id payload c = (refl, refl)
  send_on-SameTry (some socket) is_destroyed id payload c = ground arith

  pub request_times_out-SameTry :
      (n : ℕ) (c : RpcConnection Value) → SameTry (request_times_out n c) c
  unfolding request_times_out settle is_lost tries
  request_times_out-SameTry n c = ground arith

  pub send_ping-SameTry :
      (now : ℕ) (id : String) (socket : ℕ) (c : RpcConnection Value)
      → SameTry (send_ping now id socket c) c
  unfolding send_ping is_lost tries
  send_ping-SameTry now id socket c = ground arith

  pub retry_each-Tries : (n : ℕ) (c : RpcConnection Value) → Tries c → Tries (retry_each n c)
  unfolding retry_each
  retry_each-Tries zero c t = t
  retry_each-Tries (suc n) c t =
      retry_each-Tries n (schedule_reconnect (record c { state = reconnecting }))
        (schedule_reconnect-Tries (record c { state = reconnecting }))
