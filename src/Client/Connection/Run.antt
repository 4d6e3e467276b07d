-- ===== src/Client/Connection/Run.antt =====
-- The events that act on a connection of client/connection.ts, one after another.
use weisley_rpc_framework.Prelude.{ℕ, Bool, String, List, [], ◌∷◌}
use weisley_rpc_framework.Errors.{Thrown}
use weisley_rpc_framework.Protocol.Types.{Buffer}
use weisley_rpc_framework.Client.Connection.State.{RpcConnection}
use weisley_rpc_framework.Client.Connection.Requests.{send, request_times_out, handle_data}
use weisley_rpc_framework.Client.Connection.Lifecycle.{
  connect, on_connect, on_error, on_close, reconnect_fires, close, heartbeat_ticks,
}

-- Calls of the connection, and what the sockets and timers do. `is_destroyed` tells which sockets
-- are destroyed at that moment. A timer that does not run does nothing.
pub data Event : Type 0 where
  connects : (is_destroyed : ℕ → Bool) → Event
  sends : (is_destroyed : ℕ → Bool) → (id : String) → Buffer → Event
  closes : Event
  data_comes : (now : ℕ) → Buffer → Event
  socket_connects : (now socket : ℕ) → Event
  socket_fails : (socket : ℕ) → Thrown → Event
  socket_closes : Event
  request_timer : (timer : ℕ) → Event
  reconnect_timer : (is_destroyed : ℕ → Bool) → Event
  heartbeat_timer : (is_destroyed : ℕ → Bool) → (now : ℕ) → (id : String) → (interval : ℕ) → Event

module _ {Value : Type 0} (alloc_unsafe : ℕ → Buffer) where
  unfoldable pub on_event : RpcConnection Value → Event → RpcConnection Value
  unfolding connect send close handle_data on_connect on_error on_close request_times_out
      reconnect_fires heartbeat_ticks
  on_event c (connects is_destroyed) = (connect is_destroyed c).0
  on_event c (sends is_destroyed id payload) = (send is_destroyed id payload c).0
  on_event c closes = close c
  on_event c (data_comes now chunk) = handle_data alloc_unsafe now chunk c
  on_event c (socket_connects now socket) = on_connect now socket c
  on_event c (socket_fails socket e) = on_error socket e c
  on_event c socket_closes = on_close c
  on_event c (request_timer timer) = request_times_out timer c
  on_event c (reconnect_timer is_destroyed) = reconnect_fires is_destroyed c
  on_event c (heartbeat_timer is_destroyed now id interval) =
      heartbeat_ticks is_destroyed now id interval c

  unfoldable pub run : RpcConnection Value → List Event → RpcConnection Value
  unfolding on_event
  run c [] = c
  run c (e ∷ es) = run (on_event c e) es
