-- ===== src/Server/Handling/Run.antt =====
-- server/rpc-server.ts: what happens to a server, one event after another. Each event runs what the
-- event loop runs between two awaits.
use weisley_rpc_framework.Server.ServiceRegistry.{ServiceImplementation}
use weisley_rpc_framework.Prelude.{
  ℕ, Bool, none, some, List, [], ◌∷◌, ◌++◌, ◌==◌, if◌then◌else◌, get_elem?, set, String,
}
use weisley_rpc_framework.Protocol.Types.{Buffer, Serializer}
use weisley_rpc_framework.Protocol.Codec
use weisley_rpc_framework.Protocol.Codec.{RpcCodec}
use weisley_rpc_framework.Server.RpcServer.{drain_times_out}
use weisley_rpc_framework.Server.Handling.{Task, Turn, begin_chunk, on_invoked, on_written}
use weisley_rpc_framework.Server.Handling.Sockets.{
  RpcServerOptions, Handling, register_service, listen, close_connections, close, end_close,
  handle_connection, on_socket_close,
}

-- Calls of the server, what the net server and the sockets do, the timer of a drain, and the answers
-- to a task: `invoke` answers the request that it waits for, and its write ends, well or not. A
-- drain ends where `waitForActiveRequests` has.
pub data Event (Value : Type 0) : Type 0 where
  registers : (service_name : String) → ServiceImplementation Value → Event Value
  listens : RpcServerOptions Value → Event Value
  closes : (graceful : Bool) → Event Value
  drain_ends close_ends : Event Value
  times_out : (drain : ℕ) → Event Value
  connects socket_closes : (socket : ℕ) → Event Value
  chunk_comes : (socket now : ℕ) → Buffer → Event Value
  invoked : (task : ℕ) → Event Value
  written : (task now : ℕ) → (well : Bool) → Event Value

module _ {Value : Type 0} where
  -- A task's turn: the server and the effects that it leaves.
  abbrev pub turn_ends : Turn Value → Handling Value → Handling Value
  turn_ends turn h = record h { server = turn.server; effects = turn.effects }

  -- A new task, at the end of its first turn.
  unfoldable pub begin_task : ℕ → Turn Value → Handling Value → Handling Value
  begin_task socket turn h = record (turn_ends turn h) {
    tasks = h.tasks ++ record { socket = socket; stage = turn.stage } ∷ [];
  }

  unfoldable pub set_codec : ℕ → RpcCodec Value → Handling Value → Handling Value
  set_codec socket codec h = record h {
    codecs = λ s. if s == socket then some codec else h.codecs s;
  }

  -- The n-th task goes on.
  unfoldable pub resume :
      ℕ → (RpcCodec Value → Task Value → Turn Value) → Handling Value → Handling Value
  resume n turn_of h = elim (get_elem? h.tasks n) [
    | none ↦ h
    | some task ↦ elim (h.codecs task.socket) [
      | none ↦ h
      | some codec ↦
          let turn = turn_of codec task in
          record (turn_ends turn h) {
            tasks = set h.tasks n (record { socket = task.socket; stage = turn.stage });
          }
    ]
  ]

  -- The task of `invoke`'s answer, and that of a write's end.
  abbrev pub invoked_turn : Handling Value → RpcCodec Value → Task Value → Turn Value
  invoked_turn h codec task = on_invoked codec task.socket h.registry h.server h.effects task.stage

  abbrev pub written_turn : ℕ → Bool → Handling Value → RpcCodec Value → Task Value → Turn Value
  written_turn now well h codec task =
      on_written codec task.socket now well h.server h.effects task.stage

module _ {Value : Type 0} (alloc_unsafe : ℕ → Buffer) where
  -- The "data" listener; a socket without a codec has none. `none` would be a codec out of fuel,
  -- which never comes.
  unfoldable pub on_data : ℕ → ℕ → Buffer → Handling Value → Handling Value
  unfolding begin_task set_codec begin_chunk
  on_data socket now chunk h = elim (h.codecs socket) [
    | none ↦ h
    | some codec ↦ elim (Codec.push alloc_unsafe codec chunk) [
      | none ↦ h
      | some (codec', messages) ↦
          begin_task socket (begin_chunk codec' socket now h.server h.effects messages)
            (set_codec socket codec' h)
    ]
  ]

module _ {Value : Type 0} (alloc_unsafe : ℕ → Buffer) (json_serializer : Serializer Value) where
  unfoldable pub on_event : Handling Value → Event Value → Handling Value
  unfolding register_service listen close close_connections end_close drain_times_out
      handle_connection on_socket_close on_data resume on_invoked on_written
  on_event h (registers service_name implementation) =
      register_service service_name implementation h
  on_event h (listens options) = listen json_serializer options h
  on_event h (closes graceful) = close graceful h
  on_event h drain_ends = close_connections h
  on_event h close_ends = end_close h
  on_event h (times_out drain) = record h { server = drain_times_out drain h.server }
  on_event h (connects socket) = handle_connection json_serializer socket h
  on_event h (socket_closes socket) = on_socket_close socket h
  on_event h (chunk_comes socket now chunk) = on_data alloc_unsafe socket now chunk h
  on_event h (invoked n) = resume n (invoked_turn h) h
  on_event h (written n now well) = resume n (written_turn now well h) h

  unfoldable pub run : Handling Value → List (Event Value) → Handling Value
  unfolding on_event
  run h [] = h
  run h (e ∷ es) = run (on_event h e) es
