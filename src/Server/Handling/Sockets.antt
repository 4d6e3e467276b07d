-- ===== src/Server/Handling/Sockets.antt =====
-- server/rpc-server.ts: the fields of a server with its sockets and tasks, listen, close and
-- handleConnection.
use weisley_rpc_framework.Prelude.{
  ℕ, Bool, not, Option, none, some, List, [], ◌∷◌, ◌++◌, ◌==◌, if◌then◌else◌, ◌or_else◌, length,
  String, ok, throws,
}
use weisley_rpc_framework.Prelude.Number.{Number}
use weisley_rpc_framework.Protocol.Types.{Serializer}
use weisley_rpc_framework.Protocol.Codec.{
  RpcCodec, RpcCodecOptions, RpcCodecCompressionOptions, new_codec,
}
use weisley_rpc_framework.Server.ServiceRegistry
use weisley_rpc_framework.Server.ServiceRegistry.{ServiceRegistry, ServiceImplementation}
use weisley_rpc_framework.Server.RpcServer.{RpcServer, new_server, drained}
use weisley_rpc_framework.Server.RpcServer
use weisley_rpc_framework.Server.Handling.{SocketEffect, destroyed, Task}

pub record RpcServerOptions (Value : Type 0) : Type 0 where
  pub serializer : Option (Serializer Value)
  pub compression : Option RpcCodecCompressionOptions
  pub max_body_length : Option Number
  pub max_decompressed_body_length : Option Number

-- The fields of the class: `server` holds the state, the count of the active requests and the
-- drains. With them the codec of each socket's connection, the tasks of the "data" listeners in the
-- order of their beginning, and what was done to the sockets.
pub record Handling (Value : Type 0) : Type 0 where
  pub server : RpcServer
  pub registry : ServiceRegistry Value
  pub serializer : Serializer Value
  pub compression : Option RpcCodecCompressionOptions
  pub max_body_length : Option Number
  pub max_decompressed_body_length : Option Number
  pub sockets : List ℕ
  pub codecs : ℕ → Option (RpcCodec Value)
  pub tasks : List (Task Value)
  pub effects : List SocketEffect

-- `Set.add` and `Set.delete` on the sockets.
unfoldable pub add_socket : List ℕ → ℕ → List ℕ
add_socket [] socket = socket ∷ []
add_socket (s ∷ ss) socket =
    let rest = add_socket ss socket in if s == socket then s ∷ ss else s ∷ rest

unfoldable pub delete_socket : List ℕ → ℕ → List ℕ
delete_socket [] socket = []
delete_socket (s ∷ ss) socket =
    let rest = delete_socket ss socket in if s == socket then rest else s ∷ rest

unfoldable pub destroy_each : List ℕ → List SocketEffect
destroy_each [] = []
destroy_each (s ∷ ss) = destroyed s ∷ destroy_each ss

module _ {Value : Type 0} where
  unfoldable pub new_handling : Serializer Value → ServiceRegistry Value → Handling Value
  new_handling json_serializer registry = record {
    server = new_server;
    registry = registry;
    serializer = json_serializer;
    compression = none;
    max_body_length = none;
    max_decompressed_body_length = none;
    sockets = [];
    codecs = λ _. none;
    tasks = [];
    effects = [];
  }

  unfoldable pub listen :
      Serializer Value → RpcServerOptions Value → Handling Value → Handling Value
  unfolding RpcServer.listen
  listen json_serializer options h = record h {
    server = RpcServer.listen h.server;
    serializer = options.serializer or_else json_serializer;
    compression = options.compression;
    max_body_length = options.max_body_length;
    max_decompressed_body_length = options.max_decompressed_body_length;
  }

  unfoldable pub close_connections : Handling Value → Handling Value
  unfolding destroy_each
  close_connections h = record h { sockets = []; effects = h.effects ++ destroy_each h.sockets }

  -- `close` up to its first `await`.
  unfoldable pub close : Bool → Handling Value → Handling Value
  unfolding RpcServer.close close_connections
  close graceful h =
      let closing = record h { server = RpcServer.close graceful h.server } in
      if not h.server.has_server then h else if graceful then closing else close_connections closing

  -- `close` once the net server is closed too, after a graceful drain.
  unfoldable pub end_close : Handling Value → Handling Value
  unfolding drained
  end_close h = record h { server = drained h.server }

  unfoldable pub codec_options : Handling Value → RpcCodecOptions Value
  codec_options h = record {
    serializer = some h.serializer;
    serializers = [];
    compression = h.compression;
    max_body_length = h.max_body_length;
    max_decompressed_body_length = h.max_decompressed_body_length;
  }

  -- `handleConnection`. Where the codec's constructor throws, the socket has no "data" listener.
  unfoldable pub handle_connection : Serializer Value → ℕ → Handling Value → Handling Value
  unfolding add_socket codec_options new_codec
  handle_connection json_serializer socket h = elim (new_codec json_serializer (codec_options h)) [
    | throws e ↦ record h { sockets = add_socket h.sockets socket }
    | ok codec ↦ record h {
      sockets = add_socket h.sockets socket;
      codecs = λ s. if s == socket then some codec else h.codecs s;
    }
  ]

  -- The "close" listener.
  unfoldable pub on_socket_close : ℕ → Handling Value → Handling Value
  unfolding delete_socket
  on_socket_close socket h = record h { sockets = delete_socket h.sockets socket }

  unfoldable pub get_connection_count : Handling Value → ℕ
  get_connection_count h = length h.sockets

  unfoldable pub register_service :
      String → ServiceImplementation Value → Handling Value → Handling Value
  unfolding ServiceRegistry.register
  register_service service_name implementation h = record h {
    registry = ServiceRegistry.register h.registry service_name implementation;
  }
