-- ===== src/RemoteCall/Tests.antt =====
-- A call from end to end at a concrete request.
use weisley_rpc_framework.Prelude.{
  ℕ, zero, suc, ◌≡◌, refl, Bool, true, false, none, some, [], ◌∷◌, ◌++◌, ok, throws, length,
  replicate, length-replicate, str_eq, if◌then◌else◌, arith,
}
use weisley_rpc_framework.Prelude.Dict
use weisley_rpc_framework.Errors.{error}
use weisley_rpc_framework.Protocol.Types.{
  Buffer, Result, RpcRequest, RpcResponse, RpcMessage, request, response, json, Serializer,
}
use weisley_rpc_framework.Protocol.BufferQueue.{new_queue}
use weisley_rpc_framework.Protocol.Packet.{write_u8, get_serializer_id, get_message_type_id}
use weisley_rpc_framework.Protocol.Codec.{RpcCodec, encode}
use weisley_rpc_framework.Protocol.Codec.Agreement.{Agree}
use weisley_rpc_framework.Server.ServiceRegistry.{
  Method, function, ServiceImplementation, ServiceRegistry, get_method,
}
use weisley_rpc_framework.Server.MethodInvoker.{invoke}
use weisley_rpc_framework.Server.RpcServer.{new_server}
use weisley_rpc_framework.Server.Handling.{wrote}
use weisley_rpc_framework.Server.Handling.Sockets.{Handling}
use weisley_rpc_framework.Server.Handling.Run.{on_data, resume, invoked_turn}
use weisley_rpc_framework.Client.ConnectionPool.{connected}
use weisley_rpc_framework.Client.Connection.State.{RpcConnectionOptions, RpcConnection, initial}
use weisley_rpc_framework.Client.Connection.Requests.{send, send_on, answer_of, handle_data}
use weisley_rpc_framework.RemoteCall.{handle_data-invoke}

zeros : ℕ → Buffer
zeros n = replicate n 0

length-zeros : (n : ℕ) → length (zeros n) ≡ n
unfolding zeros
length-zeros n = length-replicate n 0

abbrev first_of : Method ℕ
first_of [] = throws (error "empty" none none)
first_of (n ∷ ns) = ok n

abbrev numbers : ServiceImplementation ℕ
numbers name = if str_eq name "first" then some (function first_of) else none

abbrev registry : ServiceRegistry ℕ
registry = record { services = ("Numbers", numbers) ∷ [] }

abbrev ask : RpcRequest ℕ
ask = record { id = "1"; service = "Numbers"; method = "first"; params = 7 ∷ []; metadata = none }

abbrev seven : RpcResponse ℕ
seven = record { id = "1"; is_ok = true; result = some 7; error = none; metadata = none }

invokes : invoke registry ask ≡ seven
unfolding invoke get_method Dict.get
invokes = refl

-- The request is the byte 1, its response the byte 2.
abbrev byte_of : RpcMessage ℕ → ℕ
byte_of (request m) = 1
byte_of _ = 2

abbrev message_of : Buffer → Result (RpcMessage ℕ)
message_of (suc zero ∷ bs) = ok (request ask)
message_of _ = ok (response seven)

abbrev bytes_serializer : Serializer ℕ
bytes_serializer = record {
  name = json;
  serialize = λ m. ok (byte_of m ∷ []);
  deserialize = message_of;
}

abbrev codec : RpcCodec ℕ
codec = record {
  queue = new_queue;
  default_serializer = bytes_serializer;
  serializers = λ name. some bytes_serializer;
  compression = none;
  max_body_length = 100;
  max_decompressed_body_length = 100;
}

abbrev payload : Buffer
payload = 0xca ∷ 0xfe ∷ 1 ∷ 1 ∷ 1 ∷ 0 ∷ 0 ∷ 0 ∷ 0 ∷ 1 ∷ 1 ∷ []

abbrev reply : Buffer
reply = 0xca ∷ 0xfe ∷ 1 ∷ 1 ∷ 2 ∷ 0 ∷ 0 ∷ 0 ∷ 0 ∷ 1 ∷ 2 ∷ []

request_sent : encode codec (request ask) ≡ ok payload
unfolding encode write_u8 get_serializer_id get_message_type_id
request_sent = refl

response_sent : encode codec (response (invoke registry ask)) ≡ ok reply
unfolding encode write_u8 get_serializer_id get_message_type_id
response_sent = refl

abbrev options : RpcConnectionOptions ℕ
options = record {
  host = "127.0.0.1";
  port = 9000;
  timeout_ms = 300;
  serializer = some bytes_serializer;
  compression = none;
  max_body_length = none;
  max_decompressed_body_length = none;
  heartbeat_interval_ms = none;
  heartbeat_timeout_ms = none;
  reconnect = none;
  reconnect_initial_delay_ms = none;
  reconnect_max_delay_ms = none;
}

abbrev connection : RpcConnection ℕ
connection = record (initial options codec) { state = connected; socket = some 3 }

abbrev handling : Handling ℕ
handling = record {
  server = new_server;
  registry = registry;
  serializer = bytes_serializer;
  compression = none;
  max_body_length = none;
  max_decompressed_body_length = none;
  sockets = 5 ∷ [];
  codecs = λ _. some codec;
  tasks = [];
  effects = [];
}

abbrev no_socket_destroyed : ℕ → Bool
no_socket_destroyed socket = false

byte_one : (b : Buffer) → bytes_serializer.serialize (request ask) ≡ ok b → b ≡ 1 ∷ []
byte_one b h = cc h

byte_two : (b : Buffer) → bytes_serializer.serialize (response seven) ≡ ok b → b ≡ 2 ∷ []
byte_two b h = cc h

there-Agree : Agree codec codec (request ask)
there-Agree = record {
  reader = bytes_serializer;
  known = refl;
  reads_back = λ b h. rw (byte_one b h) refl;
  undoes = λ c b z given h. absurd (cc given);
  roomy = omega arith;
}

back-Agree : Agree codec codec (response (invoke registry ask))
back-Agree = rw invokes (record {
  reader = bytes_serializer;
  known = refl;
  reads_back = λ b h. rw (byte_two b h) refl;
  undoes = λ c b z given h. absurd (cc given);
  roomy = omega arith;
})

call_sent : (send no_socket_destroyed "1" payload connection).1 ≡ ok 0
unfolding send send_on
call_sent = refl

handle_data-invoke_example :
    let h1 = on_data zeros 5 10 payload handling in
    let c1 = (send no_socket_destroyed "1" payload connection).0 in
    ((resume 0 (invoked_turn h1) h1).effects ≡ [] ++ wrote 5 reply ∷ [])
    × ((handle_data zeros 20 reply c1).settled
        ≡ c1.settled ++ (0, answer_of (invoke registry ask)) ∷ [])
handle_data-invoke_example =
    handle_data-invoke zeros length-zeros no_socket_destroyed connection 0 handling 5 10 20 codec
      codec ask payload reply call_sent request_sent refl refl refl refl response_sent there-Agree
      back-Agree (omega arith) (omega arith)
