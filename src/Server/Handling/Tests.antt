-- ===== src/Server/Handling/Tests.antt =====
-- The theorems of the "data" listeners at concrete inputs, and a run of a server's events.
use weisley_rpc_framework.Prelude.{ℕ, ◌≡◌, ◌<◌, refl, true, none, List, [], ◌∷◌, ok, replicate}
use weisley_rpc_framework.Protocol.Types.{Buffer, RpcRequest, request, json, Serializer}
use weisley_rpc_framework.Protocol.BufferQueue.{peek, read, copy}
use weisley_rpc_framework.Protocol.BufferQueue
use weisley_rpc_framework.Protocol.Codec
use weisley_rpc_framework.Protocol.Codec.{new_codec, normalize_limit, encode}
use weisley_rpc_framework.Protocol.Packet.{
  decode_packet_header, write_u8, get_serializer_id, get_message_type_id, get_serializer_name,
  get_message_type,
}
use weisley_rpc_framework.Server.ServiceRegistry.{ServiceRegistry}
use weisley_rpc_framework.Server.RpcServer.Drains.{has}
use weisley_rpc_framework.Server.Handling.Sockets.{RpcServerOptions, new_handling}
use weisley_rpc_framework.Server.Handling.Run.{
  Event, listens, closes, connects, chunk_comes, invoked, written, run,
}
use weisley_rpc_framework.Server.Handling.Turns.{working_tasks}
use weisley_rpc_framework.Server.Handling.Active.{
  server_after, active_requests-working_tasks, drains-working_tasks,
}

zeros : ℕ → Buffer
zeros n = replicate n 0

abbrev no_services : ServiceRegistry ℕ
no_services = record { services = [] }

abbrev ask : RpcRequest ℕ
ask = record { id = "1"; service = "Numbers"; method = "first"; params = []; metadata = none }

-- Every body is the same request.
abbrev asking : Serializer ℕ
asking = record { name = json; serialize = λ m. ok (9 ∷ []); deserialize = λ b. ok (request ask) }

abbrev options : RpcServerOptions ℕ
options = record {
  serializer = none;
  compression = none;
  max_body_length = none;
  max_decompressed_body_length = none;
}

abbrev request_packet : Buffer
request_packet = 0xca ∷ 0xfe ∷ 1 ∷ 1 ∷ 1 ∷ 0 ∷ 0 ∷ 0 ∷ 0 ∷ 1 ∷ 9 ∷ []

-- A request comes in, the server is closed gracefully, and then the answer is given and written.
abbrev until_close : List (Event ℕ)
until_close = listens options ∷ connects 0 ∷ chunk_comes 0 5 request_packet ∷ closes true ∷ []

abbrev all_events : List (Event ℕ)
all_events =
    listens options
    ∷ connects 0
    ∷ chunk_comes 0 5 request_packet
    ∷ closes true
    ∷ invoked 0
    ∷ written 0 6 true
    ∷ []

one_works : working_tasks (server_after zeros asking no_services until_close).tasks ≡ 1
unfolding run working_tasks zeros Codec.push Codec.push_loop BufferQueue.push peek copy
    decode_packet_header get_serializer_name get_message_type read Codec.decode_body new_handling
one_works = refl

active_requests-working_tasks_example :
    (server_after zeros asking no_services until_close).server.active_requests
    ≡ working_tasks (server_after zeros asking no_services until_close).tasks
active_requests-working_tasks_example =
    active_requests-working_tasks zeros asking no_services until_close

none_works : working_tasks (server_after zeros asking no_services all_events).tasks ≡ 0
unfolding run working_tasks zeros Codec.push Codec.push_loop BufferQueue.push peek copy
    decode_packet_header get_serializer_name get_message_type read Codec.decode_body new_handling
    encode write_u8 get_serializer_id get_message_type_id
none_works = refl

one_drain : (server_after zeros asking no_services all_events).server.drains ≡ 1
unfolding run zeros Codec.push Codec.push_loop BufferQueue.push peek copy decode_packet_header
    get_serializer_name get_message_type read Codec.decode_body new_handling encode write_u8
    get_serializer_id get_message_type_id
one_drain = refl

drains-working_tasks_example :
    ((server_after zeros asking no_services all_events).server.drain_resolvers ≡ [])
    × ((n : ℕ)
        → n < (server_after zeros asking no_services all_events).server.drains
        → has (server_after zeros asking no_services all_events).server.resolved n ≡ true)
drains-working_tasks_example = drains-working_tasks zeros asking no_services all_events none_works
