-- ===== src/Client/RpcClient/PoolTests.antt =====
-- The theorems about the client's connections at concrete inputs.
use weisley_rpc_framework.Prelude.{ℕ, suc, ◌≡◌, refl, false, none, some, [], ◌∷◌, ok, throws, arith}
use weisley_rpc_framework.Prelude.Number.{integer}
use weisley_rpc_framework.Errors.{other}
use weisley_rpc_framework.Protocol.Types.{RpcRequest, ping, json, Serializer, max_packet_length}
use weisley_rpc_framework.Protocol.BufferQueue.{new_queue}
use weisley_rpc_framework.Protocol.Codec.{
  RpcCodec, new_codec, register_serializer, register_all, normalize_limit,
}
use weisley_rpc_framework.Client.RetryPolicy.{should_retry}
use weisley_rpc_framework.Client.Connection.State.{new_connection, initial}
use weisley_rpc_framework.Client.RpcClient.Retries.{RetryOptions}
use weisley_rpc_framework.Client.RpcClient.Attempts.{Network}
use weisley_rpc_framework.Client.RpcClient.Failover.{call_with_discovery_failover}
use weisley_rpc_framework.Client.RpcClient.Pools.{
  direct, RpcClientOptions, codec_options, client_codec, connection_options, get_connection,
}
use weisley_rpc_framework.Client.RpcClient.Codecs.{new_connection-client_codec}
use weisley_rpc_framework.Client.RpcClient.Lending.{Lends, pools_after, get_connection-pools_after}
use weisley_rpc_framework.Client.RpcClient.Direct.{
  endpoint_at, call_direct, Agrees, call_direct-call_with_discovery_failover,
}

abbrev plain_serializer : Serializer ℕ
plain_serializer = record {
  name = json;
  serialize = λ m. ok [];
  deserialize = λ b. ok (ping (record { id = ""; timestamp = 0 }));
}

abbrev options : RpcClientOptions ℕ
options = record {
  mode = direct "a" 4000;
  timeout_ms = none;
  serializer = none;
  compression = none;
  max_body_length = none;
  max_decompressed_body_length = none;
  heartbeat_interval_ms = none;
  heartbeat_timeout_ms = none;
  reconnect = none;
  reconnect_initial_delay_ms = none;
  reconnect_max_delay_ms = none;
  max_connections_per_endpoint = some (integer 2);
}

abbrev plain_codec : RpcCodec ℕ
plain_codec = record {
  queue = new_queue;
  default_serializer = plain_serializer;
  serializers = register_serializer (λ _. none) plain_serializer;
  compression = none;
  max_body_length = max_packet_length;
  max_decompressed_body_length = max_packet_length;
}

made : client_codec plain_serializer options ≡ ok plain_codec
unfolding client_codec codec_options new_codec normalize_limit register_all
made = refl

new_connection-client_codec_example :
    new_connection plain_serializer (connection_options options "b" 4001)
    ≡ ok (initial (connection_options options "b" 4001) plain_codec)
new_connection-client_codec_example =
    new_connection-client_codec plain_serializer options "b" 4001 plain_codec made

get_connection-pools_after_example : Lends 2 "a" 4000 (
    get_connection options "a" 4000
      (pools_after options 2 [] (("a", 4001) ∷ ("b", 4000) ∷ ("a", 4001) ∷ [])))
get_connection-pools_after_example =
    get_connection-pools_after options 2 (("a", 4001) ∷ ("b", 4000) ∷ ("a", 4001) ∷ []) "a" 4000
      refl (omega arith)

-- A network whose load balancer counts its calls and whose only endpoint throws what is no Error.
abbrev network : Network ℕ ℕ ℕ
network = record {
  lookup = λ _. endpoint_at "a" 4000 ∷ [];
  select = λ s _ _. (suc s, ok (endpoint_at "a" 4000));
  get_connection = λ s e. (s, ok 0);
  is_connected = λ s c. false;
  connect = λ s c. (s, ok tt);
  encode = λ r. ok [];
  send = λ s c id data_sent. (suc s, throws (other "closed" none));
  timer = λ s ms. s;
}

abbrev no_retry_options : RetryOptions
no_retry_options = record {
  retry_max_attempts = none;
  retry_initial_backoff_ms = none;
  retry_max_backoff_ms = none;
  retry_rules = [];
}

abbrev request : RpcRequest ℕ
request = record { id = "1"; service = "Users"; method = "get"; params = []; metadata = none }

call_direct-call_with_discovery_failover_example :
    let d = call_direct network (direct "a" 4000) request 1 in
    let f = call_with_discovery_failover network should_retry no_retry_options "Users" request 0 in
    (f.state ≡ d.0) × Agrees "Users" d.1 f.outcome
call_direct-call_with_discovery_failover_example =
    call_direct-call_with_discovery_failover network should_retry no_retry_options "Users" request 0
      "a" 4000 1 refl refl
