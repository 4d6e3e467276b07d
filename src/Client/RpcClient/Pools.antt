-- ===== src/Client/RpcClient/Pools.antt =====
-- client/rpc-client.ts: the options that the client passes on, its pools of connections and the
-- metadata of a call. A connection is named by its pool's endpoint and its place in the pool.
use weisley_rpc_framework.Prelude.{
  ℕ, Bool, Option, none, some, String, [], ◌∷◌, Outcome, ok, throws, ◌or_else◌,
}
use weisley_rpc_framework.Prelude.Dict
use weisley_rpc_framework.Prelude.Dict.{Dict}
use weisley_rpc_framework.Prelude.Number.{Number, integer}
use weisley_rpc_framework.Prelude.Text.{◌<>◌, decimal}
use weisley_rpc_framework.Errors.{Thrown}
use weisley_rpc_framework.Protocol.Types.{RpcMetadata, Result, Serializer}
use weisley_rpc_framework.Protocol.Codec.{
  RpcCodec, RpcCodecOptions, RpcCodecCompressionOptions, new_codec,
}
use weisley_rpc_framework.Client.ConnectionPool
use weisley_rpc_framework.Client.ConnectionPool.{
  ConnectionState, idle, EndpointConnectionStats, RpcConnectionPool, new_connection_pool, get_stats,
  close_all,
}
use weisley_rpc_framework.Client.Connection.State.{RpcConnectionOptions}

pub data Mode : Type 0 where
  direct : (host : String) → (port : ℕ) → Mode
  discovery : Mode

-- The options that are about connections.
pub record RpcClientOptions (Value : Type 0) : Type 0 where
  pub mode : Mode
  pub timeout_ms : Option ℕ
  pub serializer : Option (Serializer Value)
  pub compression : Option RpcCodecCompressionOptions
  pub max_body_length : Option Number
  pub max_decompressed_body_length : Option Number
  pub heartbeat_interval_ms : Option Number
  pub heartbeat_timeout_ms : Option Number
  pub reconnect : Option Bool
  pub reconnect_initial_delay_ms : Option Number
  pub reconnect_max_delay_ms : Option Number
  pub max_connections_per_endpoint : Option Number

-- A connection: the n-th that the pool of an endpoint has made.
pub record Handle : Type 0 where
  pub host : String
  pub port : ℕ
  pub number : ℕ

-- `Map<string, RpcConnectionPool>`
abbrev pub Pools : Type 0
Pools = Dict (RpcConnectionPool Handle)

unfoldable pub get_endpoint_key : String → ℕ → String
unfolding decimal
get_endpoint_key host port = host <> ":" <> decimal port

-- `pool.getConnection()`, the pool under its key.
unfoldable pub from_pool :
    String → ℕ → Pools → RpcConnectionPool Handle → Pools × Outcome Thrown Handle
unfolding get_endpoint_key
from_pool host port pools pool =
    let create : ℕ → Handle = λ n. record { host = host; port = port; number = n } in
    let (pool', connection) = ConnectionPool.get_connection create pool in
    (Dict.set pools (get_endpoint_key host port) pool', connection)

module _ {Value : Type 0} where
  unfoldable pub codec_options : RpcClientOptions Value → RpcCodecOptions Value
  codec_options o = record {
    serializer = o.serializer;
    serializers = [];
    compression = o.compression;
    max_body_length = o.max_body_length;
    max_decompressed_body_length = o.max_decompressed_body_length;
  }

  -- `this.codec` of a new client.
  unfoldable pub client_codec : Serializer Value → RpcClientOptions Value → Result (RpcCodec Value)
  unfolding codec_options
  client_codec json_serializer o = new_codec json_serializer (codec_options o)

  -- The options of a connection in the pool of an endpoint.
  unfoldable pub connection_options :
      RpcClientOptions Value → String → ℕ → RpcConnectionOptions Value
  connection_options o host port = record {
    host = host;
    port = port;
    timeout_ms = o.timeout_ms or_else 5000;
    serializer = o.serializer;
    compression = o.compression;
    max_body_length = o.max_body_length;
    max_decompressed_body_length = o.max_decompressed_body_length;
    heartbeat_interval_ms = o.heartbeat_interval_ms;
    heartbeat_timeout_ms = o.heartbeat_timeout_ms;
    reconnect = o.reconnect;
    reconnect_initial_delay_ms = o.reconnect_initial_delay_ms;
    reconnect_max_delay_ms = o.reconnect_max_delay_ms;
  }

  unfoldable pub get_connection :
      RpcClientOptions Value → String → ℕ → Pools → Pools × Outcome Thrown Handle
  unfolding from_pool
  get_connection o host port pools = elim (Dict.get pools (get_endpoint_key host port)) [
    | some pool ↦ from_pool host port pools pool
    | none ↦ elim (new_connection_pool (o.max_connections_per_endpoint or_else integer 1)) [
      | throws e ↦ (pools, throws e)
      | ok pool ↦ from_pool host port pools pool
    ]
  ]

  unfoldable pub get_connection_state :
      RpcClientOptions Value → (Handle → ConnectionState) → Pools → ConnectionState
  get_connection_state o state_of pools = elim o.mode [
    | discovery ↦ idle
    | direct host port ↦ elim (Dict.get pools (get_endpoint_key host port)) [
      | none ↦ idle
      | some pool ↦ ConnectionPool.get_state state_of pool
    ]
  ]

unfoldable pub get_connection_stats :
    (Handle → ConnectionState) → Pools → Dict EndpointConnectionStats
get_connection_stats state_of [] = []
get_connection_stats state_of ((endpoint, pool) ∷ pools) =
    (endpoint, get_stats state_of pool) ∷ get_connection_stats state_of pools

-- `close` of the client, on the state S of the connections.
unfoldable pub close : {S : Type 0} → (S → Handle → S) → Pools → S → S
close close_connection [] s = s
close close_connection ((endpoint, pool) ∷ pools) s =
    close close_connection pools (close_all close_connection pool.connections s)

-- With the id that randomUUID gives.
unfoldable pub build_metadata : String → Option RpcMetadata → RpcMetadata
build_metadata fresh metadata =
    let given = metadata or_else [] in
    Dict.set given "traceId" (Dict.get given "traceId" or_else fresh)
