-- ===== src/Client/Connection/State.antt =====
-- client/connection.ts: the fields of a connection and its constructor. Sockets, promises and timers
-- are numbered in the order of their making.
use weisley_rpc_framework.Prelude.{
  ℕ, Bool, false, Option, none, some, String, List, [], Outcome, ok, ◌>>=◌, ◌or_else◌,
}
use weisley_rpc_framework.Prelude.Dict.{Dict}
use weisley_rpc_framework.Prelude.Number.{Number}
use weisley_rpc_framework.Errors.{Thrown}
use weisley_rpc_framework.Protocol.Types.{Buffer, Result, Serializer}
use weisley_rpc_framework.Protocol.Codec.{
  RpcCodec, RpcCodecOptions, RpcCodecCompressionOptions, new_codec,
}
use weisley_rpc_framework.Client.ConnectionPool.{ConnectionState, idle}

pub record RpcConnectionOptions (Value : Type 0) : Type 0 where
  pub host : String
  pub port : ℕ
  pub timeout_ms : ℕ
  pub serializer : Option (Serializer Value)
  pub compression : Option RpcCodecCompressionOptions
  pub max_body_length : Option Number
  pub max_decompressed_body_length : Option Number
  pub heartbeat_interval_ms : Option Number
  pub heartbeat_timeout_ms : Option Number
  pub reconnect : Option Bool
  pub reconnect_initial_delay_ms : Option Number
  pub reconnect_max_delay_ms : Option Number

-- The promise that `resolve` and `reject` settle, and the timer.
pub record PendingRequest : Type 0 where
  pub promise : ℕ
  pub timer : ℕ

-- What the code does to a socket.
pub data Effect : Type 0 where
  wrote : (socket : ℕ) → Buffer → Effect
  ended destroyed : (socket : ℕ) → Effect

-- The fields of the class. `timers` are the timers of `send` that run, each with the id that its
-- callback holds, and the timer n rejects the promise n; `settled` lists what the promises of `send`
-- were settled with. `intervals` are the intervals that run. `connection_promise` is the socket
-- whose `doConnect` has not ended, `attempts_ended` what the others ended with, and
-- `reconnects_waiting` counts the reconnect callbacks that wait for `connect`.
pub record RpcConnection (Value : Type 0) : Type 0 where
  pub options : RpcConnectionOptions Value
  pub codec : RpcCodec Value
  pub state : ConnectionState
  pub manually_closed : Bool
  pub socket : Option ℕ
  pub sockets : ℕ
  pub connection_promise : Option ℕ
  pub attempts_ended : List (ℕ × Outcome Thrown (Unit {0}))
  pub pending : Dict PendingRequest
  pub calls : ℕ
  pub timers : List (ℕ × String)
  pub settled : List (ℕ × Outcome Thrown (Option Value))
  pub heartbeat_timer : Option ℕ
  pub intervals : List ℕ
  pub intervals_made : ℕ
  pub last_pong_at : ℕ
  pub reconnect_timer : Option Number
  pub reconnects_waiting : ℕ
  pub reconnect_attempts : ℕ
  pub effects : List Effect

module _ {Value : Type 0} where
  unfoldable pub codec_options :
      Serializer Value → RpcConnectionOptions Value → RpcCodecOptions Value
  codec_options json_serializer options = record {
    serializer = some (options.serializer or_else json_serializer);
    serializers = [];
    compression = options.compression;
    max_body_length = options.max_body_length;
    max_decompressed_body_length = options.max_decompressed_body_length;
  }

  abbrev pub initial : RpcConnectionOptions Value → RpcCodec Value → RpcConnection Value
  initial options codec = record {
    options = options;
    codec = codec;
    state = idle;
    manually_closed = false;
    socket = none;
    sockets = 0;
    connection_promise = none;
    attempts_ended = [];
    pending = [];
    calls = 0;
    timers = [];
    settled = [];
    heartbeat_timer = none;
    intervals = [];
    intervals_made = 0;
    last_pong_at = 0;
    reconnect_timer = none;
    reconnects_waiting = 0;
    reconnect_attempts = 0;
    effects = [];
  }

  unfoldable pub new_connection :
      Serializer Value → RpcConnectionOptions Value → Result (RpcConnection Value)
  new_connection json_serializer options = do
    codec ← new_codec json_serializer (codec_options json_serializer options)
    ok (initial options codec)
