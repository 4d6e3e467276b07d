-- ===== src/Protocol/JsonSerializer.antt =====
-- packages/protocol/src/serializer.ts. The text of a message is JSON's and the bytes of a text are
-- UTF-8's: both are parameters.
use weisley_rpc_framework.Prelude.{String, ok, ◌>>=◌}
use weisley_rpc_framework.Protocol.Types.{Buffer, RpcMessage, json, Result, Serializer}

-- `JSON.stringify` and `JSON.parse` on messages, and the two directions of "utf8".
pub record JsonText (Value : Type 0) : Type 0 where
  pub stringify : RpcMessage Value → Result String
  pub parse : String → Result (RpcMessage Value)
  pub utf8 : String → Buffer
  pub from_utf8 : Buffer → String

module _ {Value : Type 0} (text : JsonText Value) where
  unfoldable pub json_serialize : RpcMessage Value → Result Buffer
  json_serialize message = do written ← text.stringify message; ok (text.utf8 written)

  unfoldable pub json_deserialize : Buffer → Result (RpcMessage Value)
  json_deserialize buffer = text.parse (text.from_utf8 buffer)

  unfoldable pub json_serializer : Serializer Value
  unfolding json_serialize json_deserialize
  json_serializer = record {
    name = json;
    serialize = json_serialize;
    deserialize = json_deserialize;
  }
