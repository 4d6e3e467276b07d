-- ===== src/Protocol/ProtobufSerializer.antt =====
-- packages/protocol/src/protobuf-serializer.ts. The coding of a payload is protobufjs's and that of
-- a value JSON's: both are parameters.
pub mod Roundtrip
pub mod Tests
use weisley_rpc_framework.Prelude.{
  ℕ, Bool, true, false, Option, none, some, String, List, [], ◌∷◌, if◌then◌else◌, ◌or_else◌,
  Outcome, ok, throws, ◌>>=◌, str_eq,
}
use weisley_rpc_framework.Protocol.Types.{
  Buffer, RpcMetadata, RpcRequest, ResponseError, RpcResponse, RpcPing, RpcPong, RpcMessage,
  request, response, ping, pong, protobuf, Result, Serializer, invalid_protobuf,
  unknown_protobuf_type, external,
}

-- The `error` of a payload.
pub record ProtobufRpcError : Type 0 where
  pub code : Option String
  pub message : Option String
  pub stack : Option String

-- A string that `JSON.stringify` did not give is `none` in `params_json`.
pub record ProtobufRpcMessage : Type 0 where
  pub type : String
  pub id : String
  pub service : Option String
  pub method : Option String
  pub params_json : Option (List (Option String))
  pub is_ok : Option Bool
  pub result_json : Option String
  pub error : Option ProtobufRpcError
  pub timestamp : Option ℕ
  pub metadata : Option RpcMetadata

-- `RpcMessageModel` of protobufjs: `verify`, which gives an error's text, `encode(...).finish()`, and
-- `decode` with `toObject`.
pub record RpcMessageModel : Type 0 where
  pub verify : ProtobufRpcMessage → Option String
  pub encode : ProtobufRpcMessage → Buffer
  pub decode : Buffer → Result ProtobufRpcMessage

-- `JSON.stringify`, which gives no text for `undefined` and functions, and `JSON.parse`.
pub record Json (Value : Type 0) : Type 0 where
  pub stringify : Value → Result (Option String)
  pub parse : String → Result Value

abbrev pub empty_payload : String → String → ProtobufRpcMessage
empty_payload type id = record {
  type = type;
  id = id;
  service = none;
  method = none;
  params_json = none;
  is_ok = none;
  result_json = none;
  error = none;
  timestamp = none;
  metadata = none;
}

abbrev pub protobuf_error : ResponseError → ProtobufRpcError
protobuf_error e = record { code = some e.code; message = some e.message; stack = e.stack }

abbrev pub response_error : ProtobufRpcError → ResponseError
response_error e = record {
  code = e.code or_else "";
  message = e.message or_else "";
  stack = e.stack;
}

abbrev pub map_option : {A B : Type 0} → (A → B) → Option A → Option B
map_option f none = none
map_option f (some a) = some (f a)

abbrev pub request_payload :
    {Value : Type 0} → RpcRequest Value → List (Option String) → ProtobufRpcMessage
request_payload m params_json = record (empty_payload "request" m.id) {
  service = some m.service;
  method = some m.method;
  params_json = some params_json;
  metadata = m.metadata;
}

abbrev pub response_payload :
    {Value : Type 0} → RpcResponse Value → Option String → ProtobufRpcMessage
response_payload m result_json = record (empty_payload "response" m.id) {
  is_ok = some m.is_ok;
  result_json = result_json;
  error = map_option protobuf_error m.error;
  metadata = m.metadata;
}

module _ {Value : Type 0} (json : Json Value) where
  unfoldable pub stringify_all : List Value → Result (List (Option String))
  stringify_all [] = ok []
  stringify_all (v ∷ vs) = do text ← json.stringify v; rest ← stringify_all vs; ok (text ∷ rest)

  unfoldable pub stringify_result : Option Value → Result (Option String)
  stringify_result none = ok none
  stringify_result (some v) = json.stringify v

  unfoldable pub parse_one : Option String → Result Value
  parse_one none = throws (external "\"undefined\" is not valid JSON")
  parse_one (some text) = json.parse text

  unfoldable pub parse_all : List (Option String) → Result (List Value)
  unfolding parse_one
  parse_all [] = ok []
  parse_all (t ∷ ts) = do v ← parse_one t; rest ← parse_all ts; ok (v ∷ rest)

  unfoldable pub parse_result : Option String → Result (Option Value)
  parse_result none = ok none
  parse_result (some text) = do v ← json.parse text; ok (some v)

  unfoldable pub to_protobuf_payload : RpcMessage Value → Result ProtobufRpcMessage
  unfolding stringify_all stringify_result
  to_protobuf_payload (request m) = do
    params_json ← stringify_all m.params
    ok (request_payload m params_json)
  to_protobuf_payload (response m) = do
    result_json ← stringify_result m.result
    ok (response_payload m result_json)
  to_protobuf_payload (ping m) =
      ok (record (empty_payload "ping" m.id) { timestamp = some m.timestamp })
  to_protobuf_payload (pong m) =
      ok (record (empty_payload "pong" m.id) { timestamp = some m.timestamp })

  unfoldable pub request_of : ProtobufRpcMessage → Result (RpcMessage Value)
  unfolding parse_all
  request_of payload = do
    params ← parse_all (payload.params_json or_else [])
    ok (
        request (record {
          id = payload.id;
          service = payload.service or_else "";
          method = payload.method or_else "";
          params = params;
          metadata = payload.metadata;
        }))

  unfoldable pub response_of : ProtobufRpcMessage → Result (RpcMessage Value)
  unfolding parse_result
  response_of payload = do
    result ← parse_result payload.result_json
    ok (
        response (record {
          id = payload.id;
          is_ok = payload.is_ok or_else false;
          result = result;
          error = map_option response_error payload.error;
          metadata = payload.metadata;
        }))

  unfoldable pub from_protobuf_payload : ProtobufRpcMessage → Result (RpcMessage Value)
  unfolding request_of response_of
  from_protobuf_payload payload =
      if str_eq payload.type "request"
      then request_of payload
      else if str_eq payload.type "response"
      then response_of payload
      else if str_eq payload.type "ping"
      then ok (ping (record { id = payload.id; timestamp = payload.timestamp or_else 0 }))
      else if str_eq payload.type "pong"
      then ok (pong (record { id = payload.id; timestamp = payload.timestamp or_else 0 }))
      else throws (unknown_protobuf_type payload.type)

module _ {Value : Type 0} (model : RpcMessageModel) (json : Json Value) where
  -- `throw` if `verify` finds an error.
  unfoldable pub encode_verified : ProtobufRpcMessage → Option String → Result Buffer
  encode_verified payload none = ok (model.encode payload)
  encode_verified payload (some error) = throws (invalid_protobuf error)

  unfoldable pub serialize : RpcMessage Value → Result Buffer
  unfolding to_protobuf_payload encode_verified
  serialize message = do
    payload ← to_protobuf_payload json message
    encode_verified payload (model.verify payload)

  unfoldable pub deserialize : Buffer → Result (RpcMessage Value)
  unfolding from_protobuf_payload
  deserialize buffer = do payload ← model.decode buffer; from_protobuf_payload json payload

  unfoldable pub protobuf_serializer : Serializer Value
  unfolding serialize deserialize
  protobuf_serializer = record { name = protobuf; serialize = serialize; deserialize = deserialize }
