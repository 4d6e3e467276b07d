-- ===== src/Protocol/Types.antt =====
-- packages/protocol/src/types.ts, constants.ts and the interface of compressor.ts. A `Buffer` is the
-- list of its bytes, and `Value` stands for the JavaScript values that a message carries.
use weisley_rpc_framework.Prelude.{ℕ, ◌*◌, Bool, Option, List, String, Outcome}
use weisley_rpc_framework.Prelude.Dict.{Dict}

abbrev pub Buffer : Type 0
Buffer = List ℕ

abbrev pub RpcMetadata : Type 0
RpcMetadata = Dict String

pub record RpcRequest (Value : Type 0) : Type 0 where
  pub id : String
  pub service : String
  pub method : String
  pub params : List Value
  pub metadata : Option RpcMetadata

pub record ResponseError : Type 0 where
  pub code : String
  pub message : String
  pub stack : Option String

pub record RpcResponse (Value : Type 0) : Type 0 where
  pub id : String
  pub is_ok : Bool
  pub result : Option Value
  pub error : Option ResponseError
  pub metadata : Option RpcMetadata

pub record RpcPing : Type 0 where
  pub id : String
  pub timestamp : ℕ

pub record RpcPong : Type 0 where
  pub id : String
  pub timestamp : ℕ

pub data RpcMessage (Value : Type 0) : Type 0 where
  request : RpcRequest Value → RpcMessage Value
  response : RpcResponse Value → RpcMessage Value
  ping : RpcPing → RpcMessage Value
  pong : RpcPong → RpcMessage Value

-- `RpcMessage["type"]`
pub data MessageType : Type 0 where
  request_type response_type ping_type pong_type : MessageType

abbrev pub type_of : {Value : Type 0} → RpcMessage Value → MessageType
type_of (request m) = request_type
type_of (response m) = response_type
type_of (ping m) = ping_type
type_of (pong m) = pong_type

pub data SerializerName : Type 0 where
  json protobuf : SerializerName

-- What the protocol's code throws.
pub data ProtocolError : Type 0 where
  packet_too_long : ℕ → ProtocolError
  header_too_short : ProtocolError
  invalid_magic : ℕ → ProtocolError
  unsupported_version : ℕ → ProtocolError
  unsupported_serializer : ℕ → ProtocolError
  unsupported_message_type : ℕ → ProtocolError
  out_of_range : ℕ → ProtocolError
  body_too_long : String → ℕ → ℕ → ProtocolError
  not_registered : SerializerName → ProtocolError
  no_compressor : ProtocolError
  type_mismatch : MessageType → MessageType → ProtocolError
  invalid_limit : ProtocolError
  invalid_protobuf unknown_protobuf_type : String → ProtocolError
  external : String → ProtocolError

abbrev pub Result : Type 0 → Type 0
Result A = Outcome ProtocolError A

pub record Serializer (Value : Type 0) : Type 0 where
  pub name : SerializerName
  pub serialize : RpcMessage Value → Result Buffer
  pub deserialize : Buffer → Result (RpcMessage Value)

pub record Compressor : Type 0 where
  pub compress : Buffer → Result Buffer
  pub decompress : Buffer → Result Buffer

abbrev pub magic_number : ℕ
magic_number = 0xcafe

abbrev pub protocol_version : ℕ
protocol_version = 1

abbrev pub header_length : ℕ
header_length = 10

abbrev pub max_packet_length : ℕ
max_packet_length = 16 * 1024 * 1024

abbrev pub packet_flag_compressed : ℕ
packet_flag_compressed = 1
