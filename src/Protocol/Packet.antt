-- ===== src/Protocol/Packet.antt =====
-- packages/protocol/src/packet.ts: the ten bytes before each body. The writes fill a fresh header
-- from its first byte to its last, so it is modelled as their bytes in a row.
pub mod Header
pub mod Roundtrip
use weisley_rpc_framework.Prelude.{
  ℕ, ◌+◌, ◌*◌, ◌/◌, ◌%◌, Bool, not, Option, List, [], ◌∷◌, ◌++◌, length, get_elem?, ltb, ◌==◌,
  if◌then◌else◌, ◌or_else◌, Outcome, ok, throws, ◌>>=◌, ◌>>◌, throw_if,
}
use weisley_rpc_framework.Protocol.Types.{
  Buffer, Result, SerializerName, json, protobuf, MessageType, request_type, response_type,
  ping_type, pong_type, packet_too_long, header_too_short, invalid_magic, unsupported_version,
  unsupported_serializer, unsupported_message_type, out_of_range, magic_number, protocol_version,
  header_length, max_packet_length,
}

pub record PacketHeader : Type 0 where
  pub magic : ℕ
  pub version : ℕ
  pub serializer : SerializerName
  pub message_type : MessageType
  pub flags : ℕ
  pub body_length : ℕ

pub record EncodePacketOptions : Type 0 where
  pub serializer : SerializerName
  pub message_type : MessageType
  pub flags : Option ℕ

unfoldable pub get_serializer_id : SerializerName → ℕ
get_serializer_id json = 1
get_serializer_id protobuf = 2

unfoldable pub get_serializer_name : ℕ → Result SerializerName
get_serializer_name id =
    if id == 1 then ok json else if id == 2 then ok protobuf else throws (unsupported_serializer id)

unfoldable pub get_message_type_id : MessageType → ℕ
get_message_type_id request_type = 1
get_message_type_id response_type = 2
get_message_type_id ping_type = 3
get_message_type_id pong_type = 4

unfoldable pub get_message_type : ℕ → Result MessageType
get_message_type id =
    if id == 1
    then ok request_type
    else if id == 2
    then ok response_type
    else if id == 3
    then ok ping_type
    else if id == 4
    then ok pong_type
    else throws (unsupported_message_type id)

-- `writeUInt8`, which refuses what does not fit; `writeUInt16BE` and `writeUInt32BE` of numbers that
-- do fit.
unfoldable pub write_u8 : ℕ → Result Buffer
write_u8 n = if ltb 255 n then throws (out_of_range n) else ok (n ∷ [])

abbrev pub write_u16 : ℕ → Buffer
write_u16 n = n / 256 ∷ n % 256 ∷ []

abbrev pub write_u32 : ℕ → Buffer
write_u32 n = n / 16777216 ∷ n / 65536 % 256 ∷ n / 256 % 256 ∷ n % 256 ∷ []

unfoldable pub encode_packet : Buffer → EncodePacketOptions → Result Buffer
encode_packet payload options = do
  throw_if (ltb max_packet_length (length payload)) (packet_too_long (length payload))
  version ← write_u8 protocol_version
  serializer ← write_u8 (get_serializer_id options.serializer)
  message_type ← write_u8 (get_message_type_id options.message_type)
  flags ← write_u8 (options.flags or_else 0)
  ok (
      write_u16 magic_number
      ++ version
      ++ serializer
      ++ message_type
      ++ flags
      ++ write_u32 (length payload)
      ++ payload)

-- The byte at an offset. The header's length is tested before any is read.
abbrev pub read_u8 : Buffer → ℕ → ℕ
read_u8 header i = get_elem? header i or_else 0

abbrev pub read_u16 : Buffer → ℕ → ℕ
read_u16 header i = read_u8 header i * 256 + read_u8 header (i + 1)

abbrev pub read_u32 : Buffer → ℕ → ℕ
read_u32 header i =
    read_u8 header i * 16777216
    + read_u8 header (i + 1) * 65536
    + read_u8 header (i + 2) * 256
    + read_u8 header (i + 3)

unfoldable pub decode_packet_header : Buffer → Result PacketHeader
decode_packet_header header = do
  throw_if (ltb (length header) header_length) header_too_short
  let magic = read_u16 header 0
  throw_if (not (magic == magic_number)) (invalid_magic magic)
  let version = read_u8 header 2
  throw_if (not (version == protocol_version)) (unsupported_version version)
  serializer ← get_serializer_name (read_u8 header 3)
  message_type ← get_message_type (read_u8 header 4)
  let flags = read_u8 header 5
  let body_length = read_u32 header 6
  throw_if (ltb max_packet_length body_length) (packet_too_long body_length)
  ok (record {
    magic = magic;
    version = version;
    serializer = serializer;
    message_type = message_type;
    flags = flags;
    body_length = body_length;
  })

unfoldable pub read_packet_length : Buffer → Result ℕ
unfolding decode_packet_header
read_packet_length header = do h ← decode_packet_header header; ok h.body_length
