-- ===== src/Protocol/Packet/Header.antt =====
-- What a packet's header says, and what the decoder accepts.
use weisley_rpc_framework.Prelude.{
  ℕ, ◌+◌, ◌*◌, ◌/◌, ◌%◌, ◌≤◌, ◌≡◌, refl, false, [], ◌∷◌, ◌++◌, length, ltb, if◌then◌else◌,
  ◌or_else◌, ok, throws, arith, inl, inr, Bool-cases, le→ltb,
}
use weisley_rpc_framework.Protocol.Types.{
  Buffer, SerializerName, json, protobuf, MessageType, request_type, response_type, ping_type,
  pong_type, packet_too_long, out_of_range, magic_number, protocol_version, header_length,
  max_packet_length,
}
use weisley_rpc_framework.Protocol.Packet.{
  PacketHeader, EncodePacketOptions, encode_packet, decode_packet_header, get_serializer_id,
  get_message_type_id, get_serializer_name, get_message_type, write_u8, write_u32,
}

-- The bytes of a header.
unfoldable pub header_bytes : SerializerName → MessageType → ℕ → ℕ → Buffer
unfolding get_serializer_id get_message_type_id
header_bytes s m flags body_length =
    0xca ∷ 0xfe ∷ 1 ∷ get_serializer_id s ∷ get_message_type_id m ∷ flags ∷ write_u32 body_length

write_serializer :
    (s : SerializerName) → write_u8 (get_serializer_id s) ≡ ok (get_serializer_id s ∷ [])
unfolding write_u8 get_serializer_id
write_serializer json = refl
write_serializer protobuf = refl

write_message_type :
    (m : MessageType) → write_u8 (get_message_type_id m) ≡ ok (get_message_type_id m ∷ [])
unfolding write_u8 get_message_type_id
write_message_type request_type = refl
write_message_type response_type = refl
write_message_type ping_type = refl
write_message_type pong_type = refl

-- `encodePacket` refuses a payload over the limit first, then flags over a byte, and else writes the
-- header and the payload.
pub encode_packet_lem :
    (payload : Buffer) (o : EncodePacketOptions)
    → encode_packet payload o ≡ (
        if ltb max_packet_length (length payload)
        then throws (packet_too_long (length payload))
        else if ltb 255 (o.flags or_else 0)
        then throws (out_of_range (o.flags or_else 0))
        else ok (
            header_bytes o.serializer o.message_type (o.flags or_else 0) (length payload)
            ++ payload))
unfolding encode_packet header_bytes write_u8
encode_packet_lem payload o = elim (Bool-cases (ltb max_packet_length (length payload))) [
  | inl long ↦ rw long
  | inr fits ↦ elim (Bool-cases (ltb 255 (o.flags or_else 0))) [
    | inl wide ↦ rw (fits, wide, write_serializer o.serializer, write_message_type o.message_type)
    | inr byte ↦ rw (fits, byte, write_serializer o.serializer, write_message_type o.message_type)
  ]
]

get_serializer_name_id : (s : SerializerName) → get_serializer_name (get_serializer_id s) ≡ ok s
unfolding get_serializer_name get_serializer_id
get_serializer_name_id json = refl
get_serializer_name_id protobuf = refl

get_message_type_id_lem : (m : MessageType) → get_message_type (get_message_type_id m) ≡ ok m
unfolding get_message_type get_message_type_id
get_message_type_id_lem request_type = refl
get_message_type_id_lem response_type = refl
get_message_type_id_lem ping_type = refl
get_message_type_id_lem pong_type = refl

-- The header that the decoder reads back.
abbrev pub header : SerializerName → MessageType → ℕ → ℕ → PacketHeader
header s m flags body_length = record {
  magic = magic_number;
  version = protocol_version;
  serializer = s;
  message_type = m;
  flags = flags;
  body_length = body_length;
}

u32_digits :
    (n : ℕ) → n / 16777216 * 16777216 + n / 65536 % 256 * 65536 + n / 256 % 256 * 256 + n % 256 ≡ n
u32_digits n = omega arith

-- The decoder reads its header back, whatever bytes follow.
pub decode-header_bytes :
    (s : SerializerName) (m : MessageType) (flags n : ℕ) (rest : Buffer)
    → n ≤ max_packet_length
    → decode_packet_header (header_bytes s m flags n ++ rest) ≡ ok (header s m flags n)
unfolding decode_packet_header header_bytes
decode-header_bytes s m flags n rest h =
    let long : ltb (length (header_bytes s m flags n ++ rest)) header_length ≡ false =
      ground arith in
    rw (
      get_serializer_name_id s,
      get_message_type_id_lem m,
      u32_digits n,
      le→ltb max_packet_length n h,
      long,
    )
