-- ===== src/Protocol/Packet/Roundtrip.antt =====
-- A packet decodes to what it was encoded from.
use weisley_rpc_framework.Prelude.{
  ◌+◌, ◌≤◌, ◌≡◌, refl, [], ◌++◌, length, inl, inr, take, drop, ltb, ◌or_else◌, ok, arith,
  Bool-cases, ltb→le,
}
use weisley_rpc_framework.Protocol.Types.{Buffer, header_length, max_packet_length}
use weisley_rpc_framework.Protocol.Packet.{EncodePacketOptions, encode_packet, decode_packet_header}
use weisley_rpc_framework.Protocol.Packet.Header.{
  header, header_bytes, encode_packet_lem, decode-header_bytes,
}

-- A packet that was encoded is its header and its payload, which is within the limit.
pub encode_packet-eq-ok :
    (payload : Buffer) (o : EncodePacketOptions) (packet : Buffer)
    → encode_packet payload o ≡ ok packet
    → (packet
        ≡ header_bytes o.serializer o.message_type (o.flags or_else 0) (length payload) ++ payload)
      × (length payload ≤ max_packet_length)
encode_packet-eq-ok payload o packet h =
    elim (Bool-cases (ltb max_packet_length (length payload))) [
      | inl long ↦ cc (encode_packet_lem payload o, long, h)
      | inr fits ↦ elim (Bool-cases (ltb 255 (o.flags or_else 0))) [
        | inl wide ↦ cc (encode_packet_lem payload o, fits, wide, h)
        | inr byte ↦ (cc (encode_packet_lem payload o, fits, byte, h), ltb→le _ _ fits)
      ]
    ]

-- The header of an encoded packet decodes to the options and the payload's length, and the payload
-- is what follows it.
pub decode-encode :
    (payload : Buffer) (o : EncodePacketOptions) (packet : Buffer)
    → encode_packet payload o ≡ ok packet
    → (decode_packet_header (take header_length packet)
        ≡ ok (header o.serializer o.message_type (o.flags or_else 0) (length payload)))
      × (drop header_length packet ≡ payload)
      × (length packet ≡ header_length + length payload)
unfolding header_bytes
decode-encode payload o packet h =
    let (shape, fits) = encode_packet-eq-ok payload o packet h in
    rw shape (
      decode-header_bytes o.serializer o.message_type (o.flags or_else 0) (length payload) [] fits,
      refl,
      omega arith,
    )
