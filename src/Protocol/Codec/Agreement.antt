-- ===== src/Protocol/Codec/Agreement.antt =====
-- A sender and a receiver that agree: what the one encodes the other decodes.
use weisley_rpc_framework.Prelude.{
  ℕ, ◌+◌, ◌≤◌, ◌≡◌, refl, sym, ap, ◌∙◌, inl, inr, true, Option, none, some, [], length, take, drop,
  ltb, if◌then◌else◌, ok, arith, Bool-cases, ltb→le, le→ltb, >>=-eq-ok, throw_if-eq-ok, take_all,
  drop_all,
}
use weisley_rpc_framework.Prelude.Number.{nat_ge}
use weisley_rpc_framework.Protocol.Types.{
  Buffer, RpcMessage, type_of, MessageType, request_type, response_type, ping_type, pong_type,
  Serializer, Compressor, header_length, packet_flag_compressed,
}
use weisley_rpc_framework.Protocol.Packet.{PacketHeader, encode_packet, decode_packet_header}
use weisley_rpc_framework.Protocol.Packet.Roundtrip.{decode-encode}
use weisley_rpc_framework.Protocol.Codec.{
  RpcCodec, RpcCodecCompressionOptions, encode, decode_body, compressor_for, compressed, decompress,
  is_compressed, same_type, assert_body_length,
}
use weisley_rpc_framework.Protocol.Codec.Stream.{yields, body_next, header_next, next}

-- What two codecs share: a serializer that reads back this message, a decompressor that undoes the
-- sender's compressor, and limits of the receiver that are no tighter.
pub record Agree {Value : Type 0} (sender receiver : RpcCodec Value) (m : RpcMessage Value)
    : Type 0 where
  pub reader : Serializer Value
  pub known : receiver.serializers sender.default_serializer.name ≡ some reader
  pub reads_back :
      (b : Buffer) → sender.default_serializer.serialize m ≡ ok b → reader.deserialize b ≡ ok m
  pub undoes :
      (c : RpcCodecCompressionOptions) (b z : Buffer)
      → sender.compression ≡ some c
      → c.compressor.compress b ≡ ok z
      → decompress receiver.compression z ≡ ok b
  pub roomy : sender.max_body_length ≤ receiver.max_decompressed_body_length

same_type_refl : (t : MessageType) → same_type t t ≡ true
same_type_refl request_type = refl
same_type_refl response_type = refl
same_type_refl ping_type = refl
same_type_refl pong_type = refl

module _ {Value : Type 0} where
  -- A body whose payload is found decodes to its message.
  decode_body_lem :
      (codec : RpcCodec Value) (p : PacketHeader) (reader : Serializer Value)
      (body payload : Buffer) (m : RpcMessage Value)
      → length body ≤ codec.max_body_length
      → codec.serializers p.serializer ≡ some reader
      → (if is_compressed p.flags then decompress codec.compression body else ok body) ≡ ok payload
      → length payload ≤ codec.max_decompressed_body_length
      → reader.deserialize payload ≡ ok m
      → type_of m ≡ p.message_type
      → decode_body codec p body ≡ ok m
  unfolding decode_body
  decode_body_lem codec p reader body payload m small known unpacked fits read kind =
      rw (le→ltb _ _ small, decode_body)
        (rw known (
          rw unpacked (
            rw (le→ltb _ _ fits, assert_body_length)
              (rw read (rw (ap (same_type (type_of m)) (sym kind) ∙ same_type_refl (type_of m)))))))

  -- What an encoded message is made of.
  pub record Parts (codec : RpcCodec Value) (m : RpcMessage Value) (packet : Buffer) : Type 0 where
    pub serialized : Buffer
    pub payload : Buffer
    pub flags : ℕ
    pub written : codec.default_serializer.serialize m ≡ ok serialized
    pub within : length serialized ≤ codec.max_body_length
    pub packed :
        compressed (compressor_for codec.compression (length serialized)) serialized
        ≡ ok (payload, flags)
    pub framed :
        encode_packet payload (record {
          serializer = codec.default_serializer.name;
          message_type = type_of m;
          flags = some flags;
        })
        ≡ ok packet

  encode-Parts :
      (codec : RpcCodec Value) (m : RpcMessage Value) (packet : Buffer)
      → encode codec m ≡ ok packet
      → Parts codec m packet
  unfolding encode
  encode-Parts codec m packet h =
      let (serialized, written, k1) = >>=-eq-ok (codec.default_serializer.serialize m) _ h in
      let (small, k2) = throw_if-eq-ok (ltb codec.max_body_length (length serialized)) _ _ k1 in
      let ((payload, flags), packed, framed) =
        >>=-eq-ok (compressed (compressor_for codec.compression (length serialized)) serialized) _
          k2 in
      record {
        serialized = serialized;
        payload = payload;
        flags = flags;
        written = written;
        within = ltb→le _ _ small;
        packed = packed;
        framed = framed;
      }

-- What the flags say of the payload is what was done to it.
unpacked_by :
    (k : Option Compressor) (receiver : Option RpcCodecCompressionOptions) (b payload : Buffer)
    (flags : ℕ)
    → ((c : Compressor) (z : Buffer)
        → k ≡ some c
        → c.compress b ≡ ok z
        → decompress receiver z ≡ ok b)
    → compressed k b ≡ ok (payload, flags)
    → (if is_compressed flags then decompress receiver payload else ok payload) ≡ ok b
unfolding compressed
unpacked_by none receiver b payload flags undo h = ground arith
unpacked_by (some c) receiver b payload flags undo h =
    let (z, hz, e) = >>=-eq-ok (c.compress b) _ h in
    let same : payload ≡ z = cc e in
    let flag : flags ≡ packet_flag_compressed = cc e in rw (flag, same) (undo c z refl hz)

compressor_for-eq-some :
    (sender : Option RpcCodecCompressionOptions) (n : ℕ) (k : Compressor)
    → compressor_for sender n ≡ some k
    → (c : RpcCodecCompressionOptions) × (sender ≡ some c) × (c.compressor ≡ k)
unfolding compressor_for
compressor_for-eq-some none n k h = cc
compressor_for-eq-some (some c) n k h = elim (Bool-cases (nat_ge n c.threshold_bytes)) [
  | inl big ↦ (c, refl, cc (rw big at h))
  | inr small ↦ cc (rw small at h)
]

unpacked :
    (sender receiver : Option RpcCodecCompressionOptions) (b payload : Buffer) (flags : ℕ)
    → ((c : RpcCodecCompressionOptions) (z : Buffer)
        → sender ≡ some c
        → c.compressor.compress b ≡ ok z
        → decompress receiver z ≡ ok b)
    → compressed (compressor_for sender (length b)) b ≡ ok (payload, flags)
    → (if is_compressed flags then decompress receiver payload else ok payload) ≡ ok b
unpacked sender receiver b payload flags undo h =
    unpacked_by (compressor_for sender (length b)) receiver b payload flags
      (λ k z e hz.
        let (c, given, same) = compressor_for-eq-some sender (length b) k e in
        undo c z given (ap (λ (x : Compressor). x.compress b) same ∙ hz))
      h

module _ {Value : Type 0} where
  -- A packet whose header and body decode is read whole.
  next_lem :
      (codec : RpcCodec Value) (packet payload : Buffer) (p : PacketHeader) (m : RpcMessage Value)
      → length packet ≡ header_length + length payload
      → drop header_length packet ≡ payload
      → decode_packet_header (take header_length packet) ≡ ok p
      → p.body_length ≡ length payload
      → decode_body codec p payload ≡ ok m
      → next codec packet ≡ yields m []
  unfolding next header_next body_next
  next_lem codec packet payload p m len body head size read =
      rw (le→ltb (length packet) header_length (omega (arith, len)), next)
        (rw (head, header_next)
          (rw (le→ltb (length packet) (header_length + p.body_length) (omega (arith, len, size))) (
            cc (
              read,
              ap (λ b. take p.body_length b) body
                  ∙ take_all p.body_length payload (omega (arith, size)),
              ap (λ b. drop p.body_length b) body
                  ∙ drop_all p.body_length payload (omega (arith, size)),
            ))))

  -- What the sender encodes the receiver reads as that message, with nothing over, if the two agree
  -- on it and the packet's body is within the receiver's limit.
  pub next-encode :
      (sender receiver : RpcCodec Value) (m : RpcMessage Value) (packet : Buffer)
      → Agree sender receiver m
      → encode sender m ≡ ok packet
      → length packet ≤ header_length + receiver.max_body_length
      → next receiver packet ≡ yields m []
  next-encode sender receiver m packet agree sent small =
      let parts = encode-Parts sender m packet sent in
      let (head, body, len) = decode-encode parts.payload _ packet parts.framed in
      next_lem receiver packet parts.payload _ m len body head refl (
        decode_body_lem receiver _ agree.reader parts.payload parts.serialized m
          (omega (arith, len)) agree.known
          (unpacked sender.compression receiver.compression parts.serialized parts.payload
            parts.flags (λ c z. agree.undoes c parts.serialized z) parts.packed)
          (omega (arith, parts.within, agree.roomy))
          (agree.reads_back parts.serialized parts.written) refl)
