-- ===== src/Protocol/Codec.antt =====
-- packages/protocol/src/codec.ts. The serializers and the compressor are the interfaces of
-- Protocol/Types.antt. `push` hands back the codec also when it throws: what it had taken from the
-- queue is gone. Its loop takes fuel, one round for each byte that waits and one to end; `none`
-- would be a loop out of fuel, and Codec/Push.antt shows that it never comes.
pub mod Stream
pub mod Push
pub mod Delivery
pub mod Agreement
use mathlib.Core.Option
use weisley_rpc_framework.Prelude.{
  ℕ, zero, suc, ◌+◌, ◌%◌, Bool, true, false, not, ◌&&◌, ◌||◌, Option, none, some, String, List, [],
  ◌∷◌, ◌++◌, length, ltb, ◌==◌, if◌then◌else◌, ◌or_else◌, Outcome, ok, throws, ◌>>=◌, ◌>>◌,
  throw_if,
}
use weisley_rpc_framework.Prelude.Number.{Number, is_finite, is_nonpositive, nat_ge, floor}
use weisley_rpc_framework.Protocol.Types.{
  Buffer, Result, RpcMessage, type_of, MessageType, request_type, response_type, ping_type,
  pong_type, SerializerName, json, protobuf, Serializer, Compressor, body_too_long, not_registered,
  no_compressor, type_mismatch, invalid_limit, header_length, max_packet_length,
  packet_flag_compressed,
}
use weisley_rpc_framework.Protocol.BufferQueue.{BufferQueue, new_queue, peek, read}
use weisley_rpc_framework.Protocol.BufferQueue
use weisley_rpc_framework.Protocol.Packet.{PacketHeader, encode_packet, decode_packet_header}

pub record RpcCodecCompressionOptions : Type 0 where
  pub compressor : Compressor
  pub threshold_bytes : Number

pub record RpcCodecOptions (Value : Type 0) : Type 0 where
  pub serializer : Option (Serializer Value)
  pub serializers : List (Serializer Value)
  pub compression : Option RpcCodecCompressionOptions
  pub max_body_length : Option Number
  pub max_decompressed_body_length : Option Number

-- `Map<SerializerName, Serializer>`
abbrev pub Serializers : Type 0 → Type 0
Serializers Value = SerializerName → Option (Serializer Value)

pub record RpcCodec (Value : Type 0) : Type 0 where
  pub queue : BufferQueue
  pub default_serializer : Serializer Value
  pub serializers : Serializers Value
  pub compression : Option RpcCodecCompressionOptions
  pub max_body_length : ℕ
  pub max_decompressed_body_length : ℕ

unfoldable pub normalize_limit : Option Number → ℕ → Result ℕ
normalize_limit none fallback = ok fallback
normalize_limit (some value) fallback =
    if not (is_finite value) || is_nonpositive value then throws invalid_limit else ok (floor value)

abbrev pub same_name : SerializerName → SerializerName → Bool
same_name json json = true
same_name protobuf protobuf = true
same_name _ _ = false

abbrev pub same_type : MessageType → MessageType → Bool
same_type request_type request_type = true
same_type response_type response_type = true
same_type ping_type ping_type = true
same_type pong_type pong_type = true
same_type _ _ = false

unfoldable pub assert_body_length : ℕ → ℕ → String → Result (Unit {0})
assert_body_length len limit label = throw_if (ltb limit len) (body_too_long label len limit)

-- `this.compression && serialized.length >= this.compression.thresholdBytes`, with the compressor.
unfoldable pub compressor_for : Option RpcCodecCompressionOptions → ℕ → Option Compressor
compressor_for none len = none
compressor_for (some c) len = if nat_ge len c.threshold_bytes then some c.compressor else none

unfoldable pub decompress : Option RpcCodecCompressionOptions → Buffer → Result Buffer
decompress none payload = throws no_compressor
decompress (some c) payload = c.compressor.decompress payload

-- The payload and the flags of a message's packet.
unfoldable pub compressed : Option Compressor → Buffer → Result (Buffer × ℕ)
compressed none serialized = ok (serialized, 0)
compressed (some c) serialized = do
  payload ← c.compress serialized
  ok (payload, packet_flag_compressed)

-- `(flags & PACKET_FLAG_COMPRESSED) !== 0`: the lowest bit.
abbrev pub is_compressed : ℕ → Bool
is_compressed flags = not (flags % 2 == 0)

module _ {Value : Type 0} where
  unfoldable pub register_serializer : Serializers Value → Serializer Value → Serializers Value
  register_serializer m s name = if same_name s.name name then some s else m name

  unfoldable pub register_all : Serializers Value → List (Serializer Value) → Serializers Value
  unfolding register_serializer
  register_all m [] = m
  register_all m (s ∷ ss) = register_all (register_serializer m s) ss

  -- The constructor; `json_serializer` stands for `new JsonSerializer()`. A serializer given in
  -- place of the options is the options with that serializer alone.
  unfoldable pub new_codec : Serializer Value → RpcCodecOptions Value → Result (RpcCodec Value)
  unfolding normalize_limit register_all
  new_codec json_serializer options = do
    let default_serializer = options.serializer or_else json_serializer
    max_body_length ← normalize_limit options.max_body_length max_packet_length
    max_decompressed ← normalize_limit options.max_decompressed_body_length max_body_length
    ok (record {
      queue = new_queue;
      default_serializer = default_serializer;
      serializers =
          register_all (register_serializer (λ _. none) default_serializer) options.serializers;
      compression = options.compression;
      max_body_length = max_body_length;
      max_decompressed_body_length = max_decompressed;
    })

  unfoldable pub encode : RpcCodec Value → RpcMessage Value → Result Buffer
  unfolding assert_body_length compressor_for compressed encode_packet
  encode codec message = do
    serialized ← codec.default_serializer.serialize message
    assert_body_length (length serialized) codec.max_body_length "Serialized"
    packet ← compressed (compressor_for codec.compression (length serialized)) serialized
    encode_packet packet.0 (record {
      serializer = codec.default_serializer.name;
      message_type = type_of message;
      flags = some packet.1;
    })

  registered : Option (Serializer Value) → SerializerName → Result (Serializer Value)
  registered none name = throws (not_registered name)
  registered (some s) name = ok s

  -- What `push` does with a whole packet: from its header and body to its message.
  unfoldable pub decode_body : RpcCodec Value → PacketHeader → Buffer → Result (RpcMessage Value)
  unfolding assert_body_length registered decompress
  decode_body codec header body = do
    assert_body_length (length body) codec.max_body_length "Packet"
    serializer ← registered (codec.serializers header.serializer) header.serializer
    payload ← (if is_compressed header.flags then decompress codec.compression body else ok body)
    assert_body_length (length payload) codec.max_decompressed_body_length "Decompressed"
    message ← serializer.deserialize payload
    throw_if (not (same_type (type_of message) header.message_type))
        (type_mismatch header.message_type (type_of message))
    ok message

-- A queue after `push`, with the messages that it returns or the error that it throws.
abbrev pub Pushed : Type 0 → Type 0
Pushed Value = Option (BufferQueue × Result (List (RpcMessage Value)))

module _ {Value : Type 0} (alloc_unsafe : ℕ → Buffer) where
  -- The `while` loop of `push`.
  unfoldable pub push_loop :
      ℕ → RpcCodec Value → BufferQueue → List (RpcMessage Value) → Pushed Value
  push_loop zero codec q messages = none
  push_loop (suc fuel) codec q messages = elim (ltb q.total_length header_length) [
    | true ↦ some (q, ok messages)
    | false ↦ elim (peek alloc_unsafe header_length q) [
      | none ↦ none
      | some (none, q1) ↦ some (q1, ok messages)
      | some (some header, q1) ↦ elim (decode_packet_header header) [
        | throws e ↦ some (q1, throws e)
        | ok packet_header ↦
            elim (ltb q1.total_length (header_length + packet_header.body_length)) [
              | true ↦ some (q1, ok messages)
              | false ↦ elim (read alloc_unsafe header_length q1) [
                | none ↦ none
                | some (_, q2) ↦ elim (read alloc_unsafe packet_header.body_length q2) [
                  | none ↦ none
                  | some (none, q3) ↦ some (q3, ok messages)
                  | some (some body, q3) ↦ elim (decode_body codec packet_header body) [
                    | throws e ↦ some (q3, throws e)
                    | ok message ↦ push_loop fuel codec q3 (messages ++ message ∷ [])
                  ]
                ]
              ]
            ]
      ]
    ]
  ]

  unfoldable pub push :
      RpcCodec Value → Buffer → Option (RpcCodec Value × Result (List (RpcMessage Value)))
  push codec chunk =
      let q = BufferQueue.push chunk codec.queue in
      Option.map (λ r. (record codec { queue = r.0 }, r.1))
        (push_loop (suc q.total_length) codec q [])
