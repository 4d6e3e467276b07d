-- ===== src/Protocol/Tests.antt =====
-- The theorems of the protocol at concrete inputs, with a small serializer and compressor.
use weisley_rpc_framework.Prelude.{
  ℕ, ◌≡◌, refl, ap, ◌+◌, none, some, List, [], ◌∷◌, ◌++◌, arith, ok, replicate, length-replicate,
  length, take, drop,
}
use weisley_rpc_framework.Prelude.Number.{integer}
use weisley_rpc_framework.Protocol.Types.{
  Buffer, Result, RpcMessage, ping, json, ping_type, Serializer, Compressor,
}
use weisley_rpc_framework.Protocol.BufferQueue.{BufferQueue, new_queue, push, read, copy}
use weisley_rpc_framework.Protocol.BufferQueue.Fifo.{bytes, push_lem, peek_lem, read_lem}
use weisley_rpc_framework.Protocol.BufferQueue.Fifo
use weisley_rpc_framework.Protocol.Packet.{
  EncodePacketOptions, encode_packet, decode_packet_header, write_u8, get_serializer_id,
  get_message_type_id,
}
use weisley_rpc_framework.Protocol.Packet.Header.{header}
use weisley_rpc_framework.Protocol.Packet.Roundtrip.{decode-encode}
use weisley_rpc_framework.Protocol.Codec
use weisley_rpc_framework.Protocol.Codec.{
  RpcCodec, RpcCodecCompressionOptions, encode, compressor_for, compressed, decompress,
}
use weisley_rpc_framework.Protocol.Codec.Stream.{rests, next}
use weisley_rpc_framework.Protocol.Codec.Push.{push-Drains, push_total}
use weisley_rpc_framework.Protocol.Codec.Agreement.{Agree}
use weisley_rpc_framework.Protocol.Codec.Delivery.{feed, IsIdle, delivery}

zeros : ℕ → Buffer
zeros n = replicate n 0

length-zeros : (n : ℕ) → length (zeros n) ≡ n
unfolding zeros
length-zeros n = length-replicate n 0

abbrev two_chunks : BufferQueue
two_chunks = record { chunks = (1 ∷ 2 ∷ []) ∷ (3 ∷ 4 ∷ 5 ∷ []) ∷ []; total_length = 5 }

read_three :
    read zeros 3 two_chunks
    ≡ some (some (1 ∷ 2 ∷ 3 ∷ []), record { chunks = (4 ∷ 5 ∷ []) ∷ []; total_length = 2 })
unfolding read copy zeros
read_three = refl

push_lem_example :
    (bytes (push (9 ∷ []) two_chunks) ≡ 1 ∷ 2 ∷ 3 ∷ 4 ∷ 5 ∷ 9 ∷ [])
    × Fifo.IsValid (push (9 ∷ []) two_chunks)
push_lem_example = push_lem (9 ∷ []) two_chunks refl

read_lem_example :
    (q' : BufferQueue) × (read zeros 3 two_chunks ≡ some (some (1 ∷ 2 ∷ 3 ∷ []), q'))
    × (bytes q' ≡ 4 ∷ 5 ∷ [])
    × Fifo.IsValid q'
read_lem_example = read_lem zeros length-zeros 3 two_chunks refl

abbrev ping_options : EncodePacketOptions
ping_options = record { serializer = json; message_type = ping_type; flags = none }

abbrev ping_packet : Buffer
ping_packet = 0xca ∷ 0xfe ∷ 1 ∷ 1 ∷ 3 ∷ 0 ∷ 0 ∷ 0 ∷ 0 ∷ 2 ∷ 7 ∷ 8 ∷ []

ping_packet_lem : encode_packet (7 ∷ 8 ∷ []) ping_options ≡ ok ping_packet
unfolding encode_packet write_u8 get_serializer_id get_message_type_id
ping_packet_lem = refl

decode-encode_example :
    (decode_packet_header (take 10 ping_packet) ≡ ok (header json ping_type 0 2))
    × (drop 10 ping_packet ≡ 7 ∷ 8 ∷ [])
    × (length ping_packet ≡ 12)
decode-encode_example = decode-encode (7 ∷ 8 ∷ []) ping_options ping_packet ping_packet_lem

-- A message of each end: a ping is the byte of its time.
abbrev first_ping : RpcMessage ℕ
first_ping = ping (record { id = "a"; timestamp = 7 })

abbrev time_of : RpcMessage ℕ → ℕ
time_of (ping m) = m.timestamp
time_of _ = 0

abbrev time_serializer : Serializer ℕ
time_serializer = record {
  name = json;
  serialize = λ m. ok (time_of m ∷ []);
  deserialize = λ b. ok (ping (record { id = "a"; timestamp = length b + 6 }));
}

-- A byte more in front.
abbrev marking : Compressor
marking = record { compress = λ b. ok (1 ∷ b); decompress = λ b. ok (drop 1 b) }

abbrev marked : RpcCodecCompressionOptions
marked = record { compressor = marking; threshold_bytes = integer 1 }

abbrev codec : RpcCodec ℕ
codec = record {
  queue = new_queue;
  default_serializer = time_serializer;
  serializers = λ name. some time_serializer;
  compression = some marked;
  max_body_length = 100;
  max_decompressed_body_length = 100;
}

abbrev sent : Buffer
sent = 0xca ∷ 0xfe ∷ 1 ∷ 1 ∷ 3 ∷ 1 ∷ 0 ∷ 0 ∷ 0 ∷ 2 ∷ 1 ∷ 7 ∷ []

codec_sends : encode codec first_ping ≡ ok sent
unfolding encode write_u8 get_serializer_id get_message_type_id
codec_sends = refl

written_lem : (b : Buffer) → time_serializer.serialize first_ping ≡ ok b → b ≡ 7 ∷ []
written_lem b h = cc h

marked_lem :
    (c : RpcCodecCompressionOptions) (b z : Buffer)
    → c ≡ marked
    → c.compressor.compress b ≡ ok z
    → z ≡ 1 ∷ b
marked_lem c b z e h =
    let same : c.compressor.compress b ≡ ok (1 ∷ b) =
      ap (λ (x : RpcCodecCompressionOptions). x.compressor.compress b) e in
    cc (same, h)

codec-Agree : Agree codec codec first_ping
unfolding decompress
codec-Agree = record {
  reader = time_serializer;
  known = refl;
  reads_back = λ b h. rw (written_lem b h);
  undoes = λ c b z given h. rw (marked_lem c b z (cc given) h);
  roomy = omega arith;
}

delivery_example :
    (codec' : RpcCodec ℕ) × (feed zeros
        (take 5 sent ∷ (drop 5 sent ++ take 11 sent) ∷ drop 11 sent ∷ [])
        codec
      ≡ some (codec', ok (first_ping ∷ first_ping ∷ [])))
    × (bytes codec'.queue ≡ [])
    × IsIdle codec'
delivery_example =
    delivery zeros length-zeros codec codec (first_ping ∷ first_ping ∷ []) (sent ∷ sent ∷ [])
      (take 5 sent ∷ (drop 5 sent ++ take 11 sent) ∷ drop 11 sent ∷ [])
      ((codec-Agree, codec_sends, omega arith), ((codec-Agree, codec_sends, omega arith), tt)) refl
      refl

push_total_example :
    (q' : BufferQueue) × (r : Result (List (RpcMessage ℕ))) × (Codec.push zeros codec (1 ∷ 2 ∷ [])
      ≡ some (record codec { queue = q' }, r))
    × Fifo.IsValid q'
push_total_example = push_total zeros length-zeros codec (1 ∷ 2 ∷ []) refl

push-Drains_example :
    (q' : BufferQueue) × (Codec.push zeros codec (1 ∷ 2 ∷ [])
      ≡ some (record codec { queue = q' }, ok []))
    × (bytes q' ≡ 1 ∷ 2 ∷ [])
    × Fifo.IsValid q'
unfolding next
push-Drains_example = push-Drains zeros length-zeros codec (1 ∷ 2 ∷ []) refl (rests refl)
