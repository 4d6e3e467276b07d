-- ===== src/Protocol/ProtobufSerializer/Tests.antt =====
-- The theorem of the protobuf serializer at a concrete message, with a model of one payload.
use weisley_rpc_framework.Prelude.{ℕ, ◌≡◌, refl, ap, none, some, [], ◌∷◌, ok}
use weisley_rpc_framework.Protocol.Types.{Buffer, RpcRequest, request}
use weisley_rpc_framework.Protocol.ProtobufSerializer.{
  ProtobufRpcMessage, RpcMessageModel, Json, request_payload, stringify_all, to_protobuf_payload,
  serialize, deserialize,
}
use weisley_rpc_framework.Protocol.ProtobufSerializer.Roundtrip.{
  to_object, read_back, deserialize-serialize,
}

-- A value is the number 7.
abbrev sevens : Json ℕ
sevens = record { stringify = λ n. ok (some "7"); parse = λ text. ok 7 }

abbrev add_seven : RpcRequest ℕ
add_seven = record {
  id = "1";
  service = "Numbers";
  method = "add";
  params = 7 ∷ [];
  metadata = some [];
}

abbrev payload : ProtobufRpcMessage
payload = request_payload add_seven (some "7" ∷ [])

abbrev one_payload : RpcMessageModel
one_payload = record {
  verify = λ p. none;
  encode = λ p. 1 ∷ [];
  decode = λ b. ok (to_object payload);
}

only_payload :
    (p : ProtobufRpcMessage) → to_protobuf_payload sevens (request add_seven) ≡ ok p → payload ≡ p
unfolding to_protobuf_payload stringify_all
only_payload p h = cc h

-- The message is read back without its empty metadata.
read_back_lem : read_back (request add_seven) ≡ request (record add_seven { metadata = none })
unfolding read_back
read_back_lem = refl

deserialize-serialize_example :
    (b : Buffer) × (serialize one_payload sevens (request add_seven) ≡ ok b)
    × (deserialize one_payload sevens b ≡ ok (read_back (request add_seven)))
deserialize-serialize_example =
    deserialize-serialize one_payload sevens (request add_seven)
      (record { text = "7"; writes = refl; reads = refl }, tt) (λ p h. refl)
      (λ p h. ap (λ q. ok (to_object q)) (only_payload p h))
