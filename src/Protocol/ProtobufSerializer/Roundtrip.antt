-- ===== src/Protocol/ProtobufSerializer/Roundtrip.antt =====
-- What protobuf-serializer.ts writes it reads back, but for an empty `metadata`.
use weisley_rpc_framework.Prelude.{
  ◌≡◌, refl, ◌∙◌, Option, none, some, String, List, [], ◌∷◌, ok, ◌or_else◌,
}
use weisley_rpc_framework.Protocol.Types.{
  Buffer, RpcMessage, request, response, ping, pong, ResponseError,
}
use weisley_rpc_framework.Protocol.ProtobufSerializer.{
  ProtobufRpcMessage, RpcMessageModel, Json, stringify_all, stringify_result, parse_all,
  parse_result, to_protobuf_payload, from_protobuf_payload, request_of, response_of, serialize,
  deserialize, encode_verified, request_payload, response_payload, empty_payload, map_option,
  protobuf_error, response_error,
}

-- An empty list or map of a payload is not set after `toObject`.
abbrev pub nonempty : {A : Type 0} → Option (List A) → Option (List A)
nonempty none = none
nonempty (some []) = none
nonempty (some (a ∷ as_)) = some (a ∷ as_)

unfoldable pub to_object : ProtobufRpcMessage → ProtobufRpcMessage
to_object p = record p { params_json = nonempty p.params_json; metadata = nonempty p.metadata }

-- The message that is read back.
unfoldable pub read_back : {Value : Type 0} → RpcMessage Value → RpcMessage Value
read_back (request m) = request (record m { metadata = nonempty m.metadata })
read_back (response m) = response (record m { metadata = nonempty m.metadata })
read_back (ping m) = ping m
read_back (pong m) = pong m

module _ {Value : Type 0} (json : Json Value) where
  -- A value that JSON writes as a text which it reads back.
  pub record IsJson (v : Value) : Type 0 where
    pub text : String
    pub writes : json.stringify v ≡ ok (some text)
    pub reads : json.parse text ≡ ok v

  abbrev pub AllJson : List Value → Type 0
  AllJson [] = Unit {0}
  AllJson (v ∷ vs) = IsJson v × AllJson vs

  -- The values that a message carries are JSON.
  abbrev pub Carries : RpcMessage Value → Type 0
  Carries (request m) = AllJson m.params
  Carries (response m) = (v : Value) → m.result ≡ some v → IsJson v
  Carries _ = Unit {0}

  params_read :
      (vs : List Value)
      → AllJson vs
      → (ts : List (Option String)) × (stringify_all json vs ≡ ok ts) × (parse_all json ts ≡ ok vs)
  unfolding stringify_all parse_all
  params_read [] j = ([], refl, refl)
  params_read (v ∷ vs) (j, js) =
      let (ts, written, back) = params_read vs js in
      (some j.text ∷ ts, rw (j.writes, written), rw (j.reads, back))

  parse_nonempty :
      (ts : List (Option String))
      → parse_all json (nonempty (some ts) or_else []) ≡ parse_all json ts
  parse_nonempty [] = refl
  parse_nonempty (t ∷ ts) = refl

  result_read :
      (r : Option Value)
      → ((v : Value) → r ≡ some v → IsJson v)
      → (t : Option String) × (stringify_result json r ≡ ok t) × (parse_result json t ≡ ok r)
  unfolding stringify_result parse_result
  result_read none j = (none, refl, refl)
  result_read (some v) j = let h = j v refl in (some h.text, h.writes, rw h.reads refl)

  error_read :
      (e : Option ResponseError) → map_option response_error (map_option protobuf_error e) ≡ e
  error_read none = refl
  error_read (some e) = refl

  payload_read :
      (m : RpcMessage Value)
      → Carries m
      → (p : ProtobufRpcMessage) × (to_protobuf_payload json m ≡ ok p)
        × (from_protobuf_payload json (to_object p) ≡ ok (read_back m))
  unfolding to_protobuf_payload from_protobuf_payload to_object read_back request_of response_of
  payload_read (request m) j =
      let (ts, written, back) = params_read m.params j in
      (request_payload m ts, rw written refl, rw (parse_nonempty ts ∙ back) refl)
  payload_read (response m) j =
      let (t, written, back) = result_read m.result j in
      let e = error_read m.error in (response_payload m t, rw written refl, rw back (rw e refl))
  payload_read (ping m) j =
      (record (empty_payload "ping" m.id) { timestamp = some m.timestamp }, refl, refl)
  payload_read (pong m) j =
      (record (empty_payload "pong" m.id) { timestamp = some m.timestamp }, refl, refl)

-- What the protobuf serializer writes it reads back, if the values are JSON, `verify` accepts the
-- payload, and decoding what `encode` wrote gives the payload, its empty list and map left out: the
-- message comes back whole, but an empty `metadata` comes back as none.
pub deserialize-serialize :
    {Value : Type 0} (model : RpcMessageModel) (json : Json Value) (m : RpcMessage Value)
    → Carries json m
    → ((p : ProtobufRpcMessage) → to_protobuf_payload json m ≡ ok p → model.verify p ≡ none)
    → ((p : ProtobufRpcMessage)
        → to_protobuf_payload json m ≡ ok p
        → model.decode (model.encode p) ≡ ok (to_object p))
    → (b : Buffer) × (serialize model json m ≡ ok b) × (deserialize model json b ≡ ok (read_back m))
unfolding serialize deserialize encode_verified
deserialize-serialize model json m carries accepts decodes =
    let (p, written, back) = payload_read json m carries in
    (
      model.encode p,
      rw written (rw (accepts p written, encode_verified) refl),
      rw (decodes p written) back,
    )
