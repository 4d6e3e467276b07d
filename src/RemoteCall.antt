-- ===== src/RemoteCall.antt =====
-- A call from end to end: connection.ts sends the request, rpc-server.ts handles it, and the
-- connection handles the response.
pub mod Tests
use weisley_rpc_framework.Prelude.{
  ℕ, ◌+◌, Option, ◌≤◌, ◌≡◌, refl, sym, ap, subst, ◌∙◌, Bool, true, false, none, some, String, List,
  [], ◌∷◌, ◌++◌, ◌==◌, if◌then◌else◌, ok, length, get_elem?, get_elem?_last, set, arith,
}
use weisley_rpc_framework.Prelude.Dict
use weisley_rpc_framework.Protocol.Types.{
  Buffer, RpcRequest, RpcResponse, RpcMessage, request, response, header_length,
}
use weisley_rpc_framework.Protocol.BufferQueue.{BufferQueue, new_queue}
use weisley_rpc_framework.Protocol.BufferQueue.Fifo.{bytes}
use weisley_rpc_framework.Protocol.Codec
use weisley_rpc_framework.Protocol.Codec.{RpcCodec, encode}
use weisley_rpc_framework.Protocol.Codec.Agreement.{Agree, next-encode}
use weisley_rpc_framework.Protocol.Codec.Stream.{next, Drains, rests, reads}
use weisley_rpc_framework.Protocol.Codec.Push.{push-Drains}
use weisley_rpc_framework.Server.MethodInvoker.{invoke, invoke_lem}
use weisley_rpc_framework.Server.RpcServer.{is_draining, begin_request}
use weisley_rpc_framework.Server.Handling.{
  SocketEffect, wrote, invoking, Task, begin_chunk, take_messages, take_request, on_invoked, answer,
}
use weisley_rpc_framework.Server.Handling.Sockets.{Handling}
use weisley_rpc_framework.Server.Handling.Run.{on_data, resume, invoked_turn, begin_task, set_codec}
use weisley_rpc_framework.Client.Connection.State.{RpcConnection}
use weisley_rpc_framework.Client.Connection.Requests.{
  answer_of, send, send_on, start_request, handle_response, handle_messages, handle_message,
  handle_data,
}
use weisley_rpc_framework.Client.Connection.Answers.{
  Waits, send_on-Waits_own, handle_response_settles,
}

module _ {Value : Type 0} (alloc_unsafe : ℕ → Buffer)
    (allocates : (n : ℕ) → length (alloc_unsafe n) ≡ n) where
  -- One whole packet, pushed into a codec with an empty queue.
  push-encode :
      (sender receiver : RpcCodec Value) (m : RpcMessage Value) (packet : Buffer)
      → encode sender m ≡ ok packet
      → receiver.queue ≡ new_queue
      → Agree sender receiver m
      → length packet ≤ header_length + receiver.max_body_length
      → (q : BufferQueue) × (Codec.push alloc_unsafe receiver packet
          ≡ some (record receiver { queue = q }, ok (m ∷ [])))
  unfolding next
  push-encode sender receiver m packet sent fresh agree small =
      let one : Drains receiver packet (m ∷ []) none [] =
        reads (next-encode sender receiver m packet agree sent small) (rests refl) in
      let waiting : packet ≡ bytes receiver.queue ++ packet =
        ap (λ (q : BufferQueue). bytes q ++ packet) (sym fresh) in
      let (q, run, _, _) =
        push-Drains alloc_unsafe allocates receiver packet (cc fresh)
          (subst (λ b. Drains receiver b (m ∷ []) none []) waiting one) in
      (q, run)

  -- The server after the request's chunk.
  abbrev serving : ℕ → RpcRequest Value → RpcCodec Value → Handling Value → Handling Value
  serving socket m codec h =
      begin_task socket
        (record {
          server = record h.server { active_requests = h.server.active_requests + 1 };
          effects = h.effects;
          stage = invoking m [];
        })
        (set_codec socket codec h)

  on_data-request :
      (socket now : ℕ) (h : Handling Value) (receiver receiver' : RpcCodec Value)
      (m : RpcRequest Value) (payload : Buffer)
      → h.codecs socket ≡ some receiver
      → Codec.push alloc_unsafe receiver payload ≡ some (receiver', ok (request m ∷ []))
      → is_draining h.server.state ≡ false
      → on_data alloc_unsafe socket now payload h ≡ serving socket m receiver' h
  unfolding on_data begin_chunk take_messages take_request begin_request
  on_data-request socket now h receiver receiver' m payload known pushed takes =
      rw (known, pushed, on_data) (rw takes refl)

  serving-answers :
      (socket : ℕ) (h : Handling Value) (codec : RpcCodec Value) (m : RpcRequest Value)
      (reply : Buffer)
      → encode codec (response (invoke h.registry m)) ≡ ok reply
      → (resume
          (length h.tasks)
          (invoked_turn (serving socket m codec h))
          (serving socket m codec h)).effects
        ≡ h.effects ++ wrote socket reply ∷ []
  unfolding resume begin_task set_codec on_invoked answer
  serving-answers socket h codec m reply sent =
      let same : (socket == socket) ≡ true = ground arith in
      let task : Task Value = record { socket = socket; stage = invoking m [] } in
      rw (get_elem?_last h.tasks task, resume) (rw same (rw (sent, answer) refl))

  encode-queue :
      (codec : RpcCodec Value) (q : BufferQueue) (m : RpcMessage Value)
      → encode (record codec { queue = q }) m ≡ encode codec m
  unfolding encode
  encode-queue codec q m = refl

  send_on-codec :
      (socket : Option ℕ) (is_destroyed : ℕ → Bool) (id : String) (payload : Buffer)
      (c : RpcConnection Value)
      → (send_on socket is_destroyed id payload c).0.codec ≡ c.codec
  unfolding send_on start_request
  send_on-codec none is_destroyed id payload c = refl
  send_on-codec (some socket) is_destroyed id payload c = ground arith

  handle_data-response :
      (now : ℕ) (c : RpcConnection Value) (codec : RpcCodec Value) (r : RpcResponse Value)
      (reply : Buffer) (promise : ℕ)
      → Codec.push alloc_unsafe c.codec reply ≡ some (codec, ok (response r ∷ []))
      → Waits r.id promise c
      → (handle_data alloc_unsafe now reply c).settled ≡ c.settled ++ (promise, answer_of r) ∷ []
  unfolding handle_data handle_messages handle_message
  handle_data-response now c codec r reply promise pushed waits =
      rw (pushed, handle_data)
        (handle_response_settles r promise (record c { codec = codec }) waits).0

  -- A call from end to end. A connection sends a request and gets a promise for it. The server,
  -- which is not draining, reads the request from the socket's chunk and invokes its method; it
  -- writes one packet to that socket, the response. When the connection reads that packet, the
  -- promise is settled with what `invoke` of the registry answers, with its result or its error.
  -- The codecs of the two sides agree on the two messages, their queues are empty, and neither
  -- packet is longer than its reader's limit.
  pub handle_data-invoke :
      (is_destroyed : ℕ → Bool) (c : RpcConnection Value) (promise : ℕ) (h : Handling Value)
      (socket now later : ℕ) (sender receiver : RpcCodec Value) (m : RpcRequest Value)
      (payload reply : Buffer)
      → (send is_destroyed m.id payload c).1 ≡ ok promise
      → encode sender (request m) ≡ ok payload
      → h.codecs socket ≡ some receiver
      → receiver.queue ≡ new_queue
      → c.codec.queue ≡ new_queue
      → is_draining h.server.state ≡ false
      → encode receiver (response (invoke h.registry m)) ≡ ok reply
      → Agree sender receiver (request m)
      → Agree receiver c.codec (response (invoke h.registry m))
      → length payload ≤ header_length + receiver.max_body_length
      → length reply ≤ header_length + c.codec.max_body_length
      → let h1 = on_data alloc_unsafe socket now payload h in
        let c1 = (send is_destroyed m.id payload c).0 in
        ((resume (length h.tasks) (invoked_turn h1) h1).effects
          ≡ h.effects ++ wrote socket reply ∷ [])
        × ((handle_data alloc_unsafe later reply c1).settled
            ≡ c1.settled ++ (promise, answer_of (invoke h.registry m)) ∷ [])
  unfolding send
  handle_data-invoke is_destroyed c promise h socket now later sender receiver m payload reply sent
        written known empty_there empty_here takes answered agree agree_back small small_back =
      let c1 = (send is_destroyed m.id payload c).0 in
      let r = invoke h.registry m in
      let (q, pushed) =
        push-encode sender receiver (request m) payload written empty_there agree small in
      let receiver' : RpcCodec Value = record receiver { queue = q } in
      let came = on_data-request socket now h receiver receiver' m payload known pushed takes in
      let (q', pushed') =
        push-encode receiver c.codec (response r) reply answered empty_here agree_back small_back in
      let same_codec : c1.codec ≡ c.codec = send_on-codec c.socket is_destroyed m.id payload c in
      let own : Waits m.id promise c1 =
        send_on-Waits_own c.socket is_destroyed m.id payload c promise sent in
      let waits : Waits r.id promise c1 =
        ap (Dict.get c1.pending) (invoke_lem h.registry m).same_id ∙ own in
      (
        ap (λ x. (resume (length h.tasks) (invoked_turn x) x).effects) came
            ∙ serving-answers socket h receiver' m reply
                (encode-queue receiver q (response r) ∙ answered),
        handle_data-response later c1 (record c.codec { queue = q' }) r reply promise
            (ap (λ codec. Codec.push alloc_unsafe codec reply) same_codec ∙ pushed') waits,
      )
