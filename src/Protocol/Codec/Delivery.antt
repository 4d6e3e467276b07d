-- ===== src/Protocol/Codec/Delivery.antt =====
-- Encoded messages reach the other side whole and in order, however the bytes are cut.
use weisley_rpc_framework.Prelude.{
  ℕ, ◌+◌, ◌≤◌, ◌≡◌, refl, sym, ap, ◌∙◌, Option, none, some, List, [], ◌∷◌, ◌++◌, append_assoc,
  append-nil, length, take, ltb, if◌then◌else◌, ok, throws, concat,
}
use weisley_rpc_framework.Protocol.Types.{Buffer, Result, ProtocolError, RpcMessage, header_length}
use weisley_rpc_framework.Protocol.BufferQueue.{BufferQueue, new_queue}
use weisley_rpc_framework.Protocol.BufferQueue.Fifo.{bytes, IsValid}
use weisley_rpc_framework.Protocol.Packet.{PacketHeader, decode_packet_header}
use weisley_rpc_framework.Protocol.Codec.{RpcCodec, encode, decode_body, push}
use weisley_rpc_framework.Protocol.Codec.Agreement.{Agree, next-encode}
use weisley_rpc_framework.Protocol.Codec.Stream.{
  waits, yields, header_next, next, Drains, rests, breaks, reads, next-append, Drains-split,
}
use weisley_rpc_framework.Protocol.Codec.Push.{push-Drains}

module _ {Value : Type 0} where
  header_next-queue :
      (codec : RpcCodec Value) (q : BufferQueue) (bs : Buffer) (o : Result PacketHeader)
      → header_next (record codec { queue = q }) bs o ≡ header_next codec bs o
  unfolding header_next decode_body
  header_next-queue codec q bs (ok p) = refl
  header_next-queue codec q bs (throws e) = refl

  -- The decoder's view of bytes does not depend on its queue.
  next-queue :
      (codec : RpcCodec Value) (q : BufferQueue) (bs : Buffer)
      → next (record codec { queue = q }) bs ≡ next codec bs
  unfolding next decode_body
  next-queue codec q bs =
      ap (λ n. if ltb (length bs) header_length then waits else n)
        (header_next-queue codec q bs (decode_packet_header (take header_length bs)))

  -- Chunks pushed one after another, up to the first error: the messages of all of them.
  gather :
      List (RpcMessage Value)
      → Option (RpcCodec Value × Result (List (RpcMessage Value)))
      → Option (RpcCodec Value × Result (List (RpcMessage Value)))
  gather ms none = none
  gather ms (some (codec, throws e)) = some (codec, throws e)
  gather ms (some (codec, ok more)) = some (codec, ok (ms ++ more))

  module _ (alloc_unsafe : ℕ → Buffer) where
    unfoldable pub feed :
        List Buffer → RpcCodec Value → Option (RpcCodec Value × Result (List (RpcMessage Value)))
    unfolding gather
    feed [] codec = some (codec, ok [])
    feed (c ∷ cs) codec = elim (push alloc_unsafe codec c) [
      | none ↦ none
      | some (codec', throws e) ↦ some (codec', throws e)
      | some (codec', ok ms) ↦ gather ms (feed cs codec')
    ]

  Drains-queue :
      (codec : RpcCodec Value) (q : BufferQueue) {bs : Buffer} {ms : List (RpcMessage Value)}
      {end : Option ProtocolError} {last : Buffer}
      → Drains codec bs ms end last
      → Drains (record codec { queue = q }) bs ms end last
  Drains-queue codec q (rests n) = rests (next-queue codec q _ ∙ n)
  Drains-queue codec q (breaks n) = breaks (next-queue codec q _ ∙ n)
  Drains-queue codec q (reads n d) = reads (next-queue codec q _ ∙ n) (Drains-queue codec q d)

  -- A stream that ends well ends with no whole packet.
  waits_at_end :
      (codec : RpcCodec Value) {bs : Buffer} {ms : List (RpcMessage Value)} {last : Buffer}
      → Drains codec bs ms none last
      → next codec last ≡ waits
  waits_at_end codec (rests n) = n
  waits_at_end codec (reads n d) = waits_at_end codec d

  -- With no whole packet there is nothing to read.
  Drains-waits :
      (codec : RpcCodec Value) {bs : Buffer} {ms : List (RpcMessage Value)} {last : Buffer}
      → next codec bs ≡ waits
      → Drains codec bs ms none last
      → (ms ≡ []) × (last ≡ bs)
  Drains-waits codec h (rests n) = (refl, refl)
  Drains-waits codec h (reads n d) = absurd (cc (h, n))

  -- A codec between two chunks: its queue is valid and holds no whole packet.
  pub record IsIdle (codec : RpcCodec Value) : Type 0 where
    pub valid : IsValid codec.queue
    pub waiting : next codec (bytes codec.queue) ≡ waits

  module _ (alloc_unsafe : ℕ → Buffer) (allocates : (n : ℕ) → length (alloc_unsafe n) ≡ n) where
    feed-cons :
        (c : Buffer) (cs : List Buffer) (codec : RpcCodec Value) {codec1 codec2 : RpcCodec Value}
        {front back : List (RpcMessage Value)}
        → push alloc_unsafe codec c ≡ some (codec1, ok front)
        → feed alloc_unsafe cs codec1 ≡ some (codec2, ok back)
        → feed alloc_unsafe (c ∷ cs) codec ≡ some (codec2, ok (front ++ back))
    unfolding feed
    feed-cons c cs codec h k = rw (h, feed) (rw k)

    -- Chunks pushed one after another return the messages of the bytes that were waiting with all
    -- the chunks behind them, wherever these are cut, and leave an idle codec.
    pub feed-Drains :
        (chunks : List Buffer) (codec : RpcCodec Value) {bs : Buffer} {ms : List (RpcMessage Value)}
        {last : Buffer}
        → IsIdle codec
        → Drains codec bs ms none last
        → bs ≡ bytes codec.queue ++ concat chunks
        → (codec' : RpcCodec Value) × (feed alloc_unsafe chunks codec ≡ some (codec', ok ms))
          × (bytes codec'.queue ≡ last)
          × IsIdle codec'
    unfolding feed
    feed-Drains [] codec idle d e =
        let (none_left, same) =
          Drains-waits codec (ap (next codec) (e ∙ append-nil (bytes codec.queue)) ∙ idle.waiting)
            d in
        (codec, cc none_left, sym (same ∙ e ∙ append-nil (bytes codec.queue)), idle)
    feed-Drains (c ∷ cs) codec {ms = ms} idle d e =
        let (front, back, mid, d1, d2, sum) =
          Drains-split codec (bytes codec.queue ++ c) (concat cs) d
            (e ∙ sym (append_assoc (bytes codec.queue) c (concat cs))) in
        let (q1, run, left, v1) = push-Drains alloc_unsafe allocates codec c idle.valid d1 in
        let codec1 : RpcCodec Value = record codec { queue = q1 } in
        let idle1 : IsIdle codec1 = record {
          valid = v1;
          waiting = next-queue codec q1 (bytes q1) ∙ ap (next codec) left ∙ waits_at_end codec d1;
        } in
        let (codec', run', left', idle') =
          feed-Drains cs codec1 idle1 (Drains-queue codec q1 d2)
            (ap (λ b. b ++ concat cs) (sym left)) in
        (
          codec',
          feed-cons c cs codec run run' ∙ ap (λ x. some (codec', ok x)) (sym sum),
          left',
          idle',
        )

    -- A packet that the codec reads as a message, with nothing over.
    abbrev pub Reads : RpcCodec Value → RpcMessage Value → Buffer → Type 0
    Reads codec m packet = next codec packet ≡ yields m []

    abbrev pub AllRead : RpcCodec Value → List (RpcMessage Value) → List Buffer → Type 0
    AllRead codec [] [] = Unit {0}
    AllRead codec (m ∷ ms) (p ∷ ps) = Reads codec m p × AllRead codec ms ps
    AllRead codec _ _ = ⊥

    packets_drain :
        (codec : RpcCodec Value) (ms : List (RpcMessage Value)) (packets : List Buffer)
        → AllRead codec ms packets
        → Drains codec (concat packets) ms none []
    unfolding next
    packets_drain codec [] [] h = rests refl
    packets_drain codec [] (p ∷ ps) h = absurd h
    packets_drain codec (m ∷ ms) [] h = absurd h
    packets_drain codec (m ∷ ms) (p ∷ ps) h =
        reads (next-append codec p (concat ps) (λ w. cc (w, h.0)) ∙ rw (h.0))
          (packets_drain codec ms ps h.1)

    waits_empty :
        (codec : RpcCodec Value) → codec.queue ≡ new_queue → next codec (bytes codec.queue) ≡ waits
    unfolding next
    waits_empty codec fresh = rw fresh

    -- Each message goes into its packet, and the two sides agree on it.
    abbrev pub AllSent :
        RpcCodec Value → RpcCodec Value → List (RpcMessage Value) → List Buffer → Type 0
    AllSent sender receiver [] [] = Unit {0}
    AllSent sender receiver (m ∷ ms) (p ∷ ps) =
        (Agree sender receiver m
          × (encode sender m ≡ ok p)
          × (length p ≤ header_length + receiver.max_body_length))
        × AllSent sender receiver ms ps
    AllSent sender receiver _ _ = ⊥

    AllSent-AllRead :
        (sender receiver : RpcCodec Value) (ms : List (RpcMessage Value)) (packets : List Buffer)
        → AllSent sender receiver ms packets
        → AllRead receiver ms packets
    AllSent-AllRead sender receiver [] [] h = tt
    AllSent-AllRead sender receiver [] (p ∷ ps) h = absurd h
    AllSent-AllRead sender receiver (m ∷ ms) [] h = absurd h
    AllSent-AllRead sender receiver (m ∷ ms) (p ∷ ps) h =
        let ((agree, sent, small), rest) = h in
        (
          next-encode sender receiver m p agree sent small,
          AllSent-AllRead sender receiver ms ps rest,
        )

    -- The messages that a sender encodes, in packets that the receiver has agreed to, come out of a
    -- receiver with an empty queue whole and in order, however the stream is cut into chunks, and
    -- leave its queue empty.
    pub delivery :
        (sender receiver : RpcCodec Value) (ms : List (RpcMessage Value))
        (packets chunks : List Buffer)
        → AllSent sender receiver ms packets
        → concat chunks ≡ concat packets
        → receiver.queue ≡ new_queue
        → (receiver' : RpcCodec Value) × (feed alloc_unsafe chunks receiver
            ≡ some (receiver', ok ms))
          × (bytes receiver'.queue ≡ [])
          × IsIdle receiver'
    delivery sender receiver ms packets chunks sent cut fresh =
        feed-Drains chunks receiver
          (record { valid = cc fresh; waiting = waits_empty receiver fresh })
          (packets_drain receiver ms packets (AllSent-AllRead sender receiver ms packets sent))
          (sym cut ∙ ap (λ (q : BufferQueue). bytes q ++ concat chunks) (sym fresh))
