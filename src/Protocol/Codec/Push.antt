-- ===== src/Protocol/Codec/Push.antt =====
-- `push` implements the stream decoder, and its loop never runs out of fuel.
use weisley_rpc_framework.Prelude.{
  ℕ, zero, suc, ◌+◌, ◌<◌, ◌≡◌, refl, sym, ap, ◌∙◌, inl, inr, Bool, true, false, Option, none, some,
  List, [], ◌∷◌, ◌++◌, append_assoc, append-nil, length, take, drop, ltb, ok, throws, arith,
  Bool-cases, Outcome-cases, length-drop, ltb→le, le→ltb,
}
use weisley_rpc_framework.Protocol.Types.{Buffer, Result, ProtocolError, RpcMessage, header_length}
use weisley_rpc_framework.Protocol.BufferQueue.{BufferQueue, peek, read}
use weisley_rpc_framework.Protocol.BufferQueue
use weisley_rpc_framework.Protocol.BufferQueue.Fifo.{bytes, IsValid, push_lem, peek_lem, read_lem}
use weisley_rpc_framework.Protocol.Packet.{PacketHeader, decode_packet_header}
use weisley_rpc_framework.Protocol.Codec.{RpcCodec, decode_body, push_loop, push, Pushed}
use weisley_rpc_framework.Protocol.Codec.Stream.{
  Next, waits, fails, yields, body_next, header_next, next, Drains, rests, breaks, reads,
  yields_shorter, Drains-total,
}

module _ {Value : Type 0} (alloc_unsafe : ℕ → Buffer)
    (allocates : (n : ℕ) → length (alloc_unsafe n) ≡ n) (codec : RpcCodec Value) where
  -- How the loop goes on from a queue, by what its bytes began with.
  continue : ℕ → List (RpcMessage Value) → Next Value → BufferQueue → Pushed Value
  continue f acc waits q = some (q, ok acc)
  continue f acc (fails e r) q = some (q, throws e)
  continue f acc (yields m r) q = push_loop alloc_unsafe f codec q (acc ++ m ∷ [])

  abbrev rest_of : Next Value → Buffer → Buffer
  rest_of waits bs = bs
  rest_of (fails e r) bs = r
  rest_of (yields m r) bs = r

  -- One round of the loop from a valid queue does what `next` says of its bytes.
  abbrev Round : ℕ → List (RpcMessage Value) → BufferQueue → Next Value → Type 0
  Round f acc q n =
      (q' : BufferQueue) × (push_loop alloc_unsafe (suc f) codec q acc ≡ continue f acc n q')
      × (bytes q' ≡ rest_of n (bytes q))
      × IsValid q'

  module _ (f : ℕ) (acc : List (RpcMessage Value)) (q : BufferQueue) (v : IsValid q) where
    peeked :
        ltb (length (bytes q)) header_length ≡ false
        → peek alloc_unsafe header_length q ≡ some (some (take header_length (bytes q)), q)
    peeked enough = peek_lem alloc_unsafe allocates header_length q v ∙ rw enough

    total_lem : (n : ℕ) (b : Bool) → ltb (length (bytes q)) n ≡ b → ltb q.total_length n ≡ b
    total_lem n b h = ap (λ m. ltb m n) v ∙ h

    round_short :
        ltb (length (bytes q)) header_length ≡ true
        → push_loop alloc_unsafe (suc f) codec q acc ≡ some (q, ok acc)
    unfolding push_loop
    round_short short = rw (total_lem header_length true short, push_loop)

    round_bad_header :
        (e : ProtocolError)
        → ltb (length (bytes q)) header_length ≡ false
        → decode_packet_header (take header_length (bytes q)) ≡ throws e
        → push_loop alloc_unsafe (suc f) codec q acc ≡ some (q, throws e)
    unfolding push_loop
    round_bad_header e enough d =
        rw (total_lem header_length false enough, push_loop) (rw (peeked enough) (rw d))

    round_partial :
        (p : PacketHeader)
        → ltb (length (bytes q)) header_length ≡ false
        → decode_packet_header (take header_length (bytes q)) ≡ ok p
        → ltb (length (bytes q)) (header_length + p.body_length) ≡ true
        → push_loop alloc_unsafe (suc f) codec q acc ≡ some (q, ok acc)
    unfolding push_loop
    round_partial p enough d short =
        rw (total_lem header_length false enough, push_loop)
          (rw (peeked enough) (rw d (rw (total_lem (header_length + p.body_length) true short))))

    -- Taking the header and then the body out of the queue.
    taken :
        (p : PacketHeader)
        → ltb (length (bytes q)) header_length ≡ false
        → ltb (length (bytes q)) (header_length + p.body_length) ≡ false
        → (q2 q3 : BufferQueue) × (read alloc_unsafe header_length q
            ≡ some (some (take header_length (bytes q)), q2))
          × (read alloc_unsafe p.body_length q2
              ≡ some (some (take p.body_length (drop header_length (bytes q))), q3))
          × (bytes q3 ≡ drop p.body_length (drop header_length (bytes q)))
          × IsValid q3
    taken p enough whole =
        let (q2, r2, b2, v2) = read_lem alloc_unsafe allocates header_length q v in
        let left : bytes q2 ≡ drop header_length (bytes q) = b2 ∙ rw enough in
        let (q3, r3, b3, v3) = read_lem alloc_unsafe allocates p.body_length q2 v2 in
        let fits : ltb (length (bytes q2)) p.body_length ≡ false =
          le→ltb _ _ (
            omega (arith, ap length left, length-drop header_length (bytes q), ltb→le _ _ whole)) in
        (q2, q3, r2 ∙ rw enough, r3 ∙ rw (fits, left), b3 ∙ rw (fits, left), v3)

    module _ (p : PacketHeader) (q2 q3 : BufferQueue)
        (enough : ltb (length (bytes q)) header_length ≡ false)
        (d : decode_packet_header (take header_length (bytes q)) ≡ ok p)
        (whole : ltb (length (bytes q)) (header_length + p.body_length) ≡ false)
        (r2 : read alloc_unsafe header_length q ≡ some (some (take header_length (bytes q)), q2))
        (r3 : read alloc_unsafe p.body_length q2
          ≡ some (some (take p.body_length (drop header_length (bytes q))), q3)) where
      round_taken :
          (o : Result (RpcMessage Value))
          → decode_body codec p (take p.body_length (drop header_length (bytes q))) ≡ o
          → push_loop alloc_unsafe (suc f) codec q acc
            ≡ continue f acc (body_next (drop p.body_length (drop header_length (bytes q))) o) q3
      unfolding push_loop body_next continue
      round_taken (ok m) b =
          rw (total_lem header_length false enough, push_loop)
            (rw (peeked enough) (
              rw d (
                rw (total_lem (header_length + p.body_length) false whole) (rw r2 (rw r3 (rw b))))))
      round_taken (throws e) b =
          rw (total_lem header_length false enough, push_loop)
            (rw (peeked enough) (
              rw d (
                rw (total_lem (header_length + p.body_length) false whole) (rw r2 (rw r3 (rw b))))))

    rest_of-body_next :
        (o : Result (RpcMessage Value)) (r bs : Buffer) → rest_of (body_next r o) bs ≡ r
    unfolding body_next
    rest_of-body_next (ok m) r bs = refl
    rest_of-body_next (throws e) r bs = refl

    Round-whole :
        (p : PacketHeader) (o : Result (RpcMessage Value))
        → ltb (length (bytes q)) header_length ≡ false
        → decode_packet_header (take header_length (bytes q)) ≡ ok p
        → ltb (length (bytes q)) (header_length + p.body_length) ≡ false
        → decode_body codec p (take p.body_length (drop header_length (bytes q))) ≡ o
        → Round f acc q (body_next (drop p.body_length (drop header_length (bytes q))) o)
    Round-whole p o enough d whole b =
        let (q2, q3, r2, r3, left, v3) = taken p enough whole in
        (
          q3,
          round_taken p q2 q3 enough d whole r2 r3 o b,
          left ∙ sym (rest_of-body_next o _ (bytes q)),
          v3,
        )

  round_lem :
      (f : ℕ) (acc : List (RpcMessage Value)) (q : BufferQueue)
      → IsValid q
      → Round f acc q (next codec (bytes q))
  unfolding next continue
  round_lem f acc q v = elim (Bool-cases (ltb (length (bytes q)) header_length)) [
    | inl short ↦ rw short (q, round_short f acc q v short, refl, v)
    | inr enough ↦
        rw enough (elim (Outcome-cases (decode_packet_header (take header_length (bytes q)))) [
          | inr (e, d) ↦ rw (d, header_next) (q, round_bad_header f acc q v e enough d, refl, v)
          | inl (p, d) ↦
              rw (d, header_next)
                (elim (Bool-cases (ltb (length (bytes q)) (header_length + p.body_length))) [
                  | inl short ↦ rw short (q, round_partial f acc q v p enough d short, refl, v)
                  | inr whole ↦ rw whole (Round-whole f acc q v p _ enough d whole refl)
                ])
        ])
  ]

  -- What `push` returns: the messages after those it had, or the error.
  abbrev pub outcome :
      List (RpcMessage Value)
      → List (RpcMessage Value)
      → Option ProtocolError
      → Result (List (RpcMessage Value))
  outcome acc ms none = ok (acc ++ ms)
  outcome acc ms (some e) = throws e

  outcome-cons :
      (acc : List (RpcMessage Value)) (m : RpcMessage Value) (ms : List (RpcMessage Value))
      (end : Option ProtocolError)
      → outcome (acc ++ m ∷ []) ms end ≡ outcome acc (m ∷ ms) end
  outcome-cons acc m ms none = ap ok (append_assoc acc (m ∷ []) ms)
  outcome-cons acc m ms (some e) = refl

  push_loop_lem :
      (f : ℕ) (acc : List (RpcMessage Value)) (q : BufferQueue) {bs : Buffer}
      {ms : List (RpcMessage Value)} {end : Option ProtocolError} {last : Buffer}
      → IsValid q
      → length (bytes q) < f
      → Drains codec bs ms end last
      → bytes q ≡ bs
      → (q' : BufferQueue) × (push_loop alloc_unsafe f codec q acc ≡ some (q', outcome acc ms end))
        × (bytes q' ≡ last)
        × IsValid q'
  unfolding continue
  push_loop_lem zero acc q v h d e = elim h [ ]
  push_loop_lem (suc f) acc q v h (rests n) e =
      let (q', run, left, v') = round_lem f acc q v in
      let now = ap (next codec) e ∙ n in
      (
        q',
        run ∙ rw (now, continue) (ap (λ ms. some (q', ok ms)) (sym (append-nil acc))),
        left ∙ ap (λ n. rest_of n (bytes q)) now ∙ e,
        v',
      )
  push_loop_lem (suc f) acc q v h (breaks n) e =
      let (q', run, left, v') = round_lem f acc q v in
      let now = ap (next codec) e ∙ n in
      (q', run ∙ rw (now, continue), left ∙ ap (λ n. rest_of n (bytes q)) now, v')
  push_loop_lem (suc f) acc q v h (reads {rest = r} {m = m} {ms = ms} {end = end} n d) e =
      let (q1, run, left, v1) = round_lem f acc q v in
      let now = ap (next codec) e ∙ n in
      let there : bytes q1 ≡ r = left ∙ ap (λ n. rest_of n (bytes q)) now in
      let small = yields_shorter codec (bytes q) m r now in
      let (q', run', left', v') =
        push_loop_lem f (acc ++ m ∷ []) q1 v1 (omega (arith, small, ap length there)) d there in
      (
        q',
        run
            ∙ ap (λ n. continue f acc n q1) now
            ∙ run'
            ∙ ap (λ x. some (q', x)) (outcome-cons acc m ms end),
        left',
        v',
      )

  -- `push` of a chunk: it throws, or returns the messages, as the stream decoder does on the bytes
  -- that were waiting with the chunk behind them, and keeps the bytes that the decoder leaves.
  pub push-Drains :
      (chunk : Buffer) {ms : List (RpcMessage Value)} {end : Option ProtocolError} {last : Buffer}
      → IsValid codec.queue
      → Drains codec (bytes codec.queue ++ chunk) ms end last
      → (q' : BufferQueue) × (push alloc_unsafe codec chunk
          ≡ some (record codec { queue = q' }, outcome [] ms end))
        × (bytes q' ≡ last)
        × IsValid q'
  unfolding push
  push-Drains chunk v d =
      let (all, v1) = push_lem chunk codec.queue v in
      let (q', run, left, v') =
        push_loop_lem (suc (BufferQueue.push chunk codec.queue).total_length) []
          (BufferQueue.push chunk codec.queue) v1 (omega (arith, v1)) d all in
      (q', rw run, left, v')

  -- Whatever the bytes, `push` ends, and leaves a queue whose length is right.
  pub push_total :
      (chunk : Buffer)
      → IsValid codec.queue
      → (q' : BufferQueue) × (r : Result (List (RpcMessage Value))) × (push alloc_unsafe codec chunk
          ≡ some (record codec { queue = q' }, r))
        × IsValid q'
  push_total chunk v =
      let (ms, end, last, d) =
        Drains-total codec (suc (length (bytes codec.queue ++ chunk))) (bytes codec.queue ++ chunk)
          (omega arith) in
      let (q', run, left, v') = push-Drains chunk v d in (q', outcome [] ms end, run, v')
