-- ===== src/Protocol/BufferQueue/Fifo.antt =====
-- The chunk queue is a first-in first-out queue of bytes.
use weisley_rpc_framework.Prelude.{
  ℕ, suc, ◌≤◌, ◌≡◌, refl, sym, ap, ◌∙◌, inl, inr, Bool, true, false, none, some, [], ◌∷◌, ◌++◌,
  append-nil, length, take, drop, concat, concat-append, ltb, ◌==◌, if◌then◌else◌, length-append,
  length-drop, arith, Bool-cases, ltb→le,
}
use weisley_rpc_framework.Prelude.Optional.{◌>>=◌}
use weisley_rpc_framework.Protocol.Types.{Buffer}
use weisley_rpc_framework.Protocol.BufferQueue.{
  BufferQueue, push, peek, read, copy, Copying, copy_loop,
}
use weisley_rpc_framework.Protocol.BufferQueue.Loop.{copying, copy_loop_consume, copy_loop_peek}

-- The bytes that wait in a queue, oldest first.
abbrev pub bytes : BufferQueue → Buffer
bytes q = concat q.chunks

abbrev pub IsValid : BufferQueue → Type 0
IsValid q = q.total_length ≡ length (bytes q)

length_zero : (c : Buffer) → (length c == 0) ≡ true → c ≡ []
length_zero [] h = refl
length_zero (x ∷ xs) h = absurd (ground arith)

-- `push` appends the chunk to the bytes, an empty one too, and keeps the length right.
pub push_lem :
    (chunk : Buffer) (q : BufferQueue)
    → IsValid q
    → (bytes (push chunk q) ≡ bytes q ++ chunk) × IsValid (push chunk q)
unfolding push
push_lem chunk q v = elim (Bool-cases (length chunk == 0)) [
  | inl empty ↦ rw empty (rw (length_zero chunk empty) (sym (append-nil (bytes q))), v)
  | inr full ↦
      let all : concat (q.chunks ++ chunk ∷ []) ≡ bytes q ++ chunk =
        concat-append q.chunks (chunk ∷ []) ∙ ap (◌++◌ (bytes q)) (append-nil chunk) in
      rw full (all, omega (arith, v, ap length all, length-append (bytes q) chunk))
]

module _ (alloc_unsafe : ℕ → Buffer) (allocates : (n : ℕ) → length (alloc_unsafe n) ≡ n) where
  abbrev start : ℕ → BufferQueue → Copying
  start len q = record {
    output = alloc_unsafe len;
    offset = 0;
    remaining = len;
    chunk_index = 0;
    queue = q;
  }

  start_lem : (len : ℕ) (q : BufferQueue) → start len q ≡ copying [] (alloc_unsafe len) 0 q
  start_lem len q = cc (allocates len)

  copy-copy_loop :
      (len : ℕ) (consume : Bool) (q : BufferQueue) (s : Copying)
      → copy_loop (suc (length q.chunks)) consume (copying [] (alloc_unsafe len) 0 q) ≡ some s
      → copy alloc_unsafe len consume q ≡ some (s.output, s.queue)
  unfolding copy
  copy-copy_loop len consume q s h =
      ap (λ x. x >>= λ (y : Copying). some (y.output, y.queue))
        (ap (copy_loop (suc (length q.chunks)) consume) (start_lem len q) ∙ h)

  copy_peek :
      (len : ℕ) (q : BufferQueue)
      → len ≤ length (bytes q)
      → copy alloc_unsafe len false q ≡ some (take len (bytes q), q)
  copy_peek len q h =
      let (s, run, out, same) =
        copy_loop_peek q.chunks (suc (length q.chunks)) [] (alloc_unsafe len) 0 q refl
          (omega (arith, allocates len)) (omega arith) in
      copy-copy_loop len false q s run ∙ cc (out ∙ ap (λ n. take n (bytes q)) (allocates len), same)

  copy_read :
      (len : ℕ) (q : BufferQueue)
      → IsValid q
      → len ≤ length (bytes q)
      → (q' : BufferQueue) × (copy alloc_unsafe len true q ≡ some (take len (bytes q), q'))
        × (bytes q' ≡ drop len (bytes q))
        × IsValid q'
  copy_read len q v h =
      let (s, run, c) =
        copy_loop_consume q.chunks (suc (length q.chunks)) [] (alloc_unsafe len) 0 q.total_length
          (omega (arith, allocates len)) (omega arith) in
      let left = c.left ∙ ap (λ n. drop n (bytes q)) (allocates len) in
      (
        s.queue,
        copy-copy_loop len true q s run
            ∙ cc (c.written ∙ ap (λ n. take n (bytes q)) (allocates len)),
        left,
        omega (arith, c.counted, v, allocates len, ap length left, length-drop len (bytes q)),
      )

  -- `peek` returns the first bytes without taking them, or null when there are too few.
  pub peek_lem :
      (len : ℕ) (q : BufferQueue)
      → IsValid q
      → peek alloc_unsafe len q
        ≡ some (if ltb (length (bytes q)) len then none else some (take len (bytes q)), q)
  unfolding peek
  peek_lem len q v = elim (Bool-cases (ltb (length (bytes q)) len)) [
    | inl short ↦ rw (ap (λ n. ltb n len) v ∙ short, short)
    | inr enough ↦
        rw (ap (λ n. ltb n len) v ∙ enough, enough) (rw (copy_peek len q (ltb→le _ _ enough)))
  ]

  -- `read` returns the first bytes and takes them, or returns null and leaves the queue.
  pub read_lem :
      (len : ℕ) (q : BufferQueue)
      → IsValid q
      → (q' : BufferQueue) × (read alloc_unsafe len q
          ≡ some (if ltb (length (bytes q)) len then none else some (take len (bytes q)), q'))
        × (bytes q' ≡ (if ltb (length (bytes q)) len then bytes q else drop len (bytes q)))
        × IsValid q'
  unfolding read
  read_lem len q v = elim (Bool-cases (ltb (length (bytes q)) len)) [
    | inl short ↦ (q, rw (ap (λ n. ltb n len) v ∙ short, short), rw short, v)
    | inr enough ↦
        let (q', run, left, valid) = copy_read len q v (ltb→le _ _ enough) in
        (q', rw (ap (λ n. ltb n len) v ∙ enough, enough) (rw run), rw enough left, valid)
  ]
