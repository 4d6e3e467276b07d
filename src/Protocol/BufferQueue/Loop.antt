-- ===== src/Protocol/BufferQueue/Loop.antt =====
-- What the copying loop leaves, in its two modes.
use native.Mathlib.Nat.{zero-add, suc-add, sub_self}
use weisley_rpc_framework.Prelude.{
  ℕ, zero, suc, ◌+◌, ◌-◌, ◌≤◌, ◌<◌, min, ◌≡◌, refl, ap, ◌∙◌, inl, inr, Bool, true, false, some,
  List, [], ◌∷◌, ◌++◌, append-nil, append_assoc, length, take, drop, get_elem?, concat, ltb, ◌==◌,
  if◌then◌else◌, length-append, length-take, length-drop, take-append, take_append_le,
  drop_append_le, take_all, drop_all, take_append_ge, drop_append_ge, ltb→lt, ltb→le, arith,
  Bool-cases,
}
use weisley_rpc_framework.Protocol.Types.{Buffer}
use weisley_rpc_framework.Protocol.BufferQueue.{
  BufferQueue, Copying, copy_into, copy_chunk, copy_loop, advance,
}

-- The loop's state when `done` has been written and the bytes `rest` of the output are still open.
abbrev pub copying : Buffer → Buffer → ℕ → BufferQueue → Copying
copying done rest i q = record {
  output = done ++ rest;
  offset = length done;
  remaining = length rest;
  chunk_index = i;
  queue = q;
}

copy_into_lem :
    (done rest src : Buffer)
    → copy_into (done ++ rest) (length done) src ≡ done ++ src ++ drop (length src) rest
unfolding copy_into
copy_into_lem done rest src = rw (take-append done rest, drop_past done rest (length src))
  where
    drop_past : (xs ys : Buffer) (n : ℕ) → drop (length xs + n) (xs ++ ys) ≡ drop n ys
    drop_past [] ys n = rw (zero-add n)
    drop_past (x ∷ xs) ys n = rw (suc-add (length xs) n) (drop_past xs ys n)

-- The index and the queue after a round that copies n bytes.
abbrev index_after : Bool → ℕ → ℕ
index_after consume i = if consume then i else i + 1

abbrev queue_after : Bool → ℕ → BufferQueue → BufferQueue
queue_after consume n q =
    if consume then record { chunks = advance n q.chunks; total_length = q.total_length - n } else q

copy_chunk_whole :
    (consume : Bool) (c done rest : Buffer) (i : ℕ) (q : BufferQueue)
    → length c ≤ length rest
    → copy_chunk consume c (copying done rest i q)
      ≡ copying
          (done ++ c)
          (drop (length c) rest)
          (index_after consume i)
          (queue_after consume (length c) q)
unfolding copy_chunk
copy_chunk_whole consume c done rest i q h =
    let n : min (length c) (length rest) ≡ length c = omega arith in
    rw (n, take_all (length c) c (omega arith), copy_into_lem done rest c)
      (cc (length-append done c, length-drop (length c) rest))

copy_chunk_part :
    (consume : Bool) (c done rest : Buffer) (i : ℕ) (q : BufferQueue)
    → length rest < length c
    → copy_chunk consume c (copying done rest i q)
      ≡ copying
          (done ++ take (length rest) c)
          []
          (index_after consume i)
          (queue_after consume (length rest) q)
unfolding copy_chunk
copy_chunk_part consume c done rest i q h =
    let n : min (length c) (length rest) ≡ length rest = omega arith in
    let m : length (take (length rest) c) ≡ length rest =
      length-take (length rest) c ∙ omega arith in
    rw
      (
        n,
        copy_into_lem done rest (take (length rest) c),
        m,
        drop_all (length rest) rest (omega arith),
      )
      (cc (length-append done (take (length rest) c), m, sub_self (length rest)))

-- With every byte written the loop ends at once.
copy_loop_end :
    (f : ℕ) (consume : Bool) (done : Buffer) (i : ℕ) (q : BufferQueue)
    → copy_loop (suc f) consume (copying done [] i q) ≡ some (copying done [] i q)
unfolding copy_loop
copy_loop_end f consume done i q = refl

-- A round on a chunk that is there.
copy_loop_step :
    (f : ℕ) (consume : Bool) (s : Copying) (c : Buffer)
    → 0 < s.remaining
    → get_elem? s.queue.chunks (if consume then 0 else s.chunk_index) ≡ some c
    → copy_loop (suc f) consume s ≡ copy_loop f consume (copy_chunk consume c s)
unfolding copy_loop
copy_loop_step f consume s c h e =
    let more : (s.remaining == 0) ≡ false = ground arith in rw (more, copy_loop) (rw e)

-- The loop that consumes: the bytes that it writes, and those that it leaves.
pub record Consumed (done rest : Buffer) (q : BufferQueue) (s : Copying) : Type 0 where
  pub written : s.output ≡ done ++ take (length rest) (concat q.chunks)
  pub left : concat s.queue.chunks ≡ drop (length rest) (concat q.chunks)
  pub counted : s.queue.total_length ≡ q.total_length - length rest

abbrev queue_of : List Buffer → ℕ → BufferQueue
queue_of cs total = record { chunks = cs; total_length = total }

advance_whole : (c : Buffer) (cs : List Buffer) → advance (length c) (c ∷ cs) ≡ cs
unfolding advance
advance_whole c cs = ground arith

advance_part :
    (n : ℕ) (c : Buffer) (cs : List Buffer) → n < length c → advance n (c ∷ cs) ≡ drop n c ∷ cs
unfolding advance
advance_part n c cs h = ground arith

consume_whole :
    (f : ℕ) (c : Buffer) (cs : List Buffer) (done rest : Buffer) (i total : ℕ)
    → 0 < length rest
    → length c ≤ length rest
    → copy_loop (suc f) true (copying done rest i (queue_of (c ∷ cs) total))
      ≡ copy_loop f true
          (copying (done ++ c) (drop (length c) rest) i (queue_of cs (total - length c)))
consume_whole f c cs done rest i total h k =
    copy_loop_step f true (copying done rest i (queue_of (c ∷ cs) total)) c h refl
    ∙ ap (copy_loop f true) (copy_chunk_whole true c done rest i (queue_of (c ∷ cs) total) k)
    ∙ ap
        (λ ds.
          copy_loop f true
            (copying (done ++ c) (drop (length c) rest) i (queue_of ds (total - length c))))
        (advance_whole c cs)

consume_part :
    (f : ℕ) (c : Buffer) (cs : List Buffer) (done rest : Buffer) (i total : ℕ)
    → 0 < f
    → 0 < length rest
    → length rest < length c
    → copy_loop (suc f) true (copying done rest i (queue_of (c ∷ cs) total))
      ≡ some (
          copying
            (done ++ take (length rest) c)
            []
            i
            (queue_of (drop (length rest) c ∷ cs) (total - length rest)))
consume_part zero c cs done rest i total e h k = elim e [ ]
consume_part (suc f) c cs done rest i total e h k =
    copy_loop_step (suc f) true (copying done rest i (queue_of (c ∷ cs) total)) c h refl
    ∙ ap (copy_loop (suc f) true) (copy_chunk_part true c done rest i (queue_of (c ∷ cs) total) k)
    ∙ copy_loop_end f true _ i _
    ∙ ap
        (λ ds.
          some (copying (done ++ take (length rest) c) [] i (queue_of ds (total - length rest))))
        (advance_part (length rest) c cs k)

-- A first chunk that is used up: what the rest of the loop does is what the whole loop does.
Consumed-whole :
    (c : Buffer) (cs : List Buffer) (done rest : Buffer) (total : ℕ) (s : Copying)
    → length c ≤ length rest
    → Consumed (done ++ c) (drop (length c) rest) (queue_of cs (total - length c)) s
    → Consumed done rest (queue_of (c ∷ cs) total) s
Consumed-whole c cs done rest total s h v =
    let len = length-drop (length c) rest in
    record {
      written =
          v.written
          ∙ rw (len, take_append_ge (length rest) c (concat cs) h)
              (append_assoc done c (take (length rest - length c) (concat cs)));
      left = v.left ∙ rw (len, drop_append_ge (length rest) c (concat cs) h);
      counted = omega (arith, v.counted, len);
    }

Consumed-part :
    (c : Buffer) (cs : List Buffer) (done rest : Buffer) (i total : ℕ)
    → length rest < length c
    → Consumed done rest (queue_of (c ∷ cs) total) (
        copying
          (done ++ take (length rest) c)
          []
          i
          (queue_of (drop (length rest) c ∷ cs) (total - length rest)))
Consumed-part c cs done rest i total h = record {
  written = rw (
    append-nil (done ++ take (length rest) c),
    take_append_le (length rest) c (concat cs) (omega arith),
  );
  left = rw (drop_append_le (length rest) c (concat cs) (omega arith));
  counted = refl;
}

-- With enough fuel, and the bytes there, the consuming loop ends with all of them written.
pub copy_loop_consume :
    (cs : List Buffer) (f : ℕ) (done rest : Buffer) (i total : ℕ)
    → length rest ≤ length (concat cs)
    → length cs < f
    → (s : Copying) × (copy_loop f true (copying done rest i (queue_of cs total)) ≡ some s)
      × Consumed done rest (queue_of cs total) s
copy_loop_consume cs zero done rest i total h k = elim k [ ]
copy_loop_consume cs (suc f) done [] i total h k = (
  copying done [] i (queue_of cs total),
  copy_loop_end f true done i (queue_of cs total),
  record { written = refl; left = refl; counted = omega arith },
)
copy_loop_consume [] (suc f) done (x ∷ xs) i total h k = absurd (omega arith)
copy_loop_consume (c ∷ cs) (suc f) done (x ∷ xs) i total h k =
    elim (Bool-cases (ltb (length (x ∷ xs)) (length c))) [
      | inl part ↦ (
        copying (done ++ take (length (x ∷ xs)) c) [] i
            (queue_of (drop (length (x ∷ xs)) c ∷ cs) (total - length (x ∷ xs))),
        consume_part f c cs done (x ∷ xs) i total (omega arith) (omega arith) (ltb→lt _ _ part),
        Consumed-part c cs done (x ∷ xs) i total (ltb→lt _ _ part),
      )
      | inr whole ↦
          let fits = ltb→le (length (x ∷ xs)) (length c) whole in
          let (s, run, v) =
            copy_loop_consume cs f (done ++ c) (drop (length c) (x ∷ xs)) i (total - length c)
              (omega (arith, length-drop (length c) (x ∷ xs), length-append c (concat cs)))
              (omega arith) in
          (
            s,
            consume_whole f c cs done (x ∷ xs) i total (omega arith) fits ∙ run,
            Consumed-whole c cs done (x ∷ xs) total s fits v,
          )
    ]

drop_cons :
    (xs : List Buffer) (i : ℕ) (c : Buffer) (cs : List Buffer)
    → drop i xs ≡ c ∷ cs
    → (get_elem? xs i ≡ some c) × (drop (i + 1) xs ≡ cs)
drop_cons [] zero c cs h = cc
drop_cons [] (suc i) c cs h = cc
drop_cons (x ∷ xs) zero c cs h = (cc, cc)
drop_cons (x ∷ xs) (suc i) c cs h =
    let e : suc i + 1 ≡ suc (i + 1) = omega arith in
    let (found, rest) = drop_cons xs i c cs h in (found, rw e rest)

-- The loop that only looks: the queue stays, and the bytes are those from chunk `i` on.
pub copy_loop_peek :
    (cs : List Buffer) (f : ℕ) (done rest : Buffer) (i : ℕ) (q : BufferQueue)
    → drop i q.chunks ≡ cs
    → length rest ≤ length (concat cs)
    → length cs < f
    → (s : Copying) × (copy_loop f false (copying done rest i q) ≡ some s)
      × (s.output ≡ done ++ take (length rest) (concat cs))
      × (s.queue ≡ q)
copy_loop_peek cs zero done rest i q e h k = elim k [ ]
copy_loop_peek cs (suc f) done [] i q e h k =
    (copying done [] i q, copy_loop_end f false done i q, refl, refl)
copy_loop_peek [] (suc f) done (x ∷ xs) i q e h k = absurd (omega arith)
copy_loop_peek (c ∷ cs) (suc zero) done (x ∷ xs) i q e h k = absurd (omega arith)
copy_loop_peek (c ∷ cs) (suc (suc f)) done (x ∷ xs) i q e h k =
    let (found, next) = drop_cons q.chunks i c cs e in
    let step = copy_loop_step (suc f) false (copying done (x ∷ xs) i q) c (omega arith) found in
    elim (Bool-cases (ltb (length (x ∷ xs)) (length c))) [
      | inl part ↦
          let short = ltb→lt (length (x ∷ xs)) (length c) part in
          (
            copying (done ++ take (length (x ∷ xs)) c) [] (i + 1) q,
            step
                ∙ ap (copy_loop (suc f) false) (copy_chunk_part false c done (x ∷ xs) i q short)
                ∙ copy_loop_end f false _ (i + 1) q,
            rw (
              append-nil (done ++ take (length (x ∷ xs)) c),
              take_append_le (length (x ∷ xs)) c (concat cs) (omega arith),
            ),
            refl,
          )
      | inr whole ↦
          let fits = ltb→le (length (x ∷ xs)) (length c) whole in
          let len = length-drop (length c) (x ∷ xs) in
          let (s, run, out, same) =
            copy_loop_peek cs (suc f) (done ++ c) (drop (length c) (x ∷ xs)) (i + 1) q next
              (omega (arith, len, length-append c (concat cs))) (omega arith) in
          (
            s,
            step
                ∙ ap (copy_loop (suc f) false) (copy_chunk_whole false c done (x ∷ xs) i q fits)
                ∙ run,
            out
                ∙ rw (len, take_append_ge (length (x ∷ xs)) c (concat cs) fits)
                    (append_assoc done c (take (length (x ∷ xs) - length c) (concat cs))),
            same,
          )
    ]
