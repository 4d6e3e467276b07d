-- ===== src/Protocol/BufferQueue.antt =====
-- packages/protocol/src/buffer-queue.ts. `Buffer.allocUnsafe` leaves its bytes open: it is a
-- parameter. The `while` loop of `copy` takes fuel: one round for each chunk, and one to end.
pub mod Loop
pub mod Fifo
use weisley_rpc_framework.Prelude.{
  ℕ, zero, suc, ◌+◌, ◌-◌, min, Bool, true, false, Option, none, some, List, [], ◌∷◌, ◌++◌, length,
  take, drop, get_elem?, ltb, ◌==◌, if◌then◌else◌,
}
use weisley_rpc_framework.Prelude.Optional.{◌>>=◌}
use weisley_rpc_framework.Protocol.Types.{Buffer}

pub record BufferQueue : Type 0 where
  pub chunks : List Buffer
  pub total_length : ℕ

abbrev pub new_queue : BufferQueue
new_queue = record { chunks = []; total_length = 0 }

unfoldable pub push : Buffer → BufferQueue → BufferQueue
push chunk q =
    if length chunk == 0
    then q
    else record { chunks = q.chunks ++ chunk ∷ []; total_length = q.total_length + length chunk }

-- `src.copy(output, offset)`: the bytes of `src` over those of `output`, from `offset`.
unfoldable pub copy_into : Buffer → ℕ → Buffer → Buffer
copy_into output offset src = take offset output ++ src ++ drop (offset + length src) output

-- The variables of the loop in `copy`, and the queue that it changes.
pub record Copying : Type 0 where
  pub output : Buffer
  pub offset : ℕ
  pub remaining : ℕ
  pub chunk_index : ℕ
  pub queue : BufferQueue

-- `this.chunks.shift()`, or the first chunk without its first bytes.
advance : ℕ → List Buffer → List Buffer
advance n [] = []
advance n (chunk ∷ rest) = if n == length chunk then rest else drop n chunk ∷ rest

-- One round of the loop on the chunk that it finds.
unfoldable pub copy_chunk : Bool → Buffer → Copying → Copying
unfolding advance copy_into
copy_chunk consume chunk s =
    let bytes_to_copy = min (length chunk) s.remaining in
    record {
      output = copy_into s.output s.offset (take bytes_to_copy chunk);
      offset = s.offset + bytes_to_copy;
      remaining = s.remaining - bytes_to_copy;
      chunk_index = if consume then s.chunk_index else s.chunk_index + 1;
      queue =
          if consume
          then record {
            chunks = advance bytes_to_copy s.queue.chunks;
            total_length = s.queue.total_length - bytes_to_copy;
          }
          else s.queue;
    }

unfoldable pub copy_loop : ℕ → Bool → Copying → Option Copying
unfolding copy_chunk
copy_loop zero consume s = none
copy_loop (suc fuel) consume s = elim (s.remaining == 0) [
  | true ↦ some s
  | false ↦ elim (get_elem? s.queue.chunks (if consume then 0 else s.chunk_index)) [
    | none ↦ some s
    | some chunk ↦ copy_loop fuel consume (copy_chunk consume chunk s)
  ]
]

module _ (alloc_unsafe : ℕ → Buffer) where
  -- The bytes copied, and the queue afterwards.
  unfoldable pub copy : ℕ → Bool → BufferQueue → Option (Buffer × BufferQueue)
  unfolding copy_loop
  copy len consume q = do
    s ← copy_loop (suc (length q.chunks)) consume (record {
      output = alloc_unsafe len;
      offset = 0;
      remaining = len;
      chunk_index = 0;
      queue = q;
    })
    some (s.output, s.queue)

  -- The outer `none` is a loop that has run out of fuel, the inner one the source's `null`.
  unfoldable pub peek : ℕ → BufferQueue → Option (Option Buffer × BufferQueue)
  peek len q =
      if ltb q.total_length len
      then some (none, q)
      else (do r ← copy len false q; some (some r.0, r.1))

  unfoldable pub read : ℕ → BufferQueue → Option (Option Buffer × BufferQueue)
  read len q =
      if ltb q.total_length len
      then some (none, q)
      else (do r ← copy len true q; some (some r.0, r.1))
