-- ===== src/Io/BufferPool.antt =====
-- include/bsomeip/io/buffer_pool.hpp. A buffer is its offset in the storage and its size; the free list
-- has the index pushed last at its front. Sizes and offsets have the 64 bits of `std::size_t`.
pub mod Uses
pub mod Held
use bsomeip.Common.{
  ℕ, zero, suc, ◌+◌, ◌*◌, ◌/◌, ◌%◌, ◌^◌, Option, none, some, List, [], ◌∷◌, length,
}

pub record Buffer : Type 0 where
  pub offset : ℕ
  pub size : ℕ

pub record BufferPool : Type 0 where
  pub buf_size : ℕ
  pub storage_size : ℕ
  pub free_list : List ℕ

-- The loop of the constructor, which counts down.
abbrev pub push_down : (i : ℕ) → List ℕ → List ℕ
push_down zero free_list = free_list
push_down (suc i) free_list = push_down i (i % 2 ^ 32 ∷ free_list)

unfoldable pub create : (count buf_size : ℕ) → BufferPool
create count buf_size = record {
  buf_size = buf_size;
  storage_size = count * buf_size % 2 ^ 64;
  free_list = push_down count [];
}

abbrev pub pop : BufferPool → List ℕ → BufferPool × Option Buffer
pop pool [] = (pool, none)
pop pool (idx ∷ rest) = (
  record pool { free_list = rest },
  some (record { offset = idx * pool.buf_size % 2 ^ 64; size = pool.buf_size }),
)

-- An empty span is none.
unfoldable pub acquire : BufferPool → BufferPool × Option Buffer
acquire pool = pop pool pool.free_list

unfoldable pub release : BufferPool → Buffer → BufferPool
release pool buf = record pool { free_list = buf.offset / pool.buf_size % 2 ^ 32 ∷ pool.free_list }

unfoldable pub available : BufferPool → ℕ
available pool = length pool.free_list
