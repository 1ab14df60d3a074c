-- ===== src/Memory/Pool.antt =====
-- MemoryPool.cpp: blocks of one size in a chain of free blocks, and a fallback to malloc. A block is
-- named by its index in `m_pMemory`; a block of its own by the address that malloc gave.
use socket_message.Prelude.{
  ℕ, zero, suc, ◌+◌, ◌*◌, ◌≤◌, ◌<◌, ◌≡◌, Bool, true, false, ◌&&◌, Option, none, some, List, [], ◌∷◌,
  ◌++◌, arith, ltb, leb, ◌==◌, if◌then◌else◌, ◌>>=◌, ◌^◌, ◌-◌,
}
pub mod Owner

-- `sizeof(MemoryPoolHead)`: two pointers and a padded bool on a 64-bit machine.
abbrev pub head_size : ℕ
head_size = 24

-- Whose memory a pointer is; `in_pool` has IsBlock set, and `alone` was taken from malloc.
pub data Block : Type 0 where
  in_pool : ℕ → Block
  -- The address, and the bytes behind the head.
  alone : ℕ → ℕ → Block

-- `memory` is the size of m_pMemory, as malloc was asked for it; `free` is the chain from m_pHead along Next;
-- `heap` holds the blocks taken from malloc.
pub record Pool : Type 0 where
  pub block_max_size : ℕ
  pub count : ℕ
  pub memory : ℕ
  pub free : List ℕ
  pub heap : List ℕ

-- The chain that the constructor's loop builds, from block `i` on, `n` of them.
unfoldable pub chain : ℕ → ℕ → List ℕ
chain i zero = []
chain i (suc n) = i ∷ chain (suc i) n

-- malloc of an `int`, which gives the bytes asked for: a size of 2 ^ 31 or more has become negative, and
-- so a `size_t` that malloc answers with NULL, through which the code then writes.
unfoldable pub malloc_int : ℕ → Option ℕ
malloc_int size = if leb (2 ^ 31) size then none else some size

-- The constructor, with `blockAllSize * count` as an `int`, beyond which C++ does not define it. Without
-- a block (and not 0 for both) `lastBlock` would lie before the memory.
unfoldable pub new_pool : ℕ → ℕ → Option Pool
new_pool max_size count =
    if max_size == 0 && count == 0
    then some (record { block_max_size = max_size; count = 0; memory = 0; free = []; heap = [] })
    else (if count == 0
        then none
        else malloc_int ((max_size + head_size) * count) >>= λ memory. some (record {
          block_max_size = max_size;
          count = count;
          memory = memory;
          free = chain 0 count;
          heap = [];
        }))

-- Where block `i` begins in `m_pMemory`, and where its head ends and the caller's bytes begin.
unfoldable pub block_address : Pool → ℕ → ℕ
block_address p i = (p.block_max_size + head_size) * i

unfoldable pub user_address : Pool → ℕ → ℕ
user_address p i = block_address p i + head_size

-- AllocMemory(size), with `blockAllSize` as an `int`: `address` is what malloc returns for a size that is
-- not negative.
unfoldable pub alloc_alone : Pool → ℕ → ℕ → Option (Pool × Block)
alloc_alone p size address = malloc_int (size + head_size) >>= λ got.
    some (record p { heap = address ∷ p.heap }, alone address (got - head_size))

-- AllocMemory()
unfoldable pub alloc : Pool → ℕ → Option (Pool × Block)
alloc p address = elim p.free [
  | [] ↦ alloc_alone p p.block_max_size address
  | i ∷ rest ↦ some (record p { free = rest }, in_pool i)
]

-- How many bytes behind the head of a block its caller may use.
unfoldable pub bytes_of : Pool → Block → ℕ
bytes_of p (in_pool i) = p.block_max_size
bytes_of p (alone address bytes) = bytes

unfoldable pub erase : ℕ → List ℕ → List ℕ
erase a [] = []
erase a (x ∷ xs) = if a == x then xs else x ∷ erase a xs

-- FreeMemory
unfoldable pub free_memory : Pool → Block → Pool
free_memory p (in_pool i) = record p { free = i ∷ p.free }
free_memory p (alone address bytes) = record p { heap = erase address p.heap }
