-- ===== src/Memory/Runs.antt =====
-- The properties of the memory pool at work, on a pool of two blocks of 8 bytes.
use socket_message.Prelude.{ℕ, ◌≡◌, ◌≤◌, ◌<◌, refl, [], ◌∷◌, some, none, ◌⊎◌, ◌^◌, arith, ◌+◌, ◌↔◌}
use mathlib.Core.List.{Nodup, Mem}
use socket_message.Memory.Pool.{
  Pool, in_pool, new_pool, malloc_int, alloc, chain, block_address, user_address, head_size,
}
use socket_message.Memory.Pool.Owner.{
  State, Reach, here, next, allocates, owned, blocks_owned_once, blocks_apart,
}
use socket_message.Memory.Mgr.{Class, class_size, Mgr, Ptr, alloc_memory, free_ptr, usable}
use socket_message.Memory.Mgr.Classes.{
  IsMgr, alloc_memory_fits, alloc_memory_wraps, free_ptr-alloc_memory,
}

abbrev two_blocks : Pool
two_blocks = record { block_max_size = 8; count = 2; memory = 64; free = 0 ∷ 1 ∷ []; heap = [] }

two_blocks_lem : new_pool 8 2 ≡ some two_blocks
unfolding new_pool malloc_int chain
two_blocks_lem = refl

-- One block is taken, and then the other.
abbrev one_held : State
one_held = record { pool = record two_blocks { free = 1 ∷ [] }; held = in_pool 0 ∷ [] }

held_reached : Reach (record { pool = two_blocks; held = [] }) one_held
unfolding alloc
held_reached = next here (allocates 1000 (one_held.pool, in_pool 0) refl refl)

blocks_owned_once_example : Nodup (owned one_held) × ((i : ℕ) → Mem i (owned one_held) ↔ (i < 2))
blocks_owned_once_example = blocks_owned_once 8 2 two_blocks one_held two_blocks_lem held_reached

blocks_apart_example :
    (user_address two_blocks 0 + 8 ≤ block_address two_blocks 1)
    × (block_address two_blocks 1 + head_size ≡ user_address two_blocks 1)
    × (user_address two_blocks 1 + 8 ≤ 64)
blocks_apart_example = blocks_apart 8 2 two_blocks 0 1 two_blocks_lem (omega arith) (omega arith)

-- Every pool with one block.
abbrev small_mgr : Mgr
small_mgr = record {
  pools = λ c. record {
    block_max_size = class_size c;
    count = 1;
    memory = class_size c + head_size;
    free = 0 ∷ [];
    heap = [];
  };
}

small_mgr-IsMgr : IsMgr small_mgr
small_mgr-IsMgr c = refl

alloc_memory_fits_example :
    ((9 + head_size < 2 ^ 31)
      × (r : Mgr × Ptr) × (alloc_memory small_mgr 9 1000 ≡ some r)
      × (9 ≤ usable r.0 r.1)
      × IsMgr r.0)
    ⊎ ((2 ^ 31 ≤ 9 + head_size) × (alloc_memory small_mgr 9 1000 ≡ none))
alloc_memory_fits_example = alloc_memory_fits small_mgr 9 1000 small_mgr-IsMgr (omega arith)

alloc_memory_wraps_example :
    (r : Mgr × Ptr) × (alloc_memory small_mgr 3000000000 1000 ≡ some r) × (usable r.0 r.1 ≡ 8)
alloc_memory_wraps_example =
    alloc_memory_wraps small_mgr 3000000000 1000 small_mgr-IsMgr (omega arith) (omega arith)

free_ptr-alloc_memory_example :
    (r : Mgr × Ptr) × (alloc_memory small_mgr 9 1000 ≡ some r)
    × ((d : Class) → (free_ptr r.0 r.1).pools d ≡ small_mgr.pools d)
free_ptr-alloc_memory_example = free_ptr-alloc_memory small_mgr 9 1000 small_mgr-IsMgr (omega arith)
