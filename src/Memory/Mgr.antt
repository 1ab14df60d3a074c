-- ===== src/Memory/Mgr.antt =====
-- MemoryMgr.cpp: one pool for each size class, and MemoryHook.cpp, which makes it the operators new
-- and delete. A head names the pool of its block.
use socket_message.Prelude.{
  ℕ, zero, suc, ◌+◌, ◌*◌, ◌%◌, ◌^◌, ◌≤◌, ◌<◌, ◌≡◌, refl, Bool, true, false, ◌&&◌, Option, none,
  some, List, [], ◌∷◌, ◌++◌, ◌⊎◌, inl, inr, arith, ltb, leb, ◌==◌, if◌then◌else◌, ◌>>=◌, Bool-cases,
}
pub mod Classes
use socket_message.Memory.Pool.{
  Pool, Block, in_pool, alone, new_pool, alloc, alloc_alone, bytes_of, free_memory, chain,
}

pub data Class : Type 0 where
  c8 c16 c32 c64 c128 c256 c512 c1024 c2048 other : Class

-- What a pointer's head says of it: the pool and the block.
pub record Ptr : Type 0 where
  pub class : Class
  pub block : Block

pub record Mgr : Type 0 where
  pub pools : Class → Pool

-- The block size of each class, and the CONFIG_MEMORY_POOL counts.
abbrev pub class_size : Class → ℕ
class_size c8 = 8
class_size c16 = 16
class_size c32 = 32
class_size c64 = 64
class_size c128 = 128
class_size c256 = 256
class_size c512 = 512
class_size c1024 = 1024
class_size c2048 = 2048
class_size other = 0

abbrev pub class_count : Class → ℕ
class_count c8 = 2048
class_count c16 = 2048
class_count c32 = 102400
class_count c64 = 2048
class_count c128 = 1024
class_count c256 = 2048
class_count c512 = 1024
class_count c1024 = 1024
class_count c2048 = 1024
class_count other = 0

-- The constructor's pools.
unfoldable pub pool_of : Class → Option Pool
pool_of c = new_pool (class_size c) (class_count c)

-- The comparisons of AllocMemory(int size).
unfoldable pub class_of : ℕ → Class
class_of size =
    if leb size 8
    then c8
    else (if leb size 16
        then c16
        else (if leb size 32
            then c32
            else (if leb size 64
                then c64
                else (if leb size 128
                    then c128
                    else (if leb size 256
                        then c256
                        else (if leb size 512
                            then c512
                            else (if leb size 1024
                                then c1024
                                else (if leb size 2048 then c2048 else other))))))))

-- The conversion of the `size_t` that operator new gets to the `int` of AllocMemory; a negative size
-- passes the first comparison, as 0 does.
unfoldable pub to_int : ℕ → ℕ
to_int size = if ltb (size % 2 ^ 32) (2 ^ 31) then size % 2 ^ 32 else 0

-- The classes have different sizes.
abbrev same_class : Class → Class → Bool
same_class c d = class_size c == class_size d

abbrev update : (Class → Pool) → Class → Pool → Class → Pool
update pools c p d = if same_class c d then p else pools d

unfoldable pub class_alloc : Pool → Class → ℕ → ℕ → Option (Pool × Block)
class_alloc p other size address = alloc_alone p size address
class_alloc p c size address = alloc p address

-- operator new, and AllocMemory: `address` is what malloc would return.
unfoldable pub alloc_memory : Mgr → ℕ → ℕ → Option (Mgr × Ptr)
alloc_memory m size address =
    let c = class_of (to_int size) in
    class_alloc (m.pools c) c (to_int size) address >>= λ r.
    some (record { pools = update m.pools c r.0 }, record { class = c; block = r.1 })

-- operator delete, and FreeMemory: `oldBlock->Pool->FreeMemory(ptr)`.
unfoldable pub free_ptr : Mgr → Ptr → Mgr
free_ptr m ptr = record {
  pools = update m.pools ptr.class (free_memory (m.pools ptr.class) ptr.block);
}

-- How many bytes the caller may use: those of a block of the pool, or what malloc gave behind the head.
unfoldable pub usable : Mgr → Ptr → ℕ
usable m ptr = bytes_of (m.pools ptr.class) ptr.block
