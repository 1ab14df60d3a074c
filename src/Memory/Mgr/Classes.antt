-- ===== src/Memory/Mgr/Classes.antt =====
-- MemoryMgr.cpp: which block a request gets, and where it goes back to.
use socket_message.Prelude.{
  ℕ, ◌+◌, ◌^◌, ◌≤◌, ◌<◌, ◌≡◌, ◌≢◌, refl, sym, ap, ◌∙◌, true, none, some, List, [], ◌∷◌, ◌⊎◌, inl,
  inr, arith, ==_refl, Bool-cases, subst, ltb, ltb→lt, ltb→le,
}
use socket_message.Memory.Pool.{
  Pool, Block, in_pool, alone, alloc, alloc_alone, bytes_of, free_memory, erase, head_size,
  malloc_int,
}
use socket_message.Memory.Pool.Owner.{alloc_empty, alloc_first}
use socket_message.Memory.Mgr.{
  Class, c8, other, Ptr, Mgr, class_size, class_of, to_int, same_class, update, class_alloc,
  alloc_memory, free_ptr, usable,
}

-- Each pool has the block size of its class.
abbrev pub IsMgr : Mgr → Type 0
IsMgr m = (c : Class) → (m.pools c).block_max_size ≡ class_size c

-- A class in which a request finds room. What malloc is asked for always has it.
abbrev pub HasRoom : ℕ → Class → Type 0
HasRoom size c = (c ≡ other) ⊎ (size ≤ class_size c)

class_of-HasRoom : (size : ℕ) → HasRoom size (class_of size)
unfolding class_of
class_of-HasRoom size = ground arith

class_of_least :
    (size : ℕ) (c : Class)
    → c ≢ other
    → size ≤ class_size c
    → (class_of size ≢ other) × (class_size (class_of size) ≤ class_size c)
unfolding class_of
class_of_least size other h le = absurd (h refl)
class_of_least size c h le = (λ e. ground arith, ground arith)

class_size_small : (c : Class) → class_size c + head_size < 2 ^ 31
class_size_small c = ground arith

free-size : (p : Pool) (b : Block) → (free_memory p b).block_max_size ≡ p.block_max_size
unfolding free_memory
free-size p (in_pool i) = refl
free-size p (alone a n) = refl

-- What an allocation of a pool promises: a block of `size` bytes, that goes back to where it came from.
abbrev Gives : Pool → ℕ → Pool × Block → Type 0
Gives p size r =
    (r.0.block_max_size ≡ p.block_max_size) × (bytes_of r.0 r.1 ≡ size) × (free_memory r.0 r.1 ≡ p)

malloc_fits : (size : ℕ) → size < 2 ^ 31 → malloc_int size ≡ some size
unfolding malloc_int
malloc_fits size h = ground arith

malloc_null : (size : ℕ) → 2 ^ 31 ≤ size → malloc_int size ≡ none
unfolding malloc_int
malloc_null size h = ground arith

alone-Gives :
    (p : Pool) (size a : ℕ)
    → size + head_size < 2 ^ 31
    → (r : Pool × Block) × (alloc_alone p size a ≡ some r) × Gives p size r
unfolding alloc_alone bytes_of free_memory erase
alone-Gives p size a fits = (
  (record p { heap = a ∷ p.heap }, alone a size),
  rw (malloc_fits (size + head_size) fits)
      (ap (λ n. some (record p { heap = a ∷ p.heap }, alone a n)) (omega arith)),
  (refl, refl, rw (==_refl a) refl),
)

alloc-Gives :
    (p : Pool) (free : List ℕ) (a : ℕ)
    → p.free ≡ free
    → p.block_max_size + head_size < 2 ^ 31
    → (r : Pool × Block) × (alloc p a ≡ some r) × Gives p p.block_max_size r
unfolding bytes_of free_memory
alloc-Gives p [] a e fits =
    let (r, made, gives) = alone-Gives p p.block_max_size a fits in
    (r, alloc_empty p a e ∙ made, gives)
alloc-Gives p (i ∷ rest) a e fits = (
  (record p { free = rest }, in_pool i),
  alloc_first p a i rest e,
  (refl, refl, ap (λ l. record p { free = l }) (sym e)),
)

-- The bytes that a class gives for a request.
abbrev given : Class → ℕ → ℕ
given other size = size
given c size = class_size c

class_alloc-Gives :
    (p : Pool) (c : Class) (size a : ℕ)
    → p.block_max_size ≡ class_size c
    → size + head_size < 2 ^ 31
    → (r : Pool × Block) × (class_alloc p c size a ≡ some r) × Gives p (given c size) r
unfolding class_alloc
class_alloc-Gives p other size a h fits = alone-Gives p size a fits
class_alloc-Gives p c size a h fits =
    let small = class_size_small c in
    let (r, made, (same, bytes, back)) = alloc-Gives p p.free a refl (omega arith) in
    (r, made, (same, bytes ∙ h, back))

update-size :
    (pools : Class → Pool) (c : Class) (p : Pool) (d : Class)
    → p.block_max_size ≡ class_size c
    → (pools d).block_max_size ≡ class_size d
    → (update pools c p d).block_max_size ≡ class_size d
update-size pools c p d hc hd = ground arith

class_eq : (c d : Class) → same_class c d ≡ true → c ≡ d
class_eq c d e = ground arith

-- Taken from a class and given back to it at once.
update-back :
    (pools : Class → Pool) (c : Class) (p : Pool) (b : Block) (d : Class)
    → free_memory p b ≡ pools c
    → update (update pools c p) c (free_memory (update pools c p c) b) d ≡ pools d
update-back pools c p b d back = elim (Bool-cases (same_class c d)) [
  | inr e ↦ rw e
  | inl e ↦ rw (e, ==_refl (class_size c)) (back ∙ ap pools (class_eq c d e))
]

-- What operator new promises of a request of `size` bytes.
pub record Serves (m : Mgr) (size : ℕ) (r : Mgr × Ptr) : Type 0 where
  pub keeps : IsMgr r.0
  pub class_is : r.1.class ≡ class_of (to_int size)
  pub bytes : usable r.0 r.1 ≡ given (class_of (to_int size)) (to_int size)
  pub back : (d : Class) → (free_ptr r.0 r.1).pools d ≡ m.pools d

alloc_memory-Serves :
    (m : Mgr) (size address : ℕ)
    → IsMgr m
    → to_int size + head_size < 2 ^ 31
    → (r : Mgr × Ptr) × (alloc_memory m size address ≡ some r) × Serves m size r
unfolding alloc_memory usable free_ptr
alloc_memory-Serves m size address h fits =
    let c = class_of (to_int size) in
    let (r, made, (same, bytes, back)) =
      class_alloc-Gives (m.pools c) c (to_int size) address (h c) fits in
    (
      (record { pools = update m.pools c r.0 }, record { class = c; block = r.1 }),
      rw made refl,
      record {
        keeps = λ d. update-size m.pools c r.0 d (same ∙ h c) (h d);
        class_is = refl;
        bytes = rw (==_refl (class_size c)) bytes;
        back = λ d. update-back m.pools c r.0 r.1 d back;
      },
    )

to_int_small : (size : ℕ) → size < 2 ^ 31 → to_int size ≡ size
unfolding to_int
to_int_small size h = ground arith

class_of-given : (size : ℕ) → size ≤ given (class_of size) size
unfolding class_of
class_of-given size = ground arith

class_of_large : (size : ℕ) → 2048 < size → class_of size ≡ other
unfolding class_of
class_of_large size h = ground arith

alloc_memory_null :
    (m : Mgr) (size address : ℕ)
    → to_int size ≡ size
    → 2 ^ 31 ≤ size + head_size
    → alloc_memory m size address ≡ none
unfolding alloc_memory class_alloc alloc_alone
alloc_memory_null m size address same h =
    rw (same, class_of_large size (omega arith), malloc_null (size + head_size) h) refl

-- A request of under 2 ^ 31 bytes gets a block with room for it, and leaves every pool with the block
-- size of its class, as before, if the request and the head of a block stay below 2 ^ 31 together.
-- Otherwise the size of the block has become negative, malloc gives NULL, and the code writes there.
pub alloc_memory_fits :
    (m : Mgr) (size address : ℕ)
    → IsMgr m
    → size < 2 ^ 31
    → ((size + head_size < 2 ^ 31)
        × (r : Mgr × Ptr) × (alloc_memory m size address ≡ some r)
        × (size ≤ usable r.0 r.1)
        × IsMgr r.0)
      ⊎ ((2 ^ 31 ≤ size + head_size) × (alloc_memory m size address ≡ none))
alloc_memory_fits m size address h small =
    let same = to_int_small size small in
    elim (Bool-cases (ltb (size + head_size) (2 ^ 31))) [
      | inl fits ↦
          let le = ltb→lt (size + head_size) (2 ^ 31) fits in
          let (r, made, serves) = alloc_memory-Serves m size address h (omega arith) in
          inl (
            le,
            r,
            made,
            subst (λ n. n ≤ usable r.0 r.1) same
                (subst (λ n. to_int size ≤ n) (sym serves.bytes) (class_of-given (to_int size))),
            serves.keeps,
          )
      | inr over ↦
          let ge = ltb→le (size + head_size) (2 ^ 31) over in
          inr (ge, alloc_memory_null m size address same ge)
    ]

least_given :
    (size : ℕ) (c : Class)
    → c ≢ other
    → size ≤ class_size c
    → given (class_of size) size ≤ class_size c
unfolding class_of
least_given size other ne le = absurd (ne refl)
least_given size c ne le = ground arith

-- A request for which a class `c` of pooled blocks has room gets a block that is no larger than the
-- blocks of `c`: the smallest class with room serves it.
pub alloc_memory_least :
    (m : Mgr) (size address : ℕ) (c : Class)
    → IsMgr m
    → c ≢ other
    → size ≤ class_size c
    → (r : Mgr × Ptr) × (alloc_memory m size address ≡ some r) × (usable r.0 r.1 ≤ class_size c)
alloc_memory_least m size address c h ne le =
    let small = class_size_small c in
    let same = to_int_small size (omega arith) in
    let (r, made, serves) = alloc_memory-Serves m size address h (omega arith) in
    (
      r,
      made,
      subst (λ n. n ≤ class_size c) (sym (serves.bytes ∙ ap (λ n. given (class_of n) n) same))
          (least_given size c ne le),
    )

negative_size :
    (size : ℕ) → 2 ^ 31 ≤ size → size < 2 ^ 32 → (to_int size ≡ 0) × (class_of (to_int size) ≡ c8)
unfolding class_of to_int
negative_size size lo hi = (ground arith, ground arith)

-- operator new converts its size to an `int`: a request of 2 ^ 31 bytes or more, and less than
-- 2 ^ 32, becomes negative, and gets a block of 8 bytes.
pub alloc_memory_wraps :
    (m : Mgr) (size address : ℕ)
    → IsMgr m
    → 2 ^ 31 ≤ size
    → size < 2 ^ 32
    → (r : Mgr × Ptr) × (alloc_memory m size address ≡ some r) × (usable r.0 r.1 ≡ 8)
alloc_memory_wraps m size address h lo hi =
    let (zero_size, eight) = negative_size size lo hi in
    let (r, made, serves) = alloc_memory-Serves m size address h (omega arith) in
    (r, made, serves.bytes ∙ ap (λ c. given c (to_int size)) eight)

-- operator delete right after operator new restores every pool: the block goes back, by the pool that
-- its head names, to where it came from, be it a free block or memory of malloc. The request and the
-- head of a block stay below 2 ^ 31 together, so that operator new returns.
pub free_ptr-alloc_memory :
    (m : Mgr) (size address : ℕ)
    → IsMgr m
    → size + head_size < 2 ^ 31
    → (r : Mgr × Ptr) × (alloc_memory m size address ≡ some r)
      × ((d : Class) → (free_ptr r.0 r.1).pools d ≡ m.pools d)
free_ptr-alloc_memory m size address h fits =
    let same = to_int_small size (omega arith) in
    let (r, made, serves) = alloc_memory-Serves m size address h (omega arith) in
    (r, made, serves.back)
