-- ===== src/Memory/Pool/Owner.antt =====
-- MemoryPool.cpp: who holds a block, over any sequence of allocations and releases.
use mathlib.Core.List.{
  Perm, Nodup, Mem, perm_middle, Nodup-cons, Nodup-nil, not-mem-nil, mem-cons, mem-cons_of_mem,
}
use mathlib.Core.HLevel.{×_prop}
use native.Mathlib.Bridge.{le_prop}
use mathlib.Core.List.Perm
use mathlib.Core.Logic.Or
use socket_message.Prelude.{
  ℕ, zero, suc, ◌+◌, ◌*◌, ◌≤◌, ◌<◌, ◌≡◌, refl, sym, ap, subst, ◌∙◌, true, some, some-injective,
  >>=-eq-some, List, [], ◌∷◌, ◌++◌, inl, inr, arith, append_assoc, append-nil, Bool-cases, ◌==◌,
  ==_iff, ◌↔◌,
}
use socket_message.Memory.Pool.{
  head_size, Block, in_pool, alone, Pool, chain, new_pool, block_address, user_address, alloc_alone,
  alloc, free_memory, malloc_int,
}

-- The pool and the blocks that its callers hold.
pub record State : Type 0 where
  pub pool : Pool
  pub held : List Block

-- The pool's own blocks among these.
abbrev pub indices : List Block → List ℕ
indices [] = []
indices (in_pool i ∷ bs) = i ∷ indices bs
indices (alone a n ∷ bs) = indices bs

-- A call: an allocation, for which malloc would give `address`, or the release of a held block.
pub data Step (s t : State) : Type 0 where
  allocates :
      (address : ℕ) (r : Pool × Block)
      → alloc s.pool address ≡ some r
      → t ≡ record { pool = r.0; held = r.1 ∷ s.held }
      → Step s t
  releases :
      (before after : List Block) (b : Block)
      → s.held ≡ before ++ b ∷ after
      → t ≡ record { pool = free_memory s.pool b; held = before ++ after }
      → Step s t

pub data Reach (s : State) : State → Type 0 where
  here : Reach s s
  next : {t u : State} → Reach s t → Step t u → Reach s u

abbrev pub owned : State → List ℕ
owned s = s.pool.free ++ indices s.held

indices-append : (xs ys : List Block) → indices (xs ++ ys) ≡ indices xs ++ indices ys
indices-append [] ys = refl
indices-append (in_pool i ∷ xs) ys = ap (◌∷◌ i) (indices-append xs ys)
indices-append (alone a n ∷ xs) ys = indices-append xs ys

-- What an allocation leaves.
abbrev Leaves : List ℕ → List Block → Pool × Block → Type 0
Leaves free held r = Perm (r.0.free ++ indices (r.1 ∷ held)) (free ++ indices held)

alone-perm :
    (p : Pool) (held : List Block) (size address : ℕ) (r : Pool × Block)
    → alloc_alone p size address ≡ some r
    → Leaves p.free held r
unfolding alloc_alone
alone-perm p held size address r h =
    let (got, e1, e2) = >>=-eq-some (malloc_int (size + head_size)) _ h in
    subst (Leaves p.free held) (some-injective _ _ e2) (Perm.refl (p.free ++ indices held))

pub alloc_empty : (p : Pool) (a : ℕ) → p.free ≡ [] → alloc p a ≡ alloc_alone p p.block_max_size a
unfolding alloc
alloc_empty p a e = ground arith

pub alloc_first :
    (p : Pool) (a i : ℕ) (rest : List ℕ)
    → p.free ≡ i ∷ rest
    → alloc p a ≡ some (record p { free = rest }, in_pool i)
unfolding alloc
alloc_first p a i rest e = ground arith

alloc-perm :
    (p : Pool) (free : List ℕ) (held : List Block) (address : ℕ) (r : Pool × Block)
    → p.free ≡ free
    → alloc p address ≡ some r
    → Leaves free held r
alloc-perm p [] held address r e h =
    subst (λ l. Leaves l held r) e
      (alone-perm p held p.block_max_size address r (sym (alloc_empty p address e) ∙ h))
alloc-perm p (i ∷ rest) held address r e h =
    subst (Leaves (i ∷ rest) held) (some-injective _ _ (sym (alloc_first p address i rest e) ∙ h))
      (perm_middle rest (indices held))

free-perm :
    (p : Pool) (before after : List Block) (b : Block)
    → Perm
        ((free_memory p b).free ++ indices (before ++ after))
        (p.free ++ indices (before ++ b ∷ after))
unfolding free_memory
free-perm p before after (alone a n) =
    rw (indices-append before after, indices-append before (alone a n ∷ after)) (Perm.refl _)
free-perm p before after (in_pool i) =
    rw (indices-append before after, indices-append before (in_pool i ∷ after))
      (Perm.symm (
        rw
          (
            sym (append_assoc p.free (indices before) (i ∷ indices after)),
            sym (append_assoc p.free (indices before) (indices after)),
          )
          (perm_middle (p.free ++ indices before) (indices after))))

step-perm : {s t : State} → Step s t → Perm (owned t) (owned s)
step-perm {s} {t} (allocates address r got e) =
    rw e (alloc-perm s.pool s.pool.free s.held address r refl got)
step-perm {s} {t} (releases before after b held e) =
    rw e (rw held (free-perm s.pool before after b))

reach-perm : {s t : State} → Reach s t → Perm (owned t) (owned s)
reach-perm here = Perm.refl _
reach-perm (next r st) = Perm.trans (step-perm st) (reach-perm r)

-- Every number of the chain is at least its first.
chain_from : (i n a : ℕ) → Mem a (chain i n) → (i ≤ a) × (a < i + n)
unfolding chain
chain_from i zero a m = absurd (not-mem-nil m)
chain_from i (suc n) a m =
    Or.elim (×_prop le_prop le_prop) (mem-cons.0 m) (λ e. omega arith)
      (λ later. omega (arith, chain_from (suc i) n a later))

chain_holds : (i n a : ℕ) → i ≤ a → a < i + n → Mem a (chain i n)
unfolding chain
chain_holds i zero a lo hi = absurd (omega arith)
chain_holds i (suc n) a lo hi = elim (Bool-cases (a == i)) [
  | inl e ↦ mem-cons.1 (Or.inl ((==_iff a i).0 e))
  | inr ne ↦ mem-cons_of_mem i (chain_holds (suc i) n a (ground arith) (omega arith))
]

chain-Nodup : (i n : ℕ) → Nodup (chain i n)
unfolding chain
chain-Nodup i zero = Nodup-nil
chain-Nodup i (suc n) =
    Nodup-cons.1 ((λ m. absurd (omega (arith, chain_from (suc i) n i m))), chain-Nodup (suc i) n)

chain_zero : (count : ℕ) → (count == 0) ≡ true → chain 0 count ≡ []
unfolding chain
chain_zero zero e = refl
chain_zero (suc n) e = ground arith

new_pool-free :
    (max_size count : ℕ) (p : Pool) → new_pool max_size count ≡ some p → p.free ≡ chain 0 count
unfolding new_pool
new_pool-free max_size count p e = ground (arith, chain_zero count)

-- After any allocations and releases of held blocks on a new pool, each of its `count` blocks is
-- either in the chain of free blocks or held by a caller, and that once: none is lost, none is handed
-- out twice, and none is made up.
pub blocks_owned_once :
    (max_size count : ℕ) (p : Pool) (t : State)
    → new_pool max_size count ≡ some p
    → Reach (record { pool = p; held = [] }) t
    → Nodup (owned t) × ((i : ℕ) → Mem i (owned t) ↔ (i < count))
blocks_owned_once max_size count p t e r = (
  Perm.nodup (Perm.symm whole) (chain-Nodup 0 count),
  λ i. (
    (λ m. omega (arith, chain_from 0 count i ((Perm.mem_iff whole).0 m))),
    (λ lt. (Perm.mem_iff whole).1 (chain_holds 0 count i (omega arith) (omega arith))),
  ),
)
  where
    whole : Perm (owned t) (chain 0 count)
    whole =
        subst (Perm (owned t)) (append-nil p.free ∙ new_pool-free max_size count p e) (reach-perm r)

new_pool-memory :
    (max_size count : ℕ) (p : Pool)
    → new_pool max_size count ≡ some p
    → 0 < count
    → (p.block_max_size ≡ max_size) × (p.memory ≡ (max_size + head_size) * count)
unfolding new_pool malloc_int
new_pool-memory max_size count p e pos = ground arith

-- Two blocks of a new pool share no byte, heads included, and the later one ends within the memory that
-- the constructor took from malloc.
pub blocks_apart :
    (max_size count : ℕ) (p : Pool) (i j : ℕ)
    → new_pool max_size count ≡ some p
    → i < j
    → j < count
    → (user_address p i + p.block_max_size ≤ block_address p j)
      × (block_address p j + head_size ≡ user_address p j)
      × (user_address p j + p.block_max_size ≤ p.memory)
unfolding user_address block_address
blocks_apart max_size count p i j e lt fits =
    let (size, memory) = new_pool-memory max_size count p e (omega arith) in
    (
      grind arith,
      refl,
      ends p.block_max_size p.memory j count (memory ∙ ap (λ n. (n + head_size) * count) (sym size))
          fits,
    )
  where
    ends :
        (size memory j count : ℕ)
        → memory ≡ (size + head_size) * count
        → j < count
        → (size + head_size) * j + head_size + size ≤ memory
    ends size memory j count e lt = grind arith
