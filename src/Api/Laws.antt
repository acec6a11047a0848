-- ===== src/Api/Laws.antt =====
-- What user programs may rely on of `mem_alloc` and `mem_free`.
use oskernel_riscv.Base.{
  ℕ, ◌+◌, ◌*◌, ◌^◌, ◌≤◌, ◌<◌, ◌≡◌, sym, ap, ◌∙◌, subst, ◌≢◌, inl, inr, Option, some, [], ◌∷◌, arith,
}
use oskernel_riscv.Base.Int.{ℤ, pos, negsuc}
use oskernel_riscv.Allocator.{size_header, block_size, Layout, Heap, kmalloc, kmfree}
use oskernel_riscv.Allocator.Chain.{Blocks}
use oskernel_riscv.Allocator.Cover.{All}
use oskernel_riscv.Allocator.Data.{Keeps, Spares}
use oskernel_riscv.Allocator.Valid.{IsLayout, Valid}
use oskernel_riscv.Allocator.Laws.{kmalloc-cases, kmfree-kmalloc}
use oskernel_riscv.Semaphore.{Reply, returns}
use oskernel_riscv.Syscalls.{
  Machine, blocks_for, ecall_handler, mem_alloc_wrapper, mem_free_wrapper, ecall_of,
}
use oskernel_riscv.Api.{default_stack_size, create_on, thread_create, mem_alloc, mem_free}

-- The number of blocks is the least with room for the header and the bytes asked for, as long as the
-- rounding does not overflow.
pub blocks_for-least :
    (size : ℕ)
    → size + 79 < 2 ^ 64
    → (size_header + size ≤ blocks_for size * block_size)
      × (blocks_for size * block_size < size_header + size + block_size)
blocks_for-least size small = omega arith

-- For a size of at least 2^64 - 15 the sum wraps around, and `mem_alloc` asks for one block.
pub blocks_for-overflow : (size : ℕ) → 2 ^ 64 ≤ size + 15 → size < 2 ^ 64 → blocks_for size ≡ 1
blocks_for-overflow size big small = omega arith

-- What `mem_alloc` of `size` bytes may do on a valid heap.
pub data Allocates (l : Layout) (size : ℕ) (m : Machine) (fs ts : Blocks)
    (r : Option (Reply × Machine)) : Type 0 where
  refused :
      All (λ b. b.1 * block_size < size_header + size) fs
      → r ≡ some (returns (pos 0), m)
      → Allocates l size m fs ts r
  granted :
      (a n : ℕ) (gs : Blocks) (h : Heap)
      → r ≡ some (returns (pos (a + size_header)), record m { heap = h })
      → Valid l h gs ((a, n) ∷ ts)
      → size_header + size ≤ n * block_size
      → Keeps l m.heap.mem h.mem
      → Spares ts m.heap.mem h.mem
      → Allocates l size m fs ts r

module _ (size : ℕ) (small : size + 79 < 2 ^ 64) where
  -- A block of fewer blocks than `blocks_for` has too few bytes.
  too_few :
      (fs : Blocks)
      → All (λ b. b.1 < blocks_for size) fs
      → All (λ b. b.1 * block_size < size_header + size) fs
  too_few [] f = tt
  too_few ((a, n) ∷ fs) (lt, f) = (omega arith, too_few fs f)

-- On a valid heap, `mem_alloc` of a size without overflow returns null and changes nothing, which
-- happens only if no free block has the bytes; or the pointer behind the header of a block that is
-- now taken and has room for them. It changes no word behind the header of a block that was taken before, and none but
-- the first two words of units of the heap.
pub mem_alloc-Allocates :
    (l : Layout) (m : Machine) (size : ℕ) (fs ts : Blocks)
    → IsLayout l
    → Valid l m.heap fs ts
    → size + 79 < 2 ^ 64
    → Allocates l size m fs ts (mem_alloc l size m)
unfolding mem_alloc ecall_handler ecall_of mem_alloc_wrapper
mem_alloc-Allocates l m size fs ts is v small =
    elim (kmalloc-cases l m.heap (blocks_for size) fs ts is v (omega arith)) [
      | inl (f, e) ↦ refused (too_few size small fs f) (rw e)
      | inr (a, gs, h, e, w, k, d) ↦ granted a (blocks_for size) gs h (rw e) w (omega arith) k d
    ]

pub mem_alloc-kmalloc :
    (l : Layout) (m : Machine) (size q : ℕ) (h : Heap)
    → kmalloc l (blocks_for size) m.heap ≡ some (q, h)
    → mem_alloc l size m ≡ some (returns (pos q), record m { heap = h })
unfolding mem_alloc ecall_handler ecall_of mem_alloc_wrapper
mem_alloc-kmalloc l m size q h e = rw e

mem_free-kmfree :
    (l : Layout) (m : Machine) (p : ℕ) (z : ℤ) (h : Heap)
    → kmfree p m.heap ≡ some (z, h)
    → mem_free l p m ≡ some (returns z, record m { heap = h })
unfolding mem_free ecall_handler ecall_of mem_free_wrapper
mem_free-kmfree l m p z h e = rw e

-- The pointer and the machine of a returned result.
result_of : ℕ → Machine → Option (Reply × Machine) → ℕ × Machine
result_of p m (some (returns (pos q), m')) = (q, m')
result_of p m r = (p, m)

-- `mem_free` of the pointer that `mem_alloc` returned puts the machine back: it returns 0, the free
-- and the taken blocks are those from before, and outside the heap nothing has changed.
pub mem_free-mem_alloc :
    (l : Layout) (m m₁ : Machine) (size p : ℕ) (fs ts : Blocks)
    → IsLayout l
    → Valid l m.heap fs ts
    → size + 79 < 2 ^ 64
    → mem_alloc l size m ≡ some (returns (pos p), m₁)
    → p ≢ 0
    → (h : Heap) × (mem_free l p m₁ ≡ some (returns (pos 0), record m { heap = h }))
      × Valid l h fs ts
unfolding result_of
mem_free-mem_alloc l m m₁ size p fs ts is v small e nz =
    elim (kmalloc-cases l m.heap (blocks_for size) fs ts is v (omega arith)) [
      | inl (f, r) ↦
          absurd
            (nz (ap (λ o. (result_of p m o).0) (sym e ∙ mem_alloc-kmalloc l m size 0 m.heap r)))
      | inr (a, gs, g, r, w, k, _) ↦
          let same =
            ap (result_of p m) (sym e ∙ mem_alloc-kmalloc l m size (a + size_header) g r) in
          let (h, ran, back) =
            kmfree-kmalloc l m.heap g (blocks_for size) (a + size_header) fs ts is v (omega arith) r
              (omega arith) in
          (
            h,
            subst
                (λ (q : ℕ × Machine).
                  mem_free l q.0 q.1 ≡ some (returns (pos 0), record m { heap = h }))
                (sym same)
                (mem_free-kmfree l (record m { heap = g }) (a + size_header) (pos 0) h ran),
            back,
          )
    ]

-- `thread_create` without memory for a stack.
pub thread_create-no_stack :
    (l : Layout) (handle body arg : ℕ) (m : Machine)
    → kmalloc l (blocks_for default_stack_size) m.heap ≡ some (0, m.heap)
    → thread_create l handle body arg m ≡ some (returns (negsuc 0), m)
unfolding thread_create create_on
thread_create-no_stack l handle body arg m e =
    rw (mem_alloc-kmalloc l m default_stack_size 0 m.heap e)
