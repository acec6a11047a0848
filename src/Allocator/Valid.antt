-- ===== src/Allocator/Valid.antt =====
-- The invariant of the allocator's state: what the lists in memory stand for.
use oskernel_riscv.Base.{ℕ, ◌+◌, ◌-◌, ◌*◌, ◌%◌, ◌^◌, ◌≤◌, ◌<◌, ◌≡◌, true, arith, length}
use oskernel_riscv.Allocator.{Layout, Heap, block_size, total_of, init, fuel_of}
use oskernel_riscv.Allocator.Chain.{Blocks, Chain}
use oskernel_riscv.Allocator.Cover.{All, Positive, Gapped, covers, cover, total, length-le-total}

-- What the kernel relies on of the addresses that the hardware library gives.
pub record IsLayout (l : Layout) : Type 0 where
  pub not_null : 0 < l.heap_start
  pub not_empty : l.heap_start + block_size ≤ l.heap_end
  pub in_words : l.heap_end < 2 ^ 64

-- Each block begins at a multiple of the block size and ends within the heap.
abbrev pub Placed : Layout → Blocks → Type 0
Placed l = All (λ b.
    (l.heap_start ≤ b.0)
    × ((b.0 - l.heap_start) % block_size ≡ 0)
    × (b.0 + b.1 * block_size ≤ l.heap_end))

-- The two lists in memory hold `fs` and `ts`; the free blocks are in address order and never
-- adjacent; every byte of the heap lies in exactly one block.
pub record Valid (l : Layout) (h : Heap) (fs ts : Blocks) : Type 0 where
  pub free_chain : Chain h.mem h.head_free fs
  pub taken_chain : Chain h.mem h.head_taken ts
  pub ordered : Gapped 0 fs
  pub sized_free : Positive fs
  pub sized_taken : Positive ts
  pub placed_free : Placed l fs
  pub placed_taken : Placed l ts
  pub tiled : (x : ℕ) → cover x fs + cover x ts ≡ covers l.heap_start (total_of l) x
  pub conserved : total fs + total ts ≡ total_of l
  pub counted : h.total_blocks ≡ total_of l
  pub ready : h.initialized ≡ true

module _ {l : Layout} {h : Heap} {fs ts : Blocks} (v : Valid l h fs ts) where
  -- The fuel of the search loops is enough.
  pub free_fits : length fs < fuel_of h
  free_fits = omega (arith, length-le-total fs v.sized_free, v.conserved, v.counted)

  pub taken_fits : length ts < fuel_of h
  taken_fits = omega (arith, length-le-total ts v.sized_taken, v.conserved, v.counted)

  pub init-eq : init l h ≡ h
  unfolding init
  init-eq = rw v.ready
