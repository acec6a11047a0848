-- ===== src/Tests/Heaps.antt =====
-- A heap of eight blocks at address 64.
use oskernel_riscv.Base.{◌≡◌, refl, false, some, [], ◌∷◌, arith}
use oskernel_riscv.Base.Int.{pos}
use oskernel_riscv.Allocator.{Layout, Heap, init, total_of, kmalloc, kmfree, header_of}
use oskernel_riscv.Allocator.Chain.{Blocks}
use oskernel_riscv.Allocator.Data.{Keeps, Spares}
use oskernel_riscv.Allocator.Valid.{IsLayout, Valid}
use oskernel_riscv.Allocator.Malloc.{Served, kmalloc-first_fit}
use oskernel_riscv.Allocator.Search.{take_out}
use oskernel_riscv.Allocator.Release.{Returned, kmfree-take_out}
use oskernel_riscv.Allocator.Laws.{init-Valid, kmfree-kmalloc}
use oskernel_riscv.Semaphore.{returns}
use oskernel_riscv.Syscalls.{Machine, ecall_handler}
use oskernel_riscv.Syscalls.Heaps.{IsHeap}
use oskernel_riscv.Api.{mem_alloc, mem_free}
use oskernel_riscv.Api.Laws.{Allocates, mem_alloc-Allocates, mem_free-mem_alloc, mem_alloc-kmalloc}
use oskernel_riscv.Tests.Kernels.{kernel}

abbrev pub layout : Layout
layout = record { heap_start = 64; heap_end = 576 }

abbrev pub fresh : Heap
fresh = record {
  mem = λ x. 0;
  head_free = 0;
  head_taken = 0;
  total_blocks = 0;
  initialized = false;
}

pub layout-IsLayout : IsLayout layout
layout-IsLayout = record { not_null = omega arith; not_empty = omega arith; in_words = omega arith }

abbrev pub blocks : Blocks
blocks = (64, 8) ∷ []

abbrev pub ready_heap : Heap
ready_heap = init layout fresh

pub ready_heap-Valid : Valid layout ready_heap blocks []
unfolding total_of
ready_heap-Valid = init-Valid layout fresh layout-IsLayout refl

-- Two blocks are taken from the front.
abbrev Carved : Type 0
Carved =
    (h : Heap) × (kmalloc layout 2 ready_heap ≡ some (80, h))
    × Valid layout h ((192, 6) ∷ []) ((64, 2) ∷ [])
    × Keeps layout ready_heap.mem h.mem
    × Spares [] ready_heap.mem h.mem

carved : Carved
carved =
    kmalloc-first_fit layout ready_heap 2 blocks [] layout-IsLayout ready_heap-Valid (omega arith)

-- Another heap with one block taken.
pub one_taken : (h : Heap) × (kmalloc layout 1 ready_heap ≡ some (80, h))
one_taken =
    let (h, e, w, _, _) =
      kmalloc-first_fit layout ready_heap 1 blocks [] layout-IsLayout ready_heap-Valid
        (omega arith) in
    (h, e)

pub machine-IsHeap : IsHeap layout ready_heap
machine-IsHeap = (blocks, [], ready_heap-Valid)

kmalloc-first_fit_example :
    Served layout 2 ready_heap [] (some (64, (192, 6) ∷ [])) (kmalloc layout 2 ready_heap)
kmalloc-first_fit_example =
    kmalloc-first_fit layout ready_heap 2 blocks [] layout-IsLayout ready_heap-Valid (omega arith)

kmfree-take_out_example :
    Returned layout carved.0 (take_out (header_of 80) ((64, 2) ∷ [])) (kmfree 80 carved.0)
kmfree-take_out_example =
    kmfree-take_out layout carved.0 80 ((192, 6) ∷ []) ((64, 2) ∷ []) layout-IsLayout carved.2
      (omega arith)

kmfree-kmalloc_example :
    (h : Heap) × (kmfree 80 carved.0 ≡ some (pos 0, h)) × Valid layout h blocks []
kmfree-kmalloc_example =
    kmfree-kmalloc layout ready_heap carved.0 2 80 blocks [] layout-IsLayout ready_heap-Valid
      (omega arith) carved.1 (omega arith)

abbrev pub machine : Machine
machine = record {
  heap = ready_heap;
  kernel = kernel;
  print_buffer = record { chars = λ i. 0; head = 0; tail = 0 };
  get_buffer = record { chars = λ i. 0; head = 0; tail = 0 };
  char_sem = 0;
  user = λ x. 0;
}

abbrev allocated : Machine
allocated = record machine { heap = carved.0 }

-- A hundred bytes and the header fit into two blocks.
alloc_call : mem_alloc layout 100 machine ≡ some (returns (pos 80), allocated)
alloc_call = mem_alloc-kmalloc layout machine 100 80 carved.0 carved.1

alloc_ecall : ecall_handler layout 1 2 0 0 0 machine ≡ some (returns (pos 80), allocated)
unfolding mem_alloc
alloc_ecall = alloc_call

mem_alloc-Allocates_example : Allocates layout 100 machine blocks [] (mem_alloc layout 100 machine)
mem_alloc-Allocates_example =
    mem_alloc-Allocates layout machine 100 blocks [] layout-IsLayout ready_heap-Valid (omega arith)

mem_free-mem_alloc_example :
    (h : Heap) × (mem_free layout 80 allocated
      ≡ some (returns (pos 0), record machine { heap = h }))
    × Valid layout h blocks []
mem_free-mem_alloc_example =
    mem_free-mem_alloc layout machine allocated 100 80 blocks [] layout-IsLayout ready_heap-Valid
      (omega arith) alloc_call (omega arith)
