-- ===== src/Syscalls/Needs.antt =====
-- What the system calls rely on in memory. The kernel's objects and lists are modelled apart from the heap's words,
-- so these conditions say when the code finds them there.
use oskernel_riscv.Base.{ℕ, ◌≤◌, ◌<◌, ◌≡◌, ◌⊎◌, some}
use oskernel_riscv.Allocator.{Layout, Heap, header_of, kmalloc}
use oskernel_riscv.Allocator.Chain.{Blocks}
use oskernel_riscv.Allocator.Cover.{total}
use oskernel_riscv.Allocator.Valid.{Valid}
use oskernel_riscv.Allocator.Data.{IsData}
use oskernel_riscv.Allocator.Search.{take_out}
use oskernel_riscv.Syscalls.{
  Machine, blocks_for, size_of_thread, Ecall, malloc, mfree, thread_create, thread_exit,
  thread_dispatch, sem_open, sem_close, sem_wait, sem_signal, sem_timedwait, sem_trywait,
  time_sleep, getc, putc, unknown,
}

-- Two elements of lists, of one block each, can be allocated.
abbrev pub RoomForElements : Layout → Heap → Type 0
RoomForElements l h = (fs : Blocks) × (ts : Blocks) × Valid l h fs ts × (2 ≤ total fs)

-- The object at `p` is in a block that was not given back.
abbrev pub IsTaken : Layout → Heap → ℕ → Type 0
IsTaken l h p =
    (fs : Blocks) × (ts : Blocks) × (us : Blocks) × Valid l h fs ts
    × (take_out (header_of p) ts ≡ some us)

-- A handle may be null.
abbrev pub IsHandle : Layout → Heap → ℕ → Type 0
IsHandle l h p = (p ≡ 0) ⊎ IsTaken l h p

-- A word outside the heap, or in no header.
abbrev pub IsWritable : Layout → ℕ → Type 0
IsWritable l p = (p < l.heap_start) ⊎ (l.heap_end ≤ p) ⊎ IsData l p

-- A new thread is put into the ready queue behind its allocation, and a call that may switch inserts the
-- running thread into one list or two. A call that wakes a thread frees an element before it inserts one.
abbrev pub Needs : Layout → Ecall → ℕ → Machine → Type 0
Needs l malloc a1 m = Unit {0}
Needs l mfree a1 m = Unit {0}
Needs l thread_create a1 m =
    IsWritable l a1
    × (p : ℕ) × (h : Heap) × (kmalloc l (blocks_for size_of_thread) m.heap ≡ some (p, h))
    × RoomForElements l h
Needs l thread_exit a1 m = IsHandle l m.heap (m.kernel.threads m.kernel.current).parent_thread
Needs l thread_dispatch a1 m = RoomForElements l m.heap
Needs l sem_open a1 m = IsWritable l a1
Needs l sem_close a1 m = IsHandle l m.heap a1
Needs l sem_wait a1 m = IsHandle l m.heap a1 × RoomForElements l m.heap
Needs l sem_signal a1 m = IsHandle l m.heap a1
Needs l sem_timedwait a1 m = IsHandle l m.heap a1 × RoomForElements l m.heap
Needs l sem_trywait a1 m = IsHandle l m.heap a1
Needs l time_sleep a1 m = RoomForElements l m.heap
Needs l getc a1 m = IsTaken l m.heap m.char_sem × RoomForElements l m.heap
Needs l putc a1 m = Unit {0}
Needs l unknown a1 m = ⊥
