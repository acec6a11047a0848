-- ===== src/Syscalls/Heaps.antt =====
-- The heap under the system calls: every call of h/_sysCalls.hpp keeps the allocator's invariant.
use oskernel_riscv.Base.{
  if_both, ℕ, zero, suc, ◌+◌, ◌≡◌, refl, subst, inl, inr, Option, none, some, List, [], ◌∷◌, arith,
  ◌==◌, if◌then◌else◌, ◌>>=◌,
}
use oskernel_riscv.Base.Int.{ℤ, pos, negsuc}
use oskernel_riscv.Allocator.{size_header, Layout, Heap, header_of, kmalloc, kmfree}
use oskernel_riscv.Allocator.Chain.{Blocks}
use oskernel_riscv.Allocator.Valid.{IsLayout, Valid, init-eq}
use oskernel_riscv.Allocator.Search.{take_out}
use oskernel_riscv.Allocator.Release.{Returned, kmfree-take_out}
use oskernel_riscv.Allocator.Laws.{kmalloc-cases}
use oskernel_riscv.State.{Kernel}
use oskernel_riscv.Semaphore.{Reply, returns, begins, reads, continues}
use oskernel_riscv.Syscalls.{
  Machine, free_all, flush, finish, run, mem_alloc_wrapper, mem_free_wrapper, thread_create_wrapper,
  thread_exit_wrapper, thread_dispatch_wrapper, sem_open_wrapper, sem_close_wrapper,
  sem_wait_wrapper, sem_signal_wrapper, sem_timedwait_wrapper, sem_trywait_wrapper,
  time_sleep_wrapper, getc_wrapper, putc_wrapper, Ecall, malloc, mfree, thread_create, thread_exit,
  thread_dispatch, sem_open, sem_close, sem_wait, sem_signal, sem_timedwait, sem_trywait,
  time_sleep, getc, putc, unknown, ecall_of, call, ecall_handler,
}

-- The heap of free and taken blocks is as the allocator left it.
abbrev pub IsHeap : Layout → Heap → Type 0
IsHeap l h = (fs : Blocks) × (ts : Blocks) × Valid l h fs ts

-- A call of `kmfree` on a valid heap ends, whatever the pointer, and the heap stays valid.
pub kmfree-total :
    (l : Layout) (h : Heap) (p : ℕ)
    → IsLayout l
    → IsHeap l h
    → (r : ℤ) × (h' : Heap) × (kmfree p h ≡ some (r, h')) × IsHeap l h'
unfolding kmfree
kmfree-total l h zero is v = (pos 0, h, refl, v)
kmfree-total l h (suc p) is (fs, ts, v) =
    ended (take_out (header_of (suc p)) ts) (kmfree-take_out l h (suc p) fs ts is v (omega arith))
  where
    ended :
        (o : Option Blocks)
        → Returned l h o (kmfree (suc p) h)
        → (r : ℤ) × (h' : Heap) × (kmfree (suc p) h ≡ some (r, h')) × IsHeap l h'
    ended none e = (negsuc 0, h, e, (fs, ts, v))
    ended (some us) (h', e, (gs, w), _, _) = (pos 0, h', e, (gs, us, w))

-- On a valid heap the calls of `_kmfree` that the kernel made all end, whatever their pointers, and
-- leave a valid heap.
pub free_all-IsHeap :
    (l : Layout) (ps : List ℕ) (h : Heap)
    → IsLayout l
    → IsHeap l h
    → (h' : Heap) × (free_all ps h ≡ some h') × IsHeap l h'
unfolding free_all
free_all-IsHeap l [] h is v = (h, refl, v)
free_all-IsHeap l (p ∷ ps) h is v =
    let (r, h₁, e, w) = kmfree-total l h p is v in
    let (h₂, e₂, w₂) = free_all-IsHeap l ps h₁ is w in (h₂, rw (e, e₂), w₂)

-- A result, when there is one, has a valid heap.
Safe : Layout → Option (Reply × Machine) → Type 0
Safe l none = Unit {0}
Safe l (some (r, m)) = IsHeap l m.heap

finish-Safe :
    (l : Layout) (m : Machine) (q : Reply × Kernel)
    → IsLayout l
    → IsHeap l m.heap
    → Safe l (finish m q)
unfolding Safe flush
finish-Safe l m (reads, k) is v = let (h, e, w) = free_all-IsHeap l k.freed m.heap is v in rw e w
finish-Safe l m (returns z, k) is v =
    let (h, e, w) = free_all-IsHeap l k.freed m.heap is v in rw e w
finish-Safe l m (begins, k) is v = let (h, e, w) = free_all-IsHeap l k.freed m.heap is v in rw e w
finish-Safe l m (continues, k) is v =
    let (h, e, w) = free_all-IsHeap l k.freed m.heap is v in rw e w

run-Safe :
    (l : Layout) (m : Machine) (q : Option (Reply × Kernel))
    → IsLayout l
    → IsHeap l m.heap
    → Safe l (run m q)
unfolding Safe
run-Safe l m none is v = tt
run-Safe l m (some q) is v = finish-Safe l m q is v

pub kmalloc-IsHeap :
    (l : Layout) (h : Heap) (n : ℕ)
    → IsLayout l
    → IsHeap l h
    → (p : ℕ) × (h' : Heap) × (kmalloc l n h ≡ some (p, h')) × IsHeap l h'
unfolding kmalloc
kmalloc-IsHeap l h zero is (fs, ts, v) = (0, h, rw (init-eq v) refl, (fs, ts, v))
kmalloc-IsHeap l h (suc n) is (fs, ts, v) =
    elim (kmalloc-cases l h (suc n) fs ts is v (omega arith)) [
      | inl (f, e) ↦ (0, h, e, (fs, ts, v))
      | inr (a, gs, h', e, w, _, _) ↦ (a + size_header, h', e, (gs, (a, suc n) ∷ ts, w))
    ]

-- A call that allocates an object, runs its constructor on the kernel and stores the handle.
create-Safe :
    (l : Layout) (m : Machine) (n : ℕ) (f : ℕ × Heap → Machine)
    → ((r : ℕ × Heap) → (f r).heap ≡ r.1)
    → IsLayout l
    → IsHeap l m.heap
    → Safe l (kmalloc l n m.heap >>= λ r. if r.0 == 0 then none else some (returns (pos 0), f r))
unfolding Safe
create-Safe l m n f same is v =
    let (p, h, e, w) = kmalloc-IsHeap l m.heap n is v in
    rw e (if_both (Safe l) (p == 0) tt (rw (same (p, h)) w))

call-Safe :
    (l : Layout) (c : Ecall) (a1 a2 a3 a4 : ℕ) (m : Machine)
    → IsLayout l
    → IsHeap l m.heap
    → Safe l (call l c a1 a2 a3 a4 m)
unfolding Safe mem_alloc_wrapper mem_free_wrapper thread_create_wrapper thread_exit_wrapper
    thread_dispatch_wrapper sem_open_wrapper sem_close_wrapper sem_wait_wrapper sem_signal_wrapper
    sem_timedwait_wrapper sem_trywait_wrapper time_sleep_wrapper getc_wrapper putc_wrapper
call-Safe l malloc a1 a2 a3 a4 m is v = let (p, h, e, w) = kmalloc-IsHeap l m.heap a1 is v in rw e w
call-Safe l mfree a1 a2 a3 a4 m is v = let (r, h, e, w) = kmfree-total l m.heap a1 is v in rw e w
call-Safe l thread_create a1 a2 a3 a4 m is v = create-Safe l m _ _ (λ r. refl) is v
call-Safe l thread_exit a1 a2 a3 a4 m is v = run-Safe l m _ is v
call-Safe l thread_dispatch a1 a2 a3 a4 m is v = run-Safe l m _ is v
call-Safe l sem_open a1 a2 a3 a4 m is v = create-Safe l m _ _ (λ r. refl) is v
call-Safe l sem_close a1 a2 a3 a4 m is v = if_both (Safe l) (a1 == 0) v (run-Safe l m _ is v)
call-Safe l sem_wait a1 a2 a3 a4 m is v = if_both (Safe l) (a1 == 0) v (run-Safe l m _ is v)
call-Safe l sem_signal a1 a2 a3 a4 m is v = if_both (Safe l) (a1 == 0) v (run-Safe l m _ is v)
call-Safe l sem_timedwait a1 a2 a3 a4 m is v = if_both (Safe l) (a1 == 0) v (run-Safe l m _ is v)
call-Safe l sem_trywait a1 a2 a3 a4 m is v = if_both (Safe l) (a1 == 0) v v
call-Safe l time_sleep a1 a2 a3 a4 m is v = run-Safe l m _ is v
call-Safe l getc a1 a2 a3 a4 m is v = run-Safe l m _ is v
call-Safe l putc a1 a2 a3 a4 m is v = v
call-Safe l unknown a1 a2 a3 a4 m is v = v

-- A system call that returns leaves a valid heap if it found one. The handles that calls write and the kernel's
-- objects are modelled apart from the heap's words.
pub ecall_handler-IsHeap :
    (l : Layout) (code a1 a2 a3 a4 : ℕ) (m m' : Machine) (r : Reply)
    → IsLayout l
    → IsHeap l m.heap
    → ecall_handler l code a1 a2 a3 a4 m ≡ some (r, m')
    → IsHeap l m'.heap
unfolding ecall_handler Safe
ecall_handler-IsHeap l code a1 a2 a3 a4 m m' r is v e =
    subst (Safe l) e (call-Safe l (ecall_of code) a1 a2 a3 a4 m is v)
