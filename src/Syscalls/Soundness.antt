-- ===== src/Syscalls/Soundness.antt =====
-- Every system call that a well-behaved program makes returns, and leaves the whole machine sound.
use oskernel_riscv.Base.{ℕ, ◌^◌, ◌<◌, ◌≡◌, refl, sym, subst, ◌≢◌, true, false, Option, some, []}
use oskernel_riscv.Base.Int.{pos, is_pos}
use oskernel_riscv.Allocator.{Layout, Heap, kmalloc}
use oskernel_riscv.Allocator.Valid.{IsLayout}
use oskernel_riscv.State.{Kernel, is_thread_valid}
use oskernel_riscv.Semaphore.{Reply, returns, begins, reads, continues}
use oskernel_riscv.Console.{get_char_from_buffer}
use oskernel_riscv.Placement.Moves.{Placed-stay}
use oskernel_riscv.Placement.Events.{Sound, Ends}
use oskernel_riscv.Syscalls.Needs.{Needs}
use oskernel_riscv.Syscalls.Heaps.{IsHeap, free_all-IsHeap}
use oskernel_riscv.Syscalls.{
  Machine, flush, finish, run, blocks_for, size_of_thread, size_of_sem, Ecall, thread_create,
  thread_exit, sem_open, sem_wait, sem_timedwait, sem_trywait, time_sleep, getc,
}

-- The heap is valid and the kernel sound.
pub record SoundMachine (l : Layout) (i : ℕ) (m : Machine) : Type 0 where
  pub heap_valid : IsHeap l m.heap
  pub kernel_sound : Sound i m.kernel

-- An allocation for an object gives an address that satisfies `P`.
abbrev pub Gives : Layout → ℕ → Machine → (ℕ → Type 0) → Type 0
Gives l n m P = (p : ℕ) × (h : Heap) × (kmalloc l n m.heap ≡ some (p, h)) × (p ≢ 0) × P p

-- The calls of a well-behaved program: the busy thread `i` makes none that may block it; there is memory
-- for new objects, at addresses that no thread and no waiting thread uses; `tryWait` is called at a value
-- above 0; the console's semaphore exists.
abbrev pub AllowedCall : Layout → ℕ → Ecall → ℕ → ℕ → Machine → Type 0
AllowedCall l i thread_create a1 a2 m =
    (a2 ≢ 0) × Gives l (blocks_for size_of_thread) m (λ p. is_thread_valid m.kernel p ≡ false)
AllowedCall l i thread_exit a1 a2 m = m.kernel.current ≢ i
AllowedCall l i sem_open a1 a2 m =
    (a2 < 2 ^ 63) × Gives l (blocks_for size_of_sem) m (λ p. (m.kernel.sems p).queue_blocked ≡ [])
AllowedCall l i sem_wait a1 a2 m = m.kernel.current ≢ i
AllowedCall l i sem_timedwait a1 a2 m = m.kernel.current ≢ i
AllowedCall l i sem_trywait a1 a2 m = is_pos (m.kernel.sems a1).val ≡ true
AllowedCall l i time_sleep a1 a2 m = m.kernel.current ≢ i
AllowedCall l i getc a1 a2 m = (m.kernel.current ≢ i) × (m.char_sem ≢ 0)
AllowedCall l i c a1 a2 m = Unit {0}

-- A call has returned to the thread that runs now, and the machine is sound.
abbrev pub Returns : Layout → ℕ → Option (Reply × Machine) → Type 0
Returns l i o = (r : Reply) × (m : Machine) × (o ≡ some (r, m)) × SoundMachine l i m

Sound-freed : (i : ℕ) (k : Kernel) → Sound i k → Sound i (record k { freed = [] })
Sound-freed i k is = record {
  places = is.places;
  placed =
      Placed-stay k.current k.current k (record k { freed = [] }) is.places is.placed
        (λ q. record {
          seat_same = refl;
          line_same = refl;
          bed_same = refl;
          held_same = λ t. refl;
          alike = (refl, refl, refl, refl);
        });
  balanced = is.balanced;
  runs = is.runs;
  busy = is.busy;
}

module _ (l : Layout) (i : ℕ) (is : IsLayout l) where
  flush-Sound :
      (m : Machine)
      → IsHeap l m.heap
      → Sound i m.kernel
      → (m' : Machine) × (flush m ≡ some m') × SoundMachine l i m'
  unfolding flush
  flush-Sound m v s =
      let (h, e, w) = free_all-IsHeap l m.kernel.freed m.heap is v in
      (
        record m { heap = h; kernel = record m.kernel { freed = [] } },
        rw e refl,
        record { heap_valid = w; kernel_sound = Sound-freed i m.kernel s },
      )

  finish-Returns :
      (m : Machine) (r : Reply) (k : Kernel)
      → IsHeap l m.heap
      → Sound i k
      → Returns l i (finish m (r, k))
  finish-Returns m reads k v s =
      let (c, b) = get_char_from_buffer m.get_buffer in
      let (m', e, w) = flush-Sound (record m { kernel = k; get_buffer = b }) v s in
      (returns (pos c), m', rw e refl, w)
  finish-Returns m (returns z) k v s =
      let (m', e, w) = flush-Sound (record m { kernel = k }) v s in (returns z, m', rw e refl, w)
  finish-Returns m begins k v s =
      let (m', e, w) = flush-Sound (record m { kernel = k }) v s in (begins, m', rw e refl, w)
  finish-Returns m continues k v s =
      let (m', e, w) = flush-Sound (record m { kernel = k }) v s in (continues, m', rw e refl, w)

  pub run-Returns :
      (m : Machine) (o : Option (Reply × Kernel))
      → IsHeap l m.heap
      → Ends i o
      → Returns l i (run m o)
  run-Returns m o v (r, k, e, s) =
      subst (λ x. Returns l i (run m x)) (sym e) (finish-Returns m r k v s)
