-- ===== src/Syscalls.antt =====
-- h/_sysCalls.hpp, src/_sysCalls.cpp, the allocating operators of h/_thread.hpp and h/_sem.hpp, and the
-- C interface of src/syscall_c.cpp. `none` stands for a fault.
pub mod Heaps
pub mod Needs
pub mod Soundness
use oskernel_riscv.Base.{
  ℕ, ◌+◌, ◌-◌, ◌*◌, ◌/◌, ◌%◌, ◌^◌, Bool, true, false, Option, none, some, List, [], ◌∷◌, ◌==◌, ltb,
  if◌then◌else◌, ◌>>=◌,
}
use oskernel_riscv.Base.Int.{ℤ, pos, negsuc}
use oskernel_riscv.Allocator.{Layout, Heap, Memory, store, block_size, size_header, kmalloc, kmfree}
use oskernel_riscv.Console.{Buffer, put_char_in_buffer, get_char_from_buffer}
use oskernel_riscv.State.{Kernel, yielded, exited, getting, default_stack_size}
use oskernel_riscv.Scheduler.{construct_thread, exit}
use oskernel_riscv.Semaphore.{
  Reply, returns, begins, reads, continues, reschedule, wait_as, wait, timed_wait, try_wait, signal,
  construct_sem, delete_sem, resume,
}
use oskernel_riscv.Time.{put_running_thread_to_sleep}

-- The whole system. `user` is the memory that handles point into.
pub record Machine : Type 0 where
  pub heap : Heap
  pub kernel : Kernel
  pub print_buffer : Buffer
  pub get_buffer : Buffer
  pub char_sem : ℕ
  pub user : Memory

-- The blocks for `n` bytes and a header: `(SIZE_HEADER + n + MEM_BLOCK_SIZE - 1) / MEM_BLOCK_SIZE`.
abbrev pub blocks_for : ℕ → ℕ
blocks_for n = ((size_header + n + block_size - 1) % 2 ^ 64) / block_size

-- `sizeof(_thread)` and `sizeof(_sem)`
abbrev pub size_of_thread : ℕ
size_of_thread = 112

abbrev pub size_of_sem : ℕ
size_of_sem = 32

-- The calls of `_kmfree` that the kernel made are carried out on the heap, in their order.
unfoldable pub free_all : List ℕ → Heap → Option Heap
free_all [] h = some h
free_all (p ∷ ps) h = do r ← kmfree p h; free_all ps r.1

unfoldable pub flush : Machine → Option Machine
unfolding free_all
flush m = do
  h ← free_all m.kernel.freed m.heap
  some (record m { heap = h; kernel = record m.kernel { freed = [] } })

-- The character that a thread in `getc` reads when it goes on, and the calls of `_kmfree`.
abbrev finish : Machine → Reply × Kernel → Option (Reply × Machine)
finish m (reads, k) =
    let (c, b) = get_char_from_buffer m.get_buffer in
    flush (record m { kernel = k; get_buffer = b }) >>= λ m'. some (returns (pos c), m')
finish m (r, k) = flush (record m { kernel = k }) >>= λ m'. some (r, m')

abbrev pub run : Machine → Option (Reply × Kernel) → Option (Reply × Machine)
run m r = r >>= finish m

-- The wrappers.
unfoldable pub mem_alloc_wrapper : Layout → ℕ → Machine → Option (Reply × Machine)
mem_alloc_wrapper l n m = do
  r ← kmalloc l n m.heap
  some (returns (pos r.0), record m { heap = r.1 })

unfoldable pub mem_free_wrapper : ℕ → Machine → Option (Reply × Machine)
mem_free_wrapper p m = do r ← kmfree p m.heap; some (returns r.0, record m { heap = r.1 })

-- `new` does not look at what `_kmalloc` returned before it runs the constructor on it.
unfoldable pub thread_create_wrapper : Layout → ℕ → ℕ → ℕ → ℕ → Machine → Option (Reply × Machine)
thread_create_wrapper l handle body arg stack_space m = do
  r ← kmalloc l (blocks_for size_of_thread) m.heap
  if r.0 == 0
      then none
      else some (
        returns (pos 0),
        record m {
          heap = r.1;
          kernel = construct_thread r.0 body arg stack_space m.kernel;
          user = store m.user handle r.0;
        },
      )

unfoldable pub thread_exit_wrapper : Machine → Option (Reply × Machine)
thread_exit_wrapper m = run m (do k ← exit exited m.kernel; some (resume k))

unfoldable pub thread_dispatch_wrapper : Machine → Option (Reply × Machine)
thread_dispatch_wrapper m = run m (reschedule yielded m.kernel)

unfoldable pub sem_open_wrapper : Layout → ℕ → ℕ → Machine → Option (Reply × Machine)
sem_open_wrapper l handle n m = do
  r ← kmalloc l (blocks_for size_of_sem) m.heap
  if r.0 == 0
      then none
      else some (
        returns (pos 0),
        record m {
          heap = r.1;
          kernel = construct_sem r.0 n m.kernel;
          user = store m.user handle r.0;
        },
      )

unfoldable pub sem_close_wrapper : ℕ → Machine → Option (Reply × Machine)
sem_close_wrapper s m =
    if s == 0
    then some (returns (negsuc 0), m)
    else run m (do k ← delete_sem s m.kernel; some (returns (pos 0), k))

unfoldable pub sem_wait_wrapper : ℕ → Machine → Option (Reply × Machine)
sem_wait_wrapper s m = if s == 0 then some (returns (negsuc 0), m) else run m (wait s m.kernel)

unfoldable pub sem_signal_wrapper : ℕ → Machine → Option (Reply × Machine)
sem_signal_wrapper s m =
    if s == 0
    then some (returns (negsuc 0), m)
    else run m (do r ← signal s m.kernel; some (returns r.0, r.1))

unfoldable pub sem_timedwait_wrapper : ℕ → ℕ → Machine → Option (Reply × Machine)
sem_timedwait_wrapper s max_time m =
    if s == 0 then some (returns (negsuc 0), m) else run m (timed_wait s max_time m.kernel)

unfoldable pub sem_trywait_wrapper : ℕ → Machine → Option (Reply × Machine)
sem_trywait_wrapper s m =
    if s == 0
    then some (returns (negsuc 0), m)
    else (let (v, k) = try_wait s m.kernel in some (returns v, record m { kernel = k }))

unfoldable pub time_sleep_wrapper : ℕ → Machine → Option (Reply × Machine)
time_sleep_wrapper time m =
    let limited = if ltb (2 ^ 63) time then time / 2 else time in
    run m (put_running_thread_to_sleep limited m.kernel)

unfoldable pub getc_wrapper : Machine → Option (Reply × Machine)
getc_wrapper m = run m (wait_as (getting m.char_sem) reads m.char_sem m.kernel)

unfoldable pub putc_wrapper : ℕ → Machine → Option (Reply × Machine)
putc_wrapper c m =
    let (r, b) = put_char_in_buffer (c % 256) m.print_buffer in
    some (returns r, record m { print_buffer = b })

-- `trapEcallCause`
pub data Ecall : Type 0 where
  malloc mfree thread_create thread_exit thread_dispatch : Ecall
  sem_open sem_close sem_wait sem_signal sem_timedwait sem_trywait : Ecall
  time_sleep getc putc unknown : Ecall

-- The cases of the `switch`; the code 0x51 of `GET_THREAD_ID` has none.
unfoldable pub ecall_of : ℕ → Ecall
ecall_of code =
    if code == 0x01
    then malloc
    else if code == 0x02
    then mfree
    else if code == 0x11
    then thread_create
    else if code == 0x12
    then thread_exit
    else if code == 0x13
    then thread_dispatch
    else if code == 0x21
    then sem_open
    else if code == 0x22
    then sem_close
    else if code == 0x23
    then sem_wait
    else if code == 0x24
    then sem_signal
    else if code == 0x25
    then sem_timedwait
    else if code == 0x26
    then sem_trywait
    else if code == 0x31
    then time_sleep
    else if code == 0x41
    then getc
    else if code == 0x42
    then putc
    else unknown

abbrev pub call : Layout → Ecall → ℕ → ℕ → ℕ → ℕ → Machine → Option (Reply × Machine)
call l malloc a1 a2 a3 a4 m = mem_alloc_wrapper l a1 m
call l mfree a1 a2 a3 a4 m = mem_free_wrapper a1 m
call l thread_create a1 a2 a3 a4 m = thread_create_wrapper l a1 a2 a3 a4 m
call l thread_exit a1 a2 a3 a4 m = thread_exit_wrapper m
call l thread_dispatch a1 a2 a3 a4 m = thread_dispatch_wrapper m
call l sem_open a1 a2 a3 a4 m = sem_open_wrapper l a1 a2 m
call l sem_close a1 a2 a3 a4 m = sem_close_wrapper a1 m
call l sem_wait a1 a2 a3 a4 m = sem_wait_wrapper a1 m
call l sem_signal a1 a2 a3 a4 m = sem_signal_wrapper a1 m
call l sem_timedwait a1 a2 a3 a4 m = sem_timedwait_wrapper a1 a2 m
call l sem_trywait a1 a2 a3 a4 m = sem_trywait_wrapper a1 m
call l time_sleep a1 a2 a3 a4 m = time_sleep_wrapper a1 m
call l getc a1 a2 a3 a4 m = getc_wrapper m
call l putc a1 a2 a3 a4 m = putc_wrapper a1 m
call l unknown a1 a2 a3 a4 m = some (returns (negsuc 54), m)

-- `ecall_handler`
unfoldable pub ecall_handler : Layout → ℕ → ℕ → ℕ → ℕ → ℕ → Machine → Option (Reply × Machine)
unfolding ecall_of
ecall_handler l code a1 a2 a3 a4 m = call l (ecall_of code) a1 a2 a3 a4 m
