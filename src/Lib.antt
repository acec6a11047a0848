-- ===== src/Lib.antt =====
-- A small RISC-V kernel for one processor: a heap, threads with round-robin scheduling and time slices,
-- semaphores with timed waits, sleeping, a console, and system calls by `ecall`. A trap enters
-- src/supervisorTrap.S, which calls `handleSupervisorTrap`; a system call goes on to `ecall_handler` and its
-- wrappers, a timer interrupt to `_time`, a console interrupt to `_console`. The kernel's objects live on
-- the heap of `_memoryAllocator`; threads wait in lists of h/_list.hpp.
--
-- Which file models what (each with its child modules for the proofs):
--   Base         numbers, tests, options and integers that all share
--   Allocator    src/_memoryAllocator.cpp: init, kmalloc (_kmalloc) and kmfree (_kmfree) on a memory of
--                64-bit words; Valid is the invariant, Chain the lists in memory, Cover the bytes of blocks
--   Queue        h/_list.hpp as the list of the pointers that its elements hold
--   Elements     h/_list.hpp with its elements in blocks of the allocator's memory, which implement Queue
--   Registers    h/_riscV.hpp, contextSwitch of src/_context.cpp and src/supervisorTrap.S: the registers that
--                a switch and a trap keep on the stack, and the control registers
--   State        h/_thread.hpp, the fields of h/_sem.hpp and of h/_time.hpp, as records
--   Scheduler    src/_scheduler.cpp, src/_context.cpp, src/_thread.cpp: put, get, dispatch, exit, subtle_kill
--   Semaphore    src/_sem.cpp: wait, timed_wait, try_wait, signal, unblock, construct_sem, delete_sem
--   Time         src/_time.cpp: the timer interrupt, sleeping and waking
--   Console      src/_console.cpp and h/_console.hpp: the two circular buffers, and the threads that empty and
--                fill them, a round at a time
--   Syscalls     src/_sysCalls.cpp and h/_sysCalls.hpp: ecall_handler and one wrapper for each call
--   Trap         src/_riscv.cpp: handle_supervisor_trap with the frames of the threads; Report is the end of the
--                kernel behind an error, h/_riscV.hpp: error_msg_terminate, print_stack_trace, kill_qemu
--   Api          src/syscall_c.cpp: the calls that user programs make
--   Classes      src/CPP_*.cpp: the members of Thread, Semaphore and Console; the loop of PeriodicThread
--   Placement    what these do together: at which one place each thread is, the events of the kernel, and what
--                every reachable state has in common
--   Boot         src/main.cpp: the kernel's threads and the end of `main`
--   BoundedBuffer  test/buffer.cpp: producers and consumers in any interleaving, one statement at a time; a
--                wait for a semaphore is a statement that can be executed while the value is above 0
--   Printing     test/printing.cpp and h/_SModePrinter.hpp: numbers as text, reading a line, and strings in red
--   Menu         test/userMain.cpp and the questions of test/printing.cpp: which test programs run
--   Tests        the theorems on concrete states
--
-- State is passed explicitly. `subtle_kill` is called only at the end of `main` and is no event of Placement. The kernel's objects are functions of their addresses, and 0 is null. A call
-- that gives the processor up ends with the switch: the saved `ra` and `sp` of a thread are a value of
-- `Resume`, the place at which it stopped, and `resume` is the code behind that place, run by the thread that
-- was switched to. `none` stands for the use of a null pointer. Unsigned 64-bit arithmetic wraps around with
-- `% 2 ^ 64`; the value of a semaphore, a `long int`, is an integer that never overflows here. A sound kernel
-- has a busy thread, which never blocks or ends, as `main` does not; objects are made at addresses that no
-- live object uses, as an allocator gives them.
--
-- The search loops of the allocator run on fuel, `total_blocks + 1`. The blocks of a valid heap are at
-- least one unit each and their sizes add up to `total_blocks`, so no list has more entries, and the theorems
-- on valid heaps say that a result comes. The loops of Elements run on the same fuel, since each element is
-- in a taken block of its own. `sort` runs on the list's length, `print_int` on 32, the most digits that a
-- 32-bit number has in any base from two on, and the loop of PeriodicThread on fuel of which one more than the
-- number of its activations is enough; all other loops are structural. The answers of the terminal to a loop that polls it are a list.
--
-- The bytes of memory are words at the addresses of their first bytes, and the compiler's own code around the
-- instructions of `pushRegisters`, `contextSwitch` and `popRegisters` is not looked at.
--
-- Not modelled: the terminal and the interrupt controller, whose answers are arguments; the waiting loop of
-- src/IDLE.cpp; the test programs but for their numbers, the reading of a line, the menu and the bounded
-- buffer, and their lock, whose `copy_and_swap` is assembly. The heap's bounds are arguments. The kernel's modules use the lists of Queue, so there an insertion does not
-- fail and takes no block; Elements has the insertions that take blocks, and fail on a full heap, where the
-- code writes through a null pointer. What is proved of the kernel's modules thus holds of the code as long as
-- insertions find a free block. Semaphores, threads and the handles of user programs are also modelled apart
-- from the heap's words: Syscalls.Needs states, call by call, which blocks and addresses the code relies on, and
-- the theorems on whole system calls and traps have those conditions as hypotheses. The warning of a
-- nested call, what an unknown code prints, clearing the pending bit of the timer, the once-only guard of `_console::init`,
-- and the traps and allocations by which `main` makes its threads are not part of the modelled operations.
pub mod Base
pub mod Allocator
pub mod Queue
pub mod Registers
pub mod Elements
pub mod State
pub mod Scheduler
pub mod Semaphore
pub mod Time
pub mod Placement
pub mod Boot
pub mod Console
pub mod Syscalls
pub mod Trap
pub mod Api
pub mod Classes
pub mod Printing
pub mod BoundedBuffer
pub mod Menu
pub mod Tests
