-- ===== src/Boot.antt =====
-- src/main.cpp and src/IDLE.cpp: the threads of the kernel, the loop of `main`, and its end.
pub mod Start
use oskernel_riscv.Base.{
  ℕ, ◌+◌, ◌-◌, Bool, true, false, not, ◌&&◌, ◌||◌, Option, none, some, List, [], ◌∷◌, ◌==◌,
  if◌then◌else◌, ◌>>=◌,
}
use oskernel_riscv.State.{Kernel, is_finished, yielded}
use oskernel_riscv.Scheduler.{construct_thread, subtle_kill}
use oskernel_riscv.Semaphore.{Reply, reschedule}
use oskernel_riscv.Console.{is_there_anything_to_print}
use oskernel_riscv.Syscalls.{Machine}

-- A new thread object: its address, its body and the end of its stack.
pub record Made : Type 0 where
  pub at : ℕ
  pub body : ℕ
  pub stack_space : ℕ

-- `thread_create` of the three threads that `main` makes: the putter, the getter and the idle thread.
unfoldable pub create_all : List Made → Kernel → Kernel
create_all [] k = k
create_all (t ∷ ts) k = create_all ts (construct_thread t.at t.body 0 t.stack_space k)

-- `main` up to its loop: the thread without a body, at the address `main`, and then the others.
unfoldable pub start : ℕ → ℕ → List Made → Kernel → Kernel
start main stack_space ts k = create_all ts (construct_thread main 0 0 stack_space k)

-- The loop's test, `!idle_thread->isFinished() || _console::isThereAnythingToPrint()`
unfoldable pub goes_on : ℕ → Machine → Bool
goes_on idle m = not (is_finished m.kernel idle) || is_there_anything_to_print m.print_buffer

-- What `main` calls once its loop has ended, up to where it is dispatched again.
unfoldable pub shut_down : ℕ → ℕ → Kernel → Option (Reply × Kernel)
shut_down putter getter k = reschedule yielded (subtle_kill getter (subtle_kill putter k).1).1
