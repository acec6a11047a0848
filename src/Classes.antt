-- ===== src/Classes.antt =====
-- src/CPP_Semaphore.cpp, src/CPP_Thread.cpp, src/CPP_PeriodicThread.cpp, src/CPP_Console.cpp and
-- src/CPP_new.cpp: the classes over the system calls. An object's `myHandle` is a word of user memory,
-- into which the kernel stores the handle.
pub mod Laws
pub mod Periodic
use oskernel_riscv.Base.{
  ℕ, zero, suc, ◌+◌, Bool, true, false, Option, none, some, ◌==◌, if◌then◌else◌, ◌>>=◌,
}
use oskernel_riscv.Base.Int.{ℤ, pos, negsuc}
use oskernel_riscv.Allocator.{Layout, store}
use oskernel_riscv.Semaphore.{Reply, returns}
use oskernel_riscv.Syscalls.{Machine}
use oskernel_riscv.Api.{
  mem_alloc, mem_free, thread_create, thread_dispatch, sem_open, sem_close, sem_wait, sem_signal,
  sem_timedwait, sem_trywait, time_sleep, getc, putc,
}

-- `Thread`: the address of its `myHandle`, its body (0 for a derived class with `run`) and the
-- argument; `self` is the object and `run_wrapper` the static function that calls `run`.
pub record ThreadObject : Type 0 where
  pub self : ℕ
  pub handle_at : ℕ
  pub body : ℕ
  pub arg : ℕ

module _ (l : Layout) where
  -- `Thread::start`
  unfoldable pub thread_start : ℕ → ThreadObject → Machine → Option (Reply × Machine)
  thread_start run_wrapper t m =
      if m.user t.handle_at == 0
      then (if t.body == 0
          then thread_create l t.handle_at run_wrapper t.self m
          else thread_create l t.handle_at t.body t.arg m)
      else some (returns (negsuc 0), m)

  -- The constructor of `Thread`, and `Thread::dispatch` and `Thread::sleep`.
  abbrev pub thread_object : ℕ → ℕ → ℕ → ℕ → Machine → ThreadObject × Machine
  thread_object self handle_at body arg m = (
    record { self = self; handle_at = handle_at; body = body; arg = arg },
    record m { user = store m.user handle_at 0 },
  )

  abbrev pub dispatch_static : Machine → Option (Reply × Machine)
  dispatch_static m = thread_dispatch l m

  abbrev pub sleep_static : ℕ → Machine → Option (Reply × Machine)
  sleep_static time m = time_sleep l time m

  -- The members of `Semaphore`, by the address of `myHandle`.
  abbrev with_handle :
      ℕ → (ℕ → Machine → Option (Reply × Machine)) → Machine → Option (Reply × Machine)
  with_handle handle_at f m =
      if m.user handle_at == 0 then some (returns (negsuc 9), m) else f (m.user handle_at) m

  unfoldable pub semaphore_open : ℕ → ℕ → Machine → Option (Reply × Machine)
  semaphore_open handle_at init m = sem_open l handle_at init m

  unfoldable pub semaphore_delete : ℕ → Machine → Option (Reply × Machine)
  semaphore_delete handle_at m = sem_close l (m.user handle_at) m

  unfoldable pub semaphore_wait : ℕ → Machine → Option (Reply × Machine)
  semaphore_wait handle_at m = with_handle handle_at (sem_wait l) m

  unfoldable pub semaphore_signal : ℕ → Machine → Option (Reply × Machine)
  semaphore_signal handle_at m = with_handle handle_at (sem_signal l) m

  unfoldable pub semaphore_timed_wait : ℕ → ℕ → Machine → Option (Reply × Machine)
  semaphore_timed_wait handle_at time m = with_handle handle_at (λ s. sem_timedwait l s time) m

  unfoldable pub semaphore_try_wait : ℕ → Machine → Option (Reply × Machine)
  semaphore_try_wait handle_at m = with_handle handle_at (sem_trywait l) m

  -- `operator new` and `operator delete`, `Console::getc` and `Console::putc`
  abbrev pub operator_new : ℕ → Machine → Option (Reply × Machine)
  operator_new n m = mem_alloc l n m

  abbrev pub operator_delete : ℕ → Machine → Option (Reply × Machine)
  operator_delete p m = mem_free l p m

  abbrev pub console_getc : Machine → Option (Reply × Machine)
  console_getc m = getc l m

  abbrev pub console_putc : ℕ → Machine → Option (Reply × Machine)
  console_putc c m = putc l c m

-- `PeriodicThread`: the constructor's and `terminate`'s effect on `period`.
abbrev pub periodic_period : ℕ → ℕ
periodic_period period_waiting = if period_waiting == 0 then 1 else period_waiting

abbrev pub terminated_period : ℕ → ℕ
terminated_period period = 0
