-- ===== src/Api.antt =====
-- src/syscall_c.cpp: the calls of user programs. Each loads its code and its arguments into the
-- registers and traps; what comes back in `a0` is the result. An argument register that a call
-- leaves as it was is 0 here: its handler does not read it.
pub mod Laws
use oskernel_riscv.Base.{ℕ, zero, suc, ◌+◌, Option, none, some, ◌==◌, if◌then◌else◌, ◌>>=◌}
use oskernel_riscv.Base.Int.{ℤ, pos, negsuc}
use oskernel_riscv.Allocator.{Layout}
use oskernel_riscv.State.{default_stack_size}
use oskernel_riscv.Semaphore.{Reply, returns}
use oskernel_riscv.Syscalls.{Machine, blocks_for, ecall_handler}

module _ (l : Layout) where
  -- `if (id == nullptr) return HANDLE_NULL;`, then the trap.
  unfoldable guarded : ℕ → Machine → Option (Reply × Machine) → Option (Reply × Machine)
  guarded handle m r = if handle == 0 then some (returns (negsuc 2), m) else r

  unfoldable pub mem_alloc : ℕ → Machine → Option (Reply × Machine)
  mem_alloc size m = ecall_handler l 0x01 (blocks_for size) 0 0 0 m

  unfoldable pub mem_free : ℕ → Machine → Option (Reply × Machine)
  mem_free p m = ecall_handler l 0x02 p 0 0 0 m

  -- The stack grows down from the end of a fresh block.
  unfoldable create_on : ℕ → ℕ → ℕ → Reply × Machine → Option (Reply × Machine)
  create_on handle start_routine arg (returns (pos (suc p)), m) =
      ecall_handler l 0x11 handle start_routine arg (suc p + default_stack_size) m
  create_on handle start_routine arg (r, m) = some (returns (negsuc 0), m)

  unfoldable pub thread_create : ℕ → ℕ → ℕ → Machine → Option (Reply × Machine)
  unfolding create_on
  thread_create handle start_routine arg m = do
    r ← mem_alloc default_stack_size m
    create_on handle start_routine arg r

  unfoldable pub thread_exit : Machine → Option (Reply × Machine)
  thread_exit m = ecall_handler l 0x12 0 0 0 0 m

  unfoldable pub thread_dispatch : Machine → Option (Reply × Machine)
  thread_dispatch m = ecall_handler l 0x13 0 0 0 0 m

  unfoldable pub sem_open : ℕ → ℕ → Machine → Option (Reply × Machine)
  sem_open handle init m = ecall_handler l 0x21 handle init 0 0 m

  unfoldable pub sem_close : ℕ → Machine → Option (Reply × Machine)
  unfolding guarded
  sem_close handle m = guarded handle m (ecall_handler l 0x22 handle 0 0 0 m)

  unfoldable pub sem_wait : ℕ → Machine → Option (Reply × Machine)
  unfolding guarded
  sem_wait id m = guarded id m (ecall_handler l 0x23 id 0 0 0 m)

  unfoldable pub sem_signal : ℕ → Machine → Option (Reply × Machine)
  unfolding guarded
  sem_signal id m = guarded id m (ecall_handler l 0x24 id 0 0 0 m)

  unfoldable pub sem_timedwait : ℕ → ℕ → Machine → Option (Reply × Machine)
  unfolding guarded
  sem_timedwait id timeout m = guarded id m (ecall_handler l 0x25 id timeout 0 0 m)

  unfoldable pub sem_trywait : ℕ → Machine → Option (Reply × Machine)
  unfolding guarded
  sem_trywait id m = guarded id m (ecall_handler l 0x26 id 0 0 0 m)

  unfoldable pub time_sleep : ℕ → Machine → Option (Reply × Machine)
  time_sleep time_asleep m =
      if time_asleep == 0
      then some (returns (pos 0), m)
      else ecall_handler l 0x31 time_asleep 0 0 0 m

  unfoldable pub getc : Machine → Option (Reply × Machine)
  getc m = ecall_handler l 0x41 0 0 0 0 m

  unfoldable pub putc : ℕ → Machine → Option (Reply × Machine)
  putc c m = ecall_handler l 0x42 c 0 0 0 m

  unfoldable pub get_thread_id : Machine → Option (Reply × Machine)
  get_thread_id m = ecall_handler l 0x51 0 0 0 0 m

  unfoldable pub modification_sys_call : ℕ → ℕ → ℕ → ℕ → Machine → Option (Reply × Machine)
  modification_sys_call param1 param2 param3 param4 m =
      ecall_handler l 0x61 param1 param2 param3 param4 m
