-- ===== src/Classes/Laws.antt =====
-- When a thread object cannot be started.
use oskernel_riscv.Base.{inr, inl, ◌⊎◌, ℕ, ◌≡◌, ◌≢◌, some, arith}
use oskernel_riscv.Base.Int.{negsuc}
use oskernel_riscv.Allocator.{Layout, kmalloc}
use oskernel_riscv.Semaphore.{returns}
use oskernel_riscv.Syscalls.{Machine, blocks_for}
use oskernel_riscv.State.{default_stack_size}
use oskernel_riscv.Api.Laws.{thread_create-no_stack}
use oskernel_riscv.Classes.{ThreadObject, thread_start}

-- `start` of a thread object that has a handle, or for whose stack the heap has no room, returns -1 and
-- changes nothing.
pub thread_start-refused :
    (l : Layout) (run_wrapper : ℕ) (t : ThreadObject) (m : Machine)
    → (m.user t.handle_at ≢ 0)
      ⊎ (kmalloc l (blocks_for default_stack_size) m.heap ≡ some (0, m.heap))
    → thread_start l run_wrapper t m ≡ some (returns (negsuc 0), m)
unfolding thread_start
thread_start-refused l run_wrapper t m (inl has) = ground arith
thread_start-refused l run_wrapper t m (inr full) = ground (
  arith,
  thread_create-no_stack l t.handle_at run_wrapper t.self m full,
  thread_create-no_stack l t.handle_at t.body t.arg m full,
)
