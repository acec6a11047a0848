-- ===== src/Placement/Events.antt =====
-- The kernel as a machine of events: what the running thread asks for, and the timer.
use oskernel_riscv.Base.{ℕ, ◌<◌, ◌^◌, ◌≡◌, ◌≢◌, ◌⊎◌, true, false, Option, some, [], ◌>>=◌}
use oskernel_riscv.Base.Int.{pos, is_pos}
use oskernel_riscv.State.{Kernel, yielded, exited, blocked, getting, is_thread_valid}
use oskernel_riscv.Scheduler.{exit, construct_thread}
use oskernel_riscv.Semaphore.{
  Reply, returns, reads, sem_didnt_wait, reschedule, resume, wait_as, timed_wait, try_wait, signal,
  construct_sem, delete_sem,
}
use oskernel_riscv.Semaphore.Balance.{Balanced}
use oskernel_riscv.Time.{timer_interrupt_handler, put_running_thread_to_sleep}
use oskernel_riscv.Placement.{Place, on_cpu, in_line, Placed}

pub data Event : Type 0 where
  yields ticks leaves : Event
  waits gets tries signals closes sleeps : ℕ → Event
  waits_until opens : ℕ → ℕ → Event
  creates : ℕ → ℕ → ℕ → ℕ → Event

-- What the system calls and the timer interrupt do to the kernel's objects and lists, where every insertion into
-- a list finds a free block for its element.
unfoldable pub perform : Event → Kernel → Option (Reply × Kernel)
perform yields k = reschedule yielded k
perform ticks k = timer_interrupt_handler k
perform leaves k = exit exited k >>= λ k'. some (resume k')
perform (waits s) k = wait_as (blocked s) (returns sem_didnt_wait) s k
perform (gets s) k = wait_as (getting s) reads s k
perform (tries s) k = let r = try_wait s k in some (returns r.0, r.1)
perform (signals s) k = signal s k >>= λ r. some (returns r.0, r.1)
perform (closes s) k = delete_sem s k >>= λ k'. some (returns (pos 0), k')
perform (sleeps time) k = put_running_thread_to_sleep time k
perform (waits_until s time) k = timed_wait s time k
perform (opens s n) k = some (returns (pos 0), construct_sem s n k)
perform (creates p body arg stack_space) k =
    some (returns (pos 0), construct_thread p body arg stack_space k)

-- When an event may happen: the thread `i` that keeps the processor busy does not block or leave; a new
-- thread has a body and an address at which no thread is; a new semaphore has an address at which nobody
-- waits, and a value that is not negative; and `tryWait` is called at a value above 0.
abbrev pub Allowed : ℕ → Kernel → Event → Type 0
Allowed i k yields = Unit {0}
Allowed i k ticks = Unit {0}
Allowed i k leaves = k.current ≢ i
Allowed i k (waits s) = (k.current ≢ i) × (s ≢ 0)
Allowed i k (gets s) = (k.current ≢ i) × (s ≢ 0)
Allowed i k (tries s) = is_pos (k.sems s).val ≡ true
Allowed i k (signals s) = Unit {0}
Allowed i k (closes s) = Unit {0}
Allowed i k (sleeps time) = k.current ≢ i
Allowed i k (waits_until s time) = (k.current ≢ i) × (s ≢ 0)
Allowed i k (opens s n) = ((k.sems s).queue_blocked ≡ []) × (n < 2 ^ 63)
Allowed i k (creates p body arg stack_space) = (p ≢ 0) × (body ≢ 0) × (is_thread_valid k p ≡ false)

-- Every thread is at one place, one of them runs, the thread `i` can always run, and the semaphores are in
-- balance.
pub record Sound (i : ℕ) (k : Kernel) : Type 0 where
  pub places : ℕ → Place
  pub placed : Placed k places
  pub balanced : Balanced k
  pub runs : k.current ≢ 0
  pub busy : (places i ≡ on_cpu) ⊎ (places i ≡ in_line)

-- The event ended, in a sound state.
abbrev pub Ends : ℕ → Option (Reply × Kernel) → Type 0
Ends i o = (r : Reply) × (k' : Kernel) × (o ≡ some (r, k')) × Sound i k'
