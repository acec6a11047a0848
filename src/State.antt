-- ===== src/State.antt =====
-- The kernel's objects and global variables: h/_thread.hpp, the fields of h/_sem.hpp and h/_time.hpp.
-- Threads and semaphores stand at the addresses at which the allocator placed them, 0 is null, and
-- the memory of a freed object keeps its contents.
use oskernel_riscv.Base.{
  ℕ, ◌+◌, ◌-◌, ◌%◌, ◌^◌, Bool, true, false, not, ◌&&◌, ◌||◌, List, ◌==◌, if◌then◌else◌,
}
use oskernel_riscv.Base.Int.{ℤ}

-- `_thread::threadStateTypes`
pub data ThreadState : Type 0 where
  running ready suspended finished : ThreadState

-- `_sem::threadsSemStatus`
pub data SemStatus : Type 0 where
  non_waiting waiting timed_waiting regularly_waited timeout sem_deleted : SemStatus

-- Where a thread that is not running goes on, which is what its saved `ra` and `sp` stand for: at the
-- beginning of its body, or behind the call of `dispatch` in the function that gave the processor up.
pub data Resume : Type 0 where
  started yielded preempted exited slept : Resume
  blocked timed_blocked getting : ℕ → Resume

-- `_thread`
pub record Thread : Type 0 where
  pub body : ℕ
  pub arg : ℕ
  pub stack : ℕ
  pub context : Resume
  pub time_slice : ℕ
  pub thread_state : ThreadState
  pub my_id : ℕ
  pub my_magic_number : ℕ
  pub parent_thread : ℕ
  pub num_of_children : ℕ
  pub sem_status : SemStatus
  pub my_sem : ℕ
  pub time_for_waking_up : ℕ

-- `_sem`
pub record Sem : Type 0 where
  pub val : ℤ
  pub queue_blocked : List ℕ
  pub num_of_timed_waiting : ℕ

-- The objects in memory, the static fields of `_thread`, `Scheduler`, `_time` and `_sem`, and the
-- pointers given to `_kmfree`, latest last.
pub record Kernel : Type 0 where
  pub threads : ℕ → Thread
  pub sems : ℕ → Sem
  pub current : ℕ
  pub last_id : ℕ
  pub num_of_system_threads : ℕ
  pub queue_threads : List ℕ
  pub list_asleep : List ℕ
  pub num_of_threads_asleep : ℕ
  pub sys_time : ℕ
  pub cpu_time : ℕ
  pub all_semaphores : List ℕ
  pub num_of_all_semaphores : ℕ
  pub freed : List ℕ

abbrev pub thread_magic_number : ℕ
thread_magic_number = 0xf832d45809acdeef

abbrev pub thread_dump_magic_number : ℕ
thread_dump_magic_number = 0xacdcacdcacdcacdc

abbrev pub default_time_slice : ℕ
default_time_slice = 2

abbrev pub default_stack_size : ℕ
default_stack_size = 4096

-- `x++` and `x--` of a `uint64`.
abbrev pub inc64 : ℕ → ℕ
inc64 n = (n + 1) % 2 ^ 64

abbrev pub dec64 : ℕ → ℕ
dec64 n = (n + 2 ^ 64 - 1) % 2 ^ 64

abbrev pub is_finished_state : ThreadState → Bool
is_finished_state finished = true
is_finished_state _ = false

abbrev pub is_ready_state : ThreadState → Bool
is_ready_state ready = true
is_ready_state running = true
is_ready_state _ = false

abbrev pub is_timed_waiting : SemStatus → Bool
is_timed_waiting timed_waiting = true
is_timed_waiting _ = false

abbrev pub is_wait : SemStatus → Bool
is_wait waiting = true
is_wait timed_waiting = true
is_wait _ = false

-- The object at an address, changed.
abbrev pub update : {A : Type 0} → (ℕ → A) → ℕ → A → ℕ → A
update f p a x = if x == p then a else f x

abbrev pub put_thread : Kernel → ℕ → Thread → Kernel
put_thread k p t = record k { threads = update k.threads p t }

abbrev pub put_sem : Kernel → ℕ → Sem → Kernel
put_sem k s v = record k { sems = update k.sems s v }

-- `isThreadValid`, `isFinished`, `readyToRun`
unfoldable pub is_thread_valid : Kernel → ℕ → Bool
is_thread_valid k p = not (p == 0) && ((k.threads p).my_magic_number == thread_magic_number)

unfoldable pub is_finished : Kernel → ℕ → Bool
unfolding is_thread_valid
is_finished k p = not (is_thread_valid k p) || is_finished_state (k.threads p).thread_state

unfoldable pub ready_to_run : Kernel → ℕ → Bool
ready_to_run k p = is_ready_state (k.threads p).thread_state

-- `setFinished`, `set_threadState`, `set_timeForWakingUp`, `set_mySem`
unfoldable pub set_finished : ℕ → Kernel → Kernel
unfolding is_thread_valid
set_finished p k =
    if is_thread_valid k p
    then put_thread k p (record (k.threads p) { thread_state = finished })
    else k

unfoldable pub set_thread_state : ThreadState → ℕ → Kernel → Kernel
unfolding is_thread_valid
set_thread_state s p k =
    if is_thread_valid k p then put_thread k p (record (k.threads p) { thread_state = s }) else k

unfoldable pub set_time_for_waking_up : ℕ → ℕ → Kernel → Kernel
unfolding is_thread_valid
set_time_for_waking_up time p k =
    if is_thread_valid k p
    then put_thread k p (record (k.threads p) { time_for_waking_up = time })
    else k

unfoldable pub set_my_sem : ℕ → ℕ → Kernel → Kernel
unfolding is_thread_valid
set_my_sem s p k =
    if is_thread_valid k p then put_thread k p (record (k.threads p) { my_sem = s }) else k

-- `set_threadsSemStatus`: a thread that begins to wait is suspended, any other is ready or running.
abbrev state_after : Kernel → SemStatus → ℕ → ThreadState
state_after k status p =
    if is_wait status then suspended else if k.current == p then running else ready

unfoldable pub set_threads_sem_status : SemStatus → ℕ → Kernel → Kernel
unfolding is_thread_valid is_finished
set_threads_sem_status status p k =
    if not (is_thread_valid k p) || is_finished k p
    then k
    else put_thread k p
        (record (k.threads p) { sem_status = status; thread_state = state_after k status p })
