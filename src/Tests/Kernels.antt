-- ===== src/Tests/Kernels.antt =====
-- A kernel with a running thread at 1 and threads at 2 and 3; every address holds a valid thread. The
-- semaphore at 5 blocks the thread at 3, all others have the value 1; the thread at 2 sleeps.
use oskernel_riscv.Base.{
  ℕ, ◌<◌, ◌≡◌, refl, ◌++◌, some, none, List, [], ◌∷◌, arith, ◌==◌, if◌then◌else◌,
}
use oskernel_riscv.Base.Int.{pos, negsuc, inc}
use oskernel_riscv.State.{
  Kernel, Thread, Sem, started, yielded, running, suspended, non_waiting, timed_waiting,
  regularly_waited, sem_deleted, is_thread_valid, is_finished, thread_magic_number,
}
use oskernel_riscv.Queue.Laws.{All}
use oskernel_riscv.Scheduler.{dispatch}
use oskernel_riscv.Scheduler.Dispatch.{Switched, candidates, dispatch-Switched}
use oskernel_riscv.Semaphore.{
  returns, wait, try_wait, signal, set_val, delete_sem, unblocked_by_time, sem_didnt_wait,
}
use oskernel_riscv.Semaphore.Balance.{BalancedAt, Balanced}
use oskernel_riscv.Semaphore.Wake.{Alive, Woken, signal-wakes}
use oskernel_riscv.Semaphore.End.{
  AllWoken, delete_sem-AllWoken, TimedOut, unblocked_by_time_lem, try_wait-zero,
}
use oskernel_riscv.Time.{tick}
use oskernel_riscv.Time.Sleep.{wake_time, Ordered, Sleeper, tick-wakes}

abbrev thread : Thread
thread = record {
  body = 7;
  arg = 0;
  stack = 0;
  context = started;
  time_slice = 2;
  thread_state = running;
  my_id = 1;
  my_magic_number = thread_magic_number;
  parent_thread = 0;
  num_of_children = 0;
  sem_status = non_waiting;
  my_sem = 0;
  time_for_waking_up = 0;
}

abbrev blocked_thread : Thread
blocked_thread = record thread {
  thread_state = suspended;
  sem_status = timed_waiting;
  my_sem = 5;
  time_for_waking_up = 9;
}

abbrev sem : Sem
sem = record { val = pos 1; queue_blocked = []; num_of_timed_waiting = 0 }

abbrev busy_sem : Sem
busy_sem = record { val = negsuc 0; queue_blocked = 3 ∷ []; num_of_timed_waiting = 1 }

abbrev pub kernel : Kernel
kernel = record {
  threads = λ p.
      if p == 3
      then blocked_thread
      else if p == 2
      then record thread { time_for_waking_up = 4 }
      else thread;
  sems = λ s. if s == 5 then busy_sem else sem;
  current = 1;
  last_id = 4;
  num_of_system_threads = 0;
  queue_threads = 4 ∷ [];
  list_asleep = 2 ∷ 3 ∷ [];
  num_of_threads_asleep = 2;
  sys_time = 3;
  cpu_time = 1;
  all_semaphores = 5 ∷ [];
  num_of_all_semaphores = 1;
  freed = [];
}

dispatch-Switched_example : Switched yielded kernel (candidates kernel) (dispatch yielded kernel)
dispatch-Switched_example = dispatch-Switched yielded kernel (omega arith) (omega arith, tt)

kernel-Balanced : Balanced kernel
kernel-Balanced s = ground arith

abbrev passed : Kernel
passed = set_val 6 (pos 0) kernel

wait_runs : wait 6 kernel ≡ some (returns sem_didnt_wait, passed)
unfolding wait
wait_runs = ground arith

Alive-3 : Alive kernel 3
unfolding is_finished is_thread_valid
Alive-3 = (omega arith, ground arith)

signal-wakes_example :
    (k' : Kernel) × (signal 5 kernel ≡ some (pos 1, k'))
    × Woken regularly_waited 5 3 [] (set_val 5 (inc (negsuc 0)) kernel) k'
    × BalancedAt k' 5
signal-wakes_example = signal-wakes 5 3 [] kernel refl refl Alive-3

delete_sem-AllWoken_example :
    (k' : Kernel) × (delete_sem 5 kernel ≡ some k')
    × AllWoken sem_deleted 5 (3 ∷ []) kernel k'
    × ((xs : List ℕ) × (k'.freed ≡ xs ++ 5 ∷ []))
delete_sem-AllWoken_example = delete_sem-AllWoken 5 kernel refl (Alive-3, tt)

unblocked_by_time_lem_example : TimedOut 5 3 kernel (unblocked_by_time 5 3 kernel)
unblocked_by_time_lem_example = unblocked_by_time_lem 5 3 kernel refl refl refl Alive-3

try_wait-zero_example :
    ((try_wait 6 passed).0 ≡ pos 1)
    × (¬ BalancedAt (try_wait 6 passed).1 6)
    × (signal 6 (try_wait 6 passed).1 ≡ none)
try_wait-zero_example = try_wait-zero 6 passed refl refl

kernel-Ordered : Ordered kernel
kernel-Ordered = omega arith

sleepers : All (Sleeper kernel) (2 ∷ 3 ∷ [])
unfolding is_thread_valid
sleepers = (
  record { real = omega arith; valid = ground arith; bound = λ e. ground arith },
  (record { real = omega arith; valid = ground arith; bound = λ e. ground arith }, tt),
)

tick-wakes_example :
    ((tick kernel).sys_time ≡ 4)
    × ((tick kernel).list_asleep ≡ 3 ∷ [])
    × ((tick kernel).queue_threads ≡ 4 ∷ 2 ∷ [])
    × All (λ q. 4 < wake_time kernel q) (tick kernel).list_asleep
tick-wakes_example = tick-wakes kernel (omega arith) kernel-Ordered (refl, (refl, tt)) sleepers
