-- ===== src/Time.antt =====
-- src/_time.cpp: sleeping, waking and preemption. A tick is one timer interrupt.
pub mod Sleep
use oskernel_riscv.Base.{
  ℕ, ◌+◌, ◌%◌, ◌^◌, Bool, true, false, not, ◌&&◌, Option, none, some, List, [], ◌∷◌, ◌==◌, leb,
  if◌then◌else◌,
}
use oskernel_riscv.Base.Int.{ℤ, pos, negsuc}
use oskernel_riscv.Queue.{remove_spec, foreach_while}
use oskernel_riscv.State.{
  Kernel, suspended, slept, preempted, inc64, is_timed_waiting, is_thread_valid, set_thread_state,
  set_time_for_waking_up,
}
use oskernel_riscv.Scheduler.{put}
use oskernel_riscv.Semaphore.{
  Reply, returns, continues, insert_asleep, unblocked_by_time, reschedule,
}

-- `shouldWakeUpThread` and `wakeThreadUp`
unfoldable pub should_wake_up_thread : Kernel → ℕ → Bool
should_wake_up_thread k p = leb (k.threads p).time_for_waking_up k.sys_time

unfoldable pub wake_thread_up : Kernel → ℕ → Kernel
wake_thread_up k p =
    if not (is_thread_valid k p)
    then k
    else if is_timed_waiting (k.threads p).sem_status
    then (let s = (k.threads p).my_sem in if s == 0 then k else unblocked_by_time s p k)
    else (let (found, rest) = remove_spec p k.list_asleep in
        if found then put p (record k { list_asleep = rest }) else k)

-- `wake_asleep_threads_up`
unfoldable pub wake_asleep_threads_up : Kernel → Kernel
wake_asleep_threads_up k = foreach_while should_wake_up_thread wake_thread_up k.list_asleep k

-- `timer_interrupt_handler`: the clocks, the sleepers, and preemption at the end of the time slice.
unfoldable pub tick : Kernel → Kernel
tick k =
    wake_asleep_threads_up (record k { sys_time = inc64 k.sys_time; cpu_time = inc64 k.cpu_time })

unfoldable pub timer_interrupt_handler : Kernel → Option (Reply × Kernel)
timer_interrupt_handler k =
    let k₁ = tick k in
    if leb (k₁.threads k₁.current).time_slice k₁.cpu_time
    then reschedule preempted k₁
    else some (continues, k₁)

-- `put_thread_to_sleep` of the running thread, up to the switch
unfoldable pub fall_asleep : ℕ → ℕ → Kernel → Kernel
fall_asleep p time_sleeping k =
    let k₁ =
      set_time_for_waking_up ((k.sys_time + time_sleeping) % 2 ^ 64) p
        (set_thread_state suspended p k) in
    insert_asleep p (record k₁ { num_of_threads_asleep = inc64 k₁.num_of_threads_asleep })

unfoldable pub put_running_thread_to_sleep : ℕ → Kernel → Option (Reply × Kernel)
put_running_thread_to_sleep time_sleeping k =
    if is_thread_valid k k.current
    then reschedule slept (fall_asleep k.current time_sleeping k)
    else some (returns (pos 0), k)
