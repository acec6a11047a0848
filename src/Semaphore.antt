-- ===== src/Semaphore.antt =====
-- src/_sem.cpp and h/_sem.hpp. A wait that blocks ends with the switch to another thread; `resume` is
-- what the woken thread does behind it. `none` stands for the use of a null pointer.
pub mod Balance
pub mod End
pub mod Wake
use oskernel_riscv.Base.{
  ℕ, zero, suc, ◌+◌, ◌%◌, ◌^◌, Bool, true, false, not, ◌&&◌, ◌||◌, Option, none, some, List, [],
  ◌∷◌, ◌++◌, ◌==◌, ltb, if◌then◌else◌, ◌>>=◌,
}
use oskernel_riscv.Base.Int.{ℤ, pos, negsuc, dec, inc, is_neg, is_pos, to_long}
use oskernel_riscv.Queue.{add_last, remove_first, remove_spec, insert_sorted}
use oskernel_riscv.State.{
  ThreadState, SemStatus, Resume, Sem, Kernel, ready, non_waiting, waiting, timed_waiting,
  regularly_waited, timeout, sem_deleted, started, yielded, preempted, exited, slept, blocked,
  getting, timed_blocked, inc64, dec64, is_timed_waiting, put_sem, is_thread_valid,
  set_thread_state, set_time_for_waking_up, set_my_sem, set_threads_sem_status,
}
use oskernel_riscv.Scheduler.{put, free, dispatch}

-- `_sem::semWaitAnswers`
abbrev pub sem_didnt_wait : ℤ
sem_didnt_wait = pos 1

abbrev pub sem_okay_waited : ℤ
sem_okay_waited = pos 0

abbrev pub sem_dead : ℤ
sem_dead = negsuc 0

abbrev pub sem_timeout : ℤ
sem_timeout = negsuc 1

abbrev pub sem_error : ℤ
sem_error = negsuc 4

-- `_time::smallerSleepTime`, `insert_ordered_in_list_of_sleeping_threads`, `remove_thread_from_sleep`
abbrev pub smaller_sleep_time : Kernel → ℕ → ℕ → Bool
smaller_sleep_time k a b = ltb (k.threads a).time_for_waking_up (k.threads b).time_for_waking_up

unfoldable pub insert_asleep : ℕ → Kernel → Kernel
insert_asleep p k = record k { list_asleep = insert_sorted (smaller_sleep_time k) p k.list_asleep }

unfoldable pub insert_ordered : ℕ → Kernel → Kernel
insert_ordered p k = if is_thread_valid k p then insert_asleep p k else k

unfoldable pub remove_from_sleep : ℕ → Kernel → Kernel
remove_from_sleep p k = record k { list_asleep = (remove_spec p k.list_asleep).1 }

-- Changes of one semaphore's fields.
abbrev pub set_val : ℕ → ℤ → Kernel → Kernel
set_val s v k = put_sem k s (record (k.sems s) { val = v })

abbrev pub set_queue : ℕ → List ℕ → Kernel → Kernel
set_queue s q k = put_sem k s (record (k.sems s) { queue_blocked = q })

abbrev pub set_num_timed : ℕ → ℕ → Kernel → Kernel
set_num_timed s n k = put_sem k s (record (k.sems s) { num_of_timed_waiting = n })

-- `generateWAITResponses`
abbrev pub answer : SemStatus → ℤ
answer non_waiting = sem_didnt_wait
answer waiting = sem_error
answer timed_waiting = sem_error
answer sem_deleted = sem_dead
answer regularly_waited = sem_okay_waited
answer timeout = sem_timeout

unfoldable pub generate_wait_responses : Kernel → ℤ × Kernel
generate_wait_responses k =
    let status = (k.threads k.current).sem_status in
    (answer status, set_threads_sem_status non_waiting k.current k)

-- What a system call hands to the thread that runs behind it: a result, the begin of its body, the
-- reading of a character, or nothing, as after an interrupt.
pub data Reply : Type 0 where
  returns : ℤ → Reply
  begins : Reply
  reads : Reply
  continues : Reply

-- The code behind the call of `dispatch`, run by the thread that was switched to.
unfoldable pub resume_as : Resume → Kernel → Reply × Kernel
resume_as started k = (begins, k)
resume_as yielded k = (returns (pos 0), k)
resume_as preempted k = (continues, k)
resume_as exited k = (returns (negsuc 0), k)
resume_as slept k =
    let k₁ = set_time_for_waking_up 0 k.current (set_thread_state ready k.current k) in
    (returns (pos 0), record k₁ { num_of_threads_asleep = dec64 k₁.num_of_threads_asleep })
resume_as (blocked s) k =
    let (v, k₁) = generate_wait_responses (set_my_sem 0 k.current k) in (returns v, k₁)
resume_as (getting s) k =
    let (v, k₁) = generate_wait_responses (set_my_sem 0 k.current k) in (reads, k₁)
resume_as (timed_blocked s) k =
    let k₁ = set_my_sem 0 k.current k in
    let k₂ = set_num_timed s (dec64 (k₁.sems s).num_of_timed_waiting) k₁ in
    let (v, k₃) = generate_wait_responses (set_time_for_waking_up 0 k.current k₂) in (returns v, k₃)

abbrev pub resume : Kernel → Reply × Kernel
resume k = resume_as (k.threads k.current).context k

-- `dispatch` and what the thread that runs next does behind it.
unfoldable pub reschedule : Resume → Kernel → Option (Reply × Kernel)
reschedule c k = do k₁ ← dispatch c k; some (resume k₁)

-- `block` and `timedBlock`, up to the switch
unfoldable pub block : ℕ → Kernel → Kernel
block s k =
    let old = k.current in
    set_my_sem s old
      (set_threads_sem_status waiting old (set_queue s (add_last (k.sems s).queue_blocked old) k))

unfoldable pub timed_block : ℕ → ℕ → Kernel → Kernel
timed_block s max_time k =
    let old = k.current in
    let time_for_release = (max_time + k.sys_time) % 2 ^ 64 in
    let k₁ =
      set_time_for_waking_up time_for_release old (set_threads_sem_status timed_waiting old k) in
    let k₂ = insert_ordered old (set_queue s (add_last (k₁.sems s).queue_blocked old) k₁) in
    set_my_sem s old (set_num_timed s (inc64 (k₂.sems s).num_of_timed_waiting) k₂)

-- `wait` and `timedWait`. A blocked thread goes on at `c`, one that passes has the reply `r`.
unfoldable pub wait_as : Resume → Reply → ℕ → Kernel → Option (Reply × Kernel)
wait_as c r s k =
    let v = dec (k.sems s).val in
    let k₁ = set_val s v k in if is_neg v then reschedule c (block s k₁) else some (r, k₁)

unfoldable pub wait : ℕ → Kernel → Option (Reply × Kernel)
unfolding wait_as
wait s k = wait_as (blocked s) (returns sem_didnt_wait) s k

unfoldable pub timed_wait : ℕ → ℕ → Kernel → Option (Reply × Kernel)
timed_wait s max_time k =
    let v = dec (k.sems s).val in
    let k₁ = set_val s v k in
    if is_neg v
    then reschedule (timed_blocked s) (timed_block s max_time k₁)
    else some (returns sem_didnt_wait, k₁)

-- `tryWait`: the test reads the value before it is decreased.
unfoldable pub try_wait : ℕ → Kernel → ℤ × Kernel
try_wait s k = let v = (k.sems s).val in (if is_neg v then pos 0 else pos 1, set_val s (dec v) k)

-- `unblock`
unfoldable pub unblock : SemStatus → ℕ → Kernel → Option Kernel
unblock cause s k =
    let (old, rest) = remove_first (k.sems s).queue_blocked in
    let k₁ = set_queue s rest k in
    let k₂ =
      if is_timed_waiting (k₁.threads old).sem_status then remove_from_sleep old k₁ else k₁ in
    if old == 0
    then none
    else some (put old (set_threads_sem_status cause old (set_my_sem 0 old k₂)))

-- `signal`
unfoldable pub signal : ℕ → Kernel → Option (ℤ × Kernel)
signal s k =
    let v = inc (k.sems s).val in
    let k₁ = set_val s v k in
    if is_pos v then some (pos 0, k₁) else (do k₂ ← unblock regularly_waited s k₁; some (pos 1, k₂))

-- `unblockedByTime`
unfoldable pub unblocked_by_time : ℕ → ℕ → Kernel → Kernel
unblocked_by_time s old k =
    if is_timed_waiting (k.threads old).sem_status
    then (let k₁ = remove_from_sleep old (set_val s (inc (k.sems s).val) k) in
        let k₂ = set_queue s (remove_spec old (k₁.sems s).queue_blocked).1 k₁ in
        put old (set_threads_sem_status timeout old (set_my_sem 0 old k₂)))
    else k

-- How far the value is below 0.
abbrev pub deficit : ℤ → ℕ
deficit (pos n) = 0
deficit (negsuc n) = suc n

-- `unblockAll`: `for (; val < 0; val++) unblock(cause)`
unfoldable pub unblock_times : ℕ → SemStatus → ℕ → Kernel → Option Kernel
unblock_times zero cause s k = some k
unblock_times (suc n) cause s k = do
  k₁ ← unblock cause s k
  unblock_times n cause s (set_val s (inc (k₁.sems s).val) k₁)

unfoldable pub unblock_all : SemStatus → ℕ → Kernel → Option Kernel
unfolding unblock_times
unblock_all cause s k = unblock_times (deficit (k.sems s).val) cause s k

-- `_sem::_sem` at the address that `operator new` gave, and `delete sem`
unfoldable pub construct_sem : ℕ → ℕ → Kernel → Kernel
construct_sem s n k =
    let k₁ =
      put_sem k s (record { val = to_long n; queue_blocked = []; num_of_timed_waiting = 0 }) in
    record k₁ {
      all_semaphores = add_last k₁.all_semaphores s;
      num_of_all_semaphores = inc64 k₁.num_of_all_semaphores;
    }

unfoldable pub delete_sem : ℕ → Kernel → Option Kernel
delete_sem s k = do
  k₁ ← unblock_all sem_deleted s k
  some (
      free s (record k₁ {
        all_semaphores = (remove_spec s k₁.all_semaphores).1;
        num_of_all_semaphores = dec64 k₁.num_of_all_semaphores;
      }))
