-- ===== src/Tests/Boots.antt =====
-- A kernel that `main` has started, with a putter, a getter and an idle thread.
use oskernel_riscv.Base.{
  ◌^◌, true, false, ◌⊎◌, ◌++◌, ◌≢◌, ◌>>=◌, Option, ℕ, ◌+◌, ◌≤◌, ◌≡◌, refl, some, none, List, [],
  ◌∷◌, arith,
}
use oskernel_riscv.Base.Int.{dec, is_neg, pos}
use oskernel_riscv.State.{
  set_time_for_waking_up, set_threads_sem_status, set_my_sem, ready_to_run, is_finished, Kernel,
  Sem, exited, blocked, is_thread_valid, update,
}
use oskernel_riscv.Queue.Count.{count}
use oskernel_riscv.Scheduler.{
  disable_thread, delete_thread, delete_thread_in_dispatch, thread_dead, bury, retire, elect,
  dispatch, put, get, put, count_system, number, take_seat, adopt, enlist, construct_thread,
  new_thread, exit,
}
use oskernel_riscv.Semaphore.{
  resume_as, set_val, block, begins, Reply, returns, continues, reschedule, resume, wait_as,
  sem_didnt_wait,
}
use oskernel_riscv.Time.{tick, timer_interrupt_handler}
use oskernel_riscv.Placement.{Placed, Place, no_thread, in_line, seat, held_by}
use oskernel_riscv.Placement.Reschedule.{Switch}
use oskernel_riscv.Placement.Sleeping.{exit-Switch}
use oskernel_riscv.Placement.Ticking.{Rises, Due, is_over, timer-Switch}
use oskernel_riscv.Placement.Waiting.{wait_as-Switch}
use oskernel_riscv.Placement.Events.{yields, waits, Sound, perform}
use oskernel_riscv.Placement.Steps.{
  perform-Sound, Reaches, here, later, Reaches-Sound, one_place, yield_times, turn_comes,
}
use oskernel_riscv.Syscalls.{Machine}
use oskernel_riscv.Tests.Heaps.{machine}
use oskernel_riscv.Placement.Ends.{waiting_in_line}
use oskernel_riscv.Queue.{add_last, foreach_while}
use oskernel_riscv.Trap.{Trap, Cpu}
use oskernel_riscv.Console.Workers.{Answer}
use oskernel_riscv.Boot.{create_all, Made, start}
use oskernel_riscv.Boot.Start.{alone, Blank, start-Sound, Makeable}

abbrev sem : Sem
sem = record { val = pos 0; queue_blocked = []; num_of_timed_waiting = 0 }

abbrev blank : Kernel
blank = record {
  threads = λ p. new_thread 0 0 0 0;
  sems = λ s. sem;
  current = 0;
  last_id = 0;
  num_of_system_threads = 0;
  queue_threads = [];
  list_asleep = [];
  num_of_threads_asleep = 0;
  sys_time = 0;
  cpu_time = 0;
  all_semaphores = [];
  num_of_all_semaphores = 0;
  freed = [];
}

blank-Blank : Blank blank
unfolding is_thread_valid
blank-Blank = record {
  nobody_runs = refl;
  nobody_ready = refl;
  nobody_sleeps = refl;
  nobody_waits = λ s. refl;
  no_threads = λ p. ground arith;
  balanced = λ s. ground arith;
}

abbrev made : ℕ → Made
made p = record { at = p; body = 7; stack_space = p + 8192 }

abbrev others : List Made
others = made 200 ∷ made 300 ∷ made 400 ∷ []

-- `main` runs at 100.
abbrev first : Kernel
first = start 100 8292 others blank

abbrev others-Makeable : Makeable (alone 100) others
others-Makeable = (
  omega arith,
  omega arith,
  refl,
  (omega arith, omega arith, refl, (omega arith, omega arith, refl, tt)),
)

start-Sound_example :
    (first.queue_threads ≡ 200 ∷ 300 ∷ 400 ∷ []) × (first.current ≡ 100) × Sound 100 first
start-Sound_example = start-Sound 100 8292 others blank blank-Blank (omega arith) others-Makeable

started_first :
    (first.queue_threads ≡ 200 ∷ 300 ∷ 400 ∷ []) × (first.current ≡ 100) × Sound 100 first
started_first = start-Sound 100 8292 others blank blank-Blank (omega arith) others-Makeable

-- `main` gives the processor up, and the putter waits for a semaphore at 500 with the value 0.
abbrev kernel_of : Option (Reply × Kernel) → Kernel
kernel_of (some (r, k)) = k
kernel_of none = blank

abbrev second : Kernel
second = kernel_of (perform yields first)

abbrev third : Kernel
third = kernel_of (perform (waits 500) second)

to_second : (perform yields first ≡ some (begins, second)) × (second.current ≡ 200)
unfolding perform reschedule start create_all construct_thread enlist adopt take_seat number
    count_system put get dispatch elect retire bury is_thread_valid is_finished ready_to_run
    thread_dead delete_thread_in_dispatch delete_thread disable_thread foreach_while resume_as
to_second = (refl, refl)

to_third : (perform (waits 500) second ≡ some (begins, third)) × (third.current ≡ 300)
unfolding perform reschedule start create_all construct_thread enlist adopt take_seat number
    count_system put get dispatch elect retire bury is_thread_valid is_finished ready_to_run
    thread_dead delete_thread_in_dispatch delete_thread disable_thread foreach_while resume_as
    wait_as block set_my_sem set_threads_sem_status set_time_for_waking_up
to_third = (refl, refl)

perform-Sound_example :
    (r : Reply) × (k' : Kernel) × (perform yields first ≡ some (r, k')) × Sound 100 k'
perform-Sound_example = perform-Sound 100 first yields started_first.2 tt

run_second : Reaches 100 first second
run_second = later here yields begins second tt to_second.0

second-Sound : Sound 100 second
second-Sound = Reaches-Sound 100 first started_first.2 run_second

other_runs : second.current ≢ 100
other_runs e = ground (arith, to_second.1)

run_third : Reaches 100 first third
run_third = later run_second (waits 500) begins third (other_runs, omega arith) to_third.0

one_place_example :
    (seat third.current 200
        + count 200 third.queue_threads
        + count 200 (third.sems 500).queue_blocked
        + count 200 (third.sems 600).queue_blocked
      ≤ 1)
    × (count 200 third.list_asleep ≤ 1)
    × (seat third.current 200 + count 200 third.queue_threads + count 200 third.list_asleep ≤ 1)
one_place_example = one_place 100 first third 200 500 600 started_first.2 run_third (omega arith)

turn_comes_example :
    (k' : Kernel) × (yield_times 2 first ≡ some k')
    × (k'.current ≡ 300)
    × (k'.queue_threads ≡ 400 ∷ first.current ∷ 200 ∷ [])
turn_comes_example =
    turn_comes (200 ∷ []) (400 ∷ []) 300 first started_first.2.places started_first.2.placed
      started_first.2.runs started_first.0

main_waits : second-Sound.places 100 ≡ in_line
main_waits = waiting_in_line 100 second second-Sound other_runs

exit-Switch_example :
    Switch
      (exit exited second >>= λ k'. some (resume k'))
      second.queue_threads
      ((second.freed ++ (second.threads second.current).stack ∷ []) ++ second.current ∷ [])
      (update second-Sound.places second.current no_thread)
exit-Switch_example =
    exit-Switch second second-Sound.places second-Sound.placed second-Sound.runs exited 100
      main_waits

wait_as-Switch_example :
    ((is_neg (dec (second.sems 500).val) ≡ false)
      × (wait_as (blocked 500) (returns sem_didnt_wait) 500 second
          ≡ some (returns sem_didnt_wait, set_val 500 (dec (second.sems 500).val) second))
      × Placed (set_val 500 (dec (second.sems 500).val) second) second-Sound.places)
    ⊎ ((is_neg (dec (second.sems 500).val) ≡ true)
        × Switch
            (wait_as (blocked 500) (returns sem_didnt_wait) 500 second)
            second.queue_threads
            second.freed
            (update second-Sound.places second.current (held_by 500)))
wait_as-Switch_example =
    wait_as-Switch 500 second second-Sound.places second-Sound.placed second-Sound.runs
      (omega arith) (blocked 500) (returns sem_didnt_wait) 100 main_waits

timer-Switch_example :
    (g : ℕ → Place) × Rises started_first.2.places g
    × Due first started_first.2.places g
    × (((is_over first ≡ false)
          × (timer_interrupt_handler first ≡ some (continues, tick first))
          × Placed (tick first) g)
        ⊎ ((is_over first ≡ true)
            × Switch
                (timer_interrupt_handler first)
                (add_last (tick first).queue_threads first.current)
                (tick first).freed
                (update g first.current in_line)))
timer-Switch_example =
    timer-Switch first started_first.2.places started_first.2.placed started_first.2.runs

-- The threads on the heap of eight blocks.
abbrev started_machine : Machine
started_machine = record machine { kernel = first }

-- A timer interrupt while `main` runs.
abbrev timer_trap : Trap
timer_trap = record {
  scause = 2 ^ 63 + 1;
  sepc = 4096;
  sstatus = 256;
  a0 = 0;
  a1 = 0;
  a2 = 0;
  a3 = 0;
  a4 = 0;
  claimed = 0;
}

abbrev started_cpu : Cpu
started_cpu = record {
  machine = started_machine;
  frames = λ p. (0, 0);
  sepc = 4096;
  sstatus = 256;
  console_interrupt = false;
}

-- Two characters arrive.
abbrev typed : List Answer
typed = (true, 65, false ∷ true ∷ []) ∷ (true, 66, true ∷ []) ∷ (false, 0, []) ∷ []
