-- ===== src/Tests/Traps.antt =====
-- The running thread gives the processor up to the thread at 4, which gives it back.
use oskernel_riscv.Base.{ℕ, ◌≡◌, refl, arith, false}
use oskernel_riscv.State.{is_thread_valid, is_finished, ready_to_run}
use oskernel_riscv.Queue.{foreach_while}
use oskernel_riscv.Scheduler.{
  put, get, elect, bury, retire, dispatch, thread_dead, delete_thread_in_dispatch,
}
use oskernel_riscv.Semaphore.{reschedule, resume_as, begins, returns}
use oskernel_riscv.Base.Int.{pos}
use oskernel_riscv.Syscalls.{ecall_of, ecall_handler, thread_dispatch_wrapper, flush, free_all}
use oskernel_riscv.Trap.{Trap, Cpu, End, goes_on, handle_supervisor_trap, leave, cause_of}
use oskernel_riscv.Trap.Frames.{stay, switch-back}
use oskernel_riscv.Tests.Heaps.{layout, machine}

abbrev yield_at : ℕ → Trap
yield_at pc = record {
  scause = 8;
  sepc = pc;
  sstatus = 32;
  a0 = 0x13;
  a1 = 0;
  a2 = 0;
  a3 = 0;
  a4 = 0;
  claimed = 0;
}

abbrev cpu_of : Cpu → End → Cpu
cpu_of c (goes_on r c') = c'
cpu_of c _ = c

abbrev first : Cpu
first = record {
  machine = machine;
  frames = λ p. (0, 0);
  sepc = 0;
  sstatus = 0;
  console_interrupt = false;
}

abbrev second : Cpu
second = cpu_of first (handle_supervisor_trap layout 4000 (yield_at 1000) first)

abbrev third : Cpu
third = cpu_of second (handle_supervisor_trap layout 4000 (yield_at 2000) second)

second_runs : handle_supervisor_trap layout 4000 (yield_at 1000) first ≡ goes_on begins second
unfolding handle_supervisor_trap cause_of leave ecall_handler ecall_of thread_dispatch_wrapper flush
    free_all reschedule dispatch retire bury elect get put foreach_while thread_dead
    delete_thread_in_dispatch is_thread_valid is_finished ready_to_run resume_as
second_runs = refl

third_runs :
    handle_supervisor_trap layout 4000 (yield_at 2000) second ≡ goes_on (returns (pos 0)) third
unfolding handle_supervisor_trap cause_of leave ecall_handler ecall_of thread_dispatch_wrapper flush
    free_all reschedule dispatch retire bury elect get put foreach_while thread_dead
    delete_thread_in_dispatch is_thread_valid is_finished ready_to_run resume_as
third_runs = refl

switch-back_example : ◌≡◌ {A = ℕ × ℕ} (third.sepc, third.sstatus) (1004, 32)
unfolding handle_supervisor_trap cause_of leave ecall_handler ecall_of thread_dispatch_wrapper flush
    free_all reschedule dispatch retire bury elect get put foreach_while thread_dead
    delete_thread_in_dispatch is_thread_valid is_finished ready_to_run resume_as
switch-back_example =
    switch-back layout 4000 (yield_at 1000) (yield_at 2000) begins (returns (pos 0)) first second
      second third (omega arith) second_runs stay (omega arith) (omega arith) third_runs refl
      (ground arith)
