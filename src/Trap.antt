-- ===== src/Trap.antt =====
-- src/_riscv.cpp: `handleSupervisorTrap`, with src/supervisorTrap.S around it, and
-- `popSppSpieChangeMod`. The hardware stores the program counter and the status of the trapping code in
-- `sepc` and `sstatus`; the handler keeps both in its frame on the stack of the thread that trapped, and
-- the thread that runs behind it takes them from its own frame.
pub mod Frames
pub mod Soundness
pub mod Report
use oskernel_riscv.Base.{
  ℕ, ◌+◌, ◌-◌, ◌/◌, ◌%◌, ◌^◌, Bool, true, false, Option, none, some, ◌==◌, if◌then◌else◌, ◌>>=◌,
}
use oskernel_riscv.Base.Int.{ℤ}
use oskernel_riscv.Allocator.{Layout}
use oskernel_riscv.State.{update}
use oskernel_riscv.Semaphore.{Reply, returns, begins, reads, continues}
use oskernel_riscv.Time.{timer_interrupt_handler}
use oskernel_riscv.Syscalls.{Machine, run, ecall_handler}

-- What a trap brings: the cause, the interrupted place, the registers `a0` to `a4`, and the number
-- that `plic_claim` answers.
pub record Trap : Type 0 where
  pub scause : ℕ
  pub sepc : ℕ
  pub sstatus : ℕ
  pub a0 : ℕ
  pub a1 : ℕ
  pub a2 : ℕ
  pub a3 : ℕ
  pub a4 : ℕ
  pub claimed : ℕ

-- The handler's variables `sepc` and `sstatus`.
abbrev pub Frame : Type 0
Frame = ℕ × ℕ

-- The machine, the frame of each thread, the two registers, and `consoleInterrupt`.
pub record Cpu : Type 0 where
  pub machine : Machine
  pub frames : ℕ → Frame
  pub sepc : ℕ
  pub sstatus : ℕ
  pub console_interrupt : Bool

-- `trapType`
pub data Cause : Type 0 where
  ecall timer console illegal_instruction illegal_rd_addr illegal_wr_addr unknown_cause : Cause

unfoldable pub cause_of : ℕ → Cause
cause_of scause =
    if scause == 8
    then ecall
    else if scause == 9
    then ecall
    else if scause == 2 ^ 63 + 1
    then timer
    else if scause == 2 ^ 63 + 9
    then console
    else if scause == 2
    then illegal_instruction
    else if scause == 5
    then illegal_rd_addr
    else if scause == 7
    then illegal_wr_addr
    else unknown_cause

-- `sepc += 4` of a system call
abbrev pub return_place : Cause → ℕ → ℕ
return_place ecall sepc = (sepc + 4) % 2 ^ 64
return_place _ sepc = sepc

abbrev pub frame_of : Trap → Frame
frame_of t = (return_place (cause_of t.scause) t.sepc, t.sstatus)

-- `mc_sstatus(SSTATUS_SPP)` clears bit 8.
abbrev pub clear_spp : ℕ → ℕ
clear_spp s = if (s / 256) % 2 == 1 then s - 256 else s

-- How the trap ends: at some place of a thread, with the reply to it, or with the end of the kernel.
pub data End : Type 0 where
  goes_on : Reply → Cpu → End
  terminates : ℕ → End
  faults : End

-- The frame is the running thread's. The first thread takes over the frame in which it was made.
abbrev pub owner : ℕ → ℕ → ℕ
owner before after = if before == 0 then after else before

-- The end of the handler, in the frame of the thread that runs now. A thread that begins its body has no
-- frame: `popSppSpieChangeMod` leaves for `entry`, the place in the wrapper behind its call.
unfoldable pub leave : ℕ → Trap → Cpu → Reply × Machine → End
leave entry t c (r, m) =
    let frames = update c.frames (owner c.machine.kernel.current m.kernel.current) (frame_of t) in
    goes_on r (place entry r t (record c { machine = m; frames = frames }))
  where
    place : ℕ → Reply → Trap → Cpu → Cpu
    place entry begins t c = record c { sepc = entry; sstatus = clear_spp t.sstatus }
    place entry r t c =
        let f = c.frames c.machine.kernel.current in record c { sepc = f.0; sstatus = f.1 }

abbrev pub ended : ℕ → Trap → Cpu → Option (Reply × Machine) → End
ended entry t c none = faults
ended entry t c (some q) = leave entry t c q

-- `console_interrupt_handler`
abbrev pub console_interrupt_handler : ℕ → Cpu → Cpu
console_interrupt_handler claimed c =
    if claimed == 10 then record c { console_interrupt = true } else c

abbrev pub handle : Layout → ℕ → Cause → Trap → Cpu → End
handle l entry ecall t c = ended entry t c (ecall_handler l t.a0 t.a1 t.a2 t.a3 t.a4 c.machine)
handle l entry timer t c =
    ended entry t c (run c.machine (timer_interrupt_handler c.machine.kernel))
handle l entry console t c =
    leave entry t (console_interrupt_handler t.claimed c) (continues, c.machine)
handle l entry illegal_instruction t c = terminates t.sepc
handle l entry illegal_rd_addr t c = terminates t.sepc
handle l entry illegal_wr_addr t c = terminates t.sepc
handle l entry unknown_cause t c = terminates t.sepc

-- `handleSupervisorTrap`
unfoldable pub handle_supervisor_trap : Layout → ℕ → Trap → Cpu → End
handle_supervisor_trap l entry t c = handle l entry (cause_of t.scause) t c
