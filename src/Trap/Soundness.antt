-- ===== src/Trap/Soundness.antt =====
-- Every trap of a well-behaved program leaves the machine sound.
use oskernel_riscv.Base.{ℕ, ◌≡◌}
use oskernel_riscv.Allocator.{Layout}
use oskernel_riscv.Semaphore.{Reply}
use oskernel_riscv.Syscalls.{Machine, ecall_of}
use oskernel_riscv.Syscalls.Needs.{Needs, RoomForElements}
use oskernel_riscv.Syscalls.Soundness.{SoundMachine, AllowedCall}
use oskernel_riscv.Trap.{Trap, Cpu, Cause, ecall, timer, console, End, goes_on}

-- The traps of a well-behaved program: allowed system calls, and interrupts at any time.
abbrev pub AllowedTrap : Layout → ℕ → Cause → Trap → Machine → Type 0
AllowedTrap l i ecall t m = AllowedCall l i (ecall_of t.a0) t.a1 t.a2 m
AllowedTrap l i timer t m = Unit {0}
AllowedTrap l i console t m = Unit {0}
AllowedTrap l i _ t m = ⊥

-- What the trap finds in memory: what its call needs, and for a preemption two free blocks.
abbrev pub TrapNeeds : Layout → Cause → Trap → Machine → Type 0
TrapNeeds l ecall t m = Needs l (ecall_of t.a0) t.a1 m
TrapNeeds l timer t m = RoomForElements l m.heap
TrapNeeds l _ t m = Unit {0}

-- The trap ends in some thread, on a sound machine.
abbrev pub GoesOn : Layout → ℕ → End → Type 0
GoesOn l i e = (r : Reply) × (c : Cpu) × (e ≡ goes_on r c) × SoundMachine l i c.machine
