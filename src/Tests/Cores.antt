-- ===== src/Tests/Cores.antt =====
-- Two threads with their stacks at 4096 and 8192, and their contexts at 64 and 128.
use oskernel_riscv.Base.{◌+◌, ◌≡◌, refl, inl, false, arith, ◌==◌, if◌then◌else◌, ◌||◌, ◌&&◌, not}
use oskernel_riscv.Registers.{
  Core, push_registers, pop_registers, context_switch, trap_entry, trap_exit, write_result,
}
use oskernel_riscv.Registers.Frames.{frame}
use oskernel_riscv.Registers.Switch.{switch_back-switch}
use oskernel_riscv.Registers.Return.{trap_exit-entry}
use oskernel_riscv.Registers.Control.{
  Control, bit, r_sip, r_sstatus, ms_sip, mc_sip, ms_sstatus, mc_sstatus, mask_bits,
}

abbrev first : Core
first = record { reg = λ i. if i == 0 then 0 else if i == 2 then 4096 else i + 1000; mem = λ x. 0 }

abbrev second : Core
second = record {
  reg = λ i. if i == 0 then 0 else if i == 2 then 8192 else i + 2000;
  mem = (context_switch 64 128 (push_registers false first)).mem;
}

switch_back-switch_example :
    (pop_registers false (context_switch 128 64 (push_registers false second))).reg 5 ≡ first.reg 5
switch_back-switch_example =
    switch_back-switch 64 128 128 first second 5 (omega arith, omega arith)
      (inl (omega arith), inl (omega arith))
      (record {
        room = (omega arith, omega arith);
        frames = inl (omega arith);
        contexts = inl (omega arith);
        my_frame = (inl (omega arith), inl (omega arith));
        other_frame = (inl (omega arith), inl (omega arith));
      })
      (refl, refl, λ j lo hi. refl) (omega arith) (omega arith)

abbrev in_handler : Core
in_handler = record { reg = λ i. if i == 2 then 3840 else 0; mem = (trap_entry first).mem }

trap_exit-entry_example :
    (trap_exit (write_result (frame first) 7 in_handler)).reg 10
    ≡ (if 10 == 10 then 7 else first.reg 10)
trap_exit-entry_example =
    trap_exit-entry first in_handler 7 10 (omega arith, omega arith) refl refl refl
      (λ j hi ne. refl) (omega arith)

-- A trap from supervisor mode with interrupts on
abbrev trapped : Control
trapped = record { scause = 9; sepc = 80; stvec = 0; stval = 0; sip = 2; sstatus = 288 }

mask_bits_example :
    (bit 1 (r_sip (ms_sip 2 trapped)) ≡ (bit 1 (r_sip trapped) || bit 1 2))
    × (bit 1 (r_sip (mc_sip 2 trapped)) ≡ (bit 1 (r_sip trapped) && not (bit 1 2)))
    × (bit 1 (r_sstatus (ms_sstatus 2 trapped)) ≡ (bit 1 (r_sstatus trapped) || bit 1 2))
    × (bit 1 (r_sstatus (mc_sstatus 2 trapped)) ≡ (bit 1 (r_sstatus trapped) && not (bit 1 2)))
mask_bits_example = mask_bits trapped 2 1 (omega arith)
