-- ===== src/Trap/Frames.antt =====
-- Threads are switched in and out across traps; each goes on where it was.
use oskernel_riscv.Base.{
  ℕ, ◌+◌, ◌%◌, ◌^◌, ◌==◌, ◌||◌, if◌then◌else◌, ◌≡◌, refl, ap, ◌∙◌, subst, ◌≢◌, Option, none, some,
  arith,
}
use oskernel_riscv.Allocator.{Layout}
use oskernel_riscv.Semaphore.{Reply, returns, begins, reads, continues}
use oskernel_riscv.Syscalls.{Machine}
use oskernel_riscv.Trap.{
  Trap, Cpu, Frame, Cause, ecall, timer, console, illegal_instruction, illegal_rd_addr,
  illegal_wr_addr, unknown_cause, cause_of, frame_of, End, goes_on, terminates, faults, leave,
  ended, console_interrupt_handler, handle, handle_supervisor_trap,
}

-- What a trap that goes on has done: the frame of the trapping thread is the trap's, the other frames are
-- as before, and a thread that does not begin goes on as its frame says.
pub record Left (t : Trap) (c : Cpu) (r : Reply) (c' : Cpu) : Type 0 where
  pub own : c.machine.kernel.current ≢ 0 → c'.frames c.machine.kernel.current ≡ frame_of t
  pub others :
      (p : ℕ)
      → c.machine.kernel.current ≢ 0
      → p ≢ c.machine.kernel.current
      → c'.frames p ≡ c.frames p
  pub placed : r ≢ begins → (c'.sepc, c'.sstatus) ≡ c'.frames c'.machine.kernel.current

Ends : Trap → Cpu → End → Type 0
Ends t c (goes_on r c') = Left t c r c'
Ends t c (terminates pc) = Unit
Ends t c faults = Unit

leave-Ends :
    (entry : ℕ) (t : Trap) (c c₀ : Cpu) (r : Reply) (m : Machine)
    → c.machine ≡ c₀.machine
    → c.frames ≡ c₀.frames
    → Ends t c₀ (leave entry t c (r, m))
unfolding Ends leave
leave-Ends entry t c c₀ begins m e f = record {
  own = λ nz. ground arith;
  others = λ p nz ne. ground arith;
  placed = λ nb. absurd (nb refl);
}
leave-Ends entry t c c₀ (returns z) m e f = record {
  own = λ nz. ground arith;
  others = λ p nz ne. ground arith;
  placed = λ nb. refl;
}
leave-Ends entry t c c₀ reads m e f = record {
  own = λ nz. ground arith;
  others = λ p nz ne. ground arith;
  placed = λ nb. refl;
}
leave-Ends entry t c c₀ continues m e f = record {
  own = λ nz. ground arith;
  others = λ p nz ne. ground arith;
  placed = λ nb. refl;
}

ended-Ends :
    (entry : ℕ) (t : Trap) (c : Cpu) (o : Option (Reply × Machine)) → Ends t c (ended entry t c o)
unfolding Ends
ended-Ends entry t c none = tt
ended-Ends entry t c (some (r, m)) = leave-Ends entry t c c r m refl refl

console-same :
    (n : ℕ) (c : Cpu)
    → ((console_interrupt_handler n c).machine ≡ c.machine)
      × ((console_interrupt_handler n c).frames ≡ c.frames)
console-same n c = ground arith

handle-Ends :
    (l : Layout) (entry : ℕ) (k : Cause) (t : Trap) (c : Cpu) → Ends t c (handle l entry k t c)
unfolding Ends
handle-Ends l entry ecall t c = ended-Ends entry t c _
handle-Ends l entry timer t c = ended-Ends entry t c _
handle-Ends l entry console t c =
    let (m, f) = console-same t.claimed c in
    leave-Ends entry t (console_interrupt_handler t.claimed c) c continues c.machine m f
handle-Ends l entry illegal_instruction t c = tt
handle-Ends l entry illegal_rd_addr t c = tt
handle-Ends l entry illegal_wr_addr t c = tt
handle-Ends l entry unknown_cause t c = tt

-- The frame that a trap makes
frame-places :
    (t : Trap)
    → ◌≡◌ {A = Frame}
        (frame_of t)
        (if (t.scause == 8) || (t.scause == 9) then (t.sepc + 4) % 2 ^ 64 else t.sepc, t.sstatus)
unfolding cause_of
frame-places t = ap (λ (p : ℕ). (p, t.sstatus)) (ground arith)

module _ (l : Layout) (entry : ℕ) where
  pub trap-Left :
      (t : Trap) (c c' : Cpu) (r : Reply)
      → handle_supervisor_trap l entry t c ≡ goes_on r c'
      → Left t c r c'
  unfolding handle_supervisor_trap Ends
  trap-Left t c c' r e = subst (Ends t c) e (handle-Ends l entry (cause_of t.scause) t c)

  -- Traps that other threads than `p` take, one after the other, from the state `c` on.
  pub data Away (p : ℕ) (c : Cpu) : Cpu → Type 0 where
    stay : Away p c c
    trap :
        {c₁ : Cpu}
        → Away p c c₁
        → (t : Trap) (r : Reply) (c₂ : Cpu) → c₁.machine.kernel.current ≢ 0
        → p ≢ c₁.machine.kernel.current
        → handle_supervisor_trap l entry t c₁ ≡ goes_on r c₂
        → Away p c c₂

  Away-frame : (p : ℕ) (c : Cpu) {c' : Cpu} → Away p c c' → c'.frames p ≡ c.frames p
  Away-frame p c stay = refl
  Away-frame p c (trap {c₁} a t r c₂ nz ne e) =
      (trap-Left t c₁ c₂ r e).others p nz ne ∙ Away-frame p c a

  -- A thread that took a trap, was switched away for any number of traps of other threads, and is
  -- running again behind the last of them goes on where its own trap says: with its status, and four bytes
  -- behind the `ecall` of a system call (the causes 8 and 9), or else at the interrupted instruction. The handler's
  -- variables of each thread are its own: they stand on its stack.
  pub switch-back :
      (t u : Trap) (r r' : Reply) (c₀ c₁ c₂ c₃ : Cpu)
      → c₀.machine.kernel.current ≢ 0
      → handle_supervisor_trap l entry t c₀ ≡ goes_on r c₁
      → Away c₀.machine.kernel.current c₁ c₂
      → c₂.machine.kernel.current ≢ 0
      → c₀.machine.kernel.current ≢ c₂.machine.kernel.current
      → handle_supervisor_trap l entry u c₂ ≡ goes_on r' c₃
      → c₃.machine.kernel.current ≡ c₀.machine.kernel.current
      → r' ≢ begins
      → ◌≡◌ {A = Frame}
          (c₃.sepc, c₃.sstatus)
          (if (t.scause == 8) || (t.scause == 9) then (t.sepc + 4) % 2 ^ 64 else t.sepc, t.sstatus)
  switch-back t u r r' c₀ c₁ c₂ c₃ nz e a nz₂ ne e' back nb =
      let p = c₀.machine.kernel.current in
      let last = trap-Left u c₂ c₃ r' e' in
      last.placed nb
      ∙ (ap c₃.frames back
          ∙ (last.others p nz₂ ne
              ∙ (Away-frame p c₁ a ∙ ((trap-Left t c₀ c₁ r e).own nz ∙ frame-places t))))
