-- ===== src/Registers.antt =====
-- The registers of the processor in h/_riscV.hpp, src/_context.cpp and src/supervisorTrap.S: how a thread's registers
-- are kept on its stack while other threads run. A register is named by its number; 1 is `ra` and 2 is `sp`.
pub mod Frames
pub mod Switch
pub mod Return
pub mod Control
use oskernel_riscv.Base.{
  ℕ, zero, suc, ◌+◌, ◌-◌, ◌*◌, ◌%◌, ◌^◌, Bool, List, [], ◌∷◌, ◌==◌, if◌then◌else◌,
}
use oskernel_riscv.Allocator.{Memory, store}

pub record Core : Type 0 where
  pub reg : ℕ → ℕ
  pub mem : Memory

-- A write to `x0` has no effect.
abbrev pub set_reg : ℕ → ℕ → Core → Core
set_reg i v c = record c { reg = λ j. if i == 0 then c.reg j else if j == i then v else c.reg j }

-- `index * 8(sp)`
abbrev pub slot : ℕ → ℕ → ℕ
slot sp i = (sp + i * 8) % 2 ^ 64

-- `sd xi, i * 8(sp)`
abbrev pub store_word : ℕ → Core → Core
store_word i c = record c { mem = store c.mem (slot (c.reg 2) i) (c.reg i) }

-- `ld xi, i * 8(sp)`
abbrev pub load_word : ℕ → Core → Core
load_word i c = set_reg i (c.mem (slot (c.reg 2) i)) c

-- `.irp index`: `n` numbers from `first`
pub indices : ℕ → ℕ → List ℕ
indices first zero = []
indices first (suc n) = first ∷ indices (suc first) n

pub store_words : List ℕ → Core → Core
store_words [] c = c
store_words (i ∷ is) c = store_words is (store_word i c)

pub load_words : List ℕ → Core → Core
load_words [] c = c
load_words (i ∷ is) c = load_words is (load_word i c)

-- `addi sp, sp, -256` and `addi sp, sp, 256`
abbrev pub lower_sp : Core → Core
lower_sp c = set_reg 2 ((c.reg 2 + (2 ^ 64 - 256)) % 2 ^ 64) c

abbrev pub raise_sp : Core → Core
raise_sp c = set_reg 2 ((c.reg 2 + 256) % 2 ^ 64) c

-- `pushRegisters` and `popRegisters`
unfoldable pub push_registers : Bool → Core → Core
unfolding store_words indices
push_registers save_ra_and_sp c =
    let c₁ = store_words (indices 3 29) (lower_sp c) in
    if save_ra_and_sp then store_words (indices 1 2) c₁ else c₁

unfoldable pub pop_registers : Bool → Core → Core
unfolding load_words indices
pop_registers ra_and_sp_were_saved c =
    let c₁ = if ra_and_sp_were_saved then load_words (indices 1 2) c else c in
    raise_sp (load_words (indices 3 29) c₁)

-- `contextSwitch` on the addresses of the two contexts
unfoldable pub context_switch : ℕ → ℕ → Core → Core
context_switch old new c =
    let m = store (store c.mem old (c.reg 1)) (old + 8) (c.reg 2) in
    set_reg 2 (m (new + 8)) (set_reg 1 (m new) (record c { mem = m }))

-- The entry and the exit of `supervisorTrap`, and the write of the handler to the trap's `a0` between
unfoldable pub trap_entry : Core → Core
unfolding store_words indices
trap_entry c = store_words (indices 0 32) (lower_sp c)

unfoldable pub trap_exit : Core → Core
unfolding load_words indices
trap_exit c = raise_sp (load_words (indices 0 32) c)

abbrev pub write_result : ℕ → ℕ → Core → Core
write_result fp result c = record c { mem = store c.mem ((fp + 80) % 2 ^ 64) result }
