-- ===== src/Trap/Report.antt =====
-- h/_riscV.hpp: `error_msg_terminate`, `print_stack_trace` and `killQEMU`, the end of the kernel behind an illegal
-- instruction or address. Text is sent to a terminal that is polled; `none` means that its answers ran out first.
pub mod Laws
use oskernel_riscv.Base.{
  ℕ, zero, suc, ◌+◌, ◌%◌, ◌^◌, Bool, Option, none, some, List, [], ◌∷◌, ◌++◌, ◌==◌, ltb, not, ◌&&◌,
  if◌then◌else◌, ◌>>=◌,
}
use Prim.Native.String.{String}
use Prim.Native.Char.{code}
use oskernel_riscv.Allocator.{Memory}
use oskernel_riscv.State.{Kernel}
use oskernel_riscv.Console.{Buffer, print_all}
use oskernel_riscv.Trap.{Cause, illegal_instruction, illegal_rd_addr, illegal_wr_addr}
use oskernel_riscv.Printing.{digits_onto}
use oskernel_riscv.Printing.Priority.{
  priority_print, change_terminal_to_red, change_terminal_to_def,
}

-- The characters of a text in ASCII
abbrev pub codes : String → List ℕ
codes String.[] = []
codes (String.◌∷◌ c s) = code c ∷ codes s

-- What is sent, and the terminal's answers that are left
abbrev pub Sent : Type 0
Sent = Option (List ℕ × List Bool)

abbrev pub follow : Sent → (List Bool → Sent) → Sent
follow r f = do a ← r; b ← f a.1; some (a.0 ++ b.0, b.1)

-- `priority_print_int(v, base)`: the digits are sent without polling.
unfoldable pub priority_print_int : ℕ → ℕ → List Bool → Sent
priority_print_int v base answers =
    follow (change_terminal_to_red answers)
      (λ a. follow (some (digits_onto 32 97 base (v % 2 ^ 32) [], a)) change_terminal_to_def)

-- The return addresses that the loop over the frame pointers reads: at most `depth`, up to the first that is 0
unfoldable pub calls : ℕ → ℕ → Memory → List ℕ
calls zero fp m = []
calls (suc depth) fp m =
    let rest = calls depth (m fp) m in m (fp + 8) ∷ (if m (fp + 8) == 0 then [] else rest)

unfoldable pub print_calls : List ℕ → List Bool → Sent
unfolding priority_print_int
print_calls [] answers = some ([], answers)
print_calls (a ∷ rest) answers = follow (priority_print answers (codes "   Call address: 0x")) (λ b.
    follow (priority_print_int a 16 b)
      (λ c. follow (priority_print c (codes " (-4)\n")) (print_calls rest)))

-- With the counter of the calls that have not ended: a fifth one inside four others prints nothing.
unfoldable pub print_stack_trace : ℕ → ℕ → ℕ → ℕ → Memory → List Bool → Sent
unfolding calls print_calls priority_print_int
print_stack_trace counter depth sepc fp m answers =
    let printed = follow (priority_print answers (codes "-\n-Stack trace :\n ")) (λ a.
      follow (priority_print a (codes " Current SEPC: 0x")) (λ b.
        follow (priority_print_int sepc 16 b) (λ c. follow (priority_print c (codes "\n")) (λ d.
          follow (print_calls (calls depth fp m) d)
            (λ e. priority_print e (codes "---------------------------------------\n")))))) in
    if ltb 3 counter then some ([], answers) else printed

abbrev pub stack_trace_depth : ℕ
stack_trace_depth = 2

-- The machine's end: what was sent, and the word that stops the machine with its address.
pub record Stopped : Type 0 where
  pub sent : List ℕ
  pub address : ℕ
  pub word : ℕ

-- `killQEMU`: the answers are those to the console's buffer and those behind it.
unfoldable pub kill_qemu : List Bool → List Bool → Buffer → Option Stopped
kill_qemu answers later b = do
  r ← print_all answers b
  s ← priority_print later (codes "\nKernel finished! :)\n\n")
  some (record { sent = r.0 ++ s.0; address = 1048576; word = 21845 })

unfoldable pub error_msg_terminate :
    String → ℕ → ℕ → ℕ → Memory → List Bool → List Bool → List Bool → Buffer → Option Stopped
unfolding print_stack_trace kill_qemu
error_msg_terminate s sepc counter fp m answers for_buffer later b = do
  r ←
      follow (priority_print answers (codes s))
        (print_stack_trace counter stack_trace_depth sepc fp m)
  k ← kill_qemu for_buffer later b
  some (record k { sent = r.0 ++ k.sent })

-- What the handler says to an illegal instruction or address; a cause that it does not know is printed first.
abbrev pub message : Cause → Option String
message illegal_instruction = some "Illegal instruction!\n"
message illegal_rd_addr = some "Illegal address for reading!\n"
message illegal_wr_addr = some "Illegal address for writing!\n"
message _ = none

-- `checkForNestedSysCalls`: a warning if the running thread has a body and traps from supervisor mode.
unfoldable pub check_for_nested_sys_calls : Kernel → ℕ → List Bool → Sent
unfolding priority_print_int
check_for_nested_sys_calls k sepc answers =
    let warned =
      follow (priority_print answers (codes "Nested system calls at: 0x"))
        (λ a. follow (priority_print_int sepc 16 a) (λ b. priority_print b (codes " !\n"))) in
    if not (k.current == 0) && not ((k.threads k.current).body == 0)
    then warned
    else some ([], answers)
