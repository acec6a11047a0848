-- ===== src/Trap/Report/Laws.antt =====
-- What the report of an error sends.
use oskernel_riscv.Base.{
  ℕ, zero, suc, ◌+◌, ◌*◌, ◌%◌, ◌^◌, ◌≤◌, ◌≡◌, refl, Bool, false, true, some, List, [], ◌∷◌, ◌++◌,
  ◌==◌, ltb, length, arith, not, ◌&&◌, ◌≢◌,
}
use oskernel_riscv.Allocator.{Memory}
use oskernel_riscv.Printing.{digits_onto}
use oskernel_riscv.Printing.Priority.{
  red, default_colour, priority_print, send_all-total, ready_times, change_terminal_to_red,
  change_terminal_to_def,
}
use oskernel_riscv.State.{Kernel}
use oskernel_riscv.Console.{Buffer}
use oskernel_riscv.Console.Fifo.{IsBuffer, contents, yes_count, print_all-contents}
use Prim.Native.String.{String}
use oskernel_riscv.Trap.Report.{
  codes, Sent, check_for_nested_sys_calls, follow, priority_print_int, calls, print_calls,
  print_stack_trace, kill_qemu, error_msg_terminate, stack_trace_depth,
}

-- The text is sent to a terminal that is ready `n` times.
abbrev pub Sends : List ℕ → ℕ → (List Bool → Sent) → Type 0
Sends text n f =
    (answers : List Bool)
    → n ≤ ready_times answers
    → (rest : List Bool) × (f answers ≡ some (text, rest))
      × (ready_times answers ≡ n + ready_times rest)

Sends-follow :
    (t u : List ℕ) (n k : ℕ) (f g : List Bool → Sent)
    → Sends t n f
    → Sends u k g
    → Sends (t ++ u) (n + k) (λ a. follow (f a) g)
Sends-follow t u n k f g fs gs answers le =
    let (a, e₁, k₁) = fs answers (omega (arith, le)) in
    let (b, e₂, k₂) = gs a (omega (arith, le, k₁)) in (b, rw (e₁, e₂) refl, omega (arith, k₁, k₂))

abbrev pub coloured : List ℕ → List ℕ
coloured s = red ++ (s ++ default_colour)

abbrev pub hex : ℕ → List ℕ
hex v = digits_onto 32 97 16 (v % 2 ^ 32) []

priority_print-Sends : (s : List ℕ) → Sends (coloured s) (length s + 9) (λ a. priority_print a s)
unfolding priority_print change_terminal_to_red change_terminal_to_def
priority_print-Sends s answers le =
    let (a₁, e₁, k₁) = send_all-total answers red (omega (arith, le)) in
    let (a₂, e₂, k₂) = send_all-total a₁ s (omega (arith, le, k₁)) in
    let (a₃, e₃, k₃) = send_all-total a₂ default_colour (omega (arith, le, k₁, k₂)) in
    (a₃, rw (e₁, e₂, e₃) refl, omega (arith, k₁, k₂, k₃))

priority_print_int-Sends : (v : ℕ) → Sends (coloured (hex v)) 9 (priority_print_int v 16)
unfolding priority_print_int change_terminal_to_red change_terminal_to_def
priority_print_int-Sends v answers le =
    let (a₁, e₁, k₁) = send_all-total answers red (omega (arith, le)) in
    let (a₂, e₂, k₂) = send_all-total a₁ default_colour (omega (arith, le, k₁)) in
    (a₂, rw (e₁, e₂) refl, omega (arith, k₁, k₂))

-- The lines for the calls
abbrev pub lines : List ℕ → List ℕ
lines [] = []
lines (a ∷ more) =
    coloured (codes "   Call address: 0x")
    ++ (coloured (hex a) ++ (coloured (codes " (-4)\n") ++ lines more))

print_calls-Sends : (more : List ℕ) → Sends (lines more) (length more * 52) (print_calls more)
unfolding print_calls
print_calls-Sends [] answers le = (answers, refl, omega arith)
print_calls-Sends (a ∷ more) answers le =
    let whole =
      Sends-follow _ _ 28 (9 + (15 + length more * 52)) _ _
        (priority_print-Sends (codes "   Call address: 0x"))
        (Sends-follow _ _ 9 (15 + length more * 52) _ _ (priority_print_int-Sends a) (
          Sends-follow _ _ 15 (length more * 52) _ _ (priority_print-Sends (codes " (-4)\n"))
            (print_calls-Sends more))) in
    let (rest, e, k) = whole answers (omega (arith, le)) in (rest, e, omega (arith, k))

length-calls : (depth fp : ℕ) (m : Memory) → length (calls depth fp m) ≤ depth
unfolding calls
length-calls zero fp m = omega arith
length-calls (suc depth) fp m = ground (arith, length-calls depth (m fp) m)

abbrev pub trace : ℕ → List ℕ → List ℕ
trace sepc addresses =
    coloured (codes "-\n-Stack trace :\n ")
    ++ (coloured (codes " Current SEPC: 0x")
        ++ (coloured (hex sepc)
            ++ (coloured (codes "\n")
                ++ (lines addresses
                    ++ coloured (codes "---------------------------------------\n")))))

trace-Sends :
    (counter depth sepc fp : ℕ) (m : Memory)
    → counter ≤ 3
    → Sends
        (trace sepc (calls depth fp m))
        (121 + length (calls depth fp m) * 52)
        (print_stack_trace counter depth sepc fp m)
unfolding print_stack_trace
trace-Sends counter depth sepc fp m le answers ready =
    let addresses = calls depth fp m in
    let n = length addresses * 52 in
    let few : ltb 3 counter ≡ false = ground (arith, le) in
    let whole =
      Sends-follow _ _ 27 (26 + (9 + (10 + (n + 49)))) _ _
        (priority_print-Sends (codes "-\n-Stack trace :\n "))
        (Sends-follow _ _ 26 (9 + (10 + (n + 49))) _ _
          (priority_print-Sends (codes " Current SEPC: 0x"))
          (Sends-follow _ _ 9 (10 + (n + 49)) _ _ (priority_print_int-Sends sepc) (
            Sends-follow _ _ 10 (n + 49) _ _ (priority_print-Sends (codes "\n")) (
              Sends-follow _ _ n 49 _ _ (print_calls-Sends addresses)
                (priority_print-Sends (codes "---------------------------------------\n")))))) in
    let (rest, e, k) = whole answers (omega (arith, ready)) in (rest, rw few e, omega (arith, k))

-- An error that the handler reports, where the terminal is ready often enough and no more than three reports are
-- under way: the message, the place, at most two return addresses, the whole contents of the console's buffer in
-- their order and the last line are sent, and then the word 0x5555 is written to 0x100000.
pub error_msg_terminate_stops :
    (s : String) (sepc counter fp : ℕ) (m : Memory) (answers for_buffer later : List Bool)
    (b : Buffer)
    → counter ≤ 3
    → length (codes s) + 234 ≤ ready_times answers
    → IsBuffer b
    → length (contents b) ≤ yes_count for_buffer
    → 31 ≤ ready_times later
    → (length (calls stack_trace_depth fp m) ≤ 2)
      × (error_msg_terminate s sepc counter fp m answers for_buffer later b
          ≡ some (record {
            sent =
                (coloured (codes s) ++ trace sepc (calls stack_trace_depth fp m))
                ++ (contents b ++ coloured (codes "\nKernel finished! :)\n\n"));
            address = 2 ^ 20;
            word = 21845;
          }))
unfolding error_msg_terminate kill_qemu
error_msg_terminate_stops s sepc counter fp m answers for_buffer later b few ready is full last =
    let short = length-calls stack_trace_depth fp m in
    let whole =
      Sends-follow _ _ (length (codes s) + 9) (121 + length (calls stack_trace_depth fp m) * 52) _ _
        (priority_print-Sends (codes s)) (trace-Sends counter stack_trace_depth sepc fp m few) in
    let (rest, e, k) = whole answers (omega (arith, ready, short)) in
    let (b', e', k') = print_all-contents for_buffer b is full in
    let (rest', e'', k'') = priority_print-Sends (codes "\nKernel finished! :)\n\n") later last in
    (short, rw (e, e', e'') refl)

-- The warning is sent whole to a terminal that is ready often enough.
pub check_for_nested_sys_calls-Sends :
    (k : Kernel) (sepc : ℕ)
    → k.current ≢ 0
    → (k.threads k.current).body ≢ 0
    → Sends
        (coloured (codes "Nested system calls at: 0x")
          ++ (coloured (hex sepc) ++ coloured (codes " !\n")))
        56
        (check_for_nested_sys_calls k sepc)
unfolding check_for_nested_sys_calls
check_for_nested_sys_calls-Sends k sepc runs has answers ready =
    let tests : (not (k.current == 0) && not ((k.threads k.current).body == 0)) ≡ true =
      ground (arith, runs, has) in
    let whole =
      Sends-follow _ _ 35 21 _ _ (priority_print-Sends (codes "Nested system calls at: 0x")) (
        Sends-follow _ _ 9 12 _ _ (priority_print_int-Sends sepc)
          (priority_print-Sends (codes " !\n"))) in
    let (rest, e, n) = whole answers ready in (rest, rw tests e, n)
