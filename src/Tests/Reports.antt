-- ===== src/Tests/Reports.antt =====
-- The report of an illegal instruction.
use oskernel_riscv.Base.{
  ℕ, zero, suc, ◌^◌, ◌≤◌, ◌≡◌, Bool, true, some, List, [], ◌∷◌, ◌++◌, arith, length,
}
use oskernel_riscv.Console.Fifo.{contents, yes_count}
use oskernel_riscv.Trap.Report.{codes, calls, stack_trace_depth, error_msg_terminate}
use oskernel_riscv.Trap.Report.Laws.{coloured, trace, error_msg_terminate_stops}
use oskernel_riscv.Tests.Buffers.{three, three-IsBuffer}

abbrev always : ℕ → List Bool
always zero = []
always (suc n) = true ∷ always n

error_msg_terminate_stops_example :
    (length (calls stack_trace_depth 4096 (λ x. x)) ≤ 2)
    × (error_msg_terminate "Illegal instruction!\n" 80 0 4096
          (λ x. x)
          (always 255)
          (always 3)
          (always 31)
          three
        ≡ some (record {
          sent =
              (coloured (codes "Illegal instruction!\n")
                ++ trace 80 (calls stack_trace_depth 4096 (λ x. x)))
              ++ (contents three ++ coloured (codes "\nKernel finished! :)\n\n"));
          address = 2 ^ 20;
          word = 21845;
        }))
unfolding yes_count
error_msg_terminate_stops_example =
    error_msg_terminate_stops "Illegal instruction!\n" 80 0 4096 (λ x. x) (always 255) (always 3)
      (always 31) three (omega arith) (omega arith) three-IsBuffer (omega arith) (omega arith)
