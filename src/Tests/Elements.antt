-- ===== src/Tests/Elements.antt =====
-- Lists whose elements stand on a heap of eight blocks.
use oskernel_riscv.Base.{refl, []}
use oskernel_riscv.Elements.{empty}
use oskernel_riscv.Elements.Turned.{Holds}
use oskernel_riscv.Elements.Operations.{adds_last, exec}
use oskernel_riscv.Elements.Outcomes.{Outcome}
use oskernel_riscv.Elements.Refine.{exec-model}
use oskernel_riscv.Tests.Heaps.{layout, layout-IsLayout, blocks, ready_heap, ready_heap-Valid}

no_elements : Holds layout ready_heap blocks [] empty []
no_elements = record { valid = ready_heap-Valid; links = refl; last = refl; own = tt; apart = tt }

exec-model_example :
    Outcome layout ready_heap blocks [] []
      (adds_last 7)
      (exec layout (adds_last 7) empty ready_heap)
exec-model_example =
    exec-model layout ready_heap blocks [] empty [] (adds_last 7) layout-IsLayout no_elements
