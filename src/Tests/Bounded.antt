-- ===== src/Tests/Bounded.antt =====
-- One thread puts a value into a buffer with one place, and another counts.
use oskernel_riscv.Base.{ℕ, ◌+◌, ◌≤◌, ◌≡◌, ◌⊎◌, refl, List, [], ◌∷◌, ◌++◌, length}
use oskernel_riscv.BoundedBuffer.{
  place_at, Pc, outside, put_awaits_space, put_awaits_tail, put_writes, put_advances, put_leaves,
  put_announces, cnt_awaits_head, cnt_awaits_tail, cnt_reads, Shared, construct, act, enters_put,
  enters_cnt, Runs, start, calls, moves, count_of,
}
use oskernel_riscv.BoundedBuffer.Invariant.{at_tail, at_head, total}
use oskernel_riscv.BoundedBuffer.Safety.{written-taken, count_of-waiting}
use oskernel_riscv.BoundedBuffer.Progress.{CanMove, AllPcs, Waits, Runs-CanMove}

abbrev threads : List Pc
threads = outside ∷ outside ∷ []

abbrev memory : ℕ → ℕ
memory i = 0

abbrev filled : Shared
filled = record (construct 1 memory) {
  buffer = place_at memory 0 7;
  tail = 1;
  space_available = 0;
  item_available = 1;
  written = 7 ∷ [];
}

put_run : Runs threads (construct 1 memory) threads filled
unfolding act
put_run =
    let r₀ = calls [] (outside ∷ []) (put_awaits_space 7) start (enters_put 7) in
    let r₁ = moves [] (outside ∷ []) (put_awaits_space 7) (put_awaits_tail 7) r₀ refl in
    let r₂ = moves [] (outside ∷ []) (put_awaits_tail 7) (put_writes 7) r₁ refl in
    let r₃ = moves [] (outside ∷ []) (put_writes 7) put_advances r₂ refl in
    let r₄ = moves [] (outside ∷ []) put_advances put_leaves r₃ refl in
    let r₅ = moves [] (outside ∷ []) put_leaves put_announces r₄ refl in
    moves [] (outside ∷ []) put_announces outside r₅ refl

abbrev counting : Shared
counting = record filled { mutex_head = 0; mutex_tail = 0 }

count_run : Runs threads (construct 1 memory) (outside ∷ cnt_reads ∷ []) counting
unfolding act
count_run =
    let r₀ = calls (outside ∷ []) [] cnt_awaits_head put_run enters_cnt in
    let r₁ = moves (outside ∷ []) [] cnt_awaits_head cnt_awaits_tail r₀ refl in
    moves (outside ∷ []) [] cnt_awaits_tail cnt_reads r₁ refl

written-taken_example :
    (rest : List ℕ) × (filled.written ≡ filled.taken ++ rest)
    × (length rest ≤ 1)
    × (total at_tail threads ≤ 1)
    × (total at_head threads ≤ 1)
written-taken_example = written-taken 1 memory threads threads filled (refl, (refl, tt)) put_run

count_of-waiting_example : count_of counting + length counting.taken ≡ length counting.written
count_of-waiting_example =
    count_of-waiting 1 memory threads (outside ∷ cnt_reads ∷ []) counting (refl, (refl, tt))
      count_run (outside ∷ []) [] refl

Runs-CanMove_example :
    CanMove (outside ∷ cnt_reads ∷ []) counting
    ⊎ AllPcs (Waits 1 counting) (outside ∷ cnt_reads ∷ [])
Runs-CanMove_example =
    Runs-CanMove 1 memory threads (outside ∷ cnt_reads ∷ []) counting (refl, (refl, tt)) count_run
