-- ===== src/Tests/Lists.antt =====
-- Lists of three pointers, and a number as text.
use oskernel_riscv.Printing.Lines.{get_string, char_at, get_string_bounds}
use oskernel_riscv.Base.{◌<◌, ℕ, ◌≡◌, true, some, List, [], ◌∷◌, arith}
use oskernel_riscv.Base.Int.{pos}
use oskernel_riscv.Queue.Sorted.{Sorted}
use oskernel_riscv.Queue.MergeSort.{by_key, sort, sort-Sorted}
use oskernel_riscv.Queue.Count.{count}
use oskernel_riscv.Printing.{string_to_int, print_int, string_to_int-print_int}

abbrev pointers : List ℕ
pointers = 9 ∷ 4 ∷ 7 ∷ []

sort-Sorted_example :
    (ys : List ℕ) × (sort (by_key (λ x. x)) pointers ≡ some ys)
    × Sorted (λ x. x) ys
    × ((p : ℕ) → count p ys ≡ count p pointers)
sort-Sorted_example = sort-Sorted (λ x. x) pointers

string_to_int-print_int_example : string_to_int 0 (print_int 65 (pos 2024) 10 true) ≡ 2024
string_to_int-print_int_example = string_to_int-print_int 65 2024 true (omega arith)

-- A line of two characters and its end, with room for four
get_string_bounds_example :
    (n : ℕ) × (after : ℕ → ℕ) × (left : List ℕ) × (get_string 4 (λ j. 7) (72 ∷ 105 ∷ 10 ∷ 33 ∷ [])
      ≡ some (after, left))
    × (n < 4)
    × (after n ≡ 0)
    × ((j : ℕ) → j < n → after j ≡ char_at (72 ∷ 105 ∷ 10 ∷ 33 ∷ []) j)
    × ((j : ℕ) → n < j → after j ≡ 7)
get_string_bounds_example =
    get_string_bounds 4 (λ j. 7) (72 ∷ 105 ∷ 10 ∷ 33 ∷ []) (omega arith) (omega arith)
