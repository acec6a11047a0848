-- ===== src/Queue.antt =====
-- h/_list.hpp as its users see it: a list of the pointers that the elements hold, first to last.
-- The null pointer is 0, and an insertion finds a free block for its element: Elements has the allocation, and what
-- happens without a block. `insert_sorted` and the removals keep what they do with null pointers.
pub mod Laws
pub mod Sorted
pub mod Count
pub mod Ends
pub mod MergeSort
use oskernel_riscv.Base.{ℕ, Bool, true, false, List, [], ◌∷◌, ◌++◌, ◌==◌, if◌then◌else◌, not}

-- `addLast` behind the allocation of the element
abbrev pub add_last : List ℕ → ℕ → List ℕ
add_last xs p = xs ++ p ∷ []

-- `removeFirst`: the pointer, or null of an empty list, and the rest.
abbrev pub remove_first : List ℕ → ℕ × List ℕ
remove_first [] = (0, [])
remove_first (x ∷ xs) = (x, xs)

-- The loop of `removeSpec`: the first element that holds the pointer goes.
unfoldable pub remove_loop : ℕ → List ℕ → Bool × List ℕ
remove_loop p [] = (false, [])
remove_loop p (x ∷ xs) =
    let rest = remove_loop p xs in if x == p then (true, xs) else (rest.0, x ∷ rest.1)

unfoldable pub remove_spec : ℕ → List ℕ → Bool × List ℕ
unfolding remove_loop
remove_spec p xs = if p == 0 then (false, xs) else remove_loop p xs

-- The loop of `insert_sorted`: before the first element that `cmp` does not put before the new one.
unfoldable pub insert_loop : (ℕ → ℕ → Bool) → ℕ → List ℕ → List ℕ
insert_loop cmp p [] = p ∷ []
insert_loop cmp p (x ∷ xs) = if cmp x p then x ∷ insert_loop cmp p xs else p ∷ x ∷ xs

-- `insert_sorted` without the allocation of the element
unfoldable pub insert_sorted : (ℕ → ℕ → Bool) → ℕ → List ℕ → List ℕ
unfolding insert_loop
insert_sorted cmp p xs = if p == 0 then xs else insert_loop cmp p xs

-- `foreach`
unfoldable pub foreach {ℓ} : {S : Type ℓ} → (S → ℕ → S) → List ℕ → S → S
foreach func [] s = s
foreach func (x ∷ xs) s = foreach func xs (func s x)

-- `foreachWhile`: the next element is read before the function runs, so the function may take the
-- element that it is given off the list.
unfoldable pub foreach_while {ℓ} : {S : Type ℓ} → (S → ℕ → Bool) → (S → ℕ → S) → List ℕ → S → S
foreach_while cond func [] s = s
foreach_while cond func (x ∷ xs) s =
    let rest = foreach_while cond func xs (func s x) in if cond s x then rest else s
