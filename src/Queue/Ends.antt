-- ===== src/Queue/Ends.antt =====
-- h/_list.hpp at the ends of a list: `addFirst`, `removeLast`, `peekFirst`, `peekLast`.
use oskernel_riscv.Base.{ℕ, ◌≡◌, refl, List, [], ◌∷◌, arith}
use oskernel_riscv.Queue.{add_last}

abbrev pub add_first : ℕ → List ℕ → List ℕ
add_first p xs = p ∷ xs

abbrev pub peek_first : List ℕ → ℕ
peek_first [] = 0
peek_first (x ∷ xs) = x

abbrev pub peek_last : List ℕ → ℕ
peek_last [] = 0
peek_last (x ∷ []) = x
peek_last (x ∷ y ∷ xs) = peek_last (y ∷ xs)

-- The pointer, or null of an empty list, and the rest.
abbrev pub remove_last : List ℕ → ℕ × List ℕ
remove_last [] = (0, [])
remove_last (x ∷ []) = (x, [])
remove_last (x ∷ y ∷ xs) = let (p, rest) = remove_last (y ∷ xs) in (p, x ∷ rest)

-- `removeLast` behind `addLast` gives the pointer back and leaves the list as it was, and `peekLast` shows
-- that pointer.
pub remove_last-add_last :
    (xs : List ℕ) (p : ℕ)
    → (remove_last (add_last xs p) ≡ (p, xs)) × (peek_last (add_last xs p) ≡ p)
remove_last-add_last [] p = (refl, refl)
remove_last-add_last (x ∷ []) p = (refl, refl)
remove_last-add_last (x ∷ y ∷ xs) p =
    let (r, q) = remove_last-add_last (y ∷ xs) p in (ground (arith, r), q)
