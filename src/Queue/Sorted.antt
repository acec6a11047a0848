-- ===== src/Queue/Sorted.antt =====
-- `insert_sorted` keeps a list in order of the times of its elements.
use oskernel_riscv.Base.{ℕ, ◌≤◌, inl, inr, Bool, List, [], ◌∷◌, arith, ltb, Bool-cases, if_both}
use oskernel_riscv.Queue.{insert_loop}
use oskernel_riscv.Queue.Laws.{All}

-- No later sleeper is due before an earlier one.
abbrev pub Sorted : (ℕ → ℕ) → List ℕ → Type 0
Sorted f [] = Unit {0}
Sorted f (x ∷ xs) = All (λ y. f x ≤ f y) xs × Sorted f xs

insert_loop-All :
    (P : ℕ → Type 0) (cmp : ℕ → ℕ → Bool) (p : ℕ) (xs : List ℕ)
    → P p
    → All P xs
    → All P (insert_loop cmp p xs)
unfolding insert_loop
insert_loop-All P cmp p [] h a = (h, tt)
insert_loop-All P cmp p (x ∷ xs) h a =
    if_both (All P) (cmp x p) (a.0, insert_loop-All P cmp p xs h a.1) (h, a)

pub All-le :
    (f : ℕ → ℕ) (m n : ℕ) (xs : List ℕ) → m ≤ n → All (λ y. n ≤ f y) xs → All (λ y. m ≤ f y) xs
All-le f m n [] h a = tt
All-le f m n (x ∷ xs) h a = (omega (arith, a.0), All-le f m n xs h a.1)

pub insert_loop-Sorted :
    (f : ℕ → ℕ) (p : ℕ) (xs : List ℕ)
    → Sorted f xs
    → Sorted f (insert_loop (λ a b. ltb (f a) (f b)) p xs)
unfolding insert_loop
insert_loop-Sorted f p [] s = (tt, tt)
insert_loop-Sorted f p (x ∷ xs) s = elim (Bool-cases (ltb (f x) (f p))) [
  | inl before ↦ rw before (
    insert_loop-All (λ y. f x ≤ f y) (λ a b. ltb (f a) (f b)) p xs (ground arith) s.0,
    insert_loop-Sorted f p xs s.1,
  )
  | inr behind ↦ rw behind ((ground arith, All-le f (f p) (f x) xs (ground arith) s.0), s)
]
