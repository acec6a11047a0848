-- ===== src/Queue/Count.antt =====
-- How often a pointer stands in a list, and what the operations of the list do to that number.
use oskernel_riscv.Base.{
  ℕ, ◌+◌, ◌-◌, ◌<◌, ◌≡◌, ◌≢◌, Bool, true, List, [], ◌∷◌, ◌++◌, arith, ◌==◌, if◌then◌else◌,
  Bool-cases, inl, inr,
}
use oskernel_riscv.Queue.{add_last, remove_loop, remove_spec, insert_loop}
use oskernel_riscv.Queue.Laws.{All, has}

abbrev pub count : ℕ → List ℕ → ℕ
count p [] = 0
count p (x ∷ xs) = (if x == p then 1 else 0) + count p xs

pub count-append : (p : ℕ) (xs ys : List ℕ) → count p (xs ++ ys) ≡ count p xs + count p ys
count-append p [] ys = omega arith
count-append p (x ∷ xs) ys = omega (arith, count-append p xs ys)

pub count-add_last :
    (p q : ℕ) (xs : List ℕ) → count p (add_last xs q) ≡ count p xs + (if q == p then 1 else 0)
count-add_last p q xs = omega (arith, count-append p xs (q ∷ []))

pub count-insert_loop :
    (cmp : ℕ → ℕ → Bool) (p q : ℕ) (xs : List ℕ)
    → count p (insert_loop cmp q xs) ≡ count p xs + (if q == p then 1 else 0)
unfolding insert_loop
count-insert_loop cmp p q [] = omega arith
count-insert_loop cmp p q (x ∷ xs) = elim (Bool-cases (cmp x q)) [
  | inl e ↦ rw e (omega (arith, count-insert_loop cmp p q xs))
  | inr e ↦ rw e (omega arith)
]

-- The removal takes one occurrence of the pointer, if there is one, and no other pointer.
pub count-remove_loop :
    (p q : ℕ) (xs : List ℕ) → count p (remove_loop q xs).1 ≡ count p xs - (if q == p then 1 else 0)
unfolding remove_loop
count-remove_loop p q [] = omega arith
count-remove_loop p q (x ∷ xs) = elim (Bool-cases (x == q)) [
  | inl e ↦ rw e (ground arith)
  | inr e ↦ rw e (ground (arith, count-remove_loop p q xs))
]

pub count-remove_spec :
    (p q : ℕ) (xs : List ℕ)
    → q ≢ 0
    → count p (remove_spec q xs).1 ≡ count p xs - (if q == p then 1 else 0)
unfolding remove_spec
count-remove_spec p q xs nz = ground (arith, count-remove_loop p q xs)

pub has-count : (p : ℕ) (xs : List ℕ) → has p xs ≡ true → 0 < count p xs
has-count p [] h = cc
has-count p (x ∷ xs) h = ground (arith, has-count p xs)

pub count-has : (p : ℕ) (xs : List ℕ) → 0 < count p xs → has p xs ≡ true
count-has p [] h = absurd (omega arith)
count-has p (x ∷ xs) h = ground (arith, count-has p xs)

-- What holds of every pointer that stands in the list.
pub count-All {ℓ} : (P : ℕ → Type ℓ) (xs : List ℕ) → ((p : ℕ) → 0 < count p xs → P p) → All P xs
count-All P [] h = tt
count-All P (x ∷ xs) h = (h x (ground arith), count-All P xs (λ p c. h p (omega (arith, c))))
