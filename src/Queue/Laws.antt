-- ===== src/Queue/Laws.antt =====
-- Laws of the pointer lists.
use oskernel_riscv.Base.{
  ℕ, suc, ◌≡◌, refl, ◌≢◌, inl, inr, Bool, true, false, ◌||◌, List, [], ◌∷◌, ◌++◌, arith, ◌==◌,
  if◌then◌else◌, Bool-cases, length,
}
use oskernel_riscv.Queue.{remove_loop, remove_spec, insert_loop, foreach, foreach_while}

-- An invariant of `foreachWhile`.
pub foreach_while_inv {ℓ κ} :
    {S : Type ℓ} (P : S → Type κ) (cond : S → ℕ → Bool) (func : S → ℕ → S)
    → ((s : S) (x : ℕ) → cond s x ≡ true → P s → P (func s x))
    → (xs : List ℕ) (s : S) → P s
    → P (foreach_while cond func xs s)
unfolding foreach_while
foreach_while_inv P cond func keep [] s p = p
foreach_while_inv P cond func keep (x ∷ xs) s p = elim (Bool-cases (cond s x)) [
  | inl e ↦ rw e (foreach_while_inv P cond func keep xs (func s x) (keep s x e p))
  | inr e ↦ rw e p
]

abbrev pub All {ℓ} : (ℕ → Type ℓ) → List ℕ → Type ℓ
All P [] = Unit
All P (x ∷ xs) = P x × All P xs

abbrev pub has : ℕ → List ℕ → Bool
has p [] = false
has p (x ∷ xs) = (x == p) || has p xs

abbrev pub Nodup : List ℕ → Type 0
Nodup [] = Unit {0}
Nodup (x ∷ xs) = (has x xs ≡ false) × Nodup xs

-- No element is null.
abbrev pub NoNull : List ℕ → Type 0
NoNull = All (λ x. x ≢ 0)

abbrev pub take_while : (ℕ → Bool) → List ℕ → List ℕ
take_while f [] = []
take_while f (x ∷ xs) = if f x then x ∷ take_while f xs else []

abbrev pub drop_while : (ℕ → Bool) → List ℕ → List ℕ
drop_while f [] = []
drop_while f (x ∷ xs) = if f x then drop_while f xs else x ∷ xs

pub All-append {ℓ} : (P : ℕ → Type ℓ) (xs ys : List ℕ) → All P xs → All P ys → All P (xs ++ ys)
All-append P [] ys p q = q
All-append P (x ∷ xs) ys p q = (p.0, All-append P xs ys p.1 q)

-- The first element is the one that is removed.
pub remove_spec-cons : (x : ℕ) (xs : List ℕ) → x ≢ 0 → remove_spec x (x ∷ xs) ≡ (true, xs)
unfolding remove_spec remove_loop
remove_spec-cons x xs h = ground arith

pub remove_loop-has : (x : ℕ) (xs : List ℕ) → (remove_loop x xs).0 ≡ has x xs
unfolding remove_loop
remove_loop-has x [] = refl
remove_loop-has x (y ∷ xs) = ground (arith, remove_loop-has x xs)

pub remove_spec-has : (x : ℕ) (xs : List ℕ) → x ≢ 0 → (remove_spec x xs).0 ≡ has x xs
unfolding remove_spec
remove_spec-has x xs h = ground (arith, remove_loop-has x xs)

-- `insert_sorted` puts the element in, and nothing else.
pub length-insert_loop :
    (cmp : ℕ → ℕ → Bool) (p : ℕ) (xs : List ℕ) → length (insert_loop cmp p xs) ≡ suc (length xs)
unfolding insert_loop
length-insert_loop cmp p [] = refl
length-insert_loop cmp p (x ∷ xs) = ground (arith, length-insert_loop cmp p xs)

pub length-remove_loop :
    (p : ℕ) (xs : List ℕ) → has p xs ≡ true → suc (length (remove_loop p xs).1) ≡ length xs
unfolding remove_loop
length-remove_loop p [] h = cc
length-remove_loop p (x ∷ xs) h = ground (arith, length-remove_loop p xs)

pub length-remove_spec :
    (p : ℕ) (xs : List ℕ) → p ≢ 0 → has p xs ≡ true → suc (length (remove_spec p xs).1) ≡ length xs
unfolding remove_spec
length-remove_spec p xs nz h = ground (arith, length-remove_loop p xs h)

-- `foreach` is `foreachWhile` with a condition that always holds.
pub foreach-foreach_while {ℓ} :
    {S : Type ℓ}
    → (func : S → ℕ → S) (xs : List ℕ) (s : S)
    → foreach func xs s ≡ foreach_while (λ t x. true) func xs s
unfolding foreach foreach_while
foreach-foreach_while func [] s = refl
foreach-foreach_while func (x ∷ xs) s = foreach-foreach_while func xs (func s x)
