-- ===== src/Elements/Loops.antt =====
-- What the loops over the elements find, as the list of the data sees it.
use oskernel_riscv.Base.{
  ℕ, ◌≡◌, refl, sym, ap, inl, inr, Bool, true, false, List, [], ◌∷◌, ◌++◌, ◌==◌, Bool-cases,
}
use oskernel_riscv.Queue.{remove_loop, insert_loop}
use oskernel_riscv.Elements.Links.{Cells, data_of, front, back, differs}

pub data_of-append : (xs ys : Cells) → data_of (xs ++ ys) ≡ data_of xs ++ data_of ys
data_of-append [] ys = refl
data_of-append ((e, x) ∷ xs) ys = ap (λ (l : List ℕ). x ∷ l) (data_of-append xs ys)

-- The list without the element at which the search stops.
abbrev pub removed : Cells → Cells → Bool × List ℕ
removed xs [] = (false, data_of xs)
removed xs ((e, x) ∷ ys) = (true, data_of (xs ++ ys))

removed-cons :
    (e x : ℕ) (xs ys : Cells)
    → removed ((e, x) ∷ xs) ys ≡ ((removed xs ys).0, x ∷ (removed xs ys).1)
removed-cons e x xs [] = refl
removed-cons e x xs (y ∷ ys) = refl

pub remove_loop-removed :
    (p : ℕ) (cs : Cells)
    → remove_loop p (data_of cs) ≡ removed (front (differs p) cs) (back (differs p) cs)
unfolding remove_loop
remove_loop-removed p [] = refl
remove_loop-removed p ((e, x) ∷ cs) = elim (Bool-cases (x == p)) [
  | inl hit ↦ rw hit refl
  | inr miss ↦
      rw (miss, remove_loop-removed p cs)
        (sym (removed-cons e x (front (differs p) cs) (back (differs p) cs)))
]

pub insert_loop-between :
    (cmp : ℕ → ℕ → Bool) (p : ℕ) (cs : Cells)
    → insert_loop cmp p (data_of cs)
      ≡ data_of (front (λ x. cmp x p) cs) ++ p ∷ data_of (back (λ x. cmp x p) cs)
unfolding insert_loop
insert_loop-between cmp p [] = refl
insert_loop-between cmp p ((e, x) ∷ cs) = elim (Bool-cases (cmp x p)) [
  | inl goes ↦ rw (goes, insert_loop-between cmp p cs) refl
  | inr stops ↦ rw stops refl
]

-- A list that is not empty has a last element.
pub last_cell :
    (e x : ℕ) (cs : Cells) → (ys : Cells) × (t : ℕ) × (y : ℕ) × ((e, x) ∷ cs ≡ ys ++ (t, y) ∷ [])
last_cell e x [] = ([], e, x, refl)
last_cell e x ((d, y) ∷ cs) =
    let (ys, t, z, eq) = last_cell d y cs in ((e, x) ∷ ys, t, z, ap (λ (l : Cells). (e, x) ∷ l) eq)
