-- ===== src/Allocator/Loops.antt =====
-- The search loops of the allocator on a list of blocks: each splits the list where its test first
-- fails, and ends within its fuel.
use oskernel_riscv.Base.{
  ℕ, zero, suc, ◌<◌, ◌≡◌, refl, Bool, not, some, [], ◌∷◌, ◌++◌, arith, ◌==◌, ltb, if◌then◌else◌,
  length,
}
use oskernel_riscv.Allocator.{Memory, find_fit, find_taken, find_place}
use oskernel_riscv.Allocator.Chain.{Blocks, Chain, last_or}

abbrev pub take_while : (ℕ × ℕ → Bool) → Blocks → Blocks
take_while f [] = []
take_while f (x ∷ xs) = if f x then x ∷ take_while f xs else []

abbrev pub drop_while : (ℕ × ℕ → Bool) → Blocks → Blocks
drop_while f [] = []
drop_while f (x ∷ xs) = if f x then drop_while f xs else x ∷ xs

pub take-drop-while : (f : ℕ × ℕ → Bool) (xs : Blocks) → take_while f xs ++ drop_while f xs ≡ xs
take-drop-while f [] = refl
take-drop-while f (x ∷ xs) = ground (arith, take-drop-while f xs)

-- The address of the first block, or null.
abbrev pub front : Blocks → ℕ
front [] = 0
front ((a, _) ∷ bs) = a

abbrev pub too_small : ℕ → ℕ × ℕ → Bool
too_small n b = ltb b.1 n

abbrev pub other_than : ℕ → ℕ × ℕ → Bool
other_than a b = not (b.0 == a)

abbrev pub below : ℕ → ℕ × ℕ → Bool
below a b = ltb b.0 a

module _ (m : Memory) where
  pub find_fit_lem :
      (fuel n prev p : ℕ) (bs : Blocks)
      → Chain m p bs
      → length bs < fuel
      → find_fit fuel m n prev p
        ≡ some (last_or prev (take_while (too_small n) bs), front (drop_while (too_small n) bs))
  unfolding find_fit
  find_fit_lem zero n prev p bs c h = elim h [ ]
  find_fit_lem (suc fuel) n prev p [] c h = ground arith
  find_fit_lem (suc fuel) n prev p ((a, s) ∷ bs) c h =
      ground (arith, find_fit_lem fuel n p (m p) bs)

  pub find_taken_lem :
      (fuel cur prev p : ℕ) (bs : Blocks)
      → Chain m p bs
      → length bs < fuel
      → find_taken fuel m cur prev p
        ≡ some
            (last_or prev (take_while (other_than cur) bs), front (drop_while (other_than cur) bs))
  unfolding find_taken
  find_taken_lem zero cur prev p bs c h = elim h [ ]
  find_taken_lem (suc fuel) cur prev p [] c h = ground arith
  find_taken_lem (suc fuel) cur prev p ((a, s) ∷ bs) c h =
      ground (arith, find_taken_lem fuel cur p (m p) bs)

  pub find_place_lem :
      (fuel cur prev p : ℕ) (bs : Blocks)
      → Chain m p bs
      → length bs < fuel
      → find_place fuel m cur prev p
        ≡ some (last_or prev (take_while (below cur) bs), front (drop_while (below cur) bs))
  unfolding find_place
  find_place_lem zero cur prev p bs c h = elim h [ ]
  find_place_lem (suc fuel) cur prev p [] c h = ground arith
  find_place_lem (suc fuel) cur prev p ((a, s) ∷ bs) c h =
      ground (arith, find_place_lem fuel cur p (m p) bs)
