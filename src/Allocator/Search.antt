-- ===== src/Allocator/Search.antt =====
-- What the two searches of `_kmfree` find on the lists of blocks.
use oskernel_riscv.Base.{
  ℕ, ◌+◌, ◌*◌, ◌≤◌, ◌<◌, ◌≡◌, refl, ap, ◌⊎◌, inl, inr, Option, none, some, [], ◌∷◌, ◌++◌, arith,
  ltb, ◌==◌, if◌then◌else◌, ◌>>=◌, Bool-cases,
}
use oskernel_riscv.Allocator.{block_size}
use oskernel_riscv.Allocator.Chain.{Blocks, last_or}
use oskernel_riscv.Allocator.Loops.{take_while, drop_while, other_than, below}
use oskernel_riscv.Allocator.Cover.{covers, cover, All, Positive, Gapped}
use oskernel_riscv.Allocator.Free.{Behind}

pub snoc_cases :
    (d : ℕ) (bs : Blocks)
    → (bs ≡ [])
      ⊎ ((xs : Blocks) × (b : ℕ) × (t : ℕ) × (bs ≡ xs ++ (b, t) ∷ []) × (last_or d bs ≡ b))
snoc_cases d [] = inl refl
snoc_cases d ((a, s) ∷ bs) = elim (snoc_cases a bs) [
  | inl e ↦ inr ([], a, s, ap (λ k. (a, s) ∷ k) e, ap (last_or a) e)
  | inr (xs, b, t, e, f) ↦ inr ((a, s) ∷ xs, b, t, ap (λ k. (a, s) ∷ k) e, f)
]

pub take_while-below : (a : ℕ) (bs : Blocks) → All (λ b. b.0 < a) (take_while (below a) bs)
take_while-below a [] = tt
take_while-below a ((b, t) ∷ bs) = ground (arith, take_while-below a bs)

-- What the search for the place leaves behind begins at `a` or after.
drop_while-ge :
    (a lo : ℕ) (bs : Blocks)
    → Gapped lo (drop_while (below a) bs)
    → (drop_while (below a) bs ≡ [])
      ⊎ ((d : ℕ) × (w : ℕ) × (cs : Blocks) × (drop_while (below a) bs ≡ (d, w) ∷ cs)
          × (a ≤ d)
          × Gapped (d + w * block_size) cs)
drop_while-ge a lo [] g = inl refl
drop_while-ge a lo ((b, t) ∷ bs) g = elim (Bool-cases (ltb b a)) [
  | inl e ↦ rw e (drop_while-ge a lo bs (rw e at g))
  | inr e ↦
      let g' : Gapped lo ((b, t) ∷ bs) = rw e at g in
      rw e (inr (b, t, bs, refl, ground arith, g'.1))
]

pub Behind-of :
    (a s lo : ℕ) (bs : Blocks)
    → 0 < s
    → Positive (drop_while (below a) bs)
    → Gapped lo (drop_while (below a) bs)
    → ((x : ℕ) → covers a s x + cover x (drop_while (below a) bs) ≤ 1)
    → Behind (a + s * block_size) (drop_while (below a) bs)
Behind-of a s lo bs s_pos p g o = elim (drop_while-ge a lo bs g) [
  | inl e ↦ rw e tt
  | inr (d, w, cs, e, le, g') ↦
      let p' : Positive ((d, w) ∷ cs) = rw e at p in
      let o' : (x : ℕ) → covers a s x + cover x ((d, w) ∷ cs) ≤ 1 = rw e at o in
      rw e (ground (arith, o' d, p'.0), g')
]

-- The list without its entry at address `a`, if it has one.
abbrev pub take_out : ℕ → Blocks → Option Blocks
take_out a [] = none
take_out a ((b, t) ∷ bs) =
    let rest = take_out a bs in if b == a then some bs else (rest >>= λ r. some ((b, t) ∷ r))

pub take_out-splits :
    (a : ℕ) (bs : Blocks)
    → ((drop_while (other_than a) bs ≡ []) × (take_out a bs ≡ none))
      ⊎ ((s : ℕ) × (post : Blocks) × (drop_while (other_than a) bs ≡ (a, s) ∷ post)
          × (take_out a bs ≡ some (take_while (other_than a) bs ++ post)))
take_out-splits a [] = inl (refl, refl)
take_out-splits a ((b, t) ∷ bs) = elim (Bool-cases (b == a)) [
  | inl hit ↦ inr (t, bs, ground arith, ground arith)
  | inr miss ↦ elim (take_out-splits a bs) [
    | inl (d, f) ↦ inl (ground arith, ground arith)
    | inr (s, post, d, f) ↦ inr (s, post, ground arith, ground arith)
  ]
]
