-- ===== src/Allocator/Chain.antt =====
-- The blocks that a list of headers in memory stands for, and what a write to memory leaves alone.
use oskernel_riscv.Base.{ℕ, ◌+◌, ◌≤◌, ◌≡◌, ◌≢◌, sym, subst, ◌⊎◌, List, [], ◌∷◌, ◌++◌, arith}
use oskernel_riscv.Allocator.{Memory, store}

-- Address and size of each block, in the order of the list.
abbrev pub Blocks : Type 0
Blocks = List (ℕ × ℕ)

-- The headers of `bs` lead from address `p` to address `q`.
abbrev pub Seg : Memory → ℕ → Blocks → ℕ → Type 0
Seg m p [] q = p ≡ q
Seg m p ((a, s) ∷ bs) q = (p ≡ a) × (a ≢ 0) × (m (a + 8) ≡ s) × Seg m (m a) bs q

-- A whole list ends with the null pointer.
abbrev pub Chain : Memory → ℕ → Blocks → Type 0
Chain m p bs = Seg m p bs 0

-- The header at `a` overlaps none of `bs`.
abbrev pub Clear : ℕ → Blocks → Type 0
Clear a [] = Unit {0}
Clear a ((b, _) ∷ bs) = ((a + 16 ≤ b) ⊎ (b + 16 ≤ a)) × Clear a bs

abbrev pub Spread : Blocks → Type 0
Spread [] = Unit {0}
Spread ((a, _) ∷ bs) = Clear a bs × Spread bs

-- The address of the last block of `bs`, or `d`.
abbrev pub last_or : ℕ → Blocks → ℕ
last_or d [] = d
last_or d ((a, _) ∷ bs) = last_or a bs

pub Clear-append : (a : ℕ) (xs ys : Blocks) → Clear a (xs ++ ys) → Clear a xs × Clear a ys
Clear-append a [] ys c = (tt, c)
Clear-append a (x ∷ xs) ys c = let r = Clear-append a xs ys c.1 in ((c.0, r.0), r.1)

pub append-Clear : (a : ℕ) (xs ys : Blocks) → Clear a xs → Clear a ys → Clear a (xs ++ ys)
append-Clear a [] ys c d = d
append-Clear a (x ∷ xs) ys c d = (c.0, append-Clear a xs ys c.1 d)

-- A write to a word of a header that is clear of the blocks.
pub Seg-store :
    (m : Memory) (x v a : ℕ) (p : ℕ) (bs : Blocks) (q : ℕ)
    → Clear a bs
    → (x ≡ a) ⊎ (x ≡ a + 8)
    → Seg m p bs q
    → Seg (store m x v) p bs q
unfolding store
Seg-store m x v a p [] q c at s = s
Seg-store m x v a p ((b, t) ∷ bs) q c at s =
    let rest = Seg-store m x v a (m b) bs q c.1 at s.3 in ground arith

pub Seg-append :
    (m : Memory) (p : ℕ) (xs : Blocks) (q : ℕ) (ys : Blocks) (r : ℕ)
    → Seg m p xs q
    → Seg m q ys r
    → Seg m p (xs ++ ys) r
Seg-append m p [] q ys r e t = subst (λ k. Seg m k ys r) (sym e) t
Seg-append m p ((a, s) ∷ xs) q ys r (e, z, w, h) t = (e, z, w, Seg-append m (m a) xs q ys r h t)
