-- ===== src/Allocator/Malloc.antt =====
-- `_kmalloc` on a valid heap: first fit, and the invariant.
use oskernel_riscv.Base.{
  ℕ, ◌+◌, ◌*◌, ◌≤◌, ◌<◌, ◌≡◌, refl, sym, ap, subst, ◌≢◌, ◌⊎◌, inl, inr, true, false, Option, none,
  some, [], ◌∷◌, ◌++◌, arith, ltb, ◌==◌, if◌then◌else◌, ◌>>=◌, Bool-cases,
}
use oskernel_riscv.Allocator.{
  block_size, size_header, Memory, Layout, Heap, find_fit, unlink_whole, split_leftover, claim,
  carve, fuel_of, kmalloc,
}
use oskernel_riscv.Allocator.Chain.{Blocks, Seg, Chain, last_or}
use oskernel_riscv.Allocator.Loops.{
  take_while, drop_while, take-drop-while, front, too_small, find_fit_lem,
}
use oskernel_riscv.Allocator.Cover.{
  covers, cover, total, Positive, Gapped, cover-append, total-append, All-append, append-All,
}
use oskernel_riscv.Allocator.Data.{Keeps, Spares}
use oskernel_riscv.Allocator.Spared.{carve-Spares}
use oskernel_riscv.Allocator.Valid.{IsLayout, Placed, Valid, free_fits, init-eq}
use oskernel_riscv.Allocator.Carve.{split_Seg, shrink, whole-Chain, split-Chain, covers-split}

-- The taken and the left part of a block cover what the block covered.
cover-shrink :
    (x n a s : ℕ) (post : Blocks)
    → n ≤ s
    → cover x (shrink n a s post) + covers a n x ≡ covers a s x + cover x post
cover-shrink x n a s post h = ground (arith, covers-split a n s x h)

total-shrink : (n a s : ℕ) (post : Blocks) → n ≤ s → total (shrink n a s post) + n ≡ s + total post
total-shrink n a s post h = ground arith

Gapped-weaken : (lo hi : ℕ) (bs : Blocks) → lo ≤ hi → Gapped hi bs → Gapped lo bs
Gapped-weaken lo hi [] h g = tt
Gapped-weaken lo hi ((a, s) ∷ bs) h g = (omega arith, g.1)

Gapped-shrink :
    (lo n a s : ℕ) (pre post : Blocks)
    → 0 < n
    → n ≤ s
    → Gapped lo (pre ++ (a, s) ∷ post)
    → Gapped lo (pre ++ shrink n a s post)
Gapped-shrink lo n a s [] post hn h g = elim (Bool-cases (n == s)) [
  | inl e ↦ rw e (Gapped-weaken lo (a + s * block_size) post (omega arith) g.1)
  | inr e ↦ rw e (omega arith, Gapped-weaken _ (a + s * block_size) post (omega arith) g.1)
]
Gapped-shrink lo n a s ((b, t) ∷ pre) post hn h g =
    (g.0, Gapped-shrink (b + t * block_size) n a s pre post hn h g.1)

Positive-shrink : (n a s : ℕ) (post : Blocks) → n ≤ s → Positive post → Positive (shrink n a s post)
Positive-shrink n a s post h p = ground arith

Placed-shrink :
    (l : Layout) (n a s : ℕ) (post : Blocks)
    → n ≤ s
    → Placed l ((a, s) ∷ post)
    → Placed l (shrink n a s post)
Placed-shrink l n a s post h p = ground arith

-- The heap after the two cases of `carve`.
abbrev carved : Heap → ℕ → ℕ → Memory × ℕ → Heap
carved h n a r = record h { mem = claim n a r.0 h.head_taken; head_free = r.1; head_taken = a }

carve-whole :
    (n prev a s : ℕ) (h : Heap)
    → h.mem (a + 8) ≡ s
    → (n == s) ≡ true
    → carve n prev a h ≡ carved h n a (unlink_whole prev a (h.mem, h.head_free))
unfolding carve
carve-whole n prev a s h e t = rw (e, t)

carve-split :
    (n prev a s : ℕ) (h : Heap)
    → h.mem (a + 8) ≡ s
    → (n == s) ≡ false
    → carve n prev a h ≡ carved h n a (split_leftover n prev a (h.mem, h.head_free))
unfolding carve
carve-split n prev a s h e t = rw (e, t)

module _ (l : Layout) (h : Heap) (n a s : ℕ) (pre post ts : Blocks) (is : IsLayout l)
    (v : Valid l h (pre ++ (a, s) ∷ post) ts) (n_pos : 0 < n) (fits : n ≤ s) where
  once : (x : ℕ) → cover x pre + (covers a s x + (cover x post + cover x ts)) ≤ 1
  once x = ground (arith, v.tiled x, cover-append x pre ((a, s) ∷ post))

  sizes : Positive pre × Positive ((a, s) ∷ post)
  sizes = All-append (λ b. 0 < b.1) pre ((a, s) ∷ post) v.sized_free

  places : Placed l pre × Placed l ((a, s) ∷ post)
  places = All-append _ pre ((a, s) ∷ post) v.placed_free

  abbrev Carved : Blocks → Heap → Type 0
  Carved fs h' = Chain h'.mem h'.head_free fs × Chain h'.mem h'.head_taken ((a, n) ∷ ts)

  carve-Carved : Carved (pre ++ shrink n a s post) (carve n (last_or 0 pre) a h)
  carve-Carved =
      let g = split_Seg h.mem h.head_free 0 pre ((a, s) ∷ post) v.free_chain in
      let before : Seg h.mem h.head_free pre a = subst (Seg h.mem h.head_free pre) g.2.0 g.1 in
      let o = places.1.0.2 in
      elim (Bool-cases (n == s)) [
        | inl e ↦ subst (Carved _) (sym (carve-whole n (last_or 0 pre) a s h g.2.2 e)) (
            rw e (
              whole-Chain h.mem h.head_free h.head_taken a s n pre post ts before g.2.1 g.2.2 g.2.3
                v.taken_chain sizes.0 sizes.1.1 v.sized_taken n_pos fits once))
        | inr e ↦ subst (Carved _) (sym (carve-split n (last_or 0 pre) a s h g.2.2 e)) (
            rw e (
              split-Chain h.mem h.head_free h.head_taken a s n pre post ts before g.2.1 g.2.2 g.2.3
                v.taken_chain sizes.0 sizes.1.1 v.sized_taken n_pos fits once (ground arith)
                (omega (arith, is.in_words))))
      ]

  -- The invariant holds of the heap that `_kmalloc` leaves.
  pub carve-Valid : Valid l (carve n (last_or 0 pre) a h) (pre ++ shrink n a s post) ((a, n) ∷ ts)
  carve-Valid = record {
    free_chain = carve-Carved.0;
    taken_chain = carve-Carved.1;
    ordered = Gapped-shrink 0 n a s pre post n_pos fits v.ordered;
    sized_free = append-All _ pre _ sizes.0 (Positive-shrink n a s post fits sizes.1.1);
    sized_taken = (n_pos, v.sized_taken);
    placed_free = append-All _ pre _ places.0 (Placed-shrink l n a s post fits places.1);
    placed_taken = (omega (arith, places.1.0), v.placed_taken);
    tiled = λ x. omega (
      arith,
      v.tiled x,
      cover-append x pre ((a, s) ∷ post),
      cover-append x pre (shrink n a s post),
      cover-shrink x n a s post fits,
    );
    conserved = omega (
      arith,
      v.conserved,
      total-append pre ((a, s) ∷ post),
      total-append pre (shrink n a s post),
      total-shrink n a s post fits,
    );
    counted = unfold carve in v.counted;
    ready = unfold carve in v.ready;
  }

-- First fit on the list of free blocks: the block's address and the free blocks left.
abbrev pub first_fit : ℕ → Blocks → Option (ℕ × Blocks)
first_fit n [] = none
first_fit n ((a, s) ∷ bs) =
    let rest = first_fit n bs in
    if ltb s n then (rest >>= λ r. some (r.0, (a, s) ∷ r.1)) else some (a, shrink n a s bs)

abbrev Splits : ℕ → Blocks → Type 0
Splits n fs =
    ((drop_while (too_small n) fs ≡ []) × (first_fit n fs ≡ none))
    ⊎ ((a : ℕ) × (s : ℕ) × (post : Blocks) × (drop_while (too_small n) fs ≡ (a, s) ∷ post)
        × (n ≤ s)
        × (first_fit n fs ≡ some (a, take_while (too_small n) fs ++ shrink n a s post)))

first_fit-Splits : (n : ℕ) (fs : Blocks) → Splits n fs
first_fit-Splits n [] = inl (refl, refl)
first_fit-Splits n ((a, s) ∷ bs) = elim (Bool-cases (ltb s n)) [
  | inl small ↦ elim (first_fit-Splits n bs) [
    | inl (d, f) ↦ inl (ground arith, ground arith)
    | inr (b, t, post, d, le, f) ↦ inr (b, t, post, ground arith, le, ground arith)
  ]
  | inr large ↦ inr (a, s, bs, ground arith, ground arith, ground arith)
]

head-ne_zero :
    (m : Memory) (p a s : ℕ) (pre post : Blocks) → Chain m p (pre ++ (a, s) ∷ post) → p ≢ 0
head-ne_zero m p a s [] post c = omega arith
head-ne_zero m p a s ((b, t) ∷ pre) post c = omega arith

-- What a call of `_kmalloc` that finds a block, or none, returns and leaves.
abbrev pub Served : Layout → ℕ → Heap → Blocks → Option (ℕ × Blocks) → Option (ℕ × Heap) → Type 0
Served l n h ts none r = r ≡ some (0, h)
Served l n h ts (some (a, fs)) r =
    (h' : Heap) × (r ≡ some (a + size_header, h'))
    × Valid l h' fs ((a, n) ∷ ts)
    × Keeps l h.mem h'.mem
    × Spares ts h.mem h'.mem

-- On a valid heap `_kmalloc` of at least one block is first fit on the free list: it returns the
-- address behind the header of the first free block that is large enough, the heap stays valid with
-- that block taken, and what changes is none of the words behind the headers of the blocks taken before and
-- none but the first two words of a unit of the heap; or it returns null and changes nothing when no free
-- block is large enough.
pub kmalloc-first_fit :
    (l : Layout) (h : Heap) (n : ℕ) (fs ts : Blocks)
    → IsLayout l
    → Valid l h fs ts
    → 0 < n
    → Served l n h ts (first_fit n fs) (kmalloc l n h)
unfolding kmalloc
kmalloc-first_fit l h n fs ts is v n_pos = elim (first_fit-Splits n fs) [
  | inl (d, f) ↦ rw f (ground (arith, init-eq v, loop, ap front d))
  | inr (a, s, post, d, le, f) ↦
      let split : take_while (too_small n) fs ++ (a, s) ∷ post ≡ fs =
        rw (← d) (take-drop-while (too_small n) fs) in
      let v' = subst (λ bs. Valid l h bs ts) (sym split) v in
      let nz =
        head-ne_zero h.mem h.head_free a s (take_while (too_small n) fs) post v'.free_chain in
      let at = All-append _ (take_while (too_small n) fs) ((a, s) ∷ post) v'.placed_free in
      let kept = carve-Spares l h n a s (take_while (too_small n) fs) post ts is v' le in
      rw f (
        carve n (last_or 0 (take_while (too_small n) fs)) a h,
        ground (arith, init-eq v, loop, ap front d, is.not_null, is.in_words, at.1.0.0, at.1.0.2),
        carve-Valid l h n a s (take_while (too_small n) fs) post ts is v' n_pos le,
        kept.0,
        kept.1,
      )
]
  where
    loop :
        find_fit (fuel_of h) h.mem n 0 h.head_free
        ≡ some (last_or 0 (take_while (too_small n) fs), front (drop_while (too_small n) fs))
    loop = find_fit_lem h.mem (fuel_of h) n 0 h.head_free fs v.free_chain (free_fits v)
