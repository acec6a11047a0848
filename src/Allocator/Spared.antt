-- ===== src/Allocator/Spared.antt =====
-- The words that `_kmalloc` leaves as they are: those behind the headers of the taken blocks, and those that are in
-- no unit's first two words.
use oskernel_riscv.Base.{ℕ, ◌+◌, ◌≤◌, ◌<◌, ◌≡◌, ◌≢◌, ◌∷◌, ◌++◌, arith}
use oskernel_riscv.Allocator.{Layout, Heap, end_of, carve}
use oskernel_riscv.Allocator.Chain.{Blocks, last_or}
use oskernel_riscv.Allocator.Cover.{covers, cover, Positive, cover-append, All-append}
use oskernel_riscv.Allocator.Valid.{IsLayout, Placed, Valid}
use oskernel_riscv.Allocator.Data.{
  IsData, Keeps, payload, Spares, payload-heads, Free, Frees, Placed-Frees, heads-Frees,
  end_of-Free, carve-Keeps,
}
use oskernel_riscv.Allocator.Carve.{split_Seg}

-- What is behind the header of a taken block is in no block that shares no byte with the taken ones.
pub elsewhere :
    (bs ts : Blocks)
    → Positive bs
    → Positive ts
    → ((x : ℕ) → cover x bs + cover x ts ≤ 1)
    → Frees (λ x. 1 ≤ payload x ts) bs
elsewhere bs ts p q once =
    heads-Frees _ bs (λ x d. omega (arith, payload-heads x bs p, payload-heads x ts q, once x, d))

-- Nor is it in the header of a taken block.
pub no_own_header :
    (ts : Blocks) → Positive ts → ((x : ℕ) → cover x ts ≤ 1) → Frees (λ x. 1 ≤ payload x ts) ts
no_own_header ts q once = heads-Frees _ ts (λ x d. omega (arith, payload-heads x ts q, once x, d))

module _ (l : Layout) (h : Heap) (n a s : ℕ) (pre post ts : Blocks) (is : IsLayout l)
    (v : Valid l h (pre ++ (a, s) ∷ post) ts) (fits : n ≤ s) where
  sizes : Positive pre × Positive ((a, s) ∷ post)
  sizes = All-append (λ b. 0 < b.1) pre ((a, s) ∷ post) v.sized_free

  places : Placed l pre × Placed l ((a, s) ∷ post)
  places = All-append _ pre ((a, s) ∷ post) v.placed_free

  once : (x : ℕ) → cover x (pre ++ (a, s) ∷ post) + cover x ts ≤ 1
  once x = ground (arith, v.tiled x)

  clear : Frees (λ x. 1 ≤ payload x ts) pre × Frees (λ x. 1 ≤ payload x ts) ((a, s) ∷ post)
  clear =
      All-append _ pre ((a, s) ∷ post)
        (elsewhere (pre ++ (a, s) ∷ post) ts v.sized_free v.sized_taken once)

  size_there : h.mem (a + 8) ≡ s
  size_there = (split_Seg h.mem h.head_free 0 pre ((a, s) ∷ post) v.free_chain).2.2

  -- The leftover block's header is in the block from which it is cut.
  in_leftover : n ≢ h.mem (a + 8) → Free (λ x. 1 ≤ payload x ts) (end_of a n)
  unfolding end_of
  in_leftover ne x d =
      let less : n < s = omega (arith, ne, size_there) in
      let top = is.in_words in
      let place = places.1.0.2 in
      let free : covers a s x ≡ 0 =
        omega (
          arith,
          once x,
          payload-heads x ts v.sized_taken,
          d,
          cover-append x pre ((a, s) ∷ post),
        ) in
      (ground (arith, free), ground (arith, free))

  pub carve-Spares :
      Keeps l h.mem (carve n (last_or 0 pre) a h).mem
      × Spares ts h.mem (carve n (last_or 0 pre) a h).mem
  carve-Spares =
      let own = Placed-Frees l pre places.0 in
      let at = Placed-Frees l ((a, s) ∷ post) places.1 in
      (
        carve-Keeps (IsData l) h n a pre own at.0
            (λ _. end_of-Free l n a s (places.1.0, tt) fits is.in_words),
        carve-Keeps _ h n a pre clear.0 clear.1.0 in_leftover,
      )
