-- ===== src/Allocator/Free.antt =====
-- `_kmfree` on a valid heap.
use oskernel_riscv.Base.{
  if_both, ℕ, ◌+◌, ◌*◌, ◌^◌, ◌≤◌, ◌<◌, ◌≡◌, refl, sym, subst, ◌≢◌, inl, inr, [], ◌∷◌, ◌++◌, arith,
  ◌==◌, if◌then◌else◌, Bool-cases,
}
use oskernel_riscv.Allocator.{block_size, Memory, store, Layout, end_of, join_next}
use oskernel_riscv.Allocator.Chain.{Blocks, Seg, Chain, Clear, Seg-store, Seg-append}
use oskernel_riscv.Allocator.Loops.{front}
use oskernel_riscv.Allocator.Cover.{
  covers, cover, total, Positive, Gapped, cover-append, total-append, All-append, append-All,
  Clear-Once,
}
use oskernel_riscv.Allocator.Valid.{IsLayout, Placed}
use oskernel_riscv.Allocator.Join.{edge, Gapped-append, append-Gapped, Joined}

-- The freed and joined block in front of the free blocks behind it.
abbrev attach : ℕ → ℕ → Blocks → Blocks
attach c u [] = (c, u) ∷ []
attach c u ((d, w) ∷ bs) = if c + u * block_size == d then (c, u + w) ∷ bs else (c, u) ∷ (d, w) ∷ bs

cover-attach : (x c u : ℕ) (bs : Blocks) → cover x (attach c u bs) ≡ covers c u x + cover x bs
cover-attach x c u [] = refl
cover-attach x c u ((d, w) ∷ bs) = ground arith

total-attach : (c u : ℕ) (bs : Blocks) → total (attach c u bs) ≡ u + total bs
total-attach c u [] = refl
total-attach c u ((d, w) ∷ bs) = ground arith

Positive-attach : (c u : ℕ) (bs : Blocks) → 0 < u → Positive bs → Positive (attach c u bs)
Positive-attach c u [] h p = (h, tt)
Positive-attach c u ((d, w) ∷ bs) h p = ground arith

Placed-attach :
    (l : Layout) (c u : ℕ) (bs : Blocks)
    → Placed l ((c, u) ∷ [])
    → Placed l bs
    → Placed l (attach c u bs)
Placed-attach l c u [] h p = h
Placed-attach l c u ((d, w) ∷ bs) h p = ground arith

-- The blocks behind begin at the end of the joined block or after it.
abbrev pub Behind : ℕ → Blocks → Type 0
Behind e [] = Unit {0}
Behind e ((d, w) ∷ bs) = (e ≤ d) × Gapped (d + w * block_size) bs

Gapped-attach :
    (lo c u : ℕ) (bs : Blocks) → lo < c → Behind (c + u * block_size) bs → Gapped lo (attach c u bs)
Gapped-attach lo c u [] h g = (h, tt)
Gapped-attach lo c u ((d, w) ∷ bs) h g = elim (Bool-cases (c + u * block_size == d)) [
  | inl e ↦
      let end : d + w * block_size ≡ c + (u + w) * block_size = ground arith in
      rw e (h, subst (λ k. Gapped k bs) end g.1)
  | inr e ↦ rw e (h, (ground arith, g.1))
]

-- The second join writes to the joined block's header alone.
join_next-Seg :
    (m : Memory) (c next p q : ℕ) (bs : Blocks)
    → Clear c bs
    → Seg m p bs q
    → Seg (join_next c next m) p bs q
unfolding join_next
join_next-Seg m c next p q bs clear g =
    if_both (λ k. Seg k p bs q) (next == 0) g
      (if_both (λ k. Seg k p bs q) (end_of c (m (c + 8)) == next)
        (Seg-store _ c _ c p bs q clear (inl refl)
          (Seg-store m (c + 8) _ c p bs q clear (inr refl) g))
        (Seg-store m c next c p bs q clear (inl refl) g))

join_next-adjacent :
    (m : Memory) (c u d w : ℕ)
    → d ≢ 0
    → m (c + 8) ≡ u
    → m (d + 8) ≡ w
    → d ≢ c + 8
    → c + u * block_size < 2 ^ 64
    → u + w < 2 ^ 64
    → c + u * block_size ≡ d
    → join_next c d m ≡ store (store m (c + 8) (u + w)) c (m d)
unfolding join_next end_of store
join_next-adjacent m c u d w nz sc sd ne h h' e = ground arith

join_next-apart :
    (m : Memory) (c u d : ℕ)
    → d ≢ 0
    → m (c + 8) ≡ u
    → c + u * block_size < 2 ^ 64
    → c + u * block_size ≢ d
    → join_next c d m ≡ store m c d
unfolding join_next end_of
join_next-apart m c u d nz sc h e = ground arith

joined-Chain :
    (m : Memory) (c u w n : ℕ) (bs : Blocks)
    → c ≢ 0
    → Clear c bs
    → Chain m n bs
    → Chain (store (store m (c + 8) (u + w)) c n) c ((c, u + w) ∷ bs)
unfolding store
joined-Chain m c u w n bs nz cl g =
    let k : Memory = store (store m (c + 8) (u + w)) c n in
    let at_next : k c ≡ n = ground arith in
    let rest =
      Seg-store (store m (c + 8) (u + w)) c n c n bs 0 cl (inl refl)
        (Seg-store m (c + 8) (u + w) c n bs 0 cl (inr refl) g) in
    (refl, nz, ground arith, subst (λ p. Seg k p bs 0) (sym at_next) rest)

linked-Chain :
    (m : Memory) (c u n : ℕ) (bs : Blocks)
    → c ≢ 0
    → m (c + 8) ≡ u
    → Clear c bs
    → Chain m n bs
    → Chain (store m c n) c ((c, u) ∷ bs)
unfolding store
linked-Chain m c u n bs nz sc cl g =
    let k : Memory = store m c n in
    let at_next : k c ≡ n = ground arith in
    (
      refl,
      nz,
      ground arith,
      subst (λ p. Seg k p bs 0) (sym at_next) (Seg-store m c n c n bs 0 cl (inl refl) g),
    )

join_next-Chain :
    (m : Memory) (c u : ℕ) (post : Blocks)
    → c ≢ 0
    → m (c + 8) ≡ u
    → Clear c post
    → (post ≡ [] → m c ≡ 0)
    → Chain m (front post) post
    → c + u * block_size < 2 ^ 64
    → u + total post < 2 ^ 64
    → Chain (join_next c (front post) m) c (attach c u post)
unfolding join_next
join_next-Chain m c u [] nz sc cl last g h h' = (refl, nz, sc, last refl)
join_next-Chain m c u ((d, w) ∷ bs) nz sc cl last g h h' =
    elim (Bool-cases (c + u * block_size == d)) [
      | inl e ↦
          subst (λ k. Chain k c (attach c u ((d, w) ∷ bs)))
            (sym (
              join_next-adjacent m c u d w g.1 sc g.2 (omega (arith, cl.0)) h (omega arith)
                (ground arith)))
            (rw e (joined-Chain m c u w (m d) bs nz cl.1 g.3))
      | inr e ↦
          subst (λ k. Chain k c (attach c u ((d, w) ∷ bs)))
            (sym (join_next-apart m c u d g.1 sc h (ground arith)))
            (rw e (linked-Chain m c u d ((d, w) ∷ bs) nz sc cl g))
    ]

-- What both joins leave: the free list with the freed block in it, beside the taken list.
module _ (l : Layout) (pre : Blocks) (a s : ℕ) (post ts : Blocks) (ht : ℕ) (r : ℕ × Memory × ℕ)
    (j : Joined l pre a s post ts ht r) (is : IsLayout l) (ppost : Positive post)
    (pts : Positive ts) (placed_post : Placed l post) (behind : Behind (a + s * block_size) post)
    (within : a + s * block_size ≤ l.heap_end) (small : total pre + s + total post < 2 ^ 64)
    (once : (x : ℕ) → cover x pre + (covers a s x + (cover x post + cover x ts)) ≤ 1) where
  freed : Blocks
  freed = j.xs ++ attach r.0 j.u post

  freed_taken : Chain (join_next r.0 (front post) r.1) ht ts
  freed_taken =
      join_next-Seg r.1 r.0 (front post) ht 0 ts
        (Clear-Once r.0 j.u ts j.u_pos pts (λ x. omega (arith, once x, j.covered x))) j.taken

  freed_free : Chain (join_next r.0 (front post) r.1) r.2 freed
  unfolding freed
  freed_free =
      Seg-append (join_next r.0 (front post) r.1) r.2 j.xs r.0 (attach r.0 j.u post) 0
        (join_next-Seg r.1 r.0 (front post) r.2 r.0 j.xs
          (Clear-Once r.0 j.u j.xs j.u_pos j.positive (λ x. omega (arith, once x, j.covered x)))
          j.linked)
        (join_next-Chain r.1 r.0 j.u post j.not_null j.sized
          (Clear-Once r.0 j.u post j.u_pos ppost (λ x. omega (arith, once x, j.covered x))) j.last
          j.behind (omega (arith, j.ends, is.in_words)) (omega (arith, j.counted)))

  freed_ordered : Gapped 0 freed
  unfolding freed
  freed_ordered =
      let g = Gapped-append 0 j.xs ((r.0, j.u) ∷ []) j.ordered in
      append-Gapped 0 j.xs (attach r.0 j.u post) g.0 (
        Gapped-attach (edge 0 j.xs) r.0 j.u post g.1.0
          (subst (λ k. Behind k post) (sym j.ends) behind))

  freed_sized : Positive freed
  unfolding freed
  freed_sized = append-All _ j.xs _ j.positive (Positive-attach r.0 j.u post j.u_pos ppost)

  freed-Placed : Placed l freed
  unfolding freed
  freed-Placed =
      let p = All-append _ j.xs ((r.0, j.u) ∷ []) j.placed in
      append-All _ j.xs _ p.0 (Placed-attach l r.0 j.u post p.1 placed_post)

  freed_cover : (x : ℕ) → cover x freed ≡ cover x pre + covers a s x + cover x post
  unfolding freed
  freed_cover x =
      omega
        (arith, cover-append x j.xs (attach r.0 j.u post), cover-attach x r.0 j.u post, j.covered x)

  freed_total : total freed ≡ total pre + s + total post
  unfolding freed
  freed_total =
      omega (arith, total-append j.xs (attach r.0 j.u post), total-attach r.0 j.u post, j.counted)

  -- The new free list and all that the invariant wants of it.
  pub freed_blocks :
      (gs : Blocks) × Chain (join_next r.0 (front post) r.1) r.2 gs
      × Chain (join_next r.0 (front post) r.1) ht ts
      × Gapped 0 gs
      × Positive gs
      × Placed l gs
      × ((x : ℕ) → cover x gs ≡ cover x pre + covers a s x + cover x post)
      × (total gs ≡ total pre + s + total post)
  freed_blocks = (
    freed, freed_free, freed_taken, freed_ordered, freed_sized, freed-Placed, freed_cover,
    freed_total,
  )
