-- ===== src/Allocator/Carve.antt =====
-- `_kmalloc` is first fit: it takes the front of the first free block that is large enough.
use oskernel_riscv.Base.{
  ℕ, ◌+◌, ◌-◌, ◌*◌, ◌%◌, ◌^◌, ◌≤◌, ◌<◌, ◌≡◌, refl, sym, subst, ◌≢◌, inl, inr, [], ◌∷◌, ◌++◌, arith,
  ◌==◌, if◌then◌else◌,
}
use oskernel_riscv.Allocator.{
  block_size, Memory, store, end_of, relink, unlink_whole, split_leftover, claim,
}
use oskernel_riscv.Allocator.Chain.{
  Blocks, Seg, Chain, Clear, Spread, last_or, Seg-store, Seg-append,
}
use oskernel_riscv.Allocator.Cover.{covers, cover, Positive, Clear-Once, Spread-Once}
use oskernel_riscv.Allocator.Relink.{relink-Seg, relink-other}

-- What is left of the block at `a` when `n` of its `s` blocks are taken.
abbrev pub shrink : ℕ → ℕ → ℕ → Blocks → Blocks
shrink n a s post = if n == s then post else (a + n * block_size, s - n) ∷ post

claim-Seg :
    (n a t : ℕ) (m : Memory) (p : ℕ) (bs : Blocks) (q : ℕ)
    → Clear a bs
    → Seg m p bs q
    → Seg (claim n a m t) p bs q
unfolding claim
claim-Seg n a t m p bs q c g =
    Seg-store _ a t a p bs q c (inl refl)
      (Seg-store _ a 0 a p bs q c (inl refl) (Seg-store m (a + 8) n a p bs q c (inr refl) g))

claim-size : (n a t : ℕ) (m : Memory) → claim n a m t (a + 8) ≡ n
unfolding claim store
claim-size n a t m = ground arith

claim-next : (n a t : ℕ) (m : Memory) → claim n a m t a ≡ t
unfolding claim store
claim-next n a t m = ground arith

claim-Chain :
    (n a t : ℕ) (m : Memory) (ts : Blocks)
    → a ≢ 0
    → Clear a ts
    → Chain m t ts
    → Chain (claim n a m t) a ((a, n) ∷ ts)
claim-Chain n a t m ts z c g =
    let rest = claim-Seg n a t m t ts 0 c g in
    let at_next = subst (λ k. Seg (claim n a m t) k ts 0) (sym (claim-next n a t m)) rest in
    (refl, z, claim-size n a t m, at_next)

pub split_Seg :
    (m : Memory) (p q : ℕ) (xs ys : Blocks)
    → Seg m p (xs ++ ys) q
    → (r : ℕ) × Seg m p xs r × Seg m r ys q
split_Seg m p q [] ys g = (p, refl, g)
split_Seg m p q ((a, s) ∷ xs) ys (e, z, w, g) =
    let r = split_Seg m (m a) q xs ys g in (r.0, (e, z, w, r.1), r.2)

pub covers-split :
    (a n s x : ℕ) → n ≤ s → covers a n x + covers (a + n * block_size) (s - n) x ≡ covers a s x
covers-split a n s x h = ground arith

-- The writes of `_kmalloc` to a memory with the block `a` of size `s` between `pre` and `post`.
module _ (m : Memory) (hf ht a s n : ℕ) (pre post ts : Blocks) (before : Seg m hf pre a)
    (not_null : a ≢ 0) (sized : m (a + 8) ≡ s) (behind : Seg m (m a) post 0) (taken : Chain m ht ts)
    (ppre : Positive pre) (ppost : Positive post) (pts : Positive ts) (n_pos : 0 < n) (fits : n ≤ s)
    (once : (x : ℕ) → cover x pre + (covers a s x + (cover x post + cover x ts)) ≤ 1) where
  Spread-pre : Spread pre
  Spread-pre = Spread-Once pre ppre (λ x. omega (arith, once x))

  Clear-pre : Clear a pre
  Clear-pre = Clear-Once a s pre (omega arith) ppre (λ x. omega (arith, once x))

  Clear-post : Clear a post
  Clear-post = Clear-Once a s post (omega arith) ppost (λ x. omega (arith, once x))

  Clear-taken : Clear a ts
  Clear-taken = Clear-Once a s ts (omega arith) pts (λ x. omega (arith, once x))

  pub whole-Chain :
      let r = unlink_whole (last_or 0 pre) a (m, hf) in
      Chain (claim n a r.0 ht) r.1 (pre ++ post) × Chain (claim n a r.0 ht) a ((a, n) ∷ ts)
  unfolding unlink_whole
  whole-Chain =
      let r = relink (last_or 0 pre) (m a) (m, hf) in
      let p = relink-Seg m hf a (m a) pre before Spread-pre in
      let q =
        relink-other m hf (m a) (m a) 0 pre post ppre ppost (λ x. omega (arith, once x)) behind in
      let t = relink-other m hf (m a) ht 0 pre ts ppre pts (λ x. omega (arith, once x)) taken in
      (
        Seg-append (claim n a r.0 ht) r.1 pre (m a) post 0
            (claim-Seg n a ht r.0 r.1 pre (m a) Clear-pre p)
            (claim-Seg n a ht r.0 (m a) post 0 Clear-post q),
        claim-Chain n a ht r.0 ts not_null Clear-taken t,
      )

  -- With a leftover behind the block.
  module _ (more : n < s) (in_words : a + s * block_size < 2 ^ 64) where
    abbrev pub leftover : ℕ
    leftover = a + n * block_size

    written : Memory
    written = store (store m leftover (m a)) (leftover + 8) (s - n)

    end_of-eq : end_of a n ≡ leftover
    unfolding end_of
    end_of-eq = omega arith

    sized_left : (store m leftover (m a) (a + 8) + 2 ^ 64 - n) % 2 ^ 64 ≡ s - n
    unfolding store
    sized_left = ground arith

    split-eq :
        split_leftover n (last_or 0 pre) a (m, hf) ≡ relink (last_or 0 pre) leftover (written, hf)
    unfolding split_leftover written
    split-eq = rw (end_of-eq, sized_left)

    Clear-of :
        (bs : Blocks) → Positive bs → ((x : ℕ) → covers a s x + cover x bs ≤ 1) → Clear leftover bs
    Clear-of bs p o =
        Clear-Once (a + n * block_size) (s - n) bs (omega arith) p
          (λ x. omega (arith, o x, covers-split a n s x fits))

    written-Seg : (p q : ℕ) (bs : Blocks) → Clear leftover bs → Seg m p bs q → Seg written p bs q
    unfolding written
    written-Seg p q bs c g =
        Seg-store _ (leftover + 8) (s - n) leftover p bs q c (inr refl)
          (Seg-store m leftover (m a) leftover p bs q c (inl refl) g)

    written-block : Seg written leftover ((leftover, s - n) ∷ []) (m a)
    unfolding written store
    written-block = ground arith

    once_left :
        (bs : Blocks) (x : ℕ)
        → cover x bs + covers a s x ≤ 1
        → cover x bs + cover x ((leftover, s - n) ∷ []) ≤ 1
    once_left bs x o = omega (arith, covers-split a n s x fits)

    pub split-Chain :
        let r = split_leftover n (last_or 0 pre) a (m, hf) in
        Chain (claim n a r.0 ht) r.1 (pre ++ (leftover, s - n) ∷ post)
        × Chain (claim n a r.0 ht) a ((a, n) ∷ ts)
    split-Chain =
        subst
          (λ (r : Memory × ℕ).
            Chain (claim n a r.0 ht) r.1 (pre ++ (leftover, s - n) ∷ post)
            × Chain (claim n a r.0 ht) a ((a, n) ∷ ts))
          (sym split-eq)
          (let r = relink (last_or 0 pre) leftover (written, hf) in
            let cp = Clear-of pre ppre (λ x. omega (arith, once x)) in
            let cq = Clear-of post ppost (λ x. omega (arith, once x)) in
            let ct = Clear-of ts pts (λ x. omega (arith, once x)) in
            let p =
              relink-Seg written hf a leftover pre (written-Seg hf a pre cp before) Spread-pre in
            let q =
              relink-other written hf leftover (m a) 0 pre post ppre ppost
                (λ x. omega (arith, once x)) (written-Seg (m a) 0 post cq behind) in
            let b =
              relink-other written hf leftover leftover (m a) pre ((leftover, s - n) ∷ []) ppre
                (omega arith, tt) (λ x. once_left pre x (omega (arith, once x))) written-block in
            let t =
              relink-other written hf leftover ht 0 pre ts ppre pts (λ x. omega (arith, once x))
                (written-Seg ht 0 ts ct taken) in
            let tail = Seg-append r.0 leftover ((leftover, s - n) ∷ []) (m a) post 0 b q in
            (
              Seg-append (claim n a r.0 ht) r.1 pre leftover ((leftover, s - n) ∷ post) 0
                  (claim-Seg n a ht r.0 r.1 pre leftover Clear-pre p)
                  (claim-Seg n a ht r.0 leftover ((leftover, s - n) ∷ post) 0
                    (inl (omega arith), Clear-post) tail),
              claim-Chain n a ht r.0 ts not_null Clear-taken t,
            ))
