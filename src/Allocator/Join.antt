-- ===== src/Allocator/Join.antt =====
-- The two joins of `_kmfree`: the freed block with the free block before it and the one behind it.
use oskernel_riscv.Base.{
  ℕ, ◌+◌, ◌*◌, ◌≤◌, ◌<◌, ◌≡◌, refl, sym, ap, subst, ◌≢◌, inl, inr, [], ◌∷◌, ◌++◌, arith,
}
use oskernel_riscv.Allocator.{block_size, Memory, store, Layout, end_of, join_prev}
use oskernel_riscv.Allocator.Chain.{Blocks, Seg, Chain, Clear, Seg-store, Seg-append}
use oskernel_riscv.Allocator.Loops.{front}
use oskernel_riscv.Allocator.Cover.{
  covers, cover, total, Positive, Gapped, cover-append, total-append, All-append, append-All,
  Clear-Once,
}
use oskernel_riscv.Allocator.Carve.{split_Seg}
use oskernel_riscv.Allocator.Valid.{IsLayout, Placed}

-- Where the last block ends, or `lo`.
abbrev pub edge : ℕ → Blocks → ℕ
edge lo [] = lo
edge lo ((a, s) ∷ bs) = edge (a + s * block_size) bs

pub Gapped-append :
    (lo : ℕ) (xs ys : Blocks) → Gapped lo (xs ++ ys) → Gapped lo xs × Gapped (edge lo xs) ys
Gapped-append lo [] ys g = (tt, g)
Gapped-append lo ((a, s) ∷ xs) ys g =
    let r = Gapped-append (a + s * block_size) xs ys g.1 in ((g.0, r.0), r.1)

pub append-Gapped :
    (lo : ℕ) (xs ys : Blocks) → Gapped lo xs → Gapped (edge lo xs) ys → Gapped lo (xs ++ ys)
append-Gapped lo [] ys g h = h
append-Gapped lo ((a, s) ∷ xs) ys g h = (g.0, append-Gapped (a + s * block_size) xs ys g.1 h)

edge-snoc : (lo b t : ℕ) (xs : Blocks) → edge lo (xs ++ (b, t) ∷ []) ≡ b + t * block_size
edge-snoc lo b t [] = refl
edge-snoc lo b t ((a, s) ∷ xs) = edge-snoc (a + s * block_size) b t xs

-- The freed block `(a, s)`, after it is joined with the blocks `pre` before it: `xs` and then a block
-- of `u` at the address that `r` gives, in memory and list head of `r`.
pub record Joined (l : Layout) (pre : Blocks) (a s : ℕ) (post ts : Blocks) (ht : ℕ)
    (r : ℕ × Memory × ℕ) : Type 0 where
  pub xs : Blocks
  pub u : ℕ
  pub linked : Seg r.1 r.2 xs r.0
  pub not_null : r.0 ≢ 0
  pub sized : r.1 (r.0 + 8) ≡ u
  pub last : post ≡ [] → r.1 r.0 ≡ 0
  pub behind : Chain r.1 (front post) post
  pub taken : Chain r.1 ht ts
  pub ordered : Gapped 0 (xs ++ (r.0, u) ∷ [])
  pub ends : r.0 + u * block_size ≡ a + s * block_size
  pub positive : Positive xs
  pub u_pos : 0 < u
  pub placed : Placed l (xs ++ (r.0, u) ∷ [])
  pub covered : (x : ℕ) → cover x xs + covers r.0 u x ≡ cover x pre + covers a s x
  pub counted : total xs + u ≡ total pre + s

module _ (l : Layout) (m : Memory) (hf ht a s : ℕ) (post ts : Blocks) (is : IsLayout l)
    (not_null : a ≢ 0) (sized : m (a + 8) ≡ s) (s_pos : 0 < s) (placed : Placed l ((a, s) ∷ []))
    (taken : Chain m ht ts) (behind : Chain m (front post) post) (pts : Positive ts)
    (ppost : Positive post) where
  -- No free block lies before it.
  pub join_prev-first : m a ≡ 0 → Joined l [] a s post ts ht (join_prev 0 a (m, hf))
  unfolding join_prev
  join_prev-first zero_next = record {
    xs = [];
    u = s;
    linked = refl;
    not_null = not_null;
    sized = sized;
    last = λ _. zero_next;
    behind = behind;
    taken = taken;
    ordered = (omega arith, tt);
    ends = refl;
    positive = tt;
    u_pos = s_pos;
    placed = placed;
    covered = λ x. omega arith;
    counted = refl;
  }

  -- The block `(b, t)` lies before it.
  module _ (b t : ℕ) (pre : Blocks) (before : Seg m hf (pre ++ (b, t) ∷ []) (front post))
      (ppre : Positive (pre ++ (b, t) ∷ [])) (ordered : Gapped 0 (pre ++ (b, t) ∷ []))
      (placed_pre : Placed l (pre ++ (b, t) ∷ [])) (precedes : b < a)
      (once : (x : ℕ)
        → cover x pre + (covers b t x + (covers a s x + (cover x post + cover x ts))) ≤ 1) where
    front_part : (r : ℕ) × Seg m hf pre r × Seg m r ((b, t) ∷ []) (front post)
    front_part = split_Seg m hf (front post) pre ((b, t) ∷ []) before

    to_b : Seg m hf pre b
    to_b = subst (Seg m hf pre) front_part.2.0 front_part.1

    b_pos : Positive pre × Positive ((b, t) ∷ [])
    b_pos = All-append _ pre ((b, t) ∷ []) ppre

    b-Placed : Placed l pre × Placed l ((b, t) ∷ [])
    b-Placed = All-append _ pre ((b, t) ∷ []) placed_pre

    Clear-b : (bs : Blocks) → Positive bs → ((x : ℕ) → covers b t x + cover x bs ≤ 1) → Clear b bs
    Clear-b bs p o = Clear-Once b t bs b_pos.1.0 p o

    merged : Memory
    merged = store m (b + 8) (t + s)

    merged-Seg : (p q : ℕ) (bs : Blocks) → Clear b bs → Seg m p bs q → Seg merged p bs q
    unfolding merged
    merged-Seg p q bs c g = Seg-store m (b + 8) (t + s) b p bs q c (inr refl) g

    abbrev Done : ℕ × Memory × ℕ → Type 0
    Done r = Joined l (pre ++ (b, t) ∷ []) a s post ts ht r

    join_prev-adjacent : b + t * block_size ≡ a → join_prev b a (m, hf) ≡ (b, merged, hf)
    unfolding join_prev merged end_of
    join_prev-adjacent e =
        let nz = front_part.2.1 in
        let at_b : m (b + 8) ≡ t = front_part.2.2 in ground (arith, is.in_words, placed.0.2, e)

    pub join_prev-merge : b + t * block_size ≡ a → Done (join_prev b a (m, hf))
    join_prev-merge adjacent = subst Done (sym (join_prev-adjacent adjacent)) (record {
      xs = pre;
      u = t + s;
      linked = merged-Seg hf b pre (Clear-b pre b_pos.0 (λ x. omega (arith, once x))) to_b;
      not_null = front_part.2.1;
      sized = unfold merged store in (ground arith);
      last = λ e. unfold merged store in (ground (arith, front_part.2.3, ap front e));
      behind =
          merged-Seg (front post) 0 post (Clear-b post ppost (λ x. omega (arith, once x))) behind;
      taken = merged-Seg ht 0 ts (Clear-b ts pts (λ x. omega (arith, once x))) taken;
      ordered =
          let g = Gapped-append 0 pre ((b, t) ∷ []) ordered in
          append-Gapped 0 pre ((b, t + s) ∷ []) g.0 (g.1.0, tt);
      ends = omega (arith, adjacent);
      positive = b_pos.0;
      u_pos = omega arith;
      placed =
          append-All _ pre ((b, t + s) ∷ []) b-Placed.0
            (omega (arith, b-Placed.1.0, placed.0, adjacent), tt);
      covered = λ x. ground (arith, cover-append x pre ((b, t) ∷ []), adjacent);
      counted = omega (arith, total-append pre ((b, t) ∷ []));
    })

    linked_in : Memory
    linked_in = store (store m a (m b)) b a

    linked_in-Seg :
        (p q : ℕ) (bs : Blocks)
        → Positive bs
        → ((x : ℕ) → covers b t x + covers a s x + cover x bs ≤ 1)
        → Seg m p bs q
        → Seg linked_in p bs q
    unfolding linked_in
    linked_in-Seg p q bs pb o g =
        Seg-store (store m a (m b)) b a b p bs q (Clear-b bs pb (λ x. omega (arith, o x)))
          (inl refl)
          (Seg-store m a (m b) a p bs q (Clear-Once a s bs s_pos pb (λ x. omega (arith, o x)))
            (inl refl) g)

    join_prev-apart : b + t * block_size ≢ a → join_prev b a (m, hf) ≡ (a, linked_in, hf)
    unfolding join_prev linked_in end_of
    join_prev-apart e =
        let nz = front_part.2.1 in
        let at_b : m (b + 8) ≡ t = front_part.2.2 in
        let within = b-Placed.1.0.2 in ground (arith, is.in_words, e)

    strict : b + t * block_size ≢ a → b + t * block_size < a
    strict e = ground (arith, once a)

    pub join_prev-link : b + t * block_size ≢ a → Done (join_prev b a (m, hf))
    join_prev-link apart =
        let gap = strict apart in
        let at_b : m (b + 8) ≡ t = front_part.2.2 in
        let t_pos = b_pos.1.0 in
        subst Done (sym (join_prev-apart apart)) (record {
          xs = pre ++ (b, t) ∷ [];
          u = s;
          linked =
              Seg-append linked_in hf pre b ((b, t) ∷ []) a
                (linked_in-Seg hf b pre b_pos.0 (λ x. omega (arith, once x)) to_b)
                (unfold linked_in store in (refl, front_part.2.1, (ground arith), (ground arith)));
          not_null = not_null;
          sized = unfold linked_in store in (ground arith);
          last = λ e. unfold linked_in store in (ground (arith, front_part.2.3, ap front e));
          behind = linked_in-Seg (front post) 0 post ppost (λ x. omega (arith, once x)) behind;
          taken = linked_in-Seg ht 0 ts pts (λ x. omega (arith, once x)) taken;
          ordered =
              append-Gapped 0 (pre ++ (b, t) ∷ []) ((a, s) ∷ []) ordered
                (rw (edge-snoc 0 b t pre) (gap, tt));
          ends = refl;
          positive = ppre;
          u_pos = s_pos;
          placed = append-All _ (pre ++ (b, t) ∷ []) ((a, s) ∷ []) placed_pre placed;
          covered = λ x. refl;
          counted = refl;
        })
