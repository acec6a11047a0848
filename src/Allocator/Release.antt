-- ===== src/Allocator/Release.antt =====
-- `_kmfree`: what it does to a valid heap, for each pointer it is given.
use oskernel_riscv.Base.{
  ℕ, ◌+◌, ◌*◌, ◌^◌, ◌≤◌, ◌<◌, ◌≡◌, refl, sym, ap, subst, ◌≢◌, inl, inr, Option, none, some, [], ◌∷◌,
  ◌++◌, arith, ◌==◌, Bool-cases,
}
use oskernel_riscv.Base.Int.{ℤ, pos, negsuc}
use oskernel_riscv.Allocator.{
  block_size, Memory, store, Layout, Heap, header_of, total_of, find_taken, find_place, relink,
  fuel_of, join_prev, give_back, kmfree,
}
use oskernel_riscv.Allocator.Chain.{Blocks, Seg, Chain, Clear, last_or, Seg-store, Seg-append}
use oskernel_riscv.Allocator.Loops.{
  take_while, drop_while, take-drop-while, front, other_than, below, find_taken_lem, find_place_lem,
}
use oskernel_riscv.Allocator.Cover.{
  covers, cover, total, All, Positive, Gapped, cover-append, total-append, All-append, append-All,
  Clear-Once, Spread-Once,
}
use oskernel_riscv.Allocator.Relink.{relink-Seg, relink-other}
use oskernel_riscv.Allocator.Data.{
  KeepsAt, Keeps, IsData, Spares, Free, Frees, Placed-Frees, store-Keeps, relink-Keeps,
  join_prev-Keeps, join_next-Keeps,
}
use oskernel_riscv.Allocator.Valid.{IsLayout, Placed, Valid, free_fits, taken_fits}
use oskernel_riscv.Allocator.Carve.{split_Seg}
use oskernel_riscv.Allocator.Spared.{elsewhere, no_own_header}
use oskernel_riscv.Allocator.Join.{
  edge, Gapped-append, Joined, join_prev-first, join_prev-merge, join_prev-link,
}
use oskernel_riscv.Allocator.Free.{Behind, freed_blocks}
use oskernel_riscv.Allocator.Search.{
  snoc_cases, take_while-below, Behind-of, take_out, take_out-splits,
}

Chain-front : (m : Memory) (p : ℕ) (bs : Blocks) → Chain m p bs → p ≡ front bs
Chain-front m p [] c = c
Chain-front m p ((a, s) ∷ bs) c = c.0

-- The first join in its three cases.
Joined-of :
    (l : Layout) (m : Memory) (hf ht a s : ℕ) (pre post ts : Blocks)
    → IsLayout l
    → a ≢ 0
    → (m (a + 8) ≡ s) × (m a ≡ 0)
    → 0 < s
    → Placed l ((a, s) ∷ [])
    → Chain m ht ts
    → Chain m (front post) post
    → Positive ts
    → Positive post
    → Seg m hf pre (front post)
    → Positive pre
    → Gapped 0 pre
    → Placed l pre
    → All (λ b. b.0 < a) pre
    → ((x : ℕ) → cover x pre + (covers a s x + (cover x post + cover x ts)) ≤ 1)
    → Joined l pre a s post ts ht (join_prev (last_or 0 pre) a (m, hf))
Joined-of l m hf ht a s pre post ts is nz at s_pos pl tk bh pts ppost before ppre ord plp lt once =
    elim (snoc_cases 0 pre) [
      | inl e ↦
          subst (λ (k : Blocks). Joined l k a s post ts ht (join_prev (last_or 0 k) a (m, hf)))
            (sym e) (join_prev-first l m hf ht a s post ts is nz at.0 s_pos pl tk bh pts ppost at.1)
      | inr (xs, b, t, e, f) ↦
          let before' = subst (λ (k : Blocks). Seg m hf k (front post)) e before in
          let ppre' = subst (λ (k : Blocks). Positive k) e ppre in
          let ord' = subst (λ (k : Blocks). Gapped 0 k) e ord in
          let plp' = subst (λ (k : Blocks). Placed l k) e plp in
          let lt' : All (λ b. b.0 < a) (xs ++ (b, t) ∷ []) =
            subst (λ (k : Blocks). All (λ b. b.0 < a) k) e lt in
          let once' : (x : ℕ)
              → cover x xs + (covers b t x + (covers a s x + (cover x post + cover x ts))) ≤ 1 =
            λ x. omega (arith, once x, ap (cover x) e, cover-append x xs ((b, t) ∷ [])) in
          let b_lt = (All-append _ xs ((b, t) ∷ []) lt').1.0 in
          subst (λ (k : ℕ). Joined l pre a s post ts ht (join_prev k a (m, hf))) (sym f)
            (subst (λ (k : Blocks). Joined l k a s post ts ht (join_prev b a (m, hf))) (sym e)
              (elim (Bool-cases (b + t * block_size == a)) [
                | inl adj ↦
                    join_prev-merge l m hf ht a s post ts is nz at.0 s_pos pl tk bh pts ppost b t xs
                      before' ppre' ord' plp' b_lt once' (ground arith)
                | inr apart ↦
                    join_prev-link l m hf ht a s post ts is nz at.0 s_pos pl tk bh pts ppost b t xs
                      before' ppre' ord' plp' b_lt once' (ground arith)
              ]))
    ]

-- A taken block `(a, s)` between `tpre` and `tpost`.
module _ (l : Layout) (h : Heap) (a s : ℕ) (fs tpre tpost : Blocks) (is : IsLayout l)
    (v : Valid l h fs (tpre ++ (a, s) ∷ tpost)) where
  abbrev pre : Blocks
  pre = take_while (below a) fs

  abbrev post : Blocks
  post = drop_while (below a) fs

  split : pre ++ post ≡ fs
  split = take-drop-while (below a) fs

  v' : Valid l h (pre ++ post) (tpre ++ (a, s) ∷ tpost)
  v' = subst (λ bs. Valid l h bs (tpre ++ (a, s) ∷ tpost)) (sym split) v

  once : (x : ℕ) → cover x pre + (covers a s x + (cover x post + cover x (tpre ++ tpost))) ≤ 1
  once x = ground (
    arith,
    v'.tiled x,
    cover-append x pre post,
    cover-append x tpre ((a, s) ∷ tpost),
    cover-append x tpre tpost,
  )

  free_sizes : Positive pre × Positive post
  free_sizes = All-append _ pre post v'.sized_free

  taken_sizes : Positive tpre × Positive ((a, s) ∷ tpost)
  taken_sizes = All-append _ tpre ((a, s) ∷ tpost) v.sized_taken

  rest_sizes : Positive (tpre ++ tpost)
  rest_sizes = append-All _ tpre tpost taken_sizes.0 taken_sizes.1.1

  free_places : Placed l pre × Placed l post
  free_places = All-append _ pre post v'.placed_free

  taken_places : Placed l tpre × Placed l ((a, s) ∷ tpost)
  taken_places = All-append _ tpre ((a, s) ∷ tpost) v.placed_taken

  s_pos : 0 < s
  s_pos = taken_sizes.1.0

  once_taken : (x : ℕ) → cover x tpre + (covers a s x + cover x tpost) ≤ 1
  once_taken x = omega (arith, once x, cover-append x tpre tpost)

  -- The memory and the head of the taken list once the block is off that list.
  abbrev pub unlinked : Memory × ℕ
  unlinked = relink (last_or 0 tpre) (h.mem a) (h.mem, h.head_taken)

  abbrev pub cleared : Memory
  cleared = store unlinked.0 a 0

  at_block : (p : ℕ) × Seg h.mem h.head_taken tpre p × Seg h.mem p ((a, s) ∷ tpost) 0
  at_block = split_Seg h.mem h.head_taken 0 tpre ((a, s) ∷ tpost) v.taken_chain

  unlinked-Seg :
      (p q : ℕ) (bs : Blocks)
      → Positive bs
      → ((x : ℕ) → cover x tpre + cover x bs ≤ 1)
      → Seg h.mem p bs q
      → Seg unlinked.0 p bs q
  unlinked-Seg p q bs pb o g =
      relink-other h.mem h.head_taken (h.mem a) p q tpre bs taken_sizes.0 pb o g

  cleared-Seg : (p q : ℕ) (bs : Blocks) → Clear a bs → Seg unlinked.0 p bs q → Seg cleared p bs q
  cleared-Seg p q bs c g = Seg-store unlinked.0 a 0 a p bs q c (inl refl) g

  Clear-of : (bs : Blocks) → Positive bs → ((x : ℕ) → covers a s x + cover x bs ≤ 1) → Clear a bs
  Clear-of bs p o = Clear-Once a s bs s_pos p o

  cleared-free : Chain cleared h.head_free (pre ++ post)
  cleared-free =
      cleared-Seg h.head_free 0 (pre ++ post)
        (Clear-of (pre ++ post) v'.sized_free (λ x. omega (arith, once x, cover-append x pre post)))
        (unlinked-Seg h.head_free 0 (pre ++ post) v'.sized_free
          (λ x. omega (arith, once x, cover-append x pre post, cover-append x tpre tpost))
          v'.free_chain)

  cleared-taken : Chain cleared unlinked.1 (tpre ++ tpost)
  cleared-taken =
      let front_part : Seg h.mem h.head_taken tpre a =
        subst (Seg h.mem h.head_taken tpre) at_block.2.0 at_block.1 in
      cleared-Seg unlinked.1 0 (tpre ++ tpost)
        (Clear-of (tpre ++ tpost) rest_sizes (λ x. omega (arith, once x)))
        (Seg-append unlinked.0 unlinked.1 tpre (h.mem a) tpost 0
          (relink-Seg h.mem h.head_taken a (h.mem a) tpre front_part
            (Spread-Once tpre taken_sizes.0 (λ x. omega (arith, once_taken x))))
          (unlinked-Seg (h.mem a) 0 tpost taken_sizes.1.1 (λ x. omega (arith, once_taken x))
            at_block.2.3))

  cleared-block : (cleared (a + 8) ≡ s) × (cleared a ≡ 0)
  unfolding store
  cleared-block =
      let one : Seg h.mem a ((a, s) ∷ []) (h.mem a) = (refl, at_block.2.1, at_block.2.2, refl) in
      let kept =
        unlinked-Seg a (h.mem a) ((a, s) ∷ []) (s_pos, tt) (λ x. omega (arith, once_taken x)) one in
      (ground (arith, kept.2), ground arith)

  free_part : (p : ℕ) × Seg cleared h.head_free pre p × Seg cleared p post 0
  free_part = split_Seg cleared h.head_free 0 pre post cleared-free

  at_front : free_part.0 ≡ front post
  at_front = Chain-front cleared free_part.0 post free_part.2

  pub joined :
      Joined l pre a s post
        (tpre ++ tpost)
        unlinked.1
        (join_prev (last_or 0 pre) a (cleared, h.head_free))
  joined =
      Joined-of l cleared h.head_free unlinked.1 a s pre post (tpre ++ tpost) is at_block.2.1
        cleared-block s_pos (taken_places.1.0, tt) cleared-taken
        (subst (λ (k : ℕ). Seg cleared k post 0) at_front free_part.2) rest_sizes free_sizes.1
        (subst (λ (k : ℕ). Seg cleared h.head_free pre k) at_front free_part.1) free_sizes.0
        (Gapped-append 0 pre post v'.ordered).0 free_places.0 (take_while-below a fs) once

  pub place_found :
      find_place (fuel_of h) cleared a 0 h.head_free ≡ some (last_or 0 pre, front post)
  place_found =
      find_place_lem cleared (fuel_of h) a 0 h.head_free fs
        (subst (λ (k : Blocks). Chain cleared h.head_free k) split cleared-free) (free_fits v)

  pub block_not_null : a ≢ 0
  block_not_null = at_block.2.1

  behind : Behind (a + s * block_size) post
  behind =
      Behind-of a s (edge 0 pre) fs s_pos free_sizes.1 (Gapped-append 0 pre post v'.ordered).1
        (λ x. omega (arith, once x))

  totals : total pre + s + total post + total (tpre ++ tpost) ≡ total_of l
  totals = omega (
    arith,
    v'.conserved,
    total-append pre post,
    total-append tpre ((a, s) ∷ tpost),
    total-append tpre tpost,
  )

  total_of-lt : total_of l < 2 ^ 64
  unfolding total_of
  total_of-lt = omega arith

  abbrev pub released : Heap
  released =
      let r = give_back (last_or 0 pre) (front post) a cleared h.head_free in
      record h { mem = r.0; head_free = r.1; head_taken = unlinked.1 }

  pub released-Valid : (gs : Blocks) × Valid l released gs (tpre ++ tpost)
  unfolding give_back
  released-Valid =
      let r = join_prev (last_or 0 pre) a (cleared, h.head_free) in
      let within = taken_places.1.0.2 in
      let small : total pre + s + total post < 2 ^ 64 = omega (arith, totals, total_of-lt) in
      let (gs, free, taken, ordered, sized, placed, covered, counts) =
        freed_blocks l pre a s post (tpre ++ tpost) unlinked.1 r joined is free_sizes.1 rest_sizes
          free_places.1 behind within small once in
      (
        gs,
        record {
          free_chain = free;
          taken_chain = taken;
          ordered = ordered;
          sized_free = sized;
          sized_taken = rest_sizes;
          placed_free = placed;
          placed_taken = append-All _ tpre tpost taken_places.0 taken_places.1.1;
          tiled = λ x. omega (
            arith,
            v'.tiled x,
            cover-append x pre post,
            cover-append x tpre ((a, s) ∷ tpost),
            cover-append x tpre tpost,
            covered x,
          );
          conserved = omega (arith, totals, counts);
          counted = v.counted;
          ready = v.ready;
        },
      )

  -- The words written are in the first two of the block, of a taken one or of a free one.
  released-KeepsAt :
      (P : ℕ → Type 0) → Frees P pre → Frees P tpre → Free P a → KeepsAt P h.mem released.mem
  unfolding give_back
  released-KeepsAt P fp ft ha =
      let first =
        store-Keeps P h.mem unlinked.0 a a 0 ha (inl refl)
          (relink-Keeps P h.mem h.mem (h.mem a) h.head_taken tpre ft (λ x _. refl)) in
      let second = join_prev-Keeps P h.mem cleared a h.head_free pre fp ha first in
      join_next-Keeps P h.mem _ _ (front post) second.1 second.0

  pub released-Keeps : Keeps l h.mem released.mem × Spares (tpre ++ tpost) h.mem released.mem
  released-Keeps = (
    released-KeepsAt (IsData l) (Placed-Frees l pre free_places.0)
        (Placed-Frees l tpre taken_places.0) (Placed-Frees l ((a, s) ∷ tpost) taken_places.1).0,
    released-KeepsAt _
        (elsewhere pre (tpre ++ tpost) free_sizes.0 rest_sizes (λ x. omega (arith, once x)))
        (All-append _ tpre tpost
          (no_own_header (tpre ++ tpost) rest_sizes (λ x. omega (arith, once x)))).0
        (elsewhere ((a, s) ∷ []) (tpre ++ tpost) (s_pos, tt) rest_sizes
          (λ x. omega (arith, once x))).0,
  )

-- What `_kmfree` returns and leaves, by what `take_out` finds on the list of taken blocks.
abbrev pub Returned : Layout → Heap → Option Blocks → Option (ℤ × Heap) → Type 0
Returned l h none r = r ≡ some (negsuc 0, h)
Returned l h (some ts) r =
    (h' : Heap) × (r ≡ some (pos 0, h'))
    × ((fs : Blocks) × Valid l h' fs ts)
    × Keeps l h.mem h'.mem
    × Spares ts h.mem h'.mem

-- On a valid heap `_kmfree` of a pointer that is not null ends: it returns 0, leaves a valid heap
-- without the taken block that begins at the pointer's header, and changes none of the words behind the headers of
-- the other taken blocks and none but the first two words of a unit of the heap; or, when no taken block begins
-- there, returns -1 and changes nothing.
pub kmfree-take_out :
    (l : Layout) (h : Heap) (p : ℕ) (fs ts : Blocks)
    → IsLayout l
    → Valid l h fs ts
    → p ≢ 0
    → Returned l h (take_out (header_of p) ts) (kmfree p h)
unfolding kmfree
kmfree-take_out l h p fs ts is v nz = elim (take_out-splits (header_of p) ts) [
  | inl (d, f) ↦ rw f (ground (arith, search_taken, ap front d))
  | inr (s, tpost, d, f) ↦
      let a : ℕ = header_of p in
      let tpre = take_while (other_than a) ts in
      let same : tpre ++ (a, s) ∷ tpost ≡ ts = rw (← d) (take-drop-while (other_than a) ts) in
      let v' = subst (λ (k : Blocks). Valid l h fs k) (sym same) v in
      let nz' = block_not_null l h a s fs tpre tpost is v' in
      let place = place_found l h a s fs tpre tpost is v' in
      let kept = released-Keeps l h a s fs tpre tpost is v' in
      rw f (
        released l h a s fs tpre tpost is v',
        ground (arith, search_taken, ap front d, place, nz'),
        released-Valid l h a s fs tpre tpost is v',
        kept.0,
        kept.1,
      )
]
  where
    search_taken :
        find_taken (fuel_of h) h.mem (header_of p) 0 h.head_taken
        ≡ some (
          last_or 0 (take_while (other_than (header_of p)) ts),
          front (drop_while (other_than (header_of p)) ts),
        )
    search_taken =
        find_taken_lem h.mem (fuel_of h) (header_of p) 0 h.head_taken ts v.taken_chain
          (taken_fits v)
