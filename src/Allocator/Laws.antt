-- ===== src/Allocator/Laws.antt =====
-- What clients may rely on of `_kmalloc` and `_kmfree`.
use oskernel_riscv.Base.{
  ℕ, ◌+◌, ◌-◌, ◌^◌, ◌<◌, ◌≡◌, refl, sym, subst, ◌≢◌, ◌↔◌, ◌⊎◌, inl, inr, false, Option, none, some,
  [], ◌∷◌, arith,
}
use oskernel_riscv.Base.Int.{pos}
use oskernel_riscv.Allocator.{
  size_header, store, Layout, Heap, header_of, total_of, init, kmalloc, kmfree,
}
use oskernel_riscv.Allocator.Chain.{Blocks}
use oskernel_riscv.Allocator.Cover.{covers, cover, All, Gapped-unique}
use oskernel_riscv.Allocator.Data.{Keeps, Spares}
use oskernel_riscv.Allocator.Valid.{IsLayout, Valid}
use oskernel_riscv.Allocator.Malloc.{first_fit, Served, kmalloc-first_fit}
use oskernel_riscv.Allocator.Search.{take_out}
use oskernel_riscv.Allocator.Release.{Returned, kmfree-take_out}

-- The first `init` makes the whole heap one free block, and the invariant holds.
pub init-Valid :
    (l : Layout) (h : Heap)
    → IsLayout l
    → h.initialized ≡ false
    → Valid l (init l h) ((l.heap_start, total_of l) ∷ []) []
unfolding init store total_of
init-Valid l h is e =
    rw (e, init)
      (record {
        free_chain = (refl, ground arith, ground arith, ground arith);
        taken_chain = refl;
        ordered = omega arith;
        sized_free = omega arith;
        sized_taken = tt;
        placed_free = omega arith;
        placed_taken = tt;
        tiled = λ x. omega arith;
        conserved = omega arith;
        counted = refl;
        ready = refl;
      })

abbrev pub Fails : ℕ → Blocks → Type 0
Fails n fs = All (λ b. b.1 < n) fs

first_fit-Fails : (n : ℕ) (fs : Blocks) → first_fit n fs ≡ none → Fails n fs
first_fit-Fails n [] e = tt
first_fit-Fails n ((a, s) ∷ bs) e = ground (arith, first_fit-Fails n bs)

Fails-first_fit : (n : ℕ) (fs : Blocks) → Fails n fs → first_fit n fs ≡ none
Fails-first_fit n [] e = refl
Fails-first_fit n ((a, s) ∷ bs) e = ground (arith, Fails-first_fit n bs e.1)

-- The two outcomes of `_kmalloc` on a valid heap.
abbrev pub Outcome : Layout → ℕ → Heap → Blocks → Blocks → Type 0
Outcome l n h fs ts =
    (Fails n fs × (kmalloc l n h ≡ some (0, h)))
    ⊎ ((a : ℕ) × (gs : Blocks) × (h' : Heap) × (kmalloc l n h ≡ some (a + size_header, h'))
        × Valid l h' gs ((a, n) ∷ ts)
        × Keeps l h.mem h'.mem
        × Spares ts h.mem h'.mem)

Outcome-of :
    (l : Layout) (n : ℕ) (h : Heap) (fs ts : Blocks) (o : Option (ℕ × Blocks))
    → first_fit n fs ≡ o
    → Served l n h ts o (kmalloc l n h)
    → Outcome l n h fs ts
Outcome-of l n h fs ts none e r = inl (first_fit-Fails n fs e, r)
Outcome-of l n h fs ts (some (a, gs)) e (h', r, v, k, d) = inr (a, gs, h', r, v, k, d)

pub kmalloc-cases :
    (l : Layout) (h : Heap) (n : ℕ) (fs ts : Blocks)
    → IsLayout l
    → Valid l h fs ts
    → 0 < n
    → Outcome l n h fs ts
kmalloc-cases l h n fs ts is v pos_n =
    Outcome-of l n h fs ts (first_fit n fs) refl (kmalloc-first_fit l h n fs ts is v pos_n)

-- On a valid heap, `_kmalloc` of at least one block returns null exactly if every free block is
-- smaller than what is asked for.
pub kmalloc-null :
    (l : Layout) (h : Heap) (n : ℕ) (fs ts : Blocks)
    → IsLayout l
    → Valid l h fs ts
    → 0 < n
    → Fails n fs ↔ (kmalloc l n h ≡ some (0, h))
kmalloc-null l h n fs ts is v pos_n = (
  fails,
  elim (kmalloc-cases l h n fs ts is v pos_n) [
    | inl (f, e) ↦ λ _. f
    | inr (a, gs, h', e, v', k, _) ↦ λ null. absurd (ground (arith, e, null))
  ],
)
  where
    fails : Fails n fs → kmalloc l n h ≡ some (0, h)
    fails f = rw (Fails-first_fit n fs f) at (kmalloc-first_fit l h n fs ts is v pos_n)

-- Every byte of the block that `_kmalloc` returns, header included, lay in a free block before, and
-- in none of the blocks that were taken.
pub kmalloc-fresh :
    (l : Layout) (h h' : Heap) (n p : ℕ) (fs ts : Blocks)
    → IsLayout l
    → Valid l h fs ts
    → 0 < n
    → kmalloc l n h ≡ some (p, h')
    → p ≢ 0
    → (x : ℕ) → covers (p - size_header) n x ≡ 1
    → (cover x fs ≡ 1) × (cover x ts ≡ 0)
kmalloc-fresh l h h' n p fs ts is v pos_n e nz x inside =
    elim (kmalloc-cases l h n fs ts is v pos_n) [
      | inl (f, null) ↦ absurd (nz (ground (arith, e, null)))
      | inr (a, gs, g, r, v', k, _) ↦
          let at : p ≡ a + size_header = ground (arith, e, r) in
          ground (arith, v.tiled x, v'.tiled x, at)
    ]

pub header-offset : (a : ℕ) → a + size_header < 2 ^ 64 → header_of (a + size_header) ≡ a
unfolding header_of
header-offset a h = omega arith

-- Where `_kmalloc` of `n` blocks finds room on a valid heap, `_kmfree` of its pointer puts the heap
-- back: it returns 0, and the free list and the taken list hold the same blocks as before.
pub kmfree-kmalloc :
    (l : Layout) (h h₁ : Heap) (n p : ℕ) (fs ts : Blocks)
    → IsLayout l
    → Valid l h fs ts
    → 0 < n
    → kmalloc l n h ≡ some (p, h₁)
    → p ≢ 0
    → (h₂ : Heap) × (kmfree p h₁ ≡ some (pos 0, h₂)) × Valid l h₂ fs ts
kmfree-kmalloc l h h₁ n p fs ts is v pos_n e nz = elim (kmalloc-cases l h n fs ts is v pos_n) [
  | inl (f, null) ↦ absurd (nz (ground (arith, e, null)))
  | inr (a, gs, g, r, v', k, _) ↦
      let at : p ≡ a + size_header = ground (arith, e, r) in
      let same : g ≡ h₁ = ground (arith, e, r) in
      let back = taken_back l g a n gs ts is v' in
      let (h₂, ran, (fs', w), _, _) = back in
      let list : fs' ≡ fs =
        Gapped-unique 0 fs' fs w.ordered v.ordered w.sized_free v.sized_free
          (λ x. omega (arith, w.tiled x, v.tiled x)) in
      (
        h₂,
        subst (λ (q : ℕ). kmfree q h₁ ≡ some (pos 0, h₂)) (sym at)
            (subst (λ (k : Heap). kmfree (a + size_header) k ≡ some (pos 0, h₂)) same ran),
        subst (λ (k : Blocks). Valid l h₂ k ts) list w,
      )
]
  where
    taken_back :
        (l : Layout) (g : Heap) (a n : ℕ) (gs ts : Blocks)
        → IsLayout l
        → Valid l g gs ((a, n) ∷ ts)
        → Returned l g (some ts) (kmfree (a + size_header) g)
    taken_back l g a n gs ts is w =
        let eq = header-offset a (omega (arith, w.placed_taken.0, w.sized_taken.0, is.in_words)) in
        let hit : take_out (header_of (a + size_header)) ((a, n) ∷ ts) ≡ some ts =
          rw eq (ground arith) in
        subst (λ (k : Option Blocks). Returned l g k (kmfree (a + size_header) g)) hit
          (kmfree-take_out l g (a + size_header) gs ((a, n) ∷ ts) is w (omega arith))
