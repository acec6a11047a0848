-- ===== src/Elements/Owned.antt =====
-- The elements on the allocator's heap: each in a taken block of its own.
use oskernel_riscv.Base.{
  ℕ, suc, ◌+◌, ◌-◌, ◌%◌, ◌≤◌, ◌≡◌, ◌≢◌, refl, ap, ◌∙◌, subst, ◌⊎◌, Bool, true, false, ◌||◌, Option,
  some, none, [], ◌∷◌, arith, ◌==◌, Bool-cases, inl, inr, length,
}
use oskernel_riscv.Base.Int.{ℤ, pos}
use oskernel_riscv.Allocator.{Memory, Layout, Heap, store, kmfree, header_of, size_header}
use oskernel_riscv.Allocator.Chain.{Blocks, Seg}
use oskernel_riscv.Allocator.Cover.{cover, Positive}
use oskernel_riscv.Allocator.Valid.{IsLayout, Valid, Placed}
use oskernel_riscv.Allocator.Data.{IsData, Keeps}
use oskernel_riscv.Allocator.Laws.{Fails, kmalloc-cases, header-offset}
use oskernel_riscv.Allocator.Search.{take_out}
use oskernel_riscv.Allocator.Release.{kmfree-take_out, Returned}
use oskernel_riscv.Elements.{new_elem, elem_blocks}
use oskernel_riscv.Elements.Links.{Each-but, Cells, IsElem, Apart, Each}

abbrev pub has_block : ℕ → Blocks → Bool
has_block a [] = false
has_block a ((b, s) ∷ bs) = (b == a) || has_block a bs

-- An element in a taken block.
abbrev pub Own : Layout → Blocks → ℕ → Type 0
Own l ts e = IsElem l e × (has_block (e - 16) ts ≡ true)

pub elem-IsData : (l : Layout) (e : ℕ) → IsElem l e → IsData l e × IsData l (e + 8)
elem-IsData l e (lo, k) = (omega arith, omega arith)

-- A write behind the headers leaves the lists of blocks alone.
Seg-data :
    (l : Layout) (m : Memory) (x v p : ℕ) (bs : Blocks) (q : ℕ)
    → IsData l x
    → Placed l bs
    → Seg m p bs q
    → Seg (store m x v) p bs q
unfolding store
Seg-data l m x v p [] q data_at pl s = s
Seg-data l m x v p ((b, t) ∷ bs) q data_at pl s =
    let rest = Seg-data l m x v (m b) bs q data_at pl.1 s.3 in
    let far : (x ≢ b) × (x ≢ b + 8) = (λ e. omega arith, λ e. omega arith) in
    ground (arith, rest, far, s)

pub store-Valid :
    (l : Layout) (h : Heap) (x v : ℕ) (fs ts : Blocks)
    → IsData l x
    → Valid l h fs ts
    → Valid l (record h { mem = store h.mem x v }) fs ts
store-Valid l h x v fs ts data_at is = record {
  free_chain = Seg-data l h.mem x v h.head_free fs 0 data_at is.placed_free is.free_chain;
  taken_chain = Seg-data l h.mem x v h.head_taken ts 0 data_at is.placed_taken is.taken_chain;
  ordered = is.ordered;
  sized_free = is.sized_free;
  sized_taken = is.sized_taken;
  placed_free = is.placed_free;
  placed_taken = is.placed_taken;
  tiled = is.tiled;
  conserved = is.conserved;
  counted = is.counted;
  ready = is.ready;
}

-- A listed block covers its first byte.
cover-has : (a : ℕ) (bs : Blocks) → Positive bs → has_block a bs ≡ true → 1 ≤ cover a bs
cover-has a [] p e = absurd (ground (arith, e))
cover-has a ((b, t) ∷ bs) (s, p) e = elim (Bool-cases (b == a)) [
  | inl here ↦ ground (arith, here, s)
  | inr far ↦
      let there : has_block a bs ≡ true = ground (arith, e, far) in
      let rest = cover-has a bs p there in omega arith
]

-- The front of the list of taken blocks is listed once.
fresh_block :
    (l : Layout) (h : Heap) (a : ℕ) (fs ts : Blocks)
    → Valid l h fs ((a, 1) ∷ ts)
    → has_block a ts ≡ false
fresh_block l h a fs ts is = elim (Bool-cases (has_block a ts)) [
  | inr out ↦ out
  | inl twice ↦
      let more = cover-has a ts is.sized_taken.1 twice in absurd (ground (arith, is.tiled a, more))
]

-- The words of other data.
abbrev pub KeepsBut : Layout → ℕ → Memory → Memory → Type 0
KeepsBut l e m m' = (x : ℕ) → IsData l x → x ≢ e → x ≢ e + 8 → m' x ≡ m x

-- What a new element is: a block of its own with the two fields, and nothing else changed.
pub record New (l : Layout) (p q : ℕ) (h : Heap) (ts : Blocks) (r : Option (ℕ × Heap))
    : Type 0 where
  pub elem : ℕ
  pub after : Heap
  pub free_blocks : Blocks
  pub ran : r ≡ some (elem, after)
  pub valid : Valid l after free_blocks ((elem - 16, 1) ∷ ts)
  pub is_elem : IsElem l elem
  pub fresh : has_block (elem - 16) ts ≡ false
  pub holds_datum : after.mem elem ≡ p
  pub holds_next : after.mem (elem + 8) ≡ q
  pub keeps : KeepsBut l elem h.mem after.mem

-- The heap is full, or there is a new element.
pub new_elem-New :
    (l : Layout) (p q : ℕ) (h : Heap) (fs ts : Blocks)
    → IsLayout l
    → Valid l h fs ts
    → ((fs ≡ []) × (new_elem l p q h ≡ none)) ⊎ New l p q h ts (new_elem l p q h)
unfolding new_elem store
new_elem-New l p q h fs ts is v = elim (kmalloc-cases l h elem_blocks fs ts is v (omega arith)) [
  | inl (full, e) ↦ inl (no_free fs v.sized_free full, rw e refl)
  | inr (a, gs, h', e, w, k, _) ↦
      let lo : l.heap_start ≤ a = w.placed_taken.0.0 in
      let at : (a - l.heap_start) % 64 ≡ 0 = w.placed_taken.0.1 in
      let el : IsElem l (a + 16) = (omega arith, omega arith) in
      let (d₁, d₂) = elem-IsData l (a + 16) el in
      let first = store-Valid l h' (a + 16) p gs ((a, 1) ∷ ts) d₁ w in
      let both =
        store-Valid l (record h' { mem = store h'.mem (a + 16) p }) (a + 16 + 8) q gs ((a, 1) ∷ ts)
          d₂ first in
      let made : Heap = record h' { mem = store (store h'.mem (a + 16) p) (a + 16 + 8) q } in
      let address : a ≡ a + 16 - 16 = omega arith in
      let real : (a + 16 == 0) ≡ false = ground arith in
      inr (record {
        elem = a + 16;
        after = made;
        free_blocks = gs;
        ran = rw (e, real) refl;
        valid = subst (λ b. Valid l made gs ((b, 1) ∷ ts)) address both;
        is_elem = el;
        fresh = subst (λ b. has_block b ts ≡ false) address (fresh_block l h' a gs ts w);
        holds_datum = ground arith;
        holds_next = ground arith;
        keeps = λ x data_at n₁ n₂. ground (arith, k x data_at, n₁, n₂);
      })
]
  where
    no_free : (bs : Blocks) → Positive bs → Fails 1 bs → bs ≡ []
    no_free [] p f = refl
    no_free (b ∷ bs) p f = absurd (omega (arith, p.0, f.0))

-- The list without a block keeps the others.
abbrev KeepsOthers : ℕ → Blocks → Blocks → Type 0
KeepsOthers a ts ts' = (b : ℕ) → b ≢ a → has_block b ts ≡ true → has_block b ts' ≡ true

taken_out :
    (a : ℕ) (ts : Blocks)
    → has_block a ts ≡ true
    → (ts' : Blocks) × (take_out a ts ≡ some ts')
      × (length ts ≡ suc (length ts'))
      × KeepsOthers a ts ts'
taken_out a [] e = absurd (ground (arith, e))
taken_out a ((b, t) ∷ ts) e = elim (Bool-cases (b == a)) [
  | inl hit ↦ (ts, rw hit refl, refl, λ c ne has. ground (arith, hit, ne, has))
  | inr miss ↦
      let there : has_block a ts ≡ true = ground (arith, e, miss) in
      let (ts', out, size, keep) = taken_out a ts there in
      ((b, t) ∷ ts', rw (miss, out) refl, ap suc size, λ c ne has. ground (arith, keep c ne, has))
]

-- The element's block given back.
pub record Gone (l : Layout) (e : ℕ) (h : Heap) (ts : Blocks) (r : Option (ℤ × Heap)) : Type 0 where
  pub after : Heap
  pub free_blocks : Blocks
  pub taken_blocks : Blocks
  pub ran : r ≡ some (pos 0, after)
  pub valid : Valid l after free_blocks taken_blocks
  pub keeps : Keeps l h.mem after.mem
  pub others : KeepsOthers (e - 16) ts taken_blocks

placed_at :
    (l : Layout) (a : ℕ) (ts : Blocks)
    → Placed l ts
    → Positive ts
    → has_block a ts ≡ true
    → a + 64 ≤ l.heap_end
placed_at l a [] pl s e = absurd (ground (arith, e))
placed_at l a ((b, t) ∷ ts) (pl, pls) (s, ss) e = elim (Bool-cases (b == a)) [
  | inl hit ↦ let same : b ≡ a = ground arith in omega arith
  | inr miss ↦ placed_at l a ts pls ss (ground (arith, e, miss))
]

pub kmfree-Gone :
    (l : Layout) (e : ℕ) (h : Heap) (fs ts : Blocks)
    → IsLayout l
    → Valid l h fs ts
    → Own l ts e
    → Gone l e h ts (kmfree e h)
kmfree-Gone l e h fs ts is v ((lo, k), has) =
    let a : ℕ = e - 16 in
    let split : e ≡ a + size_header = omega arith in
    let high = placed_at l a ts v.placed_taken v.sized_taken has in
    let at : header_of e ≡ a = ap header_of split ∙ header-offset a (omega (arith, is.in_words)) in
    let (ts', out, size, others) = taken_out a ts has in
    let found : take_out (header_of e) ts ≡ some ts' = ap (λ (b : ℕ). take_out b ts) at ∙ out in
    let (h', ran, (gs, w), keep, _) =
      subst (λ o. Returned l h o (kmfree e h)) found
        (kmfree-take_out l h e fs ts is v (omega arith)) in
    record {
      after = h';
      free_blocks = gs;
      taken_blocks = ts';
      ran = ran;
      valid = w;
      keeps = keep;
      others = others;
    }

-- Elements of their own blocks are at most as many as the blocks.
pub length-Own :
    (l : Layout) (cs : Cells) (ts : Blocks) → Each (Own l ts) cs → Apart cs → length cs ≤ length ts
length-Own l [] ts own far = omega arith
length-Own l ((e, x) ∷ cs) ts (mine, own) (out, far) =
    let (ts', found, size, keep) = taken_out (e - 16) ts mine.1 in
    let rest =
      length-Own l cs ts'
        (Each-but (Own l ts) (Own l ts') e cs out
          (λ d ne (el, has). (el, keep (d - 16) (λ same. ne (omega (arith, mine.0, el))) has)) own)
        far in
    omega arith
